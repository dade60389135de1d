-- ===== src/Store/Tests/Events.antt =====
-- The properties of lifecycle events at concrete calls.
use tunnel_service.Prelude.{
  ℕ, ◌≡◌, ◌≢◌, ◌↔◌, refl, inl, inr, Text, codes, true, false, none, some, List, [], ◌∷◌, arith, pos,
  here, any, ◌%◌, ◌/◌, ◌<◌, ◌≤◌, ◌+◌, lower_text, str_eq, ◌==◌, All, All-intro,
}
use tunnel_service.Model.{TunnelSnapshot, is_live, ActiveTunnel, ok}
use tunnel_service.Store.Db.{Db}
use tunnel_service.Store.Tx.{◌>>=◌}
use tunnel_service.Store.Bind.{authorize_bind, is_granted, user_bound}
use tunnel_service.Store.Tunnels.{apply_connect, apply_disconnect, is_retired}
use tunnel_service.Store.Calls.{Call, perform, run, run_all}
use tunnel_service.Store.Retired.{retired_source-refused}
use tunnel_service.Store.Known.{is_known}
use tunnel_service.Store.Lifecycle.{connect_twice, disconnect_twice}
use tunnel_service.Prelude.{◌&&◌}
use tunnel_service.Store.Bind.{grants, web_grants}
use tunnel_service.Store.Reservations.{same_label}
use tunnel_service.Prelude.{sum_where, count, update_where}
use tunnel_service.Store.Late.{late_connect}
use tunnel_service.Prelude.{◌*◌, ◌^◌, ◌≤◌, min}
use tunnel_service.Store.Tests.{tunnel, sample, disable}

old_retired : is_retired "old" sample ≡ true
unfolding is_retired any
old_retired = refl

retired_source-refused_example :
    (apply_connect tunnel (codes "blog") "old" "e1" (run_all (disable ∷ []) sample)
      ≢ ok (tt, sample))
    × (apply_disconnect "t1" "old" "e1" 7 50 (run_all (disable ∷ []) sample) ≢ ok (tt, sample))
retired_source-refused_example =
    retired_source-refused "old" sample old_retired (disable ∷ []) tunnel (codes "blog") "t1" "e1" 7
      50

abbrev second_tunnel : ActiveTunnel
second_tunnel = record tunnel { id = "t2"; event_sequence = 5 }

abbrev connected : Db
connected = run (Call.connect second_tunnel (codes "blog") "s1" "e1") sample

connect_commits : apply_connect second_tunnel (codes "blog") "s1" "e1" sample ≡ ok (tt, connected)
unfolding apply_connect ◌>>=◌ is_granted tunnel_service.Store.Bind.grants
    tunnel_service.Store.Bind.web_grants tunnel_service.Prelude.sum_where
    tunnel_service.Prelude.count tunnel_service.Store.Reservations.same_label
    tunnel_service.Store.Tunnels.validate_source is_retired any
    tunnel_service.Store.Tunnels.record_event tunnel_service.Store.Tunnels.move_cursor
    tunnel_service.Store.Tunnels.upsert_tunnel run perform
connect_commits = refl

connect_again :
    apply_connect second_tunnel (codes "blog") "s1" "e1" (run_all [] connected) ≡ ok (tt, connected)
unfolding apply_connect ◌>>=◌ run_all run perform is_granted tunnel_service.Store.Bind.grants
    tunnel_service.Store.Bind.web_grants tunnel_service.Prelude.sum_where
    tunnel_service.Prelude.count tunnel_service.Store.Reservations.same_label
    tunnel_service.Store.Tunnels.validate_source is_retired any
    tunnel_service.Store.Tunnels.record_event tunnel_service.Store.Tunnels.move_cursor
    tunnel_service.Store.Tunnels.upsert_tunnel
connect_again = refl

connect_twice_example : connected ≡ run_all [] connected
connect_twice_example =
    connect_twice second_tunnel (codes "blog") "s1" "e1" sample connected connect_commits []
      second_tunnel (codes "blog") "s1" connected connect_again

abbrev closed : Db
closed = run (Call.disconnect "t1" "s1" "e2" 7 50) sample

close_commits : apply_disconnect "t1" "s1" "e2" 7 50 sample ≡ ok (tt, closed)
unfolding apply_disconnect ◌>>=◌ tunnel_service.Store.Tunnels.validate_source is_retired any
    tunnel_service.Store.Tunnels.record_event tunnel_service.Store.Tunnels.move_cursor run perform
close_commits = refl

close_again : apply_disconnect "t1" "s1" "e2" 7 60 (run_all [] closed) ≡ ok (tt, closed)
unfolding apply_disconnect ◌>>=◌ tunnel_service.Store.Tunnels.validate_source is_retired any run_all
    run perform tunnel_service.Store.Tunnels.record_event tunnel_service.Store.Tunnels.move_cursor
close_again = refl

disconnect_twice_example : closed ≡ run_all [] closed
disconnect_twice_example =
    disconnect_twice "t1" "s1" "e2" 7 50 sample closed close_commits [] "t1" "s1" 7 60 closed
      close_again

-- A redelivered disconnect event and a logout come between.
abbrev between : List Call
between = Call.disconnect "t1" "s1" "e2" 7 55 ∷ Call.logout "x" ∷ []

abbrev late : Db
late = run (Call.connect tunnel (codes "blog") "s1" "e3") (run_all between closed)

e2_new : is_known "e2" sample ≡ false
unfolding is_known any
e2_new = refl

late_accepted :
    apply_connect tunnel (codes "blog") "s1" "e3" (run_all between closed) ≡ ok (tt, late)
unfolding apply_connect ◌>>=◌ run run_all perform apply_disconnect
    tunnel_service.Store.Auth.delete_session tunnel_service.Prelude.delete_where
    tunnel_service.Store.Tunnels.validate_source is_retired any
    tunnel_service.Store.Tunnels.record_event tunnel_service.Store.Tunnels.move_cursor is_granted
    tunnel_service.Store.Bind.grants tunnel_service.Store.Bind.web_grants
    tunnel_service.Prelude.sum_where tunnel_service.Prelude.count
    tunnel_service.Store.Reservations.same_label
late_accepted = refl

late_connect_example : late.tunnels ≡ (run_all between closed).tunnels
late_connect_example =
    late_connect "t1" "s1" "e2" 7 50 sample closed e2_new close_commits between (refl, (tt, tt))
      tunnel (codes "blog") "e3" late refl (omega arith) late_accepted

-- The first snapshot of a source takes the cursors away, so that a connect event which a disconnect
-- event had overtaken before it makes a tunnel that is live.
abbrev quiet : TunnelSnapshot
quiet = record { source_id = "s1"; sequence = 7; tunnels = [] }

abbrev revived : Db
revived =
    run_all
      (Call.disconnect "t1" "s1" "e2" 7 50
        ∷ Call.snapshot quiet 55
        ∷ Call.connect tunnel (codes "blog") "s1" "e3"
        ∷ [])
      (record sample { tunnels = [] })

overtaken_after_snapshot : any (λ t. is_live t.status) revived.tunnels ≡ true
unfolding run_all run perform apply_connect apply_disconnect ◌>>=◌ any is_retired is_granted
    tunnel_service.Store.Tunnels.validate_source tunnel_service.Store.Tunnels.record_event
    tunnel_service.Store.Tunnels.move_cursor tunnel_service.Store.Tunnels.upsert_tunnel
    tunnel_service.Store.Tunnels.raise_sequence tunnel_service.Store.Tunnels.close_tunnel
    tunnel_service.Store.Snapshot.reconcile_snapshot tunnel_service.Store.Snapshot.begin_snapshot
    tunnel_service.Store.Snapshot.adopt_source tunnel_service.Store.Snapshot.drop_tunnels
    tunnel_service.Store.Snapshot.close_cursors tunnel_service.Store.Snapshot.restore_all
    tunnel_service.Store.Snapshot.set_synced update_where tunnel_service.Store.Bind.grants
    tunnel_service.Store.Bind.web_grants tunnel_service.Prelude.sum_where
    tunnel_service.Prelude.count tunnel_service.Store.Reservations.same_label
overtaken_after_snapshot = refl
