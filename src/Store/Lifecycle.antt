-- ===== src/Store/Lifecycle.antt =====
-- Events that sish delivers late or twice: `ApplyTunnelConnect` and `ApplyTunnelDisconnect` of
-- app/internal/store/hardening.go.
use tunnel_service.Prelude.{ℕ, ◌≡◌, String, Text, true, List, arith, any, eq_refl}
use tunnel_service.Model.{Time, ActiveTunnel, ok}
use tunnel_service.Store.Db.{Db}
use tunnel_service.Store.Tx.{◌>>=◌}
use tunnel_service.Store.Calls.{Call, run_all, run_all-Ensures}
use tunnel_service.Store.Known.{is_known, Recalls-Frame, call-Recalls}
use tunnel_service.Store.Tunnels.{
  validate_source, record_event, move_cursor, upsert_tunnel, apply_connect, apply_disconnect,
}

-- A committed event is known afterwards.
connect-is_known :
    (t : ActiveTunnel) (label : Text) (source event : String) (db db' : Db)
    → apply_connect t label source event db ≡ ok (tt, db')
    → is_known event db' ≡ true
unfolding is_known apply_connect ◌>>=◌ record_event move_cursor upsert_tunnel any
connect-is_known t label source event db db' h = ground (arith, eq_refl event)

disconnect-is_known :
    (id source event : String) (n : ℕ) (at : Time) (db db' : Db)
    → apply_disconnect id source event n at db ≡ ok (tt, db')
    → is_known event db' ≡ true
unfolding is_known apply_disconnect ◌>>=◌ record_event move_cursor any
disconnect-is_known id source event n at db db' h = ground (arith, eq_refl event)

connect-known :
    (t : ActiveTunnel) (label : Text) (source event : String) (db db' : Db)
    → is_known event db ≡ true
    → apply_connect t label source event db ≡ ok (tt, db')
    → db' ≡ db
unfolding is_known apply_connect ◌>>=◌ record_event validate_source
connect-known t label source event db db' k h = ground arith

disconnect-known :
    (id source event : String) (n : ℕ) (at : Time) (db db' : Db)
    → is_known event db ≡ true
    → apply_disconnect id source event n at db ≡ ok (tt, db')
    → db' ≡ db
unfolding is_known apply_disconnect ◌>>=◌ record_event validate_source
disconnect-known id source event n at db db' k h = ground arith

-- A connect event that is applied, and delivered again after any calls, changes nothing where it
-- is accepted again.
pub connect_twice :
    (t : ActiveTunnel) (label : Text) (source event : String) (db mid : Db)
    → apply_connect t label source event db ≡ ok (tt, mid)
    → (calls : List Call) (u : ActiveTunnel) (label' : Text) (source' : String) (db' : Db)
    → apply_connect u label' source' event (run_all calls mid) ≡ ok (tt, db')
    → db' ≡ run_all calls mid
connect_twice t label source event db mid h calls u label' source' db' k =
    connect-known u label' source' event (run_all calls mid) db'
      (run_all-Ensures Recalls-Frame call-Recalls calls mid event
        (connect-is_known t label source event db mid h))
      k

-- A disconnect event that is applied, and delivered again after any calls, changes nothing where it
-- is accepted again.
pub disconnect_twice :
    (id source event : String) (n : ℕ) (at : Time) (db mid : Db)
    → apply_disconnect id source event n at db ≡ ok (tt, mid)
    → (calls : List Call) (id' source' : String) (m : ℕ) (late : Time) (db' : Db)
    → apply_disconnect id' source' event m late (run_all calls mid) ≡ ok (tt, db')
    → db' ≡ run_all calls mid
disconnect_twice id source event n at db mid h calls id' source' m late db' k =
    disconnect-known id' source' event m late (run_all calls mid) db'
      (run_all-Ensures Recalls-Frame call-Recalls calls mid event
        (disconnect-is_known id source event n at db mid h))
      k
