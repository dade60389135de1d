-- ===== src/Store/Kept.antt =====
-- What a run of calls keeps, where every call leaves alone what is watched.
use tunnel_service.Prelude.{ℕ, String, arith, List, [], ◌∷◌, All}
use tunnel_service.Model.{ActiveTunnel, TunnelSnapshot}
use tunnel_service.Store.Db.{Db}
use tunnel_service.Store.Rules.{Ensures, Ensures-bind}
use tunnel_service.Store.Keys.{insert_key_atomic, set_key_enabled_atomic, delete_key_atomic}
use tunnel_service.Store.Reservations.{
  insert_subdomain_atomic, insert_tcp_port_atomic, delete_tcp_port_atomic, delete_subdomain_atomic,
}
use tunnel_service.Store.Users.{set_user_status_atomic, ensure_system_resources}
use tunnel_service.Store.Auth.{login_discord_atomic}
use tunnel_service.Store.Tunnels.{
  raise_sequence, close_tunnel, apply_connect, apply_disconnect, mark_unavailable,
}
use tunnel_service.Store.Snapshot.{restore_one, restore_all, begin_snapshot, reconcile_snapshot}
use tunnel_service.Store.Telemetry.{add_events, add_telemetry_batch, add_metric}
use tunnel_service.Store.Calls.{Call, perform, run, run_all, run-Ensures}
use tunnel_service.Store.Watch.{
  Watch, Keeps, Keeps-same, Unopened, InTime, FromSource, NoCursor, NoAccounts,
}
use tunnel_service.Store.Steps.{Keeps-Frame, restore_one-Keeps, add_metric-Keeps, keep_rules}

-- The calls that leave alone what is watched. An OAuth state: no call opens it again. A batch: every
-- cleanup is within its retention. A cursor: no snapshot and no event of another source. The rows of
-- sessions and users: no login, logout, change of a status or cleanup of sessions.
abbrev pub Spares : Watch → Call → Type 0
Spares w (Call.open_oauth h exp) = Unopened w h
Spares w (Call.telemetry e now es) = InTime w now
Spares w (Call.expire_telemetry now) = InTime w now
Spares w (Call.connect t label s e) = FromSource w s
Spares w (Call.disconnect id s e n at) = FromSource w s
Spares w (Call.snapshot s at) = NoCursor w
Spares w (Call.login p h csrf exp ip) = NoAccounts w
Spares w (Call.logout h) = NoAccounts w
Spares w (Call.set_status id status a) = NoAccounts w
Spares w (Call.expire_auth now) = NoAccounts w
Spares w _ = Unit

pub restore_all-Keeps :
    (w : Watch) (s : TunnelSnapshot) (ts : List ActiveTunnel)
    → NoCursor w
    → Ensures (Keeps w) (restore_all s ts)
unfolding restore_all
restore_all-Keeps w s [] f = search keep_rules
restore_all-Keeps w s (t ∷ ts) f =
    Ensures-bind (Keeps-Frame w) (restore_one s t) (λ _. restore_all s ts)
      (restore_one-Keeps w s t f) (λ _. restore_all-Keeps w s ts f)

pub add_events-Keeps :
    (w : Watch) (b : ℕ) (es : List (String × ℕ)) → Ensures (Keeps w) (add_events b es)
unfolding add_events
add_events-Keeps w b [] = record {
  at = λ db x db' h.
      Keeps-same w db db' (ground arith) (ground arith) (ground arith) (ground arith)
        (ground arith);
}
add_events-Keeps w b ((e, n) ∷ es) = record {
  at = λ db x db' h k.
      (add_events-Keeps w b es).at (add_metric b e n db) x db' (ground arith)
        (add_metric-Keeps w b e n db k);
}

call-Keeps : (w : Watch) (c : Call) → Spares w c → Ensures (Keeps w) (perform c)
unfolding perform insert_key_atomic set_key_enabled_atomic delete_key_atomic insert_subdomain_atomic
    delete_subdomain_atomic insert_tcp_port_atomic delete_tcp_port_atomic set_user_status_atomic
    ensure_system_resources login_discord_atomic apply_connect apply_disconnect mark_unavailable
    reconcile_snapshot begin_snapshot add_telemetry_batch raise_sequence close_tunnel
call-Keeps w (Call.add_key uid name key fp a) s = search keep_rules depth 20
call-Keeps w (Call.telemetry e now es) s = search (keep_rules, add_events-Keeps) depth 20
call-Keeps w (Call.snapshot s at) f = search (keep_rules, restore_all-Keeps) depth 20
call-Keeps w _ s = search keep_rules depth 20

-- Whatever the calls are that leave it alone, what holds of what is watched still holds after them.
pub run_all-Keeps :
    (w : Watch) (cs : List Call) (db : Db) → All (Spares w) cs → Keeps w db (run_all cs db)
unfolding run_all
run_all-Keeps w [] db s k = k
run_all-Keeps w (c ∷ cs) db s k =
    run_all-Keeps w cs (run c db) s.1 (run-Ensures (Keeps-Frame w) c (call-Keeps w c s.0) db k)
