-- ===== src/Store/Calls.antt =====
-- Every transaction of the store as one call, and runs of calls. SQLite runs the transactions of its
-- one connection one at a time (`SetMaxOpenConns(1)`), so a run is a list of calls.
use tunnel_service.Prelude.{ℕ, String, Text, Bool, List, [], ◌∷◌, ◌≡◌, refl}
use tunnel_service.Model.{Time, UserStatus, ActiveTunnel, TunnelSnapshot, Result, ok, err}
use tunnel_service.Store.Db.{Db}
use tunnel_service.Store.Tx.{Tx, ◌>>=◌, pure, modify, AuditEntry}
use tunnel_service.Store.Rules.{Frame, Ensures}
use tunnel_service.Store.Keys.{
  insert_key_atomic, set_key_enabled, delete_key, set_key_enabled_atomic, delete_key_atomic,
}
use tunnel_service.Store.Reservations.{
  insert_subdomain_atomic, insert_tcp_port_atomic, delete_tcp_port_atomic, delete_subdomain_atomic,
}
use tunnel_service.Store.Users.{Profile, set_user_status_atomic, ensure_system_resources}
use tunnel_service.Store.Auth.{
  login_discord_atomic, delete_session, create_oauth_state, consume_oauth_state, cleanup_auth,
}
use tunnel_service.Store.Tunnels.{apply_connect, apply_disconnect, mark_unavailable}
use tunnel_service.Store.Snapshot.{reconcile_snapshot}
use tunnel_service.Store.Outbox.{complete_outbox, retry_outbox}
use tunnel_service.Store.Telemetry.{add_telemetry_batch, cleanup_telemetry}

pub data Call : Type 0 where
  add_key : ℕ → Text → Text → String → AuditEntry → Call
  enable_key : ℕ → Bool → AuditEntry → Call
  remove_key : ℕ → ℕ → AuditEntry → Call
  withdraw_key : ℕ → Call
  flag_key : ℕ → Bool → Call
  reserve_subdomain : ℕ → Text → AuditEntry → Call
  release_subdomain : ℕ → Text → AuditEntry → Call
  reserve_port : ℕ → ℕ → AuditEntry → Call
  release_port : ℕ → ℕ → AuditEntry → Call
  set_status : ℕ → UserStatus → AuditEntry → Call
  ensure_system : Text → Text → String → Text → Call
  login : Profile → String → String → Time → String → Call
  logout : String → Call
  open_oauth : String → Time → Call
  consume_oauth : String → Time → Call
  expire_auth : Time → Call
  connect : ActiveTunnel → Text → String → String → Call
  disconnect : String → String → String → ℕ → Time → Call
  snapshot : TunnelSnapshot → Time → Call
  lose_sish : Time → Call
  complete : ℕ → Call
  retry : ℕ → ℕ → Text → Time → Call
  telemetry : String → ℕ → List (String × ℕ) → Call
  expire_telemetry : ℕ → Call

abbrev pub forget : {A : Type 0} → Tx A → Tx (Unit {0})
forget m = m >>= λ _. pure tt

unfoldable pub perform : Call → Tx (Unit {0})
perform (add_key uid name key fp a) = forget (insert_key_atomic uid name key fp a)
perform (enable_key id enabled a) = set_key_enabled_atomic id enabled a
perform (remove_key id uid a) = delete_key_atomic id uid a
perform (withdraw_key id) = delete_key id
perform (flag_key id enabled) = set_key_enabled id enabled
perform (reserve_subdomain uid name a) = forget (insert_subdomain_atomic uid name a)
perform (release_subdomain id name a) = delete_subdomain_atomic id name a
perform (reserve_port uid port a) = forget (insert_tcp_port_atomic uid port a)
perform (release_port id port a) = delete_tcp_port_atomic id port a
perform (set_status id status a) = set_user_status_atomic id status a
perform (ensure_system name key fp label) = ensure_system_resources name key fp label
perform (login p h csrf exp ip) = forget (login_discord_atomic p h csrf exp ip)
perform (logout h) = modify (delete_session h)
perform (open_oauth h exp) = create_oauth_state h exp
perform (consume_oauth h now) = forget (consume_oauth_state h now)
perform (expire_auth now) = modify (cleanup_auth now)
perform (connect t label source event) = apply_connect t label source event
perform (disconnect id source event n at) = apply_disconnect id source event n at
perform (snapshot s at) = reconcile_snapshot s at
perform (lose_sish at) = mark_unavailable at
perform (complete id) = complete_outbox id
perform (retry id attempts e now) = modify (retry_outbox id attempts e now)
perform (telemetry e now events) = add_telemetry_batch e now events
perform (expire_telemetry now) = modify (cleanup_telemetry now)

-- The database that a call leaves: what it commits, or the one before it.
unfoldable pub run : Call → Db → Db
run c db = elim (perform c db) [ ok (_, db') ↦ db' | err _ ↦ db ]

unfoldable pub run_all : List Call → Db → Db
run_all [] db = db
run_all (c ∷ cs) db = run_all cs (run c db)

module _ {R : Db → Db → Type 0} (frame : Frame R) where
  pub run-Ensures : (c : Call) → Ensures R (perform c) → (db : Db) → R db (run c db)
  unfolding run
  run-Ensures c each db = go (perform c db) refl
    where
      go :
          (r : Result (Unit {0} × Db))
          → perform c db ≡ r
          → R db (elim r [ ok (_, db') ↦ db' | err _ ↦ db ])
      go (ok (tt, db')) e = each.at db tt db' e
      go (err x) e = frame.same db

  pub run_all-Ensures :
      ((c : Call) → Ensures R (perform c)) → (cs : List Call) (db : Db) → R db (run_all cs db)
  unfolding run_all
  run_all-Ensures each [] db = frame.same db
  run_all-Ensures each (c ∷ cs) db =
      frame.steps db (run c db) (run_all cs (run c db)) (run-Ensures c (each c) db)
        (run_all-Ensures each cs (run c db))
