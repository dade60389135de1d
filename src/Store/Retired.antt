-- ===== src/Store/Retired.antt =====
-- The retired sources of lifecycle events: no call takes a source off their list.
use tunnel_service.Prelude.{ℕ, ◌≡◌, ◌≢◌, true, Text, String, arith, Bool, List, [], ◌∷◌, any}
use tunnel_service.Model.{UserStatus, ActiveTunnel, TunnelSnapshot, Time, OutboxEvent, Session, ok}
use tunnel_service.Store.Db.{Db}
use tunnel_service.Store.Tx.{◌>>=◌, AuditEntry, insert_audit, insert_outbox, next_generation}
use tunnel_service.Store.Rules.{Frame, Ensures, Ensures-bind, frame_rules, >>=-eq-ok}
use tunnel_service.Store.Keys.{
  insert_key, insert_key_atomic, with_key, with_flag, without_key, set_key_enabled,
  set_key_enabled_atomic, delete_key, delete_key_atomic, disconnect_where,
}
use tunnel_service.Store.Reservations.{
  insert_subdomain, insert_subdomain_atomic, with_subdomain, with_port, without_port,
  without_subdomain, insert_tcp_port, insert_tcp_port_atomic, delete_tcp_port,
  delete_tcp_port_atomic, delete_subdomain, delete_subdomain_atomic,
}
use tunnel_service.Store.Users.{
  Profile, upsert_user, with_user, with_profile, with_status, set_user_status,
  set_user_status_atomic, upsert_system_key, ensure_system_resources,
}
use tunnel_service.Store.Auth.{
  insert_session, login_discord_atomic, delete_session, create_oauth_state, consume_oauth_state,
  cleanup_auth,
}
use tunnel_service.Store.Tunnels.{
  is_retired, validate_source, record_event, move_cursor, upsert_tunnel, apply_connect,
  apply_disconnect, mark_unavailable,
}
use tunnel_service.Store.Snapshot.{
  adopt_source, restore_one, restore_tunnel, restore_all, begin_snapshot, reconcile_snapshot,
}
use tunnel_service.Store.Outbox.{complete_outbox, retry_outbox}
use tunnel_service.Store.Telemetry.{
  record_batch, add_events, add_telemetry_batch, add_metric, cleanup_telemetry,
}
use tunnel_service.Store.Calls.{Call, perform, run_all, run_all-Ensures}

-- A retired source stays retired.
abbrev pub Retires : Db → Db → Type 0
Retires a b = (s : String) → is_retired s a ≡ true → is_retired s b ≡ true

pub Retires-Frame : Frame Retires
Retires-Frame = record { same = λ db s k. k; steps = λ a b c p q s k. q s (p s k) }

pub insert_audit-Retires : (a : AuditEntry) → Ensures Retires (insert_audit a)
unfolding is_retired insert_audit
insert_audit-Retires a = record { at = λ db x db' h s k. ground arith }

pub insert_outbox-Retires : (e : OutboxEvent) → Ensures Retires (insert_outbox e)
unfolding is_retired insert_outbox
insert_outbox-Retires e = record { at = λ db x db' h s k. ground arith }

pub next_generation-Retires : Ensures Retires (next_generation)
unfolding is_retired next_generation
next_generation-Retires = record { at = λ db x db' h s k. ground arith }

pub insert_key-Retires :
    (uid : ℕ) (name key : Text) (fp : String) → Ensures Retires (insert_key uid name key fp)
unfolding is_retired insert_key with_key
insert_key-Retires uid name key fp = record { at = λ db x db' h s k. ground arith }

pub set_key_enabled-Retires : (id : ℕ) (b : Bool) → Ensures Retires (set_key_enabled id b)
unfolding is_retired set_key_enabled with_flag
set_key_enabled-Retires id b = record { at = λ db x db' h s k. ground arith }

pub delete_key-Retires : (id : ℕ) → Ensures Retires (delete_key id)
unfolding is_retired delete_key without_key
delete_key-Retires id = record { at = λ db x db' h s k. ground arith }

pub insert_subdomain-Retires : (uid : ℕ) (name : Text) → Ensures Retires (insert_subdomain uid name)
unfolding is_retired insert_subdomain with_subdomain
insert_subdomain-Retires uid name = record { at = λ db x db' h s k. ground arith }

pub insert_tcp_port-Retires : (uid port : ℕ) → Ensures Retires (insert_tcp_port uid port)
unfolding is_retired insert_tcp_port with_port
insert_tcp_port-Retires uid port = record { at = λ db x db' h s k. ground arith }

pub delete_tcp_port-Retires : (id port : ℕ) → Ensures Retires (delete_tcp_port id port)
unfolding is_retired delete_tcp_port without_port
delete_tcp_port-Retires id port = record { at = λ db x db' h s k. ground arith }

pub delete_subdomain-Retires : (id : ℕ) → Ensures Retires (delete_subdomain id)
unfolding is_retired delete_subdomain without_subdomain
delete_subdomain-Retires id = record { at = λ db x db' h s k. ground arith }

pub upsert_user-Retires : (p : Profile) → Ensures Retires (upsert_user p)
unfolding is_retired upsert_user with_user with_profile
upsert_user-Retires p = record { at = λ db x db' h s k. ground arith }

pub set_user_status-Retires : (id : ℕ) (s : UserStatus) → Ensures Retires (set_user_status id s)
unfolding is_retired set_user_status with_status
set_user_status-Retires id s = record { at = λ db x db' h s k. ground arith }

pub upsert_system_key-Retires :
    (name key : Text) (fp : String) → Ensures Retires (upsert_system_key name key fp)
unfolding is_retired upsert_system_key
upsert_system_key-Retires name key fp = record { at = λ db x db' h s k. ground arith }

pub insert_session-Retires : (s : Session) → Ensures Retires (insert_session s)
unfolding is_retired insert_session
insert_session-Retires s = record { at = λ db x db' h s k. ground arith }

pub create_oauth_state-Retires :
    (h : String) (exp : Time) → Ensures Retires (create_oauth_state h exp)
unfolding is_retired create_oauth_state
create_oauth_state-Retires h exp = record { at = λ db x db' h s k. ground arith }

pub consume_oauth_state-Retires :
    (h : String) (now : Time) → Ensures Retires (consume_oauth_state h now)
unfolding is_retired consume_oauth_state
consume_oauth_state-Retires h now = record { at = λ db x db' h s k. ground arith }

pub validate_source-Retires : (source : String) → Ensures Retires (validate_source source)
unfolding is_retired validate_source
validate_source-Retires source = record { at = λ db x db' h s k. ground arith }

pub record_event-Retires : (e s : String) (n : ℕ) → Ensures Retires (record_event e s n)
unfolding is_retired record_event
record_event-Retires e s n = record { at = λ db x db' h s k. ground arith }

pub move_cursor-Retires :
    (t s : String) (n : ℕ) (gone : Bool) → Ensures Retires (move_cursor t s n gone)
unfolding is_retired move_cursor
move_cursor-Retires t s n gone = record { at = λ db x db' h s k. ground arith }

pub upsert_tunnel-Retires : (t : ActiveTunnel) → Ensures Retires (upsert_tunnel t)
unfolding is_retired upsert_tunnel
upsert_tunnel-Retires t = record { at = λ db x db' h s k. ground arith }

pub restore_one-Retires :
    (s : TunnelSnapshot) (t : ActiveTunnel) → Ensures Retires (restore_one s t)
unfolding is_retired restore_one restore_tunnel
restore_one-Retires s t = record { at = λ db x db' h s k. ground arith }

pub complete_outbox-Retires : (id : ℕ) → Ensures Retires (complete_outbox id)
unfolding is_retired complete_outbox
complete_outbox-Retires id = record { at = λ db x db' h s k. ground arith }

pub disconnect_where-Retires :
    (p : ActiveTunnel → Bool) (db : Db) → Retires db (disconnect_where p db)
unfolding is_retired disconnect_where
disconnect_where-Retires p db = λ s k. k

pub delete_session-Retires : (h : String) (db : Db) → Retires db (delete_session h db)
unfolding is_retired delete_session
delete_session-Retires h db = λ s k. k

pub cleanup_auth-Retires : (now : Time) (db : Db) → Retires db (cleanup_auth now db)
unfolding is_retired cleanup_auth
cleanup_auth-Retires now db = λ s k. k

pub retry_outbox-Retires :
    (id n : ℕ) (e : Text) (now : Time) (db : Db) → Retires db (retry_outbox id n e now db)
unfolding is_retired retry_outbox
retry_outbox-Retires id n e now db = λ s k. k

pub cleanup_telemetry-Retires : (now : ℕ) (db : Db) → Retires db (cleanup_telemetry now db)
unfolding is_retired cleanup_telemetry
cleanup_telemetry-Retires now db = λ s k. k

pub add_metric-Retires : (b : ℕ) (e : String) (n : ℕ) (db : Db) → Retires db (add_metric b e n db)
unfolding is_retired add_metric
add_metric-Retires b e n db s k = ground arith

pub ruleset retire_rules = (
  frame_rules, Retires-Frame, insert_audit-Retires, insert_outbox-Retires, next_generation-Retires,
  insert_key-Retires, set_key_enabled-Retires, delete_key-Retires, insert_subdomain-Retires,
  insert_tcp_port-Retires, delete_tcp_port-Retires, delete_subdomain-Retires, upsert_user-Retires,
  set_user_status-Retires, upsert_system_key-Retires, insert_session-Retires,
  create_oauth_state-Retires, consume_oauth_state-Retires, validate_source-Retires,
  record_event-Retires, move_cursor-Retires, upsert_tunnel-Retires, restore_one-Retires,
  complete_outbox-Retires, disconnect_where-Retires, delete_session-Retires, cleanup_auth-Retires,
  retry_outbox-Retires, cleanup_telemetry-Retires, add_metric-Retires,
)

pub restore_all-Retires :
    (s : TunnelSnapshot) (ts : List ActiveTunnel) → Ensures Retires (restore_all s ts)
unfolding restore_all
restore_all-Retires s [] = search retire_rules
restore_all-Retires s (t ∷ ts) =
    Ensures-bind Retires-Frame (restore_one s t) (λ _. restore_all s ts) (restore_one-Retires s t)
      (λ _. restore_all-Retires s ts)

pub adopt_source-Retires : (s : TunnelSnapshot) (at : Time) → Ensures Retires (adopt_source s at)
unfolding is_retired adopt_source ◌>>=◌ any
adopt_source-Retires s at = record { at = λ db x db' h s k. ground arith }

pub add_events-Retires : (b : ℕ) (es : List (String × ℕ)) → Ensures Retires (add_events b es)
unfolding is_retired add_events
add_events-Retires b [] = record { at = λ db x db' h s k. ground arith }
add_events-Retires b ((e, n) ∷ es) = record {
  at = λ db x db' h. ground (
    arith,
    add_metric-Retires b e n db,
    (add_events-Retires b es).at (add_metric b e n db) x db',
  );
}

pub record_batch-Retires : (e : String) (now : ℕ) → Ensures Retires (record_batch e now)
unfolding is_retired record_batch
record_batch-Retires e now = record { at = λ db x db' h s k. ground arith }

pub call-Retires : (c : Call) → Ensures Retires (perform c)
unfolding perform insert_key_atomic set_key_enabled_atomic delete_key_atomic insert_subdomain_atomic
    delete_subdomain_atomic insert_tcp_port_atomic delete_tcp_port_atomic set_user_status_atomic
    ensure_system_resources login_discord_atomic apply_connect apply_disconnect mark_unavailable
    reconcile_snapshot begin_snapshot add_telemetry_batch ◌>>=◌ is_retired
call-Retires (Call.add_key uid name key fp a) = search retire_rules depth 20
call-Retires (Call.telemetry e now es) =
    search (retire_rules, record_batch-Retires, add_events-Retires) depth 20
call-Retires (Call.snapshot s at) =
    search (retire_rules, adopt_source-Retires, restore_all-Retires) depth 20
call-Retires _ = search retire_rules depth 20

retired_validate :
    (source : String) (db db' : Db) (u : Unit {0})
    → is_retired source db ≡ true
    → validate_source source db ≢ ok (u, db')
unfolding validate_source
retired_validate source db db' u h k = ground arith

disconnect_part :
    (id source event : String) (n : ℕ) (at : Time) (db : Db) {x : Unit {0} × Db}
    → apply_disconnect id source event n at db ≡ ok x
    → (y : Unit {0} × Db) × (validate_source source db ≡ ok y)
unfolding apply_disconnect
disconnect_part id source event n at db h =
    let (u, mid, p, q) = >>=-eq-ok (validate_source source) _ db h in ((u, mid), p)

retired_connect :
    (t : ActiveTunnel) (label : Text) (source event : String) (db : Db) {x : Unit {0} × Db}
    → is_retired source db ≡ true
    → apply_connect t label source event db ≢ ok x
unfolding apply_connect ◌>>=◌ validate_source
retired_connect t label source event db h k = ground arith

-- A source that is retired in a database is refused for good: whatever calls run after it, neither
-- a connect nor a disconnect event of that source is applied.
pub retired_source-refused :
    (source : String) (db : Db)
    → is_retired source db ≡ true
    → (calls : List Call) (t : ActiveTunnel) (label : Text) (id event : String) (n : ℕ) (at : Time)
      {x : Unit {0} × Db}
    → (apply_connect t label source event (run_all calls db) ≢ ok x)
      × (apply_disconnect id source event n at (run_all calls db) ≢ ok x)
retired_source-refused source db h calls t label id event n at =
    let still = run_all-Ensures Retires-Frame call-Retires calls db source h in
    (
      retired_connect t label source event (run_all calls db) still,
      λ k.
          let ((u, mid), p) = disconnect_part id source event n at (run_all calls db) k in
          retired_validate source (run_all calls db) mid u still p,
    )
