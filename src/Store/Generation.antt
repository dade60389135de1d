-- ===== src/Store/Generation.antt =====
-- The mutation generation: no call lowers it.
use native.Mathlib.Nat.{le_refl}
use tunnel_service.Prelude.{ℕ, ◌≤◌, Text, String, arith, Bool, List, [], ◌∷◌}
use tunnel_service.Model.{UserStatus, ActiveTunnel, TunnelSnapshot, Time, OutboxEvent, Session}
use tunnel_service.Store.Db.{Db}
use tunnel_service.Store.Tx.{◌>>=◌, AuditEntry, insert_audit, insert_outbox, next_generation}
use tunnel_service.Store.Rules.{Frame, Ensures, Ensures-bind, frame_rules, >>=-eq-ok}
use tunnel_service.Store.Keys.{
  insert_key, insert_key_atomic, with_key, with_flag, without_key, set_key_enabled,
  set_key_enabled_atomic, delete_key, delete_key_atomic, disconnect_where,
}
use tunnel_service.Store.Reservations.{
  insert_subdomain, insert_subdomain_atomic, with_subdomain, with_port, without_port,
  without_subdomain, insert_tcp_port, insert_tcp_port_atomic, delete_tcp_port,
  delete_tcp_port_atomic, delete_subdomain, delete_subdomain_atomic,
}
use tunnel_service.Store.Users.{
  Profile, upsert_user, with_user, with_profile, with_status, set_user_status,
  set_user_status_atomic, upsert_system_key, ensure_system_resources,
}
use tunnel_service.Store.Auth.{
  insert_session, login_discord_atomic, delete_session, create_oauth_state, consume_oauth_state,
  cleanup_auth,
}
use tunnel_service.Store.Tunnels.{
  validate_source, record_event, move_cursor, upsert_tunnel, apply_connect, apply_disconnect,
  mark_unavailable,
}
use tunnel_service.Store.Snapshot.{
  adopt_source, restore_one, restore_tunnel, restore_all, begin_snapshot, reconcile_snapshot,
}
use tunnel_service.Store.Outbox.{complete_outbox, retry_outbox}
use tunnel_service.Store.Telemetry.{
  record_batch, add_events, add_telemetry_batch, add_metric, cleanup_telemetry,
}
use tunnel_service.Store.Calls.{Call, perform}

-- The generation does not fall.
abbrev pub Grows : Db → Db → Type 0
Grows a b = a.generation ≤ b.generation

pub Grows-Frame : Frame Grows
Grows-Frame = record { same = λ db. omega arith; steps = λ a b c p q. omega arith }

pub insert_audit-Grows : (a : AuditEntry) → Ensures Grows (insert_audit a)
unfolding insert_audit
insert_audit-Grows a = record { at = λ db x db' h. ground arith }

pub insert_outbox-Grows : (e : OutboxEvent) → Ensures Grows (insert_outbox e)
unfolding insert_outbox
insert_outbox-Grows e = record { at = λ db x db' h. ground arith }

pub next_generation-Grows : Ensures Grows (next_generation)
unfolding next_generation
next_generation-Grows = record { at = λ db x db' h. ground arith }

pub insert_key-Grows :
    (uid : ℕ) (name key : Text) (fp : String) → Ensures Grows (insert_key uid name key fp)
unfolding insert_key with_key
insert_key-Grows uid name key fp = record { at = λ db x db' h. ground arith }

pub set_key_enabled-Grows : (id : ℕ) (b : Bool) → Ensures Grows (set_key_enabled id b)
unfolding set_key_enabled with_flag
set_key_enabled-Grows id b = record { at = λ db x db' h. ground arith }

pub delete_key-Grows : (id : ℕ) → Ensures Grows (delete_key id)
unfolding delete_key without_key
delete_key-Grows id = record { at = λ db x db' h. ground arith }

pub insert_subdomain-Grows : (uid : ℕ) (name : Text) → Ensures Grows (insert_subdomain uid name)
unfolding insert_subdomain with_subdomain
insert_subdomain-Grows uid name = record { at = λ db x db' h. ground arith }

pub insert_tcp_port-Grows : (uid port : ℕ) → Ensures Grows (insert_tcp_port uid port)
unfolding insert_tcp_port with_port
insert_tcp_port-Grows uid port = record { at = λ db x db' h. ground arith }

pub delete_tcp_port-Grows : (id port : ℕ) → Ensures Grows (delete_tcp_port id port)
unfolding delete_tcp_port without_port
delete_tcp_port-Grows id port = record { at = λ db x db' h. ground arith }

pub delete_subdomain-Grows : (id : ℕ) → Ensures Grows (delete_subdomain id)
unfolding delete_subdomain without_subdomain
delete_subdomain-Grows id = record { at = λ db x db' h. ground arith }

pub upsert_user-Grows : (p : Profile) → Ensures Grows (upsert_user p)
unfolding upsert_user with_user with_profile
upsert_user-Grows p = record { at = λ db x db' h. ground arith }

pub set_user_status-Grows : (id : ℕ) (s : UserStatus) → Ensures Grows (set_user_status id s)
unfolding set_user_status with_status
set_user_status-Grows id s = record { at = λ db x db' h. ground arith }

pub upsert_system_key-Grows :
    (name key : Text) (fp : String) → Ensures Grows (upsert_system_key name key fp)
unfolding upsert_system_key
upsert_system_key-Grows name key fp = record { at = λ db x db' h. ground arith }

pub insert_session-Grows : (s : Session) → Ensures Grows (insert_session s)
unfolding insert_session
insert_session-Grows s = record { at = λ db x db' h. ground arith }

pub create_oauth_state-Grows : (h : String) (exp : Time) → Ensures Grows (create_oauth_state h exp)
unfolding create_oauth_state
create_oauth_state-Grows h exp = record { at = λ db x db' h. ground arith }

pub consume_oauth_state-Grows :
    (h : String) (now : Time) → Ensures Grows (consume_oauth_state h now)
unfolding consume_oauth_state
consume_oauth_state-Grows h now = record { at = λ db x db' h. ground arith }

pub validate_source-Grows : (source : String) → Ensures Grows (validate_source source)
unfolding validate_source
validate_source-Grows source = record { at = λ db x db' h. ground arith }

pub record_event-Grows : (e s : String) (n : ℕ) → Ensures Grows (record_event e s n)
unfolding record_event
record_event-Grows e s n = record { at = λ db x db' h. ground arith }

pub move_cursor-Grows :
    (t s : String) (n : ℕ) (gone : Bool) → Ensures Grows (move_cursor t s n gone)
unfolding move_cursor
move_cursor-Grows t s n gone = record { at = λ db x db' h. ground arith }

pub upsert_tunnel-Grows : (t : ActiveTunnel) → Ensures Grows (upsert_tunnel t)
unfolding upsert_tunnel
upsert_tunnel-Grows t = record { at = λ db x db' h. ground arith }

pub restore_one-Grows : (s : TunnelSnapshot) (t : ActiveTunnel) → Ensures Grows (restore_one s t)
unfolding restore_one restore_tunnel
restore_one-Grows s t = record { at = λ db x db' h. ground arith }

pub complete_outbox-Grows : (id : ℕ) → Ensures Grows (complete_outbox id)
unfolding complete_outbox
complete_outbox-Grows id = record { at = λ db x db' h. ground arith }

pub disconnect_where-Grows : (p : ActiveTunnel → Bool) (db : Db) → Grows db (disconnect_where p db)
unfolding disconnect_where
disconnect_where-Grows p db = ground arith

pub delete_session-Grows : (h : String) (db : Db) → Grows db (delete_session h db)
unfolding delete_session
delete_session-Grows h db = ground arith

pub cleanup_auth-Grows : (now : Time) (db : Db) → Grows db (cleanup_auth now db)
unfolding cleanup_auth
cleanup_auth-Grows now db = ground arith

pub retry_outbox-Grows :
    (id n : ℕ) (e : Text) (now : Time) (db : Db) → Grows db (retry_outbox id n e now db)
unfolding retry_outbox
retry_outbox-Grows id n e now db = ground arith

pub cleanup_telemetry-Grows : (now : ℕ) (db : Db) → Grows db (cleanup_telemetry now db)
unfolding cleanup_telemetry
cleanup_telemetry-Grows now db = ground arith

pub add_metric-Grows : (b : ℕ) (e : String) (n : ℕ) (db : Db) → Grows db (add_metric b e n db)
unfolding add_metric
add_metric-Grows b e n db = ground arith

pub ruleset grow_rules = (
  frame_rules, Grows-Frame, le_refl, insert_audit-Grows, insert_outbox-Grows, next_generation-Grows,
  insert_key-Grows, set_key_enabled-Grows, delete_key-Grows, insert_subdomain-Grows,
  insert_tcp_port-Grows, delete_tcp_port-Grows, delete_subdomain-Grows, upsert_user-Grows,
  set_user_status-Grows, upsert_system_key-Grows, insert_session-Grows, create_oauth_state-Grows,
  consume_oauth_state-Grows, validate_source-Grows, record_event-Grows, move_cursor-Grows,
  upsert_tunnel-Grows, restore_one-Grows, complete_outbox-Grows, disconnect_where-Grows,
  delete_session-Grows, cleanup_auth-Grows, retry_outbox-Grows, cleanup_telemetry-Grows,
  add_metric-Grows,
)

pub restore_all-Grows :
    (s : TunnelSnapshot) (ts : List ActiveTunnel) → Ensures Grows (restore_all s ts)
unfolding restore_all
restore_all-Grows s [] = search grow_rules
restore_all-Grows s (t ∷ ts) =
    Ensures-bind Grows-Frame (restore_one s t) (λ _. restore_all s ts) (restore_one-Grows s t)
      (λ _. restore_all-Grows s ts)

pub adopt_source-Grows : (s : TunnelSnapshot) (at : Time) → Ensures Grows (adopt_source s at)
unfolding adopt_source ◌>>=◌
adopt_source-Grows s at = record { at = λ db x db' h. ground arith }

pub add_events-Grows : (b : ℕ) (es : List (String × ℕ)) → Ensures Grows (add_events b es)
unfolding add_events
add_events-Grows b [] = record { at = λ db x db' h. ground arith }
add_events-Grows b ((e, n) ∷ es) = record {
  at = λ db x db' h.
      ground
        (arith, add_metric-Grows b e n db, (add_events-Grows b es).at (add_metric b e n db) x db');
}

pub record_batch-Grows : (e : String) (now : ℕ) → Ensures Grows (record_batch e now)
unfolding record_batch
record_batch-Grows e now = record { at = λ db x db' h. ground arith }

pub call-Grows : (c : Call) → Ensures Grows (perform c)
unfolding perform insert_key_atomic set_key_enabled_atomic delete_key_atomic insert_subdomain_atomic
    delete_subdomain_atomic insert_tcp_port_atomic delete_tcp_port_atomic set_user_status_atomic
    ensure_system_resources login_discord_atomic apply_connect apply_disconnect mark_unavailable
    reconcile_snapshot begin_snapshot add_telemetry_batch
call-Grows (Call.add_key uid name key fp a) = search grow_rules depth 20
call-Grows (Call.telemetry e now es) =
    search (grow_rules, record_batch-Grows, add_events-Grows) depth 20
call-Grows (Call.snapshot s at) =
    search (grow_rules, adopt_source-Grows, restore_all-Grows) depth 20
call-Grows _ = search grow_rules depth 20
