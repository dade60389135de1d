-- ===== src/Store/Invariant.antt =====
-- Every call keeps the constraints of the tables.
use tunnel_service.Prelude.{
  ℕ, ◌≡◌, refl, subst, String, Text, Bool, true, false, List, [], ◌∷◌, arith,
}
use tunnel_service.Prelude.{◌==◌, str_eq, any, Bool-cases, inl, inr}
use tunnel_service.Store.Keys.{insert_key, set_key_enabled, delete_key}
use tunnel_service.Store.Reservations.{
  in_port_range, with_port, insert_subdomain, delete_subdomain, insert_tcp_port, delete_tcp_port,
}
use tunnel_service.Store.Users.{Profile, with_user, with_profile, upsert_user, set_user_status}
use tunnel_service.Prelude.{if◌then◌else◌}
use tunnel_service.Model.{UserStatus, Time, ActiveTunnel, TunnelSnapshot, ok}
use tunnel_service.Store.Db.{Db}
use tunnel_service.Store.Resources.{
  insert_audit-SameResources, insert_outbox-SameResources, next_generation-SameResources,
  insert_session-SameResources, create_oauth_state-SameResources, consume_oauth_state-SameResources,
  upsert_system_key-SameResources, validate_source-SameResources, record_event-SameResources,
  move_cursor-SameResources, upsert_tunnel-SameResources, adopt_source-SameResources,
  restore_one-SameResources, complete_outbox-SameResources, record_batch-SameResources,
  disconnect_where-SameResources, delete_session-SameResources, cleanup_auth-SameResources,
  retry_outbox-SameResources, cleanup_telemetry-SameResources, add_events-SameResources,
}
use tunnel_service.Store.Rules.{Ensures, Ensures-bind, frame_rules}
use tunnel_service.Store.Tx.{AuditEntry}
use tunnel_service.Model.{err, unique_violation, Result, Error, Session, OutboxEvent}
use tunnel_service.Store.Valid.{IsValid, Keeps, Keeps-Frame, same→Keeps, same-Ensures}
use tunnel_service.Store.Rows.{
  with_key-Keeps, with_flag-Keeps, without_key-Keeps, with_subdomain-Keeps, without_subdomain-Keeps,
  with_port-Keeps, without_port-Keeps, with_user-Keeps, with_profile-Keeps, with_status-Keeps,
}
use tunnel_service.Store.Snapshot.{
  adopt_source, restore_all, restore_one, reconcile_snapshot, begin_snapshot,
}
use tunnel_service.Store.Telemetry.{
  add_events, record_batch, cleanup_telemetry, add_telemetry_batch,
}
use tunnel_service.Store.Tx.{insert_audit, insert_outbox, next_generation}
use tunnel_service.Store.Outbox.{complete_outbox, retry_outbox}
use tunnel_service.Store.Calls.{Call, perform, run_all, run_all-Ensures}
use tunnel_service.Store.Db.{fresh}
use tunnel_service.Store.Keys.{
  disconnect_where, insert_key_atomic, set_key_enabled_atomic, delete_key_atomic,
}
use tunnel_service.Store.Reservations.{
  insert_subdomain_atomic, delete_subdomain_atomic, insert_tcp_port_atomic, delete_tcp_port_atomic,
}
use tunnel_service.Store.Users.{upsert_system_key, set_user_status_atomic, ensure_system_resources}
use tunnel_service.Store.Auth.{
  login_discord_atomic, insert_session, create_oauth_state, consume_oauth_state, delete_session,
  cleanup_auth,
}
use tunnel_service.Store.Tunnels.{
  validate_source, record_event, move_cursor, upsert_tunnel, apply_connect, apply_disconnect,
  mark_unavailable,
}

-- The two shapes of a guarded write, when it commits.
module _ {A : Type 0} (b : Bool) (e : Error) (x : A) (next : Db) {y : A} {db' : Db} where
  refused_if :
      if◌then◌else◌ {A = Result (A × Db)} b (err e) (ok (x, next)) ≡ ok (y, db')
      → (b ≡ false) × (next ≡ db')
  refused_if h = ground arith

  granted_if :
      if◌then◌else◌ {A = Result (A × Db)} b (ok (x, next)) (err e) ≡ ok (y, db')
      → (b ≡ true) × (next ≡ db')
  granted_if h = ground arith

insert_key-Keeps :
    (uid : ℕ) (name key : Text) (fp : String) → Ensures Keeps (insert_key uid name key fp)
unfolding insert_key
insert_key-Keeps uid name key fp = record {
  at = λ db x db' h.
      let (new, e) = refused_if _ _ _ _ h in
      subst (Keeps db) e (with_key-Keeps uid name key fp db new);
}

set_key_enabled-Keeps : (id : ℕ) (b : Bool) → Ensures Keeps (set_key_enabled id b)
unfolding set_key_enabled
set_key_enabled-Keeps id b = record {
  at = λ db x db' h. subst (Keeps db) (granted_if _ _ _ _ h).1 (with_flag-Keeps id b db);
}

delete_key-Keeps : (id : ℕ) → Ensures Keeps (delete_key id)
unfolding delete_key
delete_key-Keeps id = record {
  at = λ db x db' h. subst (Keeps db) (granted_if _ _ _ _ h).1 (without_key-Keeps id db);
}

insert_subdomain-Keeps : (uid : ℕ) (name : Text) → Ensures Keeps (insert_subdomain uid name)
unfolding insert_subdomain
insert_subdomain-Keeps uid name = record {
  at = λ db x db' h.
      let (new, e) = refused_if _ _ _ _ h in
      subst (Keeps db) e (with_subdomain-Keeps uid name db new);
}

delete_subdomain-Keeps : (id : ℕ) → Ensures Keeps (delete_subdomain id)
unfolding delete_subdomain
delete_subdomain-Keeps id = record {
  at = λ db x db' h. subst (Keeps db) (granted_if _ _ _ _ h).1 (without_subdomain-Keeps id db);
}

insert_tcp_port-Keeps : (uid port : ℕ) → Ensures Keeps (insert_tcp_port uid port)
unfolding insert_tcp_port
insert_tcp_port-Keeps uid port = record {
  at = λ db x db' h. elim (Bool-cases (in_port_range port)) [
    | inl range ↦
        let (new, e) =
          refused_if (any (λ p. p.port == port) db.tcp_ports) unique_violation db.next_port_id
            (with_port uid port db) {y = x} (ground arith) in
        subst (Keeps db) e (with_port-Keeps uid port db range new)
    | inr off ↦ ground arith
  ];
}

delete_tcp_port-Keeps : (id port : ℕ) → Ensures Keeps (delete_tcp_port id port)
unfolding delete_tcp_port
delete_tcp_port-Keeps id port = record {
  at = λ db x db' h. subst (Keeps db) (granted_if _ _ _ _ h).1 (without_port-Keeps id port db);
}

upsert_user-Keeps : (p : Profile) → Ensures Keeps (upsert_user p)
unfolding upsert_user
upsert_user-Keeps p = record {
  at = λ db x db' h. elim (Bool-cases (any (λ u. str_eq u.discord_id p.discord_id) db.users)) [
    | inl old ↦
        let e : with_profile p db ≡ db' = ground arith in
        subst (Keeps db) e (with_profile-Keeps p db)
    | inr new ↦
        let e : with_user p db ≡ db' = ground arith in subst (Keeps db) e (with_user-Keeps p db new)
  ];
}

set_user_status-Keeps : (id : ℕ) (s : UserStatus) → Ensures Keeps (set_user_status id s)
unfolding set_user_status
set_user_status-Keeps id s = record {
  at = λ db x db' h. subst (Keeps db) (granted_if _ _ _ _ h).1 (with_status-Keeps id s db);
}

insert_audit-Keeps : (a : AuditEntry) → Ensures Keeps (insert_audit a)
insert_audit-Keeps a = same-Ensures (insert_audit-SameResources a)

insert_outbox-Keeps : (e : OutboxEvent) → Ensures Keeps (insert_outbox e)
insert_outbox-Keeps e = same-Ensures (insert_outbox-SameResources e)

next_generation-Keeps : Ensures Keeps (next_generation)
next_generation-Keeps = same-Ensures (next_generation-SameResources)

insert_session-Keeps : (s : Session) → Ensures Keeps (insert_session s)
insert_session-Keeps s = same-Ensures (insert_session-SameResources s)

create_oauth_state-Keeps : (h : String) (exp : Time) → Ensures Keeps (create_oauth_state h exp)
create_oauth_state-Keeps h exp = same-Ensures (create_oauth_state-SameResources h exp)

consume_oauth_state-Keeps : (h : String) (now : Time) → Ensures Keeps (consume_oauth_state h now)
consume_oauth_state-Keeps h now = same-Ensures (consume_oauth_state-SameResources h now)

upsert_system_key-Keeps :
    (name key : Text) (fp : String) → Ensures Keeps (upsert_system_key name key fp)
upsert_system_key-Keeps name key fp = same-Ensures (upsert_system_key-SameResources name key fp)

validate_source-Keeps : (source : String) → Ensures Keeps (validate_source source)
validate_source-Keeps source = same-Ensures (validate_source-SameResources source)

record_event-Keeps : (e s : String) (n : ℕ) → Ensures Keeps (record_event e s n)
record_event-Keeps e s n = same-Ensures (record_event-SameResources e s n)

move_cursor-Keeps : (t s : String) (n : ℕ) (gone : Bool) → Ensures Keeps (move_cursor t s n gone)
move_cursor-Keeps t s n gone = same-Ensures (move_cursor-SameResources t s n gone)

upsert_tunnel-Keeps : (t : ActiveTunnel) → Ensures Keeps (upsert_tunnel t)
upsert_tunnel-Keeps t = same-Ensures (upsert_tunnel-SameResources t)

adopt_source-Keeps : (s : TunnelSnapshot) (at : Time) → Ensures Keeps (adopt_source s at)
adopt_source-Keeps s at = same-Ensures (adopt_source-SameResources s at)

restore_one-Keeps : (s : TunnelSnapshot) (t : ActiveTunnel) → Ensures Keeps (restore_one s t)
restore_one-Keeps s t = same-Ensures (restore_one-SameResources s t)

complete_outbox-Keeps : (id : ℕ) → Ensures Keeps (complete_outbox id)
complete_outbox-Keeps id = same-Ensures (complete_outbox-SameResources id)

record_batch-Keeps : (e : String) (now : ℕ) → Ensures Keeps (record_batch e now)
record_batch-Keeps e now = same-Ensures (record_batch-SameResources e now)

disconnect_where-Keeps : (p : ActiveTunnel → Bool) (db : Db) → Keeps db (disconnect_where p db)
disconnect_where-Keeps p db = same→Keeps _ _ (disconnect_where-SameResources p db)

delete_session-Keeps : (h : String) (db : Db) → Keeps db (delete_session h db)
delete_session-Keeps h db = same→Keeps _ _ (delete_session-SameResources h db)

cleanup_auth-Keeps : (now : Time) (db : Db) → Keeps db (cleanup_auth now db)
cleanup_auth-Keeps now db = same→Keeps _ _ (cleanup_auth-SameResources now db)

retry_outbox-Keeps :
    (id n : ℕ) (e : Text) (now : Time) (db : Db) → Keeps db (retry_outbox id n e now db)
retry_outbox-Keeps id n e now db = same→Keeps _ _ (retry_outbox-SameResources id n e now db)

cleanup_telemetry-Keeps : (now : ℕ) (db : Db) → Keeps db (cleanup_telemetry now db)
cleanup_telemetry-Keeps now db = same→Keeps _ _ (cleanup_telemetry-SameResources now db)

add_events-Keeps : (b : ℕ) (es : List (String × ℕ)) → Ensures Keeps (add_events b es)
add_events-Keeps b es = same-Ensures (add_events-SameResources b es)

ruleset keep_rules = (
  frame_rules, Keeps-Frame, same→Keeps, refl, insert_audit-Keeps, insert_outbox-Keeps,
  next_generation-Keeps, insert_session-Keeps, create_oauth_state-Keeps, consume_oauth_state-Keeps,
  upsert_system_key-Keeps, validate_source-Keeps, record_event-Keeps, move_cursor-Keeps,
  upsert_tunnel-Keeps, adopt_source-Keeps, restore_one-Keeps, complete_outbox-Keeps,
  record_batch-Keeps, disconnect_where-Keeps, delete_session-Keeps, cleanup_auth-Keeps,
  retry_outbox-Keeps, cleanup_telemetry-Keeps, add_events-Keeps, insert_key-Keeps,
  set_key_enabled-Keeps, delete_key-Keeps, insert_subdomain-Keeps, delete_subdomain-Keeps,
  insert_tcp_port-Keeps, delete_tcp_port-Keeps, upsert_user-Keeps, set_user_status-Keeps,
)

restore_all-Keeps : (s : TunnelSnapshot) (ts : List ActiveTunnel) → Ensures Keeps (restore_all s ts)
unfolding restore_all
restore_all-Keeps s [] = search keep_rules
restore_all-Keeps s (t ∷ ts) =
    Ensures-bind Keeps-Frame (restore_one s t) (λ _. restore_all s ts) (search keep_rules)
      (λ _. restore_all-Keeps s ts)

pub call-Keeps : (c : Call) → Ensures Keeps (perform c)
unfolding perform insert_key_atomic set_key_enabled_atomic delete_key_atomic insert_subdomain_atomic
    delete_subdomain_atomic insert_tcp_port_atomic delete_tcp_port_atomic set_user_status_atomic
    ensure_system_resources login_discord_atomic apply_connect apply_disconnect mark_unavailable
    reconcile_snapshot begin_snapshot add_telemetry_batch
call-Keeps (Call.snapshot s at) = search (keep_rules, restore_all-Keeps) depth 20
call-Keeps _ = search keep_rules depth 20

-- From the database of the migrations, every run of calls keeps the ids, the Discord ids, the
-- fingerprints, the subdomain names (without case) and the ports distinct, and the ports in range.
pub run_all-IsValid : (cs : List Call) → IsValid (run_all cs fresh)
run_all-IsValid cs = run_all-Ensures Keeps-Frame call-Keeps cs fresh (ground arith)
