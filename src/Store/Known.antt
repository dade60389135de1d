-- ===== src/Store/Known.antt =====
-- The applied lifecycle events: no call forgets one.
use tunnel_service.Prelude.{ℕ, ◌≡◌, true, Text, String, arith, Bool, List, [], ◌∷◌, any, str_eq}
use tunnel_service.Model.{UserStatus, ActiveTunnel, TunnelSnapshot, Time, OutboxEvent, Session}
use tunnel_service.Store.Db.{Db}
use tunnel_service.Store.Tx.{◌>>=◌, AuditEntry, insert_audit, insert_outbox, next_generation}
use tunnel_service.Store.Rules.{Frame, Ensures, Ensures-bind, frame_rules, >>=-eq-ok}
use tunnel_service.Store.Keys.{
  insert_key, insert_key_atomic, with_key, with_flag, without_key, set_key_enabled,
  set_key_enabled_atomic, delete_key, delete_key_atomic, disconnect_where,
}
use tunnel_service.Store.Reservations.{
  insert_subdomain, insert_subdomain_atomic, with_subdomain, with_port, without_port,
  without_subdomain, insert_tcp_port, insert_tcp_port_atomic, delete_tcp_port,
  delete_tcp_port_atomic, delete_subdomain, delete_subdomain_atomic,
}
use tunnel_service.Store.Users.{
  Profile, upsert_user, with_user, with_profile, with_status, set_user_status,
  set_user_status_atomic, upsert_system_key, ensure_system_resources,
}
use tunnel_service.Store.Auth.{
  insert_session, login_discord_atomic, delete_session, create_oauth_state, consume_oauth_state,
  cleanup_auth,
}
use tunnel_service.Store.Tunnels.{
  validate_source, record_event, move_cursor, upsert_tunnel, apply_connect, apply_disconnect,
  mark_unavailable,
}
use tunnel_service.Store.Snapshot.{
  adopt_source, restore_one, restore_tunnel, restore_all, begin_snapshot, reconcile_snapshot,
}
use tunnel_service.Store.Outbox.{complete_outbox, retry_outbox}
use tunnel_service.Store.Telemetry.{
  record_batch, add_events, add_telemetry_batch, add_metric, cleanup_telemetry,
}
use tunnel_service.Store.Calls.{Call, perform}

unfoldable pub is_known : String → Db → Bool
is_known event db = any (λ e. str_eq e.event_id event) db.lifecycle_events

-- A known event stays known.
abbrev pub Recalls : Db → Db → Type 0
Recalls a b = (s : String) → is_known s a ≡ true → is_known s b ≡ true

pub Recalls-Frame : Frame Recalls
Recalls-Frame = record { same = λ db s k. k; steps = λ a b c p q s k. q s (p s k) }

pub insert_audit-Recalls : (a : AuditEntry) → Ensures Recalls (insert_audit a)
unfolding is_known insert_audit
insert_audit-Recalls a = record { at = λ db x db' h s k. ground arith }

pub insert_outbox-Recalls : (e : OutboxEvent) → Ensures Recalls (insert_outbox e)
unfolding is_known insert_outbox
insert_outbox-Recalls e = record { at = λ db x db' h s k. ground arith }

pub next_generation-Recalls : Ensures Recalls (next_generation)
unfolding is_known next_generation
next_generation-Recalls = record { at = λ db x db' h s k. ground arith }

pub insert_key-Recalls :
    (uid : ℕ) (name key : Text) (fp : String) → Ensures Recalls (insert_key uid name key fp)
unfolding is_known insert_key with_key
insert_key-Recalls uid name key fp = record { at = λ db x db' h s k. ground arith }

pub set_key_enabled-Recalls : (id : ℕ) (b : Bool) → Ensures Recalls (set_key_enabled id b)
unfolding is_known set_key_enabled with_flag
set_key_enabled-Recalls id b = record { at = λ db x db' h s k. ground arith }

pub delete_key-Recalls : (id : ℕ) → Ensures Recalls (delete_key id)
unfolding is_known delete_key without_key
delete_key-Recalls id = record { at = λ db x db' h s k. ground arith }

pub insert_subdomain-Recalls : (uid : ℕ) (name : Text) → Ensures Recalls (insert_subdomain uid name)
unfolding is_known insert_subdomain with_subdomain
insert_subdomain-Recalls uid name = record { at = λ db x db' h s k. ground arith }

pub insert_tcp_port-Recalls : (uid port : ℕ) → Ensures Recalls (insert_tcp_port uid port)
unfolding is_known insert_tcp_port with_port
insert_tcp_port-Recalls uid port = record { at = λ db x db' h s k. ground arith }

pub delete_tcp_port-Recalls : (id port : ℕ) → Ensures Recalls (delete_tcp_port id port)
unfolding is_known delete_tcp_port without_port
delete_tcp_port-Recalls id port = record { at = λ db x db' h s k. ground arith }

pub delete_subdomain-Recalls : (id : ℕ) → Ensures Recalls (delete_subdomain id)
unfolding is_known delete_subdomain without_subdomain
delete_subdomain-Recalls id = record { at = λ db x db' h s k. ground arith }

pub upsert_user-Recalls : (p : Profile) → Ensures Recalls (upsert_user p)
unfolding is_known upsert_user with_user with_profile
upsert_user-Recalls p = record { at = λ db x db' h s k. ground arith }

pub set_user_status-Recalls : (id : ℕ) (s : UserStatus) → Ensures Recalls (set_user_status id s)
unfolding is_known set_user_status with_status
set_user_status-Recalls id s = record { at = λ db x db' h s k. ground arith }

pub upsert_system_key-Recalls :
    (name key : Text) (fp : String) → Ensures Recalls (upsert_system_key name key fp)
unfolding is_known upsert_system_key
upsert_system_key-Recalls name key fp = record { at = λ db x db' h s k. ground arith }

pub insert_session-Recalls : (s : Session) → Ensures Recalls (insert_session s)
unfolding is_known insert_session
insert_session-Recalls s = record { at = λ db x db' h s k. ground arith }

pub create_oauth_state-Recalls :
    (h : String) (exp : Time) → Ensures Recalls (create_oauth_state h exp)
unfolding is_known create_oauth_state
create_oauth_state-Recalls h exp = record { at = λ db x db' h s k. ground arith }

pub consume_oauth_state-Recalls :
    (h : String) (now : Time) → Ensures Recalls (consume_oauth_state h now)
unfolding is_known consume_oauth_state
consume_oauth_state-Recalls h now = record { at = λ db x db' h s k. ground arith }

pub validate_source-Recalls : (source : String) → Ensures Recalls (validate_source source)
unfolding is_known validate_source
validate_source-Recalls source = record { at = λ db x db' h s k. ground arith }

pub record_event-Recalls : (e s : String) (n : ℕ) → Ensures Recalls (record_event e s n)
unfolding is_known record_event any
record_event-Recalls e s n = record { at = λ db x db' h s k. ground arith }

pub move_cursor-Recalls :
    (t s : String) (n : ℕ) (gone : Bool) → Ensures Recalls (move_cursor t s n gone)
unfolding is_known move_cursor
move_cursor-Recalls t s n gone = record { at = λ db x db' h s k. ground arith }

pub upsert_tunnel-Recalls : (t : ActiveTunnel) → Ensures Recalls (upsert_tunnel t)
unfolding is_known upsert_tunnel
upsert_tunnel-Recalls t = record { at = λ db x db' h s k. ground arith }

pub restore_one-Recalls :
    (s : TunnelSnapshot) (t : ActiveTunnel) → Ensures Recalls (restore_one s t)
unfolding is_known restore_one restore_tunnel
restore_one-Recalls s t = record { at = λ db x db' h s k. ground arith }

pub complete_outbox-Recalls : (id : ℕ) → Ensures Recalls (complete_outbox id)
unfolding is_known complete_outbox
complete_outbox-Recalls id = record { at = λ db x db' h s k. ground arith }

pub disconnect_where-Recalls :
    (p : ActiveTunnel → Bool) (db : Db) → Recalls db (disconnect_where p db)
unfolding is_known disconnect_where
disconnect_where-Recalls p db = λ s k. k

pub delete_session-Recalls : (h : String) (db : Db) → Recalls db (delete_session h db)
unfolding is_known delete_session
delete_session-Recalls h db = λ s k. k

pub cleanup_auth-Recalls : (now : Time) (db : Db) → Recalls db (cleanup_auth now db)
unfolding is_known cleanup_auth
cleanup_auth-Recalls now db = λ s k. k

pub retry_outbox-Recalls :
    (id n : ℕ) (e : Text) (now : Time) (db : Db) → Recalls db (retry_outbox id n e now db)
unfolding is_known retry_outbox
retry_outbox-Recalls id n e now db = λ s k. k

pub cleanup_telemetry-Recalls : (now : ℕ) (db : Db) → Recalls db (cleanup_telemetry now db)
unfolding is_known cleanup_telemetry
cleanup_telemetry-Recalls now db = λ s k. k

pub add_metric-Recalls : (b : ℕ) (e : String) (n : ℕ) (db : Db) → Recalls db (add_metric b e n db)
unfolding is_known add_metric
add_metric-Recalls b e n db s k = ground arith

pub ruleset recall_rules = (
  frame_rules, Recalls-Frame, insert_audit-Recalls, insert_outbox-Recalls, next_generation-Recalls,
  insert_key-Recalls, set_key_enabled-Recalls, delete_key-Recalls, insert_subdomain-Recalls,
  insert_tcp_port-Recalls, delete_tcp_port-Recalls, delete_subdomain-Recalls, upsert_user-Recalls,
  set_user_status-Recalls, upsert_system_key-Recalls, insert_session-Recalls,
  create_oauth_state-Recalls, consume_oauth_state-Recalls, validate_source-Recalls,
  record_event-Recalls, move_cursor-Recalls, upsert_tunnel-Recalls, restore_one-Recalls,
  complete_outbox-Recalls, disconnect_where-Recalls, delete_session-Recalls, cleanup_auth-Recalls,
  retry_outbox-Recalls, cleanup_telemetry-Recalls, add_metric-Recalls,
)

pub restore_all-Recalls :
    (s : TunnelSnapshot) (ts : List ActiveTunnel) → Ensures Recalls (restore_all s ts)
unfolding restore_all
restore_all-Recalls s [] = search recall_rules
restore_all-Recalls s (t ∷ ts) =
    Ensures-bind Recalls-Frame (restore_one s t) (λ _. restore_all s ts) (restore_one-Recalls s t)
      (λ _. restore_all-Recalls s ts)

pub adopt_source-Recalls : (s : TunnelSnapshot) (at : Time) → Ensures Recalls (adopt_source s at)
unfolding is_known adopt_source ◌>>=◌ any
adopt_source-Recalls s at = record { at = λ db x db' h s k. ground arith }

pub add_events-Recalls : (b : ℕ) (es : List (String × ℕ)) → Ensures Recalls (add_events b es)
unfolding is_known add_events
add_events-Recalls b [] = record { at = λ db x db' h s k. ground arith }
add_events-Recalls b ((e, n) ∷ es) = record {
  at = λ db x db' h. ground (
    arith,
    add_metric-Recalls b e n db,
    (add_events-Recalls b es).at (add_metric b e n db) x db',
  );
}

pub record_batch-Recalls : (e : String) (now : ℕ) → Ensures Recalls (record_batch e now)
unfolding is_known record_batch
record_batch-Recalls e now = record { at = λ db x db' h s k. ground arith }

pub call-Recalls : (c : Call) → Ensures Recalls (perform c)
unfolding perform insert_key_atomic set_key_enabled_atomic delete_key_atomic insert_subdomain_atomic
    delete_subdomain_atomic insert_tcp_port_atomic delete_tcp_port_atomic set_user_status_atomic
    ensure_system_resources login_discord_atomic apply_connect apply_disconnect mark_unavailable
    reconcile_snapshot begin_snapshot add_telemetry_batch ◌>>=◌ is_known
call-Recalls (Call.add_key uid name key fp a) = search recall_rules depth 20
call-Recalls (Call.telemetry e now es) =
    search (recall_rules, record_batch-Recalls, add_events-Recalls) depth 20
call-Recalls (Call.snapshot s at) =
    search (recall_rules, adopt_source-Recalls, restore_all-Recalls) depth 20
call-Recalls _ = search recall_rules depth 20
