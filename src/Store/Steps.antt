-- ===== src/Store/Steps.antt =====
-- What each statement of the store keeps, as `Store.Watch` names it.
use tunnel_service.Prelude.{ℕ, ◌≡◌, refl, Text, String, arith, Bool, List, [], ◌∷◌, All}
use tunnel_service.Model.{UserStatus, ActiveTunnel, TunnelSnapshot, Time, OutboxEvent, Session}
use tunnel_service.Store.Db.{Db}
use tunnel_service.Store.Tx.{◌>>=◌, AuditEntry, insert_audit, insert_outbox, next_generation}
use tunnel_service.Store.Rules.{Frame, Ensures, Ensures-bind, frame_rules}
use tunnel_service.Store.Keys.{
  insert_key, with_key, with_flag, without_key, set_key_enabled, delete_key, disconnect_where,
}
use tunnel_service.Store.Reservations.{
  insert_subdomain, with_subdomain, with_port, without_port, without_subdomain, insert_tcp_port,
  delete_tcp_port, delete_subdomain,
}
use tunnel_service.Store.Users.{
  Profile, upsert_user, with_user, with_profile, with_status, set_user_status, end_sessions,
  upsert_system_key,
}
use tunnel_service.Store.Auth.{insert_session, delete_session}
use tunnel_service.Store.Tunnels.{validate_source, record_event, upsert_tunnel}
use tunnel_service.Store.Snapshot.{close_cursors, adopt_source, restore_one, restore_tunnel}
use tunnel_service.Store.Outbox.{complete_outbox, retry_outbox}
use tunnel_service.Store.Telemetry.{add_metric}
use tunnel_service.Store.Watch.{
  Watch, Keeps, Keeps-same, Keeps-but_cursors, Unopened, InTime, FromSource, NoCursor, NoAccounts,
  Keeps-but_accounts, create_oauth_state-Keeps, consume_oauth_state-Keeps, cleanup_auth-Keeps,
  cleanup_telemetry-Keeps, record_batch-Keeps, move_cursor-Keeps,
}

pub Keeps-Frame : (w : Watch) → Frame (Keeps w)
Keeps-Frame w = record { same = λ db k. k; steps = λ a b c p q k. q (p k) }

pub insert_audit-Keeps : (w : Watch) (a : AuditEntry) → Ensures (Keeps w) (insert_audit a)
unfolding insert_audit
insert_audit-Keeps w a = record {
  at = λ db x db' h.
      Keeps-same w db db' (ground arith) (ground arith) (ground arith) (ground arith)
        (ground arith);
}

pub insert_outbox-Keeps : (w : Watch) (e : OutboxEvent) → Ensures (Keeps w) (insert_outbox e)
unfolding insert_outbox
insert_outbox-Keeps w e = record {
  at = λ db x db' h.
      Keeps-same w db db' (ground arith) (ground arith) (ground arith) (ground arith)
        (ground arith);
}

pub next_generation-Keeps : (w : Watch) → Ensures (Keeps w) (next_generation)
unfolding next_generation
next_generation-Keeps w = record {
  at = λ db x db' h.
      Keeps-same w db db' (ground arith) (ground arith) (ground arith) (ground arith)
        (ground arith);
}

pub insert_key-Keeps :
    (w : Watch) (uid : ℕ) (name key : Text) (fp : String)
    → Ensures (Keeps w) (insert_key uid name key fp)
unfolding insert_key with_key
insert_key-Keeps w uid name key fp = record {
  at = λ db x db' h.
      Keeps-same w db db' (ground arith) (ground arith) (ground arith) (ground arith)
        (ground arith);
}

pub set_key_enabled-Keeps :
    (w : Watch) (id : ℕ) (b : Bool) → Ensures (Keeps w) (set_key_enabled id b)
unfolding set_key_enabled with_flag
set_key_enabled-Keeps w id b = record {
  at = λ db x db' h.
      Keeps-same w db db' (ground arith) (ground arith) (ground arith) (ground arith)
        (ground arith);
}

pub delete_key-Keeps : (w : Watch) (id : ℕ) → Ensures (Keeps w) (delete_key id)
unfolding delete_key without_key
delete_key-Keeps w id = record {
  at = λ db x db' h.
      Keeps-same w db db' (ground arith) (ground arith) (ground arith) (ground arith)
        (ground arith);
}

pub insert_subdomain-Keeps :
    (w : Watch) (uid : ℕ) (name : Text) → Ensures (Keeps w) (insert_subdomain uid name)
unfolding insert_subdomain with_subdomain
insert_subdomain-Keeps w uid name = record {
  at = λ db x db' h.
      Keeps-same w db db' (ground arith) (ground arith) (ground arith) (ground arith)
        (ground arith);
}

pub insert_tcp_port-Keeps :
    (w : Watch) (uid port : ℕ) → Ensures (Keeps w) (insert_tcp_port uid port)
unfolding insert_tcp_port with_port
insert_tcp_port-Keeps w uid port = record {
  at = λ db x db' h.
      Keeps-same w db db' (ground arith) (ground arith) (ground arith) (ground arith)
        (ground arith);
}

pub delete_tcp_port-Keeps : (w : Watch) (id port : ℕ) → Ensures (Keeps w) (delete_tcp_port id port)
unfolding delete_tcp_port without_port
delete_tcp_port-Keeps w id port = record {
  at = λ db x db' h.
      Keeps-same w db db' (ground arith) (ground arith) (ground arith) (ground arith)
        (ground arith);
}

pub delete_subdomain-Keeps : (w : Watch) (id : ℕ) → Ensures (Keeps w) (delete_subdomain id)
unfolding delete_subdomain without_subdomain
delete_subdomain-Keeps w id = record {
  at = λ db x db' h.
      Keeps-same w db db' (ground arith) (ground arith) (ground arith) (ground arith)
        (ground arith);
}

pub upsert_user-Keeps : (w : Watch) (p : Profile) → NoAccounts w → Ensures (Keeps w) (upsert_user p)
unfolding upsert_user with_user with_profile
upsert_user-Keeps w p f = record {
  at = λ db x db' h. Keeps-but_accounts w db db' f (ground arith) (ground arith) (ground arith);
}

pub set_user_status-Keeps :
    (w : Watch) (id : ℕ) (s : UserStatus) → NoAccounts w → Ensures (Keeps w) (set_user_status id s)
unfolding set_user_status with_status
set_user_status-Keeps w id s f = record {
  at = λ db x db' h. Keeps-but_accounts w db db' f (ground arith) (ground arith) (ground arith);
}

pub upsert_system_key-Keeps :
    (w : Watch) (name key : Text) (fp : String) → Ensures (Keeps w) (upsert_system_key name key fp)
unfolding upsert_system_key
upsert_system_key-Keeps w name key fp = record {
  at = λ db x db' h.
      Keeps-same w db db' (ground arith) (ground arith) (ground arith) (ground arith)
        (ground arith);
}

pub insert_session-Keeps :
    (w : Watch) (s : Session) → NoAccounts w → Ensures (Keeps w) (insert_session s)
unfolding insert_session
insert_session-Keeps w s f = record {
  at = λ db x db' h. Keeps-but_accounts w db db' f (ground arith) (ground arith) (ground arith);
}

pub validate_source-Keeps :
    (w : Watch) (source : String) → Ensures (Keeps w) (validate_source source)
unfolding validate_source
validate_source-Keeps w source = record {
  at = λ db x db' h.
      Keeps-same w db db' (ground arith) (ground arith) (ground arith) (ground arith)
        (ground arith);
}

pub record_event-Keeps : (w : Watch) (e s : String) (n : ℕ) → Ensures (Keeps w) (record_event e s n)
unfolding record_event
record_event-Keeps w e s n = record {
  at = λ db x db' h.
      Keeps-same w db db' (ground arith) (ground arith) (ground arith) (ground arith)
        (ground arith);
}

pub upsert_tunnel-Keeps : (w : Watch) (t : ActiveTunnel) → Ensures (Keeps w) (upsert_tunnel t)
unfolding upsert_tunnel
upsert_tunnel-Keeps w t = record {
  at = λ db x db' h.
      Keeps-same w db db' (ground arith) (ground arith) (ground arith) (ground arith)
        (ground arith);
}

pub complete_outbox-Keeps : (w : Watch) (id : ℕ) → Ensures (Keeps w) (complete_outbox id)
unfolding complete_outbox
complete_outbox-Keeps w id = record {
  at = λ db x db' h.
      Keeps-same w db db' (ground arith) (ground arith) (ground arith) (ground arith)
        (ground arith);
}

pub disconnect_where-Keeps :
    (w : Watch) (p : ActiveTunnel → Bool) (db : Db) → Keeps w db (disconnect_where p db)
unfolding disconnect_where
disconnect_where-Keeps w p db = Keeps-same w db _ refl refl refl refl refl

pub delete_session-Keeps :
    (w : Watch) (h : String) (db : Db) → NoAccounts w → Keeps w db (delete_session h db)
unfolding delete_session
delete_session-Keeps w h db f = Keeps-but_accounts w db _ f refl refl refl

pub retry_outbox-Keeps :
    (w : Watch) (id n : ℕ) (e : Text) (now : Time) (db : Db)
    → Keeps w db (retry_outbox id n e now db)
unfolding retry_outbox
retry_outbox-Keeps w id n e now db = Keeps-same w db _ refl refl refl refl refl

pub add_metric-Keeps :
    (w : Watch) (b : ℕ) (e : String) (n : ℕ) (db : Db) → Keeps w db (add_metric b e n db)
unfolding add_metric
add_metric-Keeps w b e n db =
    Keeps-same w db _ (ground arith) (ground arith) (ground arith) (ground arith) (ground arith)

pub restore_one-Keeps :
    (w : Watch) (s : TunnelSnapshot) (t : ActiveTunnel)
    → NoCursor w
    → Ensures (Keeps w) (restore_one s t)
unfolding restore_one restore_tunnel
restore_one-Keeps w s t f = record {
  at = λ db x db' h.
      Keeps-but_cursors w db db' f (ground arith) (ground arith) (ground arith) (ground arith);
}

pub adopt_source-Keeps :
    (w : Watch) (s : TunnelSnapshot) (at : Time)
    → NoCursor w
    → Ensures (Keeps w) (adopt_source s at)
unfolding adopt_source ◌>>=◌
adopt_source-Keeps w s at f = record {
  at = λ db x db' h.
      Keeps-but_cursors w db db' f (ground arith) (ground arith) (ground arith) (ground arith);
}

pub close_cursors-Keeps :
    (w : Watch) (s : TunnelSnapshot) (db : Db) → NoCursor w → Keeps w db (close_cursors s db)
unfolding close_cursors
close_cursors-Keeps w s db f = Keeps-but_cursors w db _ f refl refl refl refl

pub end_sessions-Keeps :
    (w : Watch) (id : ℕ) (db : Db) → NoAccounts w → Keeps w db (end_sessions id db)
unfolding end_sessions
end_sessions-Keeps w id db f = Keeps-but_accounts w db _ f refl refl refl

pub ruleset keep_rules = (
  frame_rules, end_sessions-Keeps, Keeps-Frame, refl, Keeps-same, create_oauth_state-Keeps,
  consume_oauth_state-Keeps, cleanup_auth-Keeps, cleanup_telemetry-Keeps, record_batch-Keeps,
  move_cursor-Keeps, restore_one-Keeps, adopt_source-Keeps, close_cursors-Keeps, insert_audit-Keeps,
  insert_outbox-Keeps, next_generation-Keeps, insert_key-Keeps, set_key_enabled-Keeps,
  delete_key-Keeps, insert_subdomain-Keeps, insert_tcp_port-Keeps, delete_tcp_port-Keeps,
  delete_subdomain-Keeps, upsert_user-Keeps, set_user_status-Keeps, upsert_system_key-Keeps,
  insert_session-Keeps, validate_source-Keeps, record_event-Keeps, upsert_tunnel-Keeps,
  complete_outbox-Keeps, disconnect_where-Keeps, delete_session-Keeps, retry_outbox-Keeps,
  add_metric-Keeps,
)
