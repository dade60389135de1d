-- ===== src/Store/Resources.antt =====
-- The calls that leave users, keys, subdomains and TCP ports alone.
use tunnel_service.Prelude.{ℕ, ◌≡◌, String, Text, Bool, List, [], ◌∷◌, arith}
use tunnel_service.Model.{Time, ActiveTunnel, TunnelSnapshot, OutboxEvent, Session}
use tunnel_service.Store.Db.{Db}
use tunnel_service.Store.Tx.{◌>>=◌, AuditEntry, insert_audit, insert_outbox, next_generation}
use tunnel_service.Store.Rules.{Ensures}
use tunnel_service.Store.Keys.{disconnect_where}
use tunnel_service.Store.Users.{upsert_system_key}
use tunnel_service.Store.Auth.{
  insert_session, delete_session, create_oauth_state, consume_oauth_state, cleanup_auth,
}
use tunnel_service.Store.Tunnels.{validate_source, record_event, move_cursor, upsert_tunnel}
use tunnel_service.Store.Snapshot.{adopt_source, restore_one, restore_tunnel}
use tunnel_service.Store.Outbox.{complete_outbox, retry_outbox}
use tunnel_service.Store.Telemetry.{record_batch, add_events, add_metric, cleanup_telemetry}

-- The registered resources and their id counters are the same.
pub record SameResources (a b : Db) : Type 0 where
  pub users : a.users ≡ b.users
  pub next_user_id : a.next_user_id ≡ b.next_user_id
  pub keys : a.ssh_keys ≡ b.ssh_keys
  pub next_key_id : a.next_key_id ≡ b.next_key_id
  pub subdomains : a.subdomains ≡ b.subdomains
  pub next_subdomain_id : a.next_subdomain_id ≡ b.next_subdomain_id
  pub ports : a.tcp_ports ≡ b.tcp_ports
  pub next_port_id : a.next_port_id ≡ b.next_port_id

pub insert_audit-SameResources : (a : AuditEntry) → Ensures SameResources (insert_audit a)
unfolding insert_audit
insert_audit-SameResources a = record { at = λ db x db' h. ground arith }

pub insert_outbox-SameResources : (e : OutboxEvent) → Ensures SameResources (insert_outbox e)
unfolding insert_outbox
insert_outbox-SameResources e = record { at = λ db x db' h. ground arith }

pub next_generation-SameResources : Ensures SameResources (next_generation)
unfolding next_generation
next_generation-SameResources = record { at = λ db x db' h. ground arith }

pub insert_session-SameResources : (s : Session) → Ensures SameResources (insert_session s)
unfolding insert_session
insert_session-SameResources s = record { at = λ db x db' h. ground arith }

pub create_oauth_state-SameResources :
    (h : String) (exp : Time) → Ensures SameResources (create_oauth_state h exp)
unfolding create_oauth_state
create_oauth_state-SameResources h exp = record { at = λ db x db' h. ground arith }

pub consume_oauth_state-SameResources :
    (h : String) (now : Time) → Ensures SameResources (consume_oauth_state h now)
unfolding consume_oauth_state
consume_oauth_state-SameResources h now = record { at = λ db x db' h. ground arith }

pub upsert_system_key-SameResources :
    (name key : Text) (fp : String) → Ensures SameResources (upsert_system_key name key fp)
unfolding upsert_system_key
upsert_system_key-SameResources name key fp = record { at = λ db x db' h. ground arith }

pub validate_source-SameResources :
    (source : String) → Ensures SameResources (validate_source source)
unfolding validate_source
validate_source-SameResources source = record { at = λ db x db' h. ground arith }

pub record_event-SameResources : (e s : String) (n : ℕ) → Ensures SameResources (record_event e s n)
unfolding record_event
record_event-SameResources e s n = record { at = λ db x db' h. ground arith }

pub move_cursor-SameResources :
    (t s : String) (n : ℕ) (gone : Bool) → Ensures SameResources (move_cursor t s n gone)
unfolding move_cursor
move_cursor-SameResources t s n gone = record { at = λ db x db' h. ground arith }

pub upsert_tunnel-SameResources : (t : ActiveTunnel) → Ensures SameResources (upsert_tunnel t)
unfolding upsert_tunnel
upsert_tunnel-SameResources t = record { at = λ db x db' h. ground arith }

pub adopt_source-SameResources :
    (s : TunnelSnapshot) (at : Time) → Ensures SameResources (adopt_source s at)
unfolding adopt_source ◌>>=◌
adopt_source-SameResources s at = record { at = λ db x db' h. ground arith }

pub restore_one-SameResources :
    (s : TunnelSnapshot) (t : ActiveTunnel) → Ensures SameResources (restore_one s t)
unfolding restore_one restore_tunnel
restore_one-SameResources s t = record { at = λ db x db' h. ground arith }

pub complete_outbox-SameResources : (id : ℕ) → Ensures SameResources (complete_outbox id)
unfolding complete_outbox
complete_outbox-SameResources id = record { at = λ db x db' h. ground arith }

pub record_batch-SameResources : (e : String) (now : ℕ) → Ensures SameResources (record_batch e now)
unfolding record_batch
record_batch-SameResources e now = record { at = λ db x db' h. ground arith }

pub disconnect_where-SameResources :
    (p : ActiveTunnel → Bool) (db : Db) → SameResources db (disconnect_where p db)
unfolding disconnect_where
disconnect_where-SameResources p db = ground arith

pub delete_session-SameResources : (h : String) (db : Db) → SameResources db (delete_session h db)
unfolding delete_session
delete_session-SameResources h db = ground arith

pub cleanup_auth-SameResources : (now : Time) (db : Db) → SameResources db (cleanup_auth now db)
unfolding cleanup_auth
cleanup_auth-SameResources now db = ground arith

pub retry_outbox-SameResources :
    (id n : ℕ) (e : Text) (now : Time) (db : Db) → SameResources db (retry_outbox id n e now db)
unfolding retry_outbox
retry_outbox-SameResources id n e now db = ground arith

pub cleanup_telemetry-SameResources :
    (now : ℕ) (db : Db) → SameResources db (cleanup_telemetry now db)
unfolding cleanup_telemetry
cleanup_telemetry-SameResources now db = ground arith

pub add_metric-SameResources :
    (b : ℕ) (e : String) (n : ℕ) (db : Db) → SameResources db (add_metric b e n db)
unfolding add_metric
add_metric-SameResources b e n db = ground arith

pub add_events-SameResources :
    (b : ℕ) (es : List (String × ℕ)) → Ensures SameResources (add_events b es)
unfolding add_events
add_events-SameResources b [] = record { at = λ db x db' h. ground arith }
add_events-SameResources b ((e, n) ∷ es) = record {
  at = λ db x db' h.
      let rest = (add_events-SameResources b es).at (add_metric b e n db) x db' in
      ground (arith, add_metric-SameResources b e n db, rest);
}
