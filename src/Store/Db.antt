-- ===== src/Store/Db.antt =====
-- The database of app/internal/store/migrations: a table is the list of its rows, an AUTOINCREMENT
-- column has its next value beside the table. The two one-row tables `control_state` and
-- `tunnel_sync_state` are fields.
use tunnel_service.Prelude.{ℕ, String, false, none, List, []}
use tunnel_service.Model.{
  User, SshKey, Subdomain, TcpPort, SystemKey, SystemSubdomain, AuditLog, ActiveTunnel,
  TunnelSyncState, LifecycleEvent, EventCursor, Session, OutboxItem, OauthState, SecurityMetric,
  TelemetryBatch,
}

pub record Db : Type 0 where
  pub users : List User
  pub next_user_id : ℕ
  pub sessions : List Session
  pub oauth_states : List OauthState
  pub ssh_keys : List SshKey
  pub next_key_id : ℕ
  pub subdomains : List Subdomain
  pub next_subdomain_id : ℕ
  pub tcp_ports : List TcpPort
  pub next_port_id : ℕ
  pub system_keys : List SystemKey
  pub next_system_key_id : ℕ
  pub system_subdomains : List SystemSubdomain
  pub audit_logs : List AuditLog
  pub outbox : List OutboxItem
  pub next_outbox_id : ℕ
  pub generation : ℕ
  pub tunnels : List ActiveTunnel
  pub sync : TunnelSyncState
  pub lifecycle_events : List LifecycleEvent
  pub cursors : List EventCursor
  pub retired_sources : List String
  pub security_telemetry : List SecurityMetric
  pub telemetry_batches : List TelemetryBatch

-- The database after the migrations.
abbrev pub fresh : Db
fresh = record {
  users = [];
  next_user_id = 1;
  sessions = [];
  oauth_states = [];
  ssh_keys = [];
  next_key_id = 1;
  subdomains = [];
  next_subdomain_id = 1;
  tcp_ports = [];
  next_port_id = 1;
  system_keys = [];
  next_system_key_id = 1;
  system_subdomains = [];
  audit_logs = [];
  outbox = [];
  next_outbox_id = 1;
  generation = 1;
  tunnels = [];
  sync = record {
    source_id = "";
    available = false;
    last_sequence = 0;
    last_success_at = none;
    last_error_at = none;
  };
  lifecycle_events = [];
  cursors = [];
  retired_sources = [];
  security_telemetry = [];
  telemetry_batches = [];
}
