-- ===== src/Model.antt =====
-- The data types of app/internal/model/model.go, the tables of app/internal/store/migrations and
-- the errors that the store and the service return. Times are nanoseconds; ids, generations and
-- sequences are natural numbers, and a key id on the wire is an integer, since system keys are
-- negative there. The columns `created_at` and `updated_at`, which no condition reads, are left out.
use tunnel_service.Prelude.{ℕ, String, Text, Bool, true, false, Option, List, ℤ}

abbrev pub Time : Type 0
Time = ℕ

abbrev pub public_tcp_port_min : ℕ
public_tcp_port_min = 10000

abbrev pub public_tcp_port_max : ℕ
public_tcp_port_max = 65535

pub data Role : Type 0 where
  user admin : Role

pub data UserStatus : Type 0 where
  active suspended : UserStatus

abbrev pub is_admin : Role → Bool
is_admin user = false
is_admin admin = true

abbrev pub is_active : UserStatus → Bool
is_active active = true
is_active suspended = false

pub record User : Type 0 where
  pub id : ℕ
  pub discord_id : String
  pub username : String
  pub display_name : String
  pub email : String
  pub avatar_url : String
  pub role : Role
  pub status : UserStatus

pub record SshKey : Type 0 where
  pub id : ℕ
  pub user_id : ℕ
  pub name : Text
  pub public_key : Text
  pub fingerprint : String
  pub enabled : Bool

pub record Subdomain : Type 0 where
  pub id : ℕ
  pub user_id : ℕ
  pub name : Text

pub record TcpPort : Type 0 where
  pub id : ℕ
  pub user_id : ℕ
  pub port : ℕ

pub record SystemKey : Type 0 where
  pub id : ℕ
  pub name : Text
  pub public_key : Text
  pub fingerprint : String
  pub enabled : Bool

pub record SystemSubdomain : Type 0 where
  pub name : Text
  pub system_key_id : ℕ

-- `resource_id` is the id that the column holds in decimal, `none` for the empty text.
pub record AuditLog : Type 0 where
  pub actor : Option ℕ
  pub target : Option ℕ
  pub action : String
  pub resource_type : String
  pub resource_id : Option ℕ
  pub source_ip : String
  pub metadata : String

-- A protocol name, in lower case; `unknown` is every other text.
pub data Protocol : Type 0 where
  http https tls tcp unknown : Protocol

abbrev pub is_web : Protocol → Bool
is_web http = true
is_web https = true
is_web tls = true
is_web tcp = false
is_web unknown = false

abbrev pub is_tcp : Protocol → Bool
is_tcp tcp = true
is_tcp _ = false

pub data TunnelStatus : Type 0 where
  live disconnecting stale disconnected : TunnelStatus

-- status IN ('active','stale')
abbrev pub is_up : TunnelStatus → Bool
is_up live = true
is_up stale = true
is_up disconnecting = false
is_up disconnected = false

abbrev pub is_live : TunnelStatus → Bool
is_live live = true
is_live _ = false

abbrev pub is_disconnected : TunnelStatus → Bool
is_disconnected disconnected = true
is_disconnected _ = false

pub record ActiveTunnel : Type 0 where
  pub id : String
  pub user_id : ℕ
  pub ssh_key_id : ℤ
  pub protocol : Protocol
  pub hostname : Text
  pub source_ip : String
  pub status : TunnelStatus
  pub tcp_port : ℕ
  pub generation : ℕ
  pub event_sequence : ℕ
  pub connected_at : Time
  pub disconnected_at : Option Time

pub record TunnelSnapshot : Type 0 where
  pub source_id : String
  pub sequence : ℕ
  pub tunnels : List ActiveTunnel

pub record TunnelSyncState : Type 0 where
  pub source_id : String
  pub available : Bool
  pub last_sequence : ℕ
  pub last_success_at : Option Time
  pub last_error_at : Option Time

pub record LifecycleEvent : Type 0 where
  pub event_id : String
  pub source_id : String
  pub sequence : ℕ

pub record EventCursor : Type 0 where
  pub tunnel_id : String
  pub source_id : String
  pub sequence : ℕ
  pub disconnected : Bool

-- The key that a bind is authorized by; a system key has the negated id.
pub record BoundKey : Type 0 where
  pub id : ℤ
  pub user_id : ℕ
  pub name : Text
  pub public_key : Text
  pub fingerprint : String
  pub enabled : Bool

pub record Session : Type 0 where
  pub token_hash : String
  pub user_id : ℕ
  pub csrf_token : String
  pub expires_at : Time

pub record OauthState : Type 0 where
  pub state_hash : String
  pub expires_at : Time

-- A row of `security_telemetry`; the bucket is a time in seconds.
pub record SecurityMetric : Type 0 where
  pub bucket_start : ℕ
  pub event_type : String
  pub count : ℕ

pub record TelemetryBatch : Type 0 where
  pub event_id : String
  pub received_at : ℕ

pub data Kind : Type 0 where
  pubkey_write pubkey_remove pubkey_reconcile : Kind
  disconnect_key disconnect_user disconnect_host disconnect_port : Kind
  unknown : Kind

-- The JSON object of an outbox event; an absent member reads as its zero value.
pub record Payload : Type 0 where
  pub key_id : ℕ
  pub user_id : ℕ
  pub generation : ℕ
  pub hostname : Text
  pub port : ℕ

-- What a dedupe key names behind its generation, one constructor for each format string.
pub data Effect : Type 0 where
  write_key remove_key_file remove_key drop_key drop_user drop_port reconcile_user : ℕ → Effect
  drop_host : Text → Effect

-- "key:%d:write", and "generation:%d:…".
pub data DedupeKey : Type 0 where
  initial_write : ℕ → DedupeKey
  at_generation : ℕ → Effect → DedupeKey

pub record OutboxEvent : Type 0 where
  pub kind : Kind
  pub dedupe_key : DedupeKey
  pub payload : Payload

-- `available_at` is `none` for the column's default, which is due at once.
pub record OutboxItem : Type 0 where
  pub id : ℕ
  pub event : OutboxEvent
  pub attempts : ℕ
  pub available_at : Option Time
  pub last_error : Text
  pub completed : Bool

-- The errors that callers tell apart. `storage` is a failure of SQLite or the file system.
pub data Error : Type 0 where
  not_found unique_violation foreign_key check_violation storage : Error
  stale_generation missing_source stale_source : Error
  missing_snapshot_source stale_snapshot retired_source : Error
  system_conflict invalid_telemetry : Error
  invalid_key key_too_large duplicate_key forbidden suspended_user : Error
  invalid_subdomain reserved_subdomain duplicate_subdomain dns_conflict dns_unavailable : Error
  invalid_tcp_port duplicate_tcp_port invalid_name admin_protected invalid_key_ids : Error
  unknown_event : Error

pub data Result {ℓ} (A : Type ℓ) : Type ℓ where
  ok : A → Result A
  err : Error → Result A
