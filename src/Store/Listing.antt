-- ===== src/Store/Listing.antt =====
-- The queries of app/internal/store/store.go and hardening.go that list rows by pages. The columns
-- that ORDER BY reads are not all in the model, so the order of each list is a parameter.
use tunnel_service.Prelude.{
  ℕ, ◌+◌, String, Text, codes, Bool, true, false, not, ◌&&◌, Option, none, some, List, [], ◌∷◌, map,
  ltb, ◌==◌, str_eq, if◌then◌else◌, length, take, drop, select, find, count, is_id, is_negated_id,
}
use tunnel_service.Model.{
  User, SshKey, Subdomain, TcpPort, SystemKey, ActiveTunnel, SecurityMetric, AuditLog,
  TunnelSyncState, is_live, is_active, is_disconnected,
}
use tunnel_service.Store.Db.{Db}

-- The rows without the one too many, and whether it was there.
abbrev pub cut {ℓ} : {A : Type ℓ} → ℕ → List A → List A × Bool
cut limit out = if ltb limit (length out) then (take limit out, true) else (out, false)

-- LIMIT limit+1 OFFSET offset; without a limit, all rows.
unfoldable pub page_of {ℓ} : {A : Type ℓ} → ℕ → ℕ → List A → List A × Bool
page_of limit offset rows =
    if ltb 0 limit then cut limit (take (limit + 1) (drop offset rows)) else (rows, false)

abbrev pub joined {ℓ} : {A : Type ℓ} → A → Option User → List (A × String) → List (A × String)
joined x none rest = rest
joined x (some u) rest = (x, u.username) ∷ rest

-- The rows of a table with the name of the user that owns each: a JOIN.
unfoldable pub owned_by {ℓ} : {A : Type ℓ} → (A → ℕ) → List User → List A → List (A × String)
owned_by owner users [] = []
owned_by owner users (x ∷ xs) =
    joined x (find (λ u. u.id == owner x) users) (owned_by owner users xs)

pub record UserRow : Type 0 where
  pub user : User
  pub ssh_keys : ℕ
  pub subdomains : ℕ
  pub tcp_ports : ℕ

unfoldable pub user_row : Db → User → UserRow
user_row db u = record {
  user = u;
  ssh_keys = count (λ k. k.user_id == u.id) db.ssh_keys;
  subdomains = count (λ d. d.user_id == u.id) db.subdomains;
  tcp_ports = count (λ p. p.user_id == u.id) db.tcp_ports;
}

abbrev pub Order : Type 0 → Type 0
Order A = List A → List A

unfoldable pub users_page : Order UserRow → ℕ → ℕ → Db → List UserRow × Bool
unfolding page_of user_row
users_page order limit offset db = page_of limit offset (order (map (user_row db) db.users))

unfoldable pub keys_page :
    (SshKey → Bool) → Order (SshKey × String) → ℕ → ℕ → Db → List (SshKey × String) × Bool
unfolding page_of owned_by
keys_page where_row order limit offset db =
    page_of limit offset (order (owned_by (λ k. k.user_id) db.users (select where_row db.ssh_keys)))

unfoldable pub subdomains_page :
    (Subdomain → Bool) → Order (Subdomain × String) → ℕ → ℕ → Db → List (Subdomain × String) × Bool
unfolding page_of owned_by
subdomains_page where_row order limit offset db =
    page_of limit offset
      (order (owned_by (λ d. d.user_id) db.users (select where_row db.subdomains)))

unfoldable pub tcp_ports_page :
    (TcpPort → Bool) → Order (TcpPort × String) → ℕ → ℕ → Db → List (TcpPort × String) × Bool
unfolding page_of owned_by
tcp_ports_page where_row order limit offset db =
    page_of limit offset
      (order (owned_by (λ p. p.user_id) db.users (select where_row db.tcp_ports)))

-- Without a limit a list is all of its rows.
abbrev pub keys_by_user : Order (SshKey × String) → ℕ → Db → List (SshKey × String)
keys_by_user order uid db = (keys_page (λ k. k.user_id == uid) order 0 0 db).0

abbrev pub subdomains_by_user : Order (Subdomain × String) → ℕ → Db → List (Subdomain × String)
subdomains_by_user order uid db = (subdomains_page (λ d. d.user_id == uid) order 0 0 db).0

abbrev pub tcp_ports_by_user : Order (TcpPort × String) → ℕ → Db → List (TcpPort × String)
tcp_ports_by_user order uid db = (tcp_ports_page (λ p. p.user_id == uid) order 0 0 db).0

pub record TunnelRow : Type 0 where
  pub tunnel : ActiveTunnel
  pub owner : String
  pub key_name : Text

abbrev pub owner_name : Option User → String
owner_name none = "[system]"
owner_name (some u) = u.username

abbrev system_key_name : Option SystemKey → Text
system_key_name none = codes "[revoked]"
system_key_name (some k) = k.name

abbrev pub key_name : Option SshKey → Option SystemKey → Text
key_name none other = system_key_name other
key_name (some k) other = k.name

-- The three LEFT JOINs: the user, the user's key, and the system key of user 0 with the negated id.
unfoldable pub tunnel_row : Db → ActiveTunnel → TunnelRow
tunnel_row db t = record {
  tunnel = t;
  owner = owner_name (find (λ u. u.id == t.user_id) db.users);
  key_name =
      key_name (find (λ k. is_id t.ssh_key_id k.id) db.ssh_keys)
        (find (λ k. is_negated_id t.ssh_key_id k.id && t.user_id == 0) db.system_keys);
}

abbrev pub of_user : Option ℕ → ActiveTunnel → Bool
of_user none t = true
of_user (some id) t = t.user_id == id

unfoldable pub active_tunnels_page : Order TunnelRow → Option ℕ → ℕ → ℕ → Db → List TunnelRow × Bool
unfolding page_of tunnel_row
active_tunnels_page order user_id limit offset db = page_of limit offset (
    order (
      map (tunnel_row db)
        (select (λ t. not (is_disconnected t.status) && of_user user_id t) db.tunnels)))

abbrev pub active_tunnels : Order TunnelRow → Option ℕ → Db → List TunnelRow
active_tunnels order user_id db = (active_tunnels_page order user_id 0 0 db).0

-- The one row of `tunnel_sync_state`, without the id of the source.
abbrev pub tunnel_sync_state : Db → TunnelSyncState
tunnel_sync_state db = record db.sync { source_id = "" }

unfoldable pub security_telemetry_page :
    Order SecurityMetric → ℕ → ℕ → Db → List SecurityMetric × Bool
security_telemetry_page order limit offset db = cut limit (
    take (limit + 1) (
      drop offset
        (order (select (λ m. not (str_eq m.event_type "unknown_host")) db.security_telemetry))))

abbrev pub is_some_id : ℕ → Option ℕ → Bool
is_some_id id none = false
is_some_id id (some n) = n == id

abbrev pub of_actor : Option ℕ → AuditLog → Bool
of_actor none a = true
of_actor (some id) a = is_some_id id a.actor

-- RecentAudit and RecentAuditByUser
unfoldable pub recent_audit : Order AuditLog → Option ℕ → ℕ → Db → List AuditLog
recent_audit order user_id limit db = take limit (order (select (of_actor user_id) db.audit_logs))

pub record Stats : Type 0 where
  pub users : ℕ
  pub active_users : ℕ
  pub ssh_keys : ℕ
  pub subdomains : ℕ
  pub tcp_ports : ℕ
  pub suspended_users : ℕ
  pub active_tunnels : ℕ

unfoldable pub stats : Db → Stats
stats db = record {
  users = length db.users;
  active_users = count (λ u. is_active u.status) db.users;
  ssh_keys = length db.ssh_keys;
  subdomains = length db.subdomains;
  tcp_ports = length db.tcp_ports;
  suspended_users = count (λ u. not (is_active u.status)) db.users;
  active_tunnels = count (λ t. is_live t.status) db.tunnels;
}
