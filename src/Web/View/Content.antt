-- ===== src/Web/View/Content.antt =====
-- The page of app/internal/web/server.go, before it is sent, and what its parts are made of.
use tunnel_service.Prelude.{
  suc, ℤ, pos, negsuc, String, Text, codes, text_eq, Bool, true, false, Option, none, List, [], ◌∷◌,
}
use tunnel_service.Model.{User, SshKey, Subdomain, TcpPort, AuditLog, SecurityMetric}
use tunnel_service.Store.Listing.{Order, UserRow, TunnelRow, Stats}
use tunnel_service.Web.Pages.{PageName}
use tunnel_service.Web.Paging.{itoa, Pagination, DnsConflict}

-- The ORDER BY of each list.
pub record Orders : Type 0 where
  pub keys : Order (SshKey × String)
  pub subdomains : Order (Subdomain × String)
  pub tcp_ports : Order (TcpPort × String)
  pub users : Order UserRow
  pub audit : Order AuditLog
  pub tunnels : Order TunnelRow
  pub security : Order SecurityMetric

-- The query parameters that the pages read.
pub record Query : Type 0 where
  pub flash : Text
  pub error : Text
  pub page : Text

-- A row stands with its owner's name, a subdomain with what the DNS check says, where it was asked.
pub record Page : Type 0 where
  pub title : String
  pub page : PageName
  pub csrf : String
  pub flash : String
  pub error : Text
  pub tunnel_domain : Text
  pub ssh_host : Text
  pub connect_command : Text
  pub ssh_port : ℤ
  pub user : User
  pub keys : List (SshKey × String)
  pub subdomains : List (Subdomain × String × Option DnsConflict)
  pub tcp_ports : List (TcpPort × String)
  pub users : List UserRow
  pub audit : List AuditLog
  pub active_tunnels : List TunnelRow
  pub security_metrics : List SecurityMetric
  pub stats : Stats
  pub pagination : Pagination
  pub active_tunnel_available : Bool

abbrev message_of : List (String × String) → Text → String
message_of [] v = ""
message_of ((key, message) ∷ rest) v = elim (text_eq (codes key) v) [
  | true ↦ message
  | false ↦ message_of rest v
]

unfoldable pub flash : Text → String
flash = message_of (
    ("login", "ログインしました")
    ∷ ("key_added", "SSH公開鍵を追加しました")
    ∷ ("key_updated", "SSH公開鍵を更新しました")
    ∷ ("key_deleted", "SSH公開鍵を削除しました")
    ∷ ("subdomain_reserved", "サブドメインを予約しました")
    ∷ ("subdomain_released", "サブドメインを解放しました")
    ∷ ("tcp_port_reserved", "TCPポートを予約しました")
    ∷ ("tcp_port_released", "TCPポートを解放しました")
    ∷ ("user_updated", "ユーザー状態を更新しました")
    ∷ [])

abbrev pub no_stats : Stats
no_stats = record {
  users = 0;
  active_users = 0;
  ssh_keys = 0;
  subdomains = 0;
  tcp_ports = 0;
  suspended_users = 0;
  active_tunnels = 0;
}

abbrev pub no_pagination : Pagination
no_pagination = record { page = 0; previous = none; next = none }

-- `%d` and `strconv.Itoa`
unfoldable pub itoa_int : ℤ → Text
unfolding itoa
itoa_int (pos n) = itoa n
itoa_int (negsuc n) = b'-' ∷ itoa (suc n)

abbrev pub first_label : List (Subdomain × String) → Text
first_label [] = codes "myapp"
first_label ((d, owner) ∷ rest) = d.name
