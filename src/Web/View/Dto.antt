-- ===== src/Web/View/Dto.antt =====
-- app/internal/web/api_dto.go: the JSON of a page. A member that is left out where it has its zero
-- value stands as that value, and one that is a pointer as an Option.
pub mod Types
use tunnel_service.Prelude.{
  ℕ, ℤ, pos, String, Text, codes, Bool, true, false, Option, none, some, List, [], ◌∷◌, ◌++◌, map,
  ltb, take, length, if◌then◌else◌,
}
use tunnel_service.Model.{
  Role, UserStatus, SshKey, Subdomain, TcpPort, AuditLog, SecurityMetric, Protocol, TunnelStatus,
  Time,
}
use tunnel_service.Store.Listing.{UserRow, TunnelRow, Stats}
use tunnel_service.Web.Pages.{PageName}
use tunnel_service.Web.Paging.{Pagination, DnsConflict}
use tunnel_service.Web.View.{Viewed, broken, viewed}
use tunnel_service.Web.View.Content.{Page, itoa_int}
use tunnel_service.Web.View.Dto.Types.{
  SecurityMetricDto, StatsDto, PaginationDto, CurrentUserDto, AdminUserDto, KeyDto, SubdomainDto,
  TcpPortDto, AuditDto, ActiveTunnelDto, PageDto,
}

-- The first 42 bytes of a longer key, and the three bytes of an ellipsis.
unfoldable pub shortened : Text → Text
shortened key = if ltb 42 (length key) then take 42 key ++ (226 ∷ 128 ∷ 166 ∷ []) else key

abbrev pub only_if : Bool → String → String
only_if admin s = if admin then s else ""

unfoldable pub key_dto : Bool → SshKey × String → KeyDto
unfolding shortened
key_dto admin (k, owner) = record {
  id = k.id;
  owner = only_if admin owner;
  name = k.name;
  public_key = if admin then [] else shortened k.public_key;
  fingerprint = k.fingerprint;
  enabled = k.enabled;
}

unfoldable pub subdomain_dto : Bool → Subdomain × String × Option DnsConflict → SubdomainDto
subdomain_dto admin (d, owner, found) = record {
  id = d.id;
  owner = only_if admin owner;
  name = d.name;
  dns_conflict = if admin then found else none;
}

unfoldable pub tcp_port_dto : Bool → TcpPort × String → TcpPortDto
tcp_port_dto admin (p, owner) = record { id = p.id; owner = only_if admin owner; port = p.port }

unfoldable pub admin_user_dto : UserRow → AdminUserDto
admin_user_dto r = record {
  id = r.user.id;
  discord_id = r.user.discord_id;
  username = r.user.username;
  email = r.user.email;
  avatar_url = r.user.avatar_url;
  role = r.user.role;
  status = r.user.status;
  ssh_key_count = r.ssh_keys;
  subdomain_count = r.subdomains;
  tcp_port_count = r.tcp_ports;
}

unfoldable pub audit_dto : Bool → AuditLog → AuditDto
audit_dto include_source a = record {
  action = a.action;
  source_ip = only_if include_source a.source_ip;
}

unfoldable pub active_tunnel_dto : Bool → TunnelRow → ActiveTunnelDto
active_tunnel_dto admin r = record {
  owner = only_if admin r.owner;
  key_name = r.key_name;
  protocol = r.tunnel.protocol;
  hostname = r.tunnel.hostname;
  source_ip = r.tunnel.source_ip;
  status = r.tunnel.status;
  tcp_port = r.tunnel.tcp_port;
  connected_at = r.tunnel.connected_at;
}

unfoldable pub security_metric_dto : SecurityMetric → SecurityMetricDto
security_metric_dto m = record {
  bucket_start = m.bucket_start;
  event_type = m.event_type;
  count = m.count;
}

unfoldable pub stats_dto_from : Stats → StatsDto
stats_dto_from s = record {
  users = s.users;
  active_users = s.active_users;
  ssh_keys = s.ssh_keys;
  subdomains = s.subdomains;
  tcp_ports = s.tcp_ports;
  suspended_users = s.suspended_users;
  active_tunnels = s.active_tunnels;
}

unfoldable pub pagination_dto_from : Pagination → PaginationDto
pagination_dto_from p = record { page = p.page; previous_url = p.previous; next_url = p.next }

-- What every page has.
unfoldable pub plain_dto : Page → PageDto
plain_dto p = record {
  title = p.title;
  page = p.page;
  csrf = p.csrf;
  flash = p.flash;
  error = p.error;
  user = record {
    username = p.user.username;
    display_name = p.user.display_name;
    avatar_url = p.user.avatar_url;
    role = p.user.role;
  };
  tunnel_domain = [];
  ssh_host = [];
  connect_command = [];
  tcp_connect_command = [];
  ssh_port = pos 0;
  key_count = 0;
  subdomain_count = 0;
  tcp_port_count = 0;
  first_tcp_port = 0;
  active_tunnel_count = 0;
  keys = [];
  subdomains = [];
  tcp_ports = [];
  users = [];
  audit = [];
  active_tunnels = [];
  security_metrics = [];
  stats = none;
  pagination = none;
  active_tunnel_available = none;
}

abbrev first_port : List (TcpPort × String) → ℕ
first_port [] = 0
first_port ((p, owner) ∷ rest) = p.port

abbrev port_text : List (TcpPort × String) → Text
port_text [] = codes "PUBLIC_PORT"
port_text ((p, owner) ∷ rest) = itoa_int (pos p.port)

unfoldable pub tcp_connect_command : Page → Text
unfolding itoa_int
tcp_connect_command p =
    codes "ssh -N -p "
    ++ itoa_int p.ssh_port
    ++ codes " -R "
    ++ port_text p.tcp_ports
    ++ codes ":127.0.0.1:LOCAL_PORT "
    ++ p.ssh_host

unfoldable pub dashboard_dto : Page → PageDto
unfolding plain_dto tcp_connect_command audit_dto
dashboard_dto p = record (plain_dto p) {
  tunnel_domain = p.tunnel_domain;
  ssh_host = p.ssh_host;
  ssh_port = p.ssh_port;
  connect_command = p.connect_command;
  key_count = length p.keys;
  subdomain_count = length p.subdomains;
  tcp_port_count = length p.tcp_ports;
  active_tunnel_count = length p.active_tunnels;
  active_tunnel_available = some p.active_tunnel_available;
  audit = map (audit_dto false) p.audit;
  first_tcp_port = first_port p.tcp_ports;
  tcp_connect_command = tcp_connect_command p;
}

-- `newPageDTO`: the members that the page of the name has.
unfoldable pub dto_of : PageName → Page → PageDto
unfolding plain_dto dashboard_dto security_metric_dto stats_dto_from pagination_dto_from key_dto
    subdomain_dto tcp_port_dto admin_user_dto audit_dto active_tunnel_dto
dto_of PageName.dashboard p = dashboard_dto p
dto_of PageName.keys p = record (plain_dto p) { keys = map (key_dto false) p.keys }
dto_of PageName.subdomains p = record (plain_dto p) {
  tunnel_domain = p.tunnel_domain;
  subdomains = map (subdomain_dto false) p.subdomains;
}
dto_of PageName.tcp_ports p = record (plain_dto p) {
  ssh_host = p.ssh_host;
  ssh_port = p.ssh_port;
  tcp_ports = map (tcp_port_dto false) p.tcp_ports;
}
dto_of PageName.tunnels p = record (plain_dto p) {
  active_tunnels = map (active_tunnel_dto false) p.active_tunnels;
  active_tunnel_available = some p.active_tunnel_available;
}
dto_of PageName.admin_home p = record (plain_dto p) {
  stats = some (stats_dto_from p.stats);
  audit = map (audit_dto true) p.audit;
}
dto_of PageName.admin_users p = record (plain_dto p) {
  users = map admin_user_dto p.users;
  pagination = some (pagination_dto_from p.pagination);
}
dto_of PageName.admin_keys p = record (plain_dto p) {
  keys = map (key_dto true) p.keys;
  pagination = some (pagination_dto_from p.pagination);
}
dto_of PageName.admin_subdomains p = record (plain_dto p) {
  tunnel_domain = p.tunnel_domain;
  subdomains = map (subdomain_dto true) p.subdomains;
  pagination = some (pagination_dto_from p.pagination);
}
dto_of PageName.admin_tcp_ports p = record (plain_dto p) {
  tcp_ports = map (tcp_port_dto true) p.tcp_ports;
  pagination = some (pagination_dto_from p.pagination);
}
dto_of PageName.admin_tunnels p = record (plain_dto p) {
  active_tunnels = map (active_tunnel_dto true) p.active_tunnels;
  active_tunnel_available = some p.active_tunnel_available;
  pagination = some (pagination_dto_from p.pagination);
}
dto_of PageName.admin_security p = record (plain_dto p) {
  security_metrics = map security_metric_dto p.security_metrics;
  pagination = some (pagination_dto_from p.pagination);
}

unfoldable pub new_page_dto : Page → PageDto
unfolding dto_of
new_page_dto p = dto_of p.page p

-- `render`, or status 500.
unfoldable pub rendered : Viewed → Option PageDto
unfolding new_page_dto
rendered broken = none
rendered (viewed p) = some (new_page_dto p)
