-- ===== src/Web/View/Dto/Types.antt =====
-- The JSON objects of app/internal/web/api_dto.go. A member that is left out where it has its zero
-- value stands as that value, and one that is a pointer as an Option.
use tunnel_service.Prelude.{ℕ, ℤ, String, Text, Bool, Option, List}
use tunnel_service.Model.{Role, UserStatus, Protocol, TunnelStatus, Time}
use tunnel_service.Web.Pages.{PageName}
use tunnel_service.Web.Paging.{DnsConflict}

pub record CurrentUserDto : Type 0 where
  pub username : String
  pub display_name : String
  pub avatar_url : String
  pub role : Role

pub record AdminUserDto : Type 0 where
  pub id : ℕ
  pub discord_id : String
  pub username : String
  pub email : String
  pub avatar_url : String
  pub role : Role
  pub status : UserStatus
  pub ssh_key_count : ℕ
  pub subdomain_count : ℕ
  pub tcp_port_count : ℕ

pub record KeyDto : Type 0 where
  pub id : ℕ
  pub owner : String
  pub name : Text
  pub public_key : Text
  pub fingerprint : String
  pub enabled : Bool

pub record SubdomainDto : Type 0 where
  pub id : ℕ
  pub owner : String
  pub name : Text
  pub dns_conflict : Option DnsConflict

pub record TcpPortDto : Type 0 where
  pub id : ℕ
  pub owner : String
  pub port : ℕ

pub record AuditDto : Type 0 where
  pub action : String
  pub source_ip : String

pub record ActiveTunnelDto : Type 0 where
  pub owner : String
  pub key_name : Text
  pub protocol : Protocol
  pub hostname : Text
  pub source_ip : String
  pub status : TunnelStatus
  pub tcp_port : ℕ
  pub connected_at : Time

pub record SecurityMetricDto : Type 0 where
  pub bucket_start : ℕ
  pub event_type : String
  pub count : ℕ

pub record StatsDto : Type 0 where
  pub users : ℕ
  pub active_users : ℕ
  pub ssh_keys : ℕ
  pub subdomains : ℕ
  pub tcp_ports : ℕ
  pub suspended_users : ℕ
  pub active_tunnels : ℕ

-- A link is the value of its page parameter, `none` where there is no link.
pub record PaginationDto : Type 0 where
  pub page : ℕ
  pub previous_url : Option Text
  pub next_url : Option Text

pub record PageDto : Type 0 where
  pub title : String
  pub page : PageName
  pub csrf : String
  pub flash : String
  pub error : Text
  pub user : CurrentUserDto
  pub tunnel_domain : Text
  pub ssh_host : Text
  pub connect_command : Text
  pub tcp_connect_command : Text
  pub ssh_port : ℤ
  pub key_count : ℕ
  pub subdomain_count : ℕ
  pub tcp_port_count : ℕ
  pub first_tcp_port : ℕ
  pub active_tunnel_count : ℕ
  pub keys : List KeyDto
  pub subdomains : List SubdomainDto
  pub tcp_ports : List TcpPortDto
  pub users : List AdminUserDto
  pub audit : List AuditDto
  pub active_tunnels : List ActiveTunnelDto
  pub security_metrics : List SecurityMetricDto
  pub stats : Option StatsDto
  pub pagination : Option PaginationDto
  pub active_tunnel_available : Option Bool
