-- ===== src/Web/View.antt =====
-- The handlers of app/internal/web/server.go that load a page: `base` and what each of them reads of
-- the store. An error of a call that a page can do without is not looked at: its part stays empty, as a
-- call that fails is taken to have read no row.
pub mod Dto
pub mod Only
pub mod Own
pub mod Content
use tunnel_service.Prelude.{
  ℕ, suc, ℤ, pos, negsuc, String, Text, codes, text_eq, Bool, true, false, Option, none, some, List,
  [], ◌∷◌, ◌++◌, map,
}
use tunnel_service.Model.{
  Result, ok, err, User, SshKey, Subdomain, TcpPort, AuditLog, SecurityMetric,
}
use tunnel_service.Store.Db.{Db}
use tunnel_service.Store.Listing.{
  Order, UserRow, TunnelRow, Stats, keys_by_user, subdomains_by_user, tcp_ports_by_user,
  active_tunnels, recent_audit, tunnel_sync_state, stats, subdomains_page,
}
use tunnel_service.Service.World.{World, stored}
use tunnel_service.Config.{Config}
use tunnel_service.Web.Session.{Current}
use tunnel_service.Web.Pages.{PageName}
use tunnel_service.Web.Paging.{
  itoa, Pagination, ListReply, internal, shown, DnsConflict, admin_users, admin_keys,
  admin_subdomains, admin_tcp_ports, admin_tunnels, admin_security,
}
use tunnel_service.Web.View.Content.{
  Orders, Query, Page, flash, no_stats, no_pagination, itoa_int, first_label,
}

abbrev pub or_else : {A : Type 0} → A → Result A × World → A × World
or_else a (ok x, w) = (x, w)
or_else a (err e, w) = (a, w)

abbrev pub read_or : {A : Type 0} → A → (Db → A) → World → A × World
read_or a query w = or_else a (stored (λ db. ok (query db, db)) w)

abbrev pub unasked : Subdomain × String → Subdomain × String × Option DnsConflict
unasked (d, owner) = (d, owner, none)

abbrev pub asked : Subdomain × String × DnsConflict → Subdomain × String × Option DnsConflict
asked (d, owner, found) = (d, owner, some found)

-- A list that could not be read is answered with status 500.
pub data Viewed : Type 0 where
  broken : Viewed
  viewed : Page → Viewed

abbrev pub with_list :
    {A : Type 0} → (List A → Pagination → Page) → ListReply A × World → Viewed × World
with_list f (internal, w) = (broken, w)
with_list f (shown out p, w) = (viewed (f out p), w)

abbrev pub with_tunnels :
    (List TunnelRow → Bool → Pagination → Page)
    → (ListReply TunnelRow × Bool) × World
    → Viewed × World
with_tunnels f ((internal, available), w) = (broken, w)
with_tunnels f ((shown out p, available), w) = (viewed (f out available p), w)

module _ (o : Orders) (dns : Text → Result Bool) (cfg : Config) (q : Query) (c : Current) where
  unfoldable pub base : String → PageName → Page
  unfolding flash
  base title name = record {
    title = title;
    page = name;
    csrf = c.csrf;
    flash = flash q.flash;
    error = q.error;
    tunnel_domain = cfg.tunnel_domain;
    ssh_host = cfg.ssh_host;
    connect_command = [];
    ssh_port = cfg.sish_ssh_port;
    user = c.user;
    keys = [];
    subdomains = [];
    tcp_ports = [];
    users = [];
    audit = [];
    active_tunnels = [];
    security_metrics = [];
    stats = no_stats;
    pagination = no_pagination;
    active_tunnel_available = false;
  }

  unfoldable pub dashboard_page : World → Page × World
  unfolding base itoa_int
  dashboard_page w =
      let p = base "概要" PageName.dashboard in
      let (keys, w1) = read_or [] (keys_by_user o.keys c.user.id) w in
      let (subdomains, w2) = read_or [] (subdomains_by_user o.subdomains c.user.id) w1 in
      let (tcp_ports, w3) = read_or [] (tcp_ports_by_user o.tcp_ports c.user.id) w2 in
      let (audit, w4) = read_or [] (recent_audit o.audit (some c.user.id) 8) w3 in
      let (tunnels, w5) = read_or [] (active_tunnels o.tunnels (some c.user.id)) w4 in
      let (available, w6) = read_or false (λ db. (tunnel_sync_state db).available) w5 in
      (
        record p {
          keys = keys;
          subdomains = map unasked subdomains;
          tcp_ports = tcp_ports;
          audit = audit;
          active_tunnels = tunnels;
          active_tunnel_available = available;
          connect_command =
              codes "ssh -p "
              ++ itoa_int p.ssh_port
              ++ codes " -R "
              ++ first_label subdomains
              ++ codes ":80:localhost:3000 "
              ++ p.ssh_host;
        },
        w6,
      )

  unfoldable pub keys_view : World → Page × World
  unfolding base
  keys_view w =
      let (keys, w1) = read_or [] (keys_by_user o.keys c.user.id) w in
      (record (base "SSH公開鍵" PageName.keys) { keys = keys }, w1)

  unfoldable pub tunnels_view : World → Page × World
  unfolding base
  tunnels_view w =
      let (tunnels, w1) = read_or [] (active_tunnels o.tunnels (some c.user.id)) w in
      let (available, w2) = read_or false (λ db. (tunnel_sync_state db).available) w1 in
      (
        record (base "接続中のトンネル" PageName.tunnels) {
          active_tunnels = tunnels;
          active_tunnel_available = available;
        },
        w2,
      )

  unfoldable pub subdomains_view : World → Page × World
  unfolding base
  subdomains_view w =
      let (subdomains, w1) = read_or [] (subdomains_by_user o.subdomains c.user.id) w in
      (record (base "サブドメイン" PageName.subdomains) { subdomains = map unasked subdomains }, w1)

  unfoldable pub tcp_ports_view : World → Page × World
  unfolding base
  tcp_ports_view w =
      let (tcp_ports, w1) = read_or [] (tcp_ports_by_user o.tcp_ports c.user.id) w in
      (record (base "TCPポート" PageName.tcp_ports) { tcp_ports = tcp_ports }, w1)

  unfoldable pub admin_home_view : World → Page × World
  unfolding base
  admin_home_view w =
      let (found, w1) = read_or no_stats stats w in
      let (audit, w2) = read_or [] (recent_audit o.audit none 12) w1 in
      let (tunnels, w3) = read_or [] (active_tunnels o.tunnels none) w2 in
      let (available, w4) = read_or false (λ db. (tunnel_sync_state db).available) w3 in
      (
        record (base "管理概要" PageName.admin_home) {
          stats = found;
          audit = audit;
          active_tunnels = tunnels;
          active_tunnel_available = available;
        },
        w4,
      )

  abbrev always : Page × World → Viewed × World
  always (p, w) = (viewed p, w)

  -- The handler of each page.
  unfoldable pub view : PageName → World → Viewed × World
  unfolding dashboard_page keys_view tunnels_view subdomains_view tcp_ports_view admin_home_view
      base
  view PageName.dashboard w = always (dashboard_page w)
  view PageName.keys w = always (keys_view w)
  view PageName.subdomains w = always (subdomains_view w)
  view PageName.tcp_ports w = always (tcp_ports_view w)
  view PageName.tunnels w = always (tunnels_view w)
  view PageName.admin_home w = always (admin_home_view w)
  view PageName.admin_users w =
      with_list
        (λ out p. record (base "ユーザー管理" PageName.admin_users) { users = out; pagination = p })
        (admin_users o.users q.page w)
  view PageName.admin_keys w =
      with_list
        (λ out p. record (base "全SSH公開鍵" PageName.admin_keys) { keys = out; pagination = p })
        (admin_keys o.keys q.page w)
  view PageName.admin_subdomains w =
      with_list
        (λ out p. record (base "全サブドメイン" PageName.admin_subdomains) {
          subdomains = map asked out;
          pagination = p;
        })
        (admin_subdomains dns
          (λ limit offset. subdomains_page (λ d. true) o.subdomains limit offset) q.page w)
  view PageName.admin_tcp_ports w =
      with_list
        (λ out p. record (base "全TCPポート" PageName.admin_tcp_ports) {
          tcp_ports = out;
          pagination = p;
        })
        (admin_tcp_ports o.tcp_ports q.page w)
  view PageName.admin_tunnels w =
      with_tunnels
        (λ out available p. record (base "接続中のトンネル" PageName.admin_tunnels) {
          active_tunnels = out;
          active_tunnel_available = available;
          pagination = p;
        })
        (admin_tunnels o.tunnels q.page w)
  view PageName.admin_security w =
      with_list
        (λ out p. record (base "セキュリティ検知" PageName.admin_security) {
          security_metrics = out;
          pagination = p;
        })
        (admin_security o.security q.page w)
