-- ===== src/Web/View/Own.antt =====
-- The rows that a member's page reads: the pages of app/internal/web/server.go over the
-- queries of app/internal/store/store.go and hardening.go.
use tunnel_service.Prelude.{ℕ, ◌≡◌, refl, Text, Bool, false, some, []}
use tunnel_service.Model.{Result}
use tunnel_service.Store.Db.{Db}
use tunnel_service.Store.Listing.{
  tunnel_sync_state, keys_by_user, subdomains_by_user, tcp_ports_by_user, active_tunnels,
  recent_audit,
}
use tunnel_service.Service.World.{
  World, Fault, works, fails_before, fails_after, stored, next_fault, rest_of,
}
use tunnel_service.Config.{Config}
use tunnel_service.Web.Session.{Current}
use tunnel_service.Web.Pages.{PageName, is_admin_page}
use tunnel_service.Web.View.{
  read_or, dashboard_page, keys_view, tunnels_view, subdomains_view, tcp_ports_view, view,
}
use tunnel_service.Web.View.Content.{Orders, Query}
use tunnel_service.Web.View.Dto.{rendered}
use tunnel_service.Web.View.Only.{
  only, hide, only-available, keys_by_user-only, subdomains_by_user-only, tcp_ports_by_user-only,
  recent_audit-only, active_tunnels-only,
}

-- A read takes the next fault and leaves the database.
abbrev value : {A : Type 0} → Fault → A → A → A
value works a x = x
value fails_before a x = a
value fails_after a x = a

read_or-eq :
    {A : Type 0} (a : A) (query : Db → A) (w : World)
    → read_or a query w ≡ (value (next_fault w.faults) a (query w.db), rest_of w)
unfolding stored
read_or-eq a query w = go (next_fault w.faults) refl
  where
    go :
        (t : Fault)
        → next_fault w.faults ≡ t
        → read_or a query w ≡ (value (next_fault w.faults) a (query w.db), rest_of w)
    go works e = rw e refl
    go fails_before e = rw e refl
    go fails_after e = rw e refl

read_or-hide :
    {A : Type 0} (a : A) (query : Db → A) (id : ℕ)
    → ((db : Db) → query (only id db) ≡ query db)
    → (w : World)
    → read_or a query (hide id w) ≡ ((read_or a query w).0, hide id (read_or a query w).1)
read_or-hide a query id h w = rw (read_or-eq a query (hide id w), read_or-eq a query w, h w.db) refl

-- A member's page, as it is sent, is the same over the database without the rows of other users, but
-- for the id, the owner's id and the name of the keys that the member's tunnels name, whatever calls of
-- the store fail.
pub view-only :
    (o : Orders) (dns : Text → Result Bool) (cfg : Config) (q : Query) (c : Current)
    (name : PageName) (w : World)
    → is_admin_page name ≡ false
    → rendered (view o dns cfg q c name (hide c.user.id w)).0
      ≡ rendered (view o dns cfg q c name w).0
unfolding view keys_view subdomains_view tcp_ports_view tunnels_view dashboard_page
view-only o dns cfg q c PageName.keys w h =
    let id = c.user.id in
    rw (read_or-hide [] (keys_by_user o.keys id) id (keys_by_user-only o.keys id) w) refl
view-only o dns cfg q c PageName.subdomains w h =
    let id = c.user.id in
    rw
      (read_or-hide [] (subdomains_by_user o.subdomains id) id
        (subdomains_by_user-only o.subdomains id) w)
      refl
view-only o dns cfg q c PageName.tcp_ports w h =
    let id = c.user.id in
    rw
      (read_or-hide [] (tcp_ports_by_user o.tcp_ports id) id (tcp_ports_by_user-only o.tcp_ports id)
        w)
      refl
view-only o dns cfg q c PageName.tunnels w h =
    let id = c.user.id in
    let tunnels = active_tunnels o.tunnels (some id) in
    rw
      (
        read_or-hide [] tunnels id (active_tunnels-only o.tunnels id) w,
        read_or-hide false (λ db. (tunnel_sync_state db).available) id (only-available id)
            (read_or [] tunnels w).1,
      )
      refl
view-only o dns cfg q c PageName.dashboard w h =
    let id = c.user.id in
    let keys = keys_by_user o.keys id in
    let subdomains = subdomains_by_user o.subdomains id in
    let tcp_ports = tcp_ports_by_user o.tcp_ports id in
    let audit = recent_audit o.audit (some id) 8 in
    let tunnels = active_tunnels o.tunnels (some id) in
    let w1 = (read_or [] keys w).1 in
    let w2 = (read_or [] subdomains w1).1 in
    let w3 = (read_or [] tcp_ports w2).1 in
    let w4 = (read_or [] audit w3).1 in
    let w5 = (read_or [] tunnels w4).1 in
    rw
      (
        read_or-hide [] keys id (keys_by_user-only o.keys id) w,
        read_or-hide [] subdomains id (subdomains_by_user-only o.subdomains id) w1,
        read_or-hide [] tcp_ports id (tcp_ports_by_user-only o.tcp_ports id) w2,
        read_or-hide [] audit id (recent_audit-only o.audit id 8) w3,
        read_or-hide [] tunnels id (active_tunnels-only o.tunnels id) w4,
        read_or-hide false (λ db. (tunnel_sync_state db).available) id (only-available id) w5,
      )
      refl
view-only o dns cfg q c PageName.admin_home w h = cc
view-only o dns cfg q c PageName.admin_users w h = cc
view-only o dns cfg q c PageName.admin_keys w h = cc
view-only o dns cfg q c PageName.admin_subdomains w h = cc
view-only o dns cfg q c PageName.admin_tcp_ports w h = cc
view-only o dns cfg q c PageName.admin_tunnels w h = cc
view-only o dns cfg q c PageName.admin_security w h = cc
