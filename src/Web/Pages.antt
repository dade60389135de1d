-- ===== src/Web/Pages.antt =====
-- GET /api/page of app/internal/web/server.go: `apiPage`, which loads the page whose path the query
-- parameter names. `parse` is Go's `url.ParseRequestURI`.
pub mod Shown
use tunnel_service.Prelude.{
  Text, codes, text_eq, Bool, true, false, not, ◌&&◌, ◌||◌, Option, none, some, List, [], ◌∷◌, ◌==◌,
  if◌then◌else◌,
}
use tunnel_service.Model.{is_admin}
use tunnel_service.Store.Db.{Db}
use tunnel_service.Web.Session.{
  Request, Current, Outcome, redirect_login, refused, passed, auth, admin,
}

-- What the handler reads of a URL.
pub record Url : Type 0 where
  pub is_abs : Bool
  pub host : Text
  pub path : Text

pub data PageName : Type 0 where
  dashboard keys subdomains tcp_ports tunnels : PageName
  admin_home admin_users admin_keys admin_subdomains : PageName
  admin_tcp_ports admin_tunnels admin_security : PageName

abbrev pub is_admin_page : PageName → Bool
is_admin_page admin_home = true
is_admin_page admin_users = true
is_admin_page admin_keys = true
is_admin_page admin_subdomains = true
is_admin_page admin_tcp_ports = true
is_admin_page admin_tunnels = true
is_admin_page admin_security = true
is_admin_page _ = false

unfoldable pub member_page : Text → Option PageName
member_page path =
    if text_eq path (codes "/")
    then some dashboard
    else if text_eq path (codes "/keys")
    then some keys
    else if text_eq path (codes "/subdomains")
    then some subdomains
    else if text_eq path (codes "/tcp-ports")
    then some tcp_ports
    else if text_eq path (codes "/tunnels")
    then some tunnels
    else none

unfoldable pub admin_page : Text → Option PageName
admin_page path =
    if text_eq path (codes "/admin")
    then some admin_home
    else if text_eq path (codes "/admin/users")
    then some admin_users
    else if text_eq path (codes "/admin/keys")
    then some admin_keys
    else if text_eq path (codes "/admin/subdomains")
    then some admin_subdomains
    else if text_eq path (codes "/admin/tcp-ports")
    then some admin_tcp_ports
    else if text_eq path (codes "/admin/tunnels")
    then some admin_tunnels
    else if text_eq path (codes "/admin/security")
    then some admin_security
    else none

abbrev pub Loaded : Type 0
Loaded = PageName × Current

abbrev pub load_page : Option PageName → Option PageName → Current → Outcome Loaded
load_page (some p) other c = passed (p, c)
load_page none (some p) c = admin (λ d. passed (p, d)) c
load_page none none c = refused 404

abbrev pub starts_with_slash : Text → Bool
starts_with_slash [] = false
starts_with_slash (c ∷ s) = c == b'/'

abbrev pub no_host : Text → Bool
no_host [] = true
no_host (c ∷ s) = false

abbrev pub page_at : Option Url → Current → Outcome Loaded
page_at none c = refused 400
page_at (some u) c =
    if u.is_abs || not (no_host u.host) || not (starts_with_slash u.path)
    then refused 400
    else load_page (member_page u.path) (admin_page u.path) c

unfoldable pub api_page : (Text → Option Url) → Text → Request → Db → Outcome Loaded
unfolding member_page admin_page
api_page parse target r db = auth r db (page_at (parse target))
