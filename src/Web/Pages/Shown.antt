-- ===== src/Web/Pages/Shown.antt =====
-- Whom GET /api/page of app/internal/web/server.go shows a page.
use tunnel_service.Prelude.{
  ◌≡◌, ◌⊎◌, refl, subst, inl, inr, arith, Text, true, false, not, ◌||◌, Option, none, some,
  Bool-cases,
}
use tunnel_service.Model.{is_admin}
use tunnel_service.Store.Db.{Db}
use tunnel_service.Web.Session.{Request, Current, passed}
use tunnel_service.Web.Session.Guards.{IsSession, auth-passed, admin-passed, current-IsSession}
use tunnel_service.Web.Pages.{
  Url, PageName, is_admin_page, member_page, admin_page, load_page, page_at, api_page, no_host,
  starts_with_slash,
}

-- The page is for the session's user, and one for administrators for an administrator.
pub record IsShown (r : Request) (db : Db) (p : PageName) (c : Current) : Type 0 where
  pub session : IsSession r db c
  pub role : (is_admin_page p ≡ false) ⊎ (is_admin c.user.role ≡ true)

member_page-role :
    (path : Text) (p : PageName) → member_page path ≡ some p → is_admin_page p ≡ false
unfolding member_page
member_page-role path p h = ground arith

load_page-role :
    (m a : Option PageName) (d : Current) (p : PageName) (c : Current)
    → ((q : PageName) → m ≡ some q → is_admin_page q ≡ false)
    → load_page m a d ≡ passed (p, c)
    → (d ≡ c) × ((is_admin_page p ≡ false) ⊎ (is_admin d.user.role ≡ true))
load_page-role (some q) a d p c k h =
    let same : q ≡ p = cc in (cc, inl (subst (λ x. is_admin_page x ≡ false) same (k q refl)))
load_page-role none (some q) d p c k h =
    let (role, done) = admin-passed (λ e. passed (q, e)) d (p, c) h in (cc, inr role)
load_page-role none none d p c k h = cc

page_at-role :
    (u : Option Url) (d : Current) (p : PageName) (c : Current)
    → page_at u d ≡ passed (p, c)
    → (d ≡ c) × ((is_admin_page p ≡ false) ⊎ (is_admin d.user.role ≡ true))
page_at-role none d p c h = cc
page_at-role (some u) d p c h =
    elim (Bool-cases (u.is_abs || not (no_host u.host) || not (starts_with_slash u.path))) [
      | inl e ↦ let k = rw e at h in cc
      | inr e ↦
          let k = rw e at h in
          load_page-role (member_page u.path) (admin_page u.path) d p c (member_page-role u.path) k
    ]

-- Whatever the query names, a page that GET /api/page loads is loaded for the user of an unexpired
-- session, who is active, and a page for administrators only for an administrator.
pub api_page-IsShown :
    (parse : Text → Option Url) (target : Text) (r : Request) (db : Db) (p : PageName) (c : Current)
    → api_page parse target r db ≡ passed (p, c)
    → IsShown r db p c
unfolding api_page
api_page-IsShown parse target r db p c h =
    let (d, found, ran) = auth-passed r db (page_at (parse target)) (p, c) h in
    let (same, role) = page_at-role (parse target) d p c ran in
    record {
      session = subst (IsSession r db) same (current-IsSession r db d found);
      role = subst (λ x. (is_admin_page p ≡ false) ⊎ (is_admin x.user.role ≡ true)) same role;
    }
