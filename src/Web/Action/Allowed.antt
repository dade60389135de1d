-- ===== src/Web/Action/Allowed.antt =====
-- A handler of app/internal/web/server.go runs only behind its guards, by either route to it.
use tunnel_service.Prelude.{
  ◌≡◌, refl, sym, arith, ap, subst, ◌∙◌, Text, codes, text_eq, Bool, true, false, Option, none,
  some, List, [], ◌∷◌, if◌then◌else◌, ◌⊎◌, inl, inr, Bool-cases,
}
use tunnel_service.Model.{is_admin}
use tunnel_service.Store.Db.{Db}
use tunnel_service.Web.Session.{current, Request, Form, Current, Outcome, passed, csrf}
use tunnel_service.Web.Session.Guards.{
  IsSession, auth-passed, admin-passed, csrf-passed, current-IsSession,
}
use tunnel_service.Web.Action.{
  Action, Ready, is_for_admin, member_action, admin_action, post_route, route_outcome, post,
  by_parts, api_action, post_api, split_slash, trim_slashes, logout, key_add, subdomain_reserve,
  tcp_port_reserve, guarded, run, or_none,
}

-- What has been established when a handler runs: the request carries a session of an active user
-- and the session's CSRF token, and the handler is for every user or the user is an administrator.
pub record IsAllowed (r : Request) (db : Db) (a : Action) (f : Form) (c : Current) : Type 0 where
  pub session : IsSession r db c
  pub form : r.form ≡ some f
  pub token : f.csrf_token ≡ c.csrf
  pub role : (is_for_admin a ≡ false) ⊎ (is_admin c.user.role ≡ true)

-- The guards of `routes` round a handler.
guarded-role :
    (admins : Bool) (r : Request) (b : Action) (c : Current) (x : Ready)
    → guarded admins r (run b) c ≡ passed x
    → ((admins ≡ false) ⊎ (is_admin c.user.role ≡ true)) × (csrf r (run b) c ≡ passed x)
guarded-role true r b c x h = let e = admin-passed (csrf r (run b)) c x h in (inr e.0, e.1)
guarded-role false r b c x h = (inl refl, h)

-- A handler that runs on the form g and the user d, and is allowed for that user.
record IsChoice (a : Action) (f : Form) (c : Current) (g : Form) (d : Current) : Type 0 where
  pub same_form : g ≡ f
  pub same_user : d ≡ c
  pub role : (is_for_admin a ≡ false) ⊎ (is_admin d.user.role ≡ true)

choice-IsAllowed :
    (r : Request) (db : Db) (a : Action) (f : Form) (c : Current) (g : Form) (d : Current)
    → current r db ≡ some d
    → r.form ≡ some g
    → g.csrf_token ≡ d.csrf
    → IsChoice a f c g d
    → IsAllowed r db a f c
choice-IsAllowed r db a f c g d found form token w = record {
  session = subst (IsSession r db) w.same_user (current-IsSession r db d found);
  form = form ∙ ap (λ x. some x) w.same_form;
  token = ap (λ x. x.csrf_token) (sym w.same_form) ∙ token ∙ ap (λ x. x.csrf) w.same_user;
  role = subst (λ x. (is_for_admin a ≡ false) ⊎ (is_admin x.user.role ≡ true)) w.same_user w.role;
}

run-IsChoice :
    (b : Action) (g : Form) (d : Current) (a : Action) (f : Form) (c : Current)
    → (is_for_admin b ≡ false) ⊎ (is_admin d.user.role ≡ true)
    → run b g d ≡ passed (a, f, c)
    → IsChoice a f c g d
run-IsChoice b g d a f c role h =
    let same : b ≡ a = cc in
    record {
      same_form = cc;
      same_user = cc;
      role = subst (λ x. (is_for_admin x ≡ false) ⊎ (is_admin d.user.role ≡ true)) same role;
    }

route-IsAllowed :
    (o : Option Action) (r : Request) (db : Db) (a : Action) (f : Form) (c : Current)
    → route_outcome o r db ≡ passed (a, f, c)
    → IsAllowed r db a f c
route-IsAllowed none r db a f c h = cc
route-IsAllowed (some b) r db a f c h =
    let (d, found, ran) = auth-passed r db _ (a, f, c) h in
    let (role, checked) = guarded-role (is_for_admin b) r b d (a, f, c) ran in
    let (g, form, token, done) = csrf-passed r (run b) d (a, f, c) checked in
    choice-IsAllowed r db a f c g d found form token (run-IsChoice b g d a f c role done)

pub member_action-role :
    (kind id verb : Text) (a : Action)
    → member_action kind id verb ≡ some a
    → is_for_admin a ≡ false
unfolding member_action
member_action-role kind id verb a h = ground arith

or_none-IsChoice :
    (o : Option Action) (g : Form) (d : Current) (a : Action) (f : Form) (c : Current)
    → ((b : Action) → o ≡ some b → (is_for_admin b ≡ false) ⊎ (is_admin d.user.role ≡ true))
    → or_none o g d ≡ passed (a, f, c)
    → IsChoice a f c g d
or_none-IsChoice none g d a f c role h = cc
or_none-IsChoice (some b) g d a f c role h = run-IsChoice b g d a f c (role b refl) h

by_parts-IsChoice :
    (parts : List Text) (g : Form) (d : Current) (a : Action) (f : Form) (c : Current)
    → by_parts parts g d ≡ passed (a, f, c)
    → IsChoice a f c g d
by_parts-IsChoice [] g d a f c h = cc
by_parts-IsChoice (x ∷ []) g d a f c h = cc
by_parts-IsChoice (x ∷ y ∷ []) g d a f c h = cc
by_parts-IsChoice (x ∷ y ∷ z ∷ []) g d a f c h =
    or_none-IsChoice (member_action x y z) g d a f c (λ b e. inl (member_action-role x y z b e)) h
by_parts-IsChoice (x ∷ y ∷ z ∷ w ∷ []) g d a f c h = elim (Bool-cases (text_eq x (codes "admin"))) [
  | inl e ↦
      let k = rw e at h in
      let (role, done) = admin-passed (or_none (admin_action y z w) g) d (a, f, c) k in
      or_none-IsChoice (admin_action y z w) g d a f c (λ b q. inr role) done
  | inr e ↦ let k = rw e at h in cc
]
by_parts-IsChoice (x ∷ y ∷ z ∷ w ∷ v ∷ rest) g d a f c h = cc

tried :
    (t : Bool) (b : Action) (next : Outcome Ready) (g : Form) (d : Current) (a : Action) (f : Form)
    (c : Current)
    → is_for_admin b ≡ false
    → (next ≡ passed (a, f, c) → IsChoice a f c g d)
    → (if t then run b g d else next) ≡ passed (a, f, c)
    → IsChoice a f c g d
tried true b next g d a f c role other h = run-IsChoice b g d a f c (inl role) h
tried false b next g d a f c role other h = other h

api_action-IsChoice :
    (g : Form) (d : Current) (a : Action) (f : Form) (c : Current)
    → api_action g d ≡ passed (a, f, c)
    → IsChoice a f c g d
unfolding api_action
api_action-IsChoice g d a f c = tried _ logout _ g d a f c refl (
    tried _ key_add _ g d a f c refl (
      tried _ subdomain_reserve _ g d a f c refl (
        tried _ tcp_port_reserve _ g d a f c refl
          (by_parts-IsChoice (split_slash (trim_slashes g.action)) g d a f c))))

-- Whatever the path, a POST that reaches a handler, whether through its own route or through POST
-- /api/action, carries a session that the database holds and that has not expired, of a user who is
-- active and is the one the handler gets; its form has the session's CSRF token; and a handler for
-- administrators runs only for an administrator.
pub post-IsAllowed :
    (path : List Text) (r : Request) (db : Db) (a : Action) (f : Form) (c : Current)
    → (post path r db ≡ passed (a, f, c)) ⊎ (post_api r db ≡ passed (a, f, c))
    → IsAllowed r db a f c
unfolding post post_api
post-IsAllowed path r db a f c (inl h) = route-IsAllowed (post_route path) r db a f c h
post-IsAllowed path r db a f c (inr h) =
    let (d, found, ran) = auth-passed r db _ (a, f, c) h in
    let (g, form, token, done) = csrf-passed r api_action d (a, f, c) ran in
    choice-IsAllowed r db a f c g d found form token (api_action-IsChoice g d a f c done)
