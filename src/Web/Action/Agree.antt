-- ===== src/Web/Action/Agree.antt =====
-- The two routes to a handler in app/internal/web/server.go agree: its own path, and POST
-- /api/action with that path in the form.
use tunnel_service.Prelude.{
  any, ◌==◌, ◌≡◌, ◌≢◌, refl, sym, ap, subst, ◌∙◌, arith, Text, codes, text_eq, text_eq_iff, Bool,
  true, false, Option, none, some, List, [], ◌∷◌, All, if◌then◌else◌, inl, inr, Bool-cases, str_eq,
}
use tunnel_service.Model.{is_admin}
use tunnel_service.Store.Db.{Db}
use tunnel_service.Web.Session.{
  current, Request, Form, Current, Outcome, refused, csrf, admin, auth, or_login, check_form,
}
use tunnel_service.Web.Action.{
  Action, Ready, is_for_admin, admin_action, post_route, plain_action, post, by_parts, api_action,
  post_api, split_slash, trim_slashes, logout, key_add, subdomain_reserve, tcp_port_reserve,
  guarded, run,
}
use tunnel_service.Web.Action.Allowed.{member_action-role}
use tunnel_service.Web.Action.Paths.{IsSegment, path_of, split-path_of, path_of_inj}

-- What `api_action` does once the path's own tests are done.
abbrev permit : Bool → Action → Form → Current → Outcome Ready
permit true a f c = admin (run a f) c
permit false a f c = run a f c

-- A path of several segments is none of the four short ones.
not_plain :
    (x y : Text) (rest : List Text) (k : Text)
    → All IsSegment (x ∷ y ∷ rest)
    → IsSegment k
    → text_eq (path_of (x ∷ y ∷ rest)) (path_of (k ∷ [])) ≡ false
not_plain x y rest k w h = elim (Bool-cases (text_eq (path_of (x ∷ y ∷ rest)) (path_of (k ∷ [])))) [
  | inr e ↦ e
  | inl e ↦
      let same = (text_eq_iff _ _).0 e in
      let parts : x ∷ y ∷ rest ≡ k ∷ [] = path_of_inj x k (y ∷ rest) [] w.0 w.1 h tt same in cc
]

-- A path of one segment is the short one that the segment names.
plain-path :
    (x k : Text)
    → IsSegment x
    → IsSegment k
    → text_eq (path_of (x ∷ [])) (path_of (k ∷ [])) ≡ text_eq x k
plain-path x k hx hk = elim (Bool-cases (text_eq x k)) [
  | inl e ↦
      let same = (text_eq_iff x k).0 e in
      (text_eq_iff (path_of (x ∷ [])) (path_of (k ∷ []))).1 (ap (λ s. path_of (s ∷ [])) same)
      ∙ sym e
  | inr e ↦ elim (Bool-cases (text_eq (path_of (x ∷ [])) (path_of (k ∷ [])))) [
    | inr q ↦ q ∙ sym e
    | inl q ↦
        let same = (text_eq_iff _ _).0 q in
        let parts : x ∷ [] ≡ k ∷ [] = path_of_inj x k [] [] hx tt hk tt same in
        let one : x ≡ k = cc in absurd (let t = (text_eq_iff x k).1 one in cc)
  ]
]

abbrev first_of {ℓ} : {A : Type ℓ} → Bool → Bool → Bool → Bool → A → A → A → A → A → A
first_of t1 t2 t3 t4 a1 a2 a3 a4 rest =
    if t1 then a1 else if t2 then a2 else if t3 then a3 else if t4 then a4 else rest

-- `api_action` on a path of its own.
abbrev api_at : Text → Form → Current → Outcome Ready
api_at path f c =
    first_of (text_eq path (codes "/logout")) (text_eq path (codes "/keys"))
      (text_eq path (codes "/subdomains")) (text_eq path (codes "/tcp-ports")) (run logout f c)
      (run key_add f c) (run subdomain_reserve f c) (run tcp_port_reserve f c)
      (by_parts (split_slash (trim_slashes path)) f c)

api_action-at : (f : Form) (c : Current) → api_action f c ≡ api_at f.action f c
unfolding api_action
api_action-at f c = refl

run-permit :
    (b a : Action) (f : Form) (c : Current)
    → is_for_admin b ≡ false
    → ◌≡◌ {A = Option Action} (some b) (some a)
    → run b f c ≡ permit (is_for_admin a) a f c
run-permit b a f c m h =
    let same : b ≡ a = cc in subst (λ x. run b f c ≡ permit (is_for_admin x) x f c) same (rw m refl)

first_of-run :
    (t1 t2 t3 t4 : Bool) (rest : Outcome Ready) (a : Action) (f : Form) (c : Current)
    → first_of t1 t2 t3 t4
        (some logout)
        (some key_add)
        (some subdomain_reserve)
        (some tcp_port_reserve)
        none
      ≡ some a
    → first_of t1 t2 t3 t4
        (run logout f c)
        (run key_add f c)
        (run subdomain_reserve f c)
        (run tcp_port_reserve f c)
        rest
      ≡ permit (is_for_admin a) a f c
first_of-run true t2 t3 t4 rest a f c h = run-permit logout a f c refl h
first_of-run false true t3 t4 rest a f c h = run-permit key_add a f c refl h
first_of-run false false true t4 rest a f c h = run-permit subdomain_reserve a f c refl h
first_of-run false false false true rest a f c h = run-permit tcp_port_reserve a f c refl h
first_of-run false false false false rest a f c h = cc

plain-IsSegment : (k : Text) → k ≢ [] → any (λ c. c == b'/') k ≡ false → IsSegment k
plain-IsSegment k n h = record { some_byte = n; no_slash = h }

logout-IsSegment : IsSegment (codes "logout")
unfolding any
logout-IsSegment = plain-IsSegment _ (λ e. cc) refl

keys-IsSegment : IsSegment (codes "keys")
unfolding any
keys-IsSegment = plain-IsSegment _ (λ e. cc) refl

subdomains-IsSegment : IsSegment (codes "subdomains")
unfolding any
subdomains-IsSegment = plain-IsSegment _ (λ e. cc) refl

tcp_ports-IsSegment : IsSegment (codes "tcp-ports")
unfolding any
tcp_ports-IsSegment = plain-IsSegment _ (λ e. cc) refl

plain-permit :
    (x : Text) (a : Action) (f : Form) (c : Current)
    → IsSegment x
    → plain_action x ≡ some a
    → api_at (path_of (x ∷ [])) f c ≡ permit (is_for_admin a) a f c
unfolding plain_action path_of
plain-permit x a f c w h =
    let e1 = plain-path x (codes "logout") w logout-IsSegment in
    let e2 = plain-path x (codes "keys") w keys-IsSegment in
    let e3 = plain-path x (codes "subdomains") w subdomains-IsSegment in
    let e4 = plain-path x (codes "tcp-ports") w tcp_ports-IsSegment in
    first_of-run (text_eq (path_of (x ∷ [])) (codes "/logout"))
      (text_eq (path_of (x ∷ [])) (codes "/keys"))
      (text_eq (path_of (x ∷ [])) (codes "/subdomains"))
      (text_eq (path_of (x ∷ [])) (codes "/tcp-ports")) _ a f c (rw (e1, e2, e3, e4) h)

-- A path of several segments goes to `by_parts`.
parts-api :
    (x y : Text) (rest : List Text) (f : Form) (c : Current)
    → All IsSegment (x ∷ y ∷ rest)
    → api_at (path_of (x ∷ y ∷ rest)) f c ≡ by_parts (x ∷ y ∷ rest) f c
unfolding path_of
parts-api x y rest f c w =
    let e1 = not_plain x y rest (codes "logout") w logout-IsSegment in
    let e2 = not_plain x y rest (codes "keys") w keys-IsSegment in
    let e3 = not_plain x y rest (codes "subdomains") w subdomains-IsSegment in
    let e4 = not_plain x y rest (codes "tcp-ports") w tcp_ports-IsSegment in
    rw (e1, e2, e3, e4) (ap (λ p. by_parts p f c) (split-path_of x (y ∷ rest) w.0 w.1))

admin_action-role :
    (kind id verb : Text) (a : Action) → admin_action kind id verb ≡ some a → is_for_admin a ≡ true
unfolding admin_action
admin_action-role kind id verb a h = ground arith

parts-permit :
    (x y : Text) (rest : List Text) (a : Action) (f : Form) (c : Current)
    → post_route (x ∷ y ∷ rest) ≡ some a
    → by_parts (x ∷ y ∷ rest) f c ≡ permit (is_for_admin a) a f c
unfolding post_route
parts-permit x y [] a f c h = cc
parts-permit x y (z ∷ []) a f c h = rw (h, member_action-role x y z a h) refl
parts-permit x y (z ∷ w ∷ []) a f c h = elim (Bool-cases (text_eq x (codes "admin"))) [
  | inl e ↦
      let k : admin_action y z w ≡ some a = rw e at h in rw (e, k, admin_action-role y z w a k) refl
  | inr e ↦ let k = rw e at h in cc
]
parts-permit x y (z ∷ w ∷ v ∷ rest) a f c h = cc

api_action-permit :
    (path : List Text) (a : Action) (f : Form) (c : Current)
    → All IsSegment path
    → post_route path ≡ some a
    → f.action ≡ path_of path
    → api_action f c ≡ permit (is_for_admin a) a f c
unfolding post_route
api_action-permit [] a f c w h e = cc
api_action-permit (x ∷ []) a f c w h e =
    api_action-at f c ∙ ap (λ p. api_at p f c) e ∙ plain-permit x a f c w.0 h
api_action-permit (x ∷ y ∷ rest) a f c w h e =
    api_action-at f c
    ∙ ap (λ p. api_at p f c) e
    ∙ parts-api x y rest f c w
    ∙ parts-permit x y rest a f c h

-- The test of the token and that of the role refuse alike, in either order.
guards_swap :
    (t u : Bool) (x : Outcome Ready)
    → (if u then if t then x else refused 403 else refused 403)
      ≡ (if t then if u then x else refused 403 else refused 403)
guards_swap true u x = refl
guards_swap false true x = refl
guards_swap false false x = refl

csrf-form :
    (r : Request) (next : Form → Current → Outcome Ready) (f : Form) (c : Current)
    → r.form ≡ some f
    → csrf r next c ≡ (if str_eq f.csrf_token c.csrf then next f c else refused 403)
unfolding csrf
csrf-form r next f c e = ap (λ o. check_form o next c) e

guards-permit :
    (admins : Bool) (a : Action) (f : Form) (c : Current) (next : Form → Current → Outcome Ready)
    → next f c ≡ permit admins a f c
    → (r : Request) → r.form ≡ some f
    → guarded admins r (run a) c ≡ csrf r next c
unfolding admin
guards-permit true a f c next h r e =
    ap (λ o. if is_admin c.user.role then o else refused 403) (csrf-form r (run a) f c e)
    ∙ guards_swap (str_eq f.csrf_token c.csrf) (is_admin c.user.role) (run a f c)
    ∙ sym
        (csrf-form r next f c e ∙ ap (λ o. if str_eq f.csrf_token c.csrf then o else refused 403) h)
guards-permit false a f c next h r e =
    csrf-form r (run a) f c e
    ∙ sym
        (csrf-form r next f c e ∙ ap (λ o. if str_eq f.csrf_token c.csrf then o else refused 403) h)

-- A POST to the path of a handler and a POST to /api/action whose form names that path have the
-- same outcome: the same redirect, the same refusal, or the same handler with the same arguments,
-- whatever the session, the CSRF token and the role. The path's segments have a byte and no slash,
-- the path is a handler's, and the form can be read.
pub post-post_api :
    (path : List Text) (r : Request) (db : Db) (a : Action) (f : Form)
    → All IsSegment path
    → post_route path ≡ some a
    → r.form ≡ some f
    → f.action ≡ path_of path
    → post path r db ≡ post_api r db
unfolding post post_api auth
post-post_api path r db a f w h e p = rw h (go (current r db))
  where
    go :
        (o : Option Current)
        → or_login o (guarded (is_for_admin a) r (run a)) ≡ or_login o (csrf r api_action)
    go none = refl
    go (some c) =
        guards-permit (is_for_admin a) a f c api_action (api_action-permit path a f c w h p) r e
