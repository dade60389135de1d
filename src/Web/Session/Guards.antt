-- ===== src/Web/Session/Guards.antt =====
-- What the guards of app/internal/web/server.go have established when a handler runs.
use tunnel_service.Prelude.{
  subst, ◌≡◌, refl, sym, ◌∙◌, ap, String, Bool, true, false, ◌&&◌, Option, none, some, arith, find,
  any, Row, find-Row, &&_parts, str_eq, eq_iff, ◌==◌, ==_iff, if◌then◌else◌, inl, inr, Bool-cases,
}
use tunnel_service.Model.{Time, User, UserStatus, Session, active, suspended, is_active, is_admin}
use tunnel_service.Store.Db.{Db}
use tunnel_service.Store.Auth.{session_user, session_owner}
use tunnel_service.Store.Stamp.{stamp_lt}
use tunnel_service.Web.Session.{
  Request, Form, Current, Outcome, passed, of_session, look_up, current, or_login, auth, admin,
  check_form, csrf,
}

-- The request shows a session that the database holds, of an active user.
pub record IsSession (r : Request) (db : Db) (c : Current) : Type 0 where
  pub session : Session
  pub row : Row session db.sessions
  pub shown : r.session ≡ some session.token_hash
  pub unexpired : stamp_lt r.now session.expires_at ≡ true
  pub user_row : Row c.user db.users
  pub owner : c.user.id ≡ session.user_id
  pub token : c.csrf ≡ session.csrf_token
  pub user_active : c.user.status ≡ active

owned :
    (s : Session) (db : Db) (u : User) (t : String)
    → session_owner (some s) db ≡ some (u, t)
    → (find (λ (v : User). v.id == s.user_id) db.users ≡ some u) × (t ≡ s.csrf_token)
unfolding session_owner
owned s db u t h = go (find (λ v. v.id == s.user_id) db.users) refl h
  where
    go :
        (o : Option User)
        → find (λ (v : User). v.id == s.user_id) db.users ≡ o
        → elim o as (λ x. Option (User × String)) [ none ↦ none | some u ↦ some (u, s.csrf_token) ]
          ≡ some (u, t)
        → (find (λ (v : User). v.id == s.user_id) db.users ≡ some u) × (t ≡ s.csrf_token)
    go none e k = cc
    go (some v) e k = (cc, cc)

-- The user that a cookie's hash finds.
session_user-rows :
    (h : String) (now : Time) (db : Db) (u : User) (t : String)
    → session_user h now db ≡ some (u, t)
    → (s : Session) × Row s db.sessions
      × (s.token_hash ≡ h)
      × (stamp_lt now s.expires_at ≡ true)
      × Row u db.users
      × (u.id ≡ s.user_id)
      × (t ≡ s.csrf_token)
unfolding session_user session_owner
session_user-rows h now db u t e = go (find shows db.sessions) refl e
  where
    shows : Session → Bool
    shows s =
        str_eq s.token_hash h
        && (stamp_lt now s.expires_at && any (λ v. v.id == s.user_id) db.users)

    go :
        (o : Option Session)
        → find shows db.sessions ≡ o
        → session_owner o db ≡ some (u, t)
        → (s : Session) × Row s db.sessions
          × (s.token_hash ≡ h)
          × (stamp_lt now s.expires_at ≡ true)
          × Row u db.users
          × (u.id ≡ s.user_id)
          × (t ≡ s.csrf_token)
    go none f k = cc
    go (some s) f k =
        let row = find-Row shows db.sessions s f in
        let tests = &&_parts (str_eq s.token_hash h) _ row.1 in
        let rest = &&_parts (stamp_lt now s.expires_at) _ tests.1 in
        let o = owned s db u t k in
        let user = find-Row (λ (v : User). v.id == s.user_id) db.users u o.0 in
        (
          s,
          row.0,
          (eq_iff s.token_hash h).0 tests.0,
          rest.0,
          user.0,
          (==_iff u.id s.user_id).0 user.1,
          o.1,
        )

of_session-some :
    (o : Option (User × String)) (c : Current)
    → of_session o ≡ some c
    → (o ≡ some (c.user, c.csrf)) × (is_active c.user.status ≡ true)
of_session-some none c h = cc
of_session-some (some (u, t)) c h = go (is_active u.status) refl h
  where
    go :
        (b : Bool)
        → is_active u.status ≡ b
        → (if b then some (record { user = u; csrf = t }) else none) ≡ some c
        → (◌≡◌ {A = Option (User × String)} (some (u, t)) (some (c.user, c.csrf)))
          × (is_active c.user.status ≡ true)
    go true e k =
        let made : Current = record { user = u; csrf = t } in
        let same : made ≡ c = cc in
        (ap (λ x. some (x.user, x.csrf)) same, subst (λ x. is_active x.user.status ≡ true) same e)
    go false e k = cc

is_active-active : (s : UserStatus) → is_active s ≡ true → s ≡ active
is_active-active active h = refl
is_active-active suspended h = cc

-- The session that the guard `auth` accepts.
pub current-IsSession :
    (r : Request) (db : Db) (c : Current) → current r db ≡ some c → IsSession r db c
unfolding current
current-IsSession r db c h = go r.session refl h
  where
    go : (o : Option String) → r.session ≡ o → look_up o r.now db ≡ some c → IsSession r db c
    go none e k = cc
    go (some t) e k =
        let o = of_session-some (session_user t r.now db) c k in
        let found = session_user-rows t r.now db c.user c.csrf o.0 in
        record {
          session = found.0;
          row = found.1;
          shown = e ∙ ap (λ x. some x) (sym found.2);
          unexpired = found.3;
          user_row = found.4;
          owner = found.5;
          token = found.6;
          user_active = is_active-active c.user.status o.1;
        }

pub auth-passed :
    {A : Type 0} (r : Request) (db : Db) (next : Current → Outcome A) (x : A)
    → auth r db next ≡ passed x
    → (c : Current) × (current r db ≡ some c) × (next c ≡ passed x)
unfolding auth
auth-passed {A} r db next x h = go (current r db) refl h
  where
    go :
        (o : Option Current)
        → current r db ≡ o
        → or_login o next ≡ passed x
        → (c : Current) × (current r db ≡ some c) × (next c ≡ passed x)
    go none e k = cc
    go (some c) e k = (c, e, k)

pub admin-passed :
    {A : Type 0} (next : Current → Outcome A) (c : Current) (x : A)
    → admin next c ≡ passed x
    → (is_admin c.user.role ≡ true) × (next c ≡ passed x)
unfolding admin
admin-passed next c x h = ground arith

pub csrf-passed :
    {A : Type 0} (r : Request) (next : Form → Current → Outcome A) (c : Current) (x : A)
    → csrf r next c ≡ passed x
    → (f : Form) × (r.form ≡ some f) × (f.csrf_token ≡ c.csrf) × (next f c ≡ passed x)
unfolding csrf
csrf-passed {A} r next c x h = go r.form refl h
  where
    go :
        (o : Option Form)
        → r.form ≡ o
        → check_form o next c ≡ passed x
        → (f : Form) × (r.form ≡ some f) × (f.csrf_token ≡ c.csrf) × (next f c ≡ passed x)
    go none e k = cc
    go (some f) e k = elim (Bool-cases (str_eq f.csrf_token c.csrf)) [
      | inl t ↦ let k2 = rw t at k in (f, e, (eq_iff f.csrf_token c.csrf).0 t, k2)
      | inr t ↦ let k2 = rw t at k in cc
    ]
