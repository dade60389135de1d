-- ===== src/Web/Session.antt =====
-- The guards of app/internal/web/server.go before a handler: `auth`, `admin` and `csrf`.
pub mod Guards
use tunnel_service.Prelude.{
  ℕ, String, Text, Bool, true, false, not, ◌&&◌, Option, none, some, List, [], ◌∷◌, if◌then◌else◌,
  str_eq,
}
use tunnel_service.Model.{Time, User, is_active, is_admin}
use tunnel_service.Store.Db.{Db}
use tunnel_service.Store.Auth.{session_user}

-- The fields of a form that the handlers read.
pub record Form : Type 0 where
  pub csrf_token : String
  pub action : Text
  pub name : Text
  pub public_key : Text
  pub port : Text

-- What the guards read: the hash of the session cookie, the form, `none` where `ParseForm` refuses
-- it, the peer's address and the clock.
pub record Request : Type 0 where
  pub session : Option String
  pub form : Option Form
  pub source_ip : String
  pub wants_json : Bool
  pub now : Time

-- The user and the CSRF token of the session.
pub record Current : Type 0 where
  pub user : User
  pub csrf : String

pub data Outcome (A : Type 0) : Type 0 where
  redirect_login : Outcome A
  refused : ℕ → Outcome A
  passed : A → Outcome A

abbrev pub of_session : Option (User × String) → Option Current
of_session none = none
of_session (some (u, csrf)) =
    if is_active u.status then some (record { user = u; csrf = csrf }) else none

abbrev pub look_up : Option String → Time → Db → Option Current
look_up none now db = none
look_up (some h) now db = of_session (session_user h now db)

unfoldable pub current : Request → Db → Option Current
current r db = look_up r.session r.now db

abbrev pub or_login : {A : Type 0} → Option Current → (Current → Outcome A) → Outcome A
or_login none next = redirect_login
or_login (some c) next = next c

unfoldable pub auth : {A : Type 0} → Request → Db → (Current → Outcome A) → Outcome A
auth r db next = or_login (current r db) next

unfoldable pub admin : {A : Type 0} → (Current → Outcome A) → Current → Outcome A
admin next c = if is_admin c.user.role then next c else refused 403

abbrev pub check_form :
    {A : Type 0} → Option Form → (Form → Current → Outcome A) → Current → Outcome A
check_form none next c = refused 400
check_form (some f) next c = if str_eq f.csrf_token c.csrf then next f c else refused 403

unfoldable pub csrf : {A : Type 0} → Request → (Form → Current → Outcome A) → Current → Outcome A
csrf r next c = check_form r.form next c
