-- ===== src/Web/Login.antt =====
-- The login of app/internal/web/server.go: `oauthStart`, `oauthCallback` and the two requests to
-- Discord. `sha` and `hash` are the digests of the OAuth state and of the session token, and
-- `path_escape` is Go's `url.PathEscape`; the tokens are those that `randomToken` drew.
pub mod Once
use Prim.Native.String.{◌++◌}
use tunnel_service.Prelude.{
  ℕ, ◌+◌, ◌*◌, String, Bool, true, false, not, ◌&&◌, ◌||◌, ◌==◌, Option, none, some, str_eq,
  if◌then◌else◌,
}
use tunnel_service.Model.{Time, Role, user, admin, User, Result, ok, err, Error, not_found}
use tunnel_service.Store.Tx.{modify}
use tunnel_service.Store.Users.{Profile}
use tunnel_service.Store.Auth.{
  login_discord_atomic, delete_session, create_oauth_state, consume_oauth_state, cleanup_auth,
}
use tunnel_service.Store.Stamp.{second}
use tunnel_service.Service.World.{World, Io, ◌>>=◌, ◌>>◌, done, stored}

-- Discord's answer to a request: the status, and the body where it decodes.
pub record Answer (A : Type 0) : Type 0 where
  pub status : ℕ
  pub body : Option A

pub record DiscordUser : Type 0 where
  pub id : String
  pub username : String
  pub global_name : String
  pub email : String
  pub avatar : String

-- The requests to Discord: none where the request fails.
pub record Discord : Type 0 where
  pub token : String → Option (Answer String)
  pub me : String → Option (Answer DiscordUser)

abbrev pub accepted : {A : Type 0} → Option (Answer A) → Option A
accepted none = none
accepted (some a) = if a.status == 200 then a.body else none

abbrev pub with_field : {A : Type 0} → (A → String) → Option A → Option A
with_field field none = none
with_field field (some a) = if str_eq (field a) "" then none else some a

unfoldable pub discord_token : Discord → String → Option String
discord_token d code = with_field (λ t. t) (accepted (d.token code))

unfoldable pub discord_user : Discord → String → Option DiscordUser
discord_user d token = with_field (λ u. u.id) (accepted (d.me token))

pub data LoginReply : Type 0 where
  failed : ℕ → LoginReply
  to_discord : String → LoginReply
  logged_in : String → LoginReply

-- What a callback carries: the state and the code of the query, the cookie with the state, and the
-- two tokens that would be the new session's.
pub record Callback : Type 0 where
  pub state : String
  pub code : String
  pub cookie : Option String
  pub session : String
  pub csrf : String
  pub source_ip : String
  pub now : Time

abbrev pub session_hours : ℕ
session_hours = 7 * 24

abbrev pub session_end : Time → Time
session_end now = now + session_hours * 3600 * second

abbrev pub state_end : Time → Time
state_end now = now + 10 * 60 * second

abbrev pub matches : Option String → String → Bool
matches none state = false
matches (some c) state = not (str_eq state "") && str_eq state c

abbrev pub started : {A : Type 0} → String → Result A × World → LoginReply × World
started state (ok a, w) = (to_discord state, w)
started state (err e, w) = (failed 500, w)

-- A suspended account is `sql.ErrNoRows`.
abbrev pub refusal_status : Error → ℕ
refusal_status not_found = 403
refusal_status other = 500

abbrev pub after_login : String → Result User × World → LoginReply × World
after_login session (ok u, w) = (logged_in session, w)
after_login session (err e, w) = (failed (refusal_status e), w)

module _ (sha : String → String) (hash : String → String) where
  abbrev pub end_session : Option String → Io (Unit {0})
  end_session none = done tt
  end_session (some c) = stored (modify (delete_session (hash c)))

  -- `cookie` is the session cookie that the browser sends, `state` the new state.
  unfoldable pub oauth_start : Option String → String → Time → World → LoginReply × World
  oauth_start cookie state now w = started state (
      (stored (modify (cleanup_auth now))
          >> end_session cookie
          >> stored (create_oauth_state (sha state) (state_end now)))
        w)

  module _ (path_escape : String → String) (admins : String → Bool) (discord : Discord) where
    abbrev pub avatar_url : DiscordUser → String
    avatar_url u =
        if str_eq u.avatar ""
        then ""
        else "https://cdn.discordapp.com/avatars/"
          ++ path_escape u.id
          ++ "/"
          ++ path_escape u.avatar
          ++ ".png"

    unfoldable pub profile_of : DiscordUser → Profile
    profile_of u = record {
      discord_id = u.id;
      username = u.username;
      display_name = if str_eq u.global_name "" then u.username else u.global_name;
      email = u.email;
      avatar_url = avatar_url u;
      role = if admins u.id then admin else user;
    }

    abbrev pub with_user : Callback → Option DiscordUser → World → LoginReply × World
    with_user q none w = (failed 502, w)
    with_user q (some u) w = after_login q.session (
        stored
          (login_discord_atomic (profile_of u) (hash q.session) q.csrf (session_end q.now)
            q.source_ip)
          w)

    abbrev pub with_token : Callback → Option String → World → LoginReply × World
    with_token q none w = (failed 502, w)
    with_token q (some t) w = with_user q (discord_user discord t) w

    abbrev pub with_state : Callback → Result Bool × World → LoginReply × World
    with_state q (err e, w) = (failed 400, w)
    with_state q (ok false, w) = (failed 400, w)
    with_state q (ok true, w) =
        if str_eq q.code "" then (failed 400, w) else with_token q (discord_token discord q.code) w

    unfoldable pub oauth_callback : Callback → World → LoginReply × World
    unfolding discord_token discord_user profile_of
    oauth_callback q w =
        if matches q.cookie q.state
        then with_state q (stored (consume_oauth_state (sha q.state) q.now) w)
        else (failed 400, w)
