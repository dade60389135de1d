-- ===== src/Store/Auth.antt =====
-- Sessions and OAuth states: app/internal/store/store.go, and `LoginDiscordAtomic` of hardening.go.
use tunnel_service.Prelude.{
  String, Bool, false, not, ◌&&◌, Option, none, some, ◌∷◌, ◌==◌, ltb, str_eq, if◌then◌else◌, any,
  find, delete_where,
}
use tunnel_service.Model.{
  Time, User, Session, OauthState, is_active, ok, err, not_found, unique_violation,
}
use tunnel_service.Store.Db.{Db}
use tunnel_service.Store.Tx.{Tx, ◌>>=◌, ◌>>◌, pure, check, demand, insert_audit}
use tunnel_service.Store.Users.{Profile, upsert_user, user_by_discord_id}
use tunnel_service.Store.Stamp.{stamp_lt}

-- INSERT INTO sessions …, under PRIMARY KEY(token_hash)
unfoldable pub insert_session : Session → Tx (Unit {0})
insert_session s db =
    if any (λ r. str_eq r.token_hash s.token_hash) db.sessions
    then err unique_violation
    else ok (tt, record db { sessions = s ∷ db.sessions })

unfoldable pub login_discord_atomic : Profile → String → String → Time → String → Tx User
login_discord_atomic p session_hash csrf expires source_ip = do
  upsert_user p
  u ← demand (user_by_discord_id p.discord_id)
  check (λ _. is_active u.status) not_found
  insert_session (record {
    token_hash = session_hash;
    user_id = u.id;
    csrf_token = csrf;
    expires_at = expires;
  })
  insert_audit (record {
    actor = some u.id;
    target = some u.id;
    action = "login";
    resource_type = "session";
    resource_id = none;
    source_ip = source_ip;
    metadata = "";
  })
  pure u

unfoldable pub session_owner : Option Session → Db → Option (User × String)
session_owner none db = none
session_owner (some s) db = elim (find (λ u. u.id == s.user_id) db.users) [
  | none ↦ none
  | some u ↦ some (u, s.csrf_token)
]

-- The user of a session that has not expired, with its CSRF token.
unfoldable pub session_user : String → Time → Db → Option (User × String)
unfolding session_owner
session_user h now db =
    session_owner
      (find
        (λ s.
          str_eq s.token_hash h
          && (stamp_lt now s.expires_at && any (λ u. u.id == s.user_id) db.users))
        db.sessions)
      db

unfoldable pub delete_session : String → Db → Db
delete_session h db = record db { sessions = delete_where (λ s. str_eq s.token_hash h) db.sessions }

unfoldable pub create_oauth_state : String → Time → Tx (Unit {0})
create_oauth_state h exp db =
    if any (λ s. str_eq s.state_hash h) db.oauth_states
    then err unique_violation
    else ok (
      tt,
      record db { oauth_states = record { state_hash = h; expires_at = exp } ∷ db.oauth_states },
    )

abbrev pub without_state : String → Time → Option OauthState → Tx Bool
without_state h now none db = ok (false, db)
without_state h now (some s) db = ok (
  ltb now s.expires_at,
  record db { oauth_states = delete_where (λ s. str_eq s.state_hash h) db.oauth_states },
)

-- Deletes the state, and says whether it was there and had not expired.
unfoldable pub consume_oauth_state : String → Time → Tx Bool
consume_oauth_state h now db =
    without_state h now (find (λ s. str_eq s.state_hash h) db.oauth_states) db

unfoldable pub cleanup_auth : Time → Db → Db
cleanup_auth now db = record db {
  sessions = delete_where (λ s. not (stamp_lt now s.expires_at)) db.sessions;
  oauth_states = delete_where (λ s. not (stamp_lt now s.expires_at)) db.oauth_states;
}
