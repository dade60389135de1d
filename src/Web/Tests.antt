-- ===== src/Web/Tests.antt =====
-- The properties of app/internal/web at concrete requests.
mod Limits
mod Hosts
mod Reach
mod Views
use tunnel_service.Prelude.{
  ℕ, ◌+◌, ◌-◌, ◌*◌, ◌≡◌, ◌≢◌, ◌⊎◌, refl, inl, inr, arith, String, Text, codes, Bool, true, false,
  Option, none, some, List, [], ◌∷◌, ◌++◌, map, any, All, here, there, length, lower, leb, min,
}
use tunnel_service.Model.{Time, User, SshKey, user, active, ok, err}
use tunnel_service.Store.Calls.{Call, run_all}
use tunnel_service.Store.Db.{Db, fresh}
use tunnel_service.Store.Stamp.{second}
use tunnel_service.Store.Valid.{IsValid}
use tunnel_service.Store.Keys.{key_by_id}
use tunnel_service.Service.World.{World}
use tunnel_service.Service.PublicKey.{Ssh}
use tunnel_service.Web.Session.{Request, Form, Current, Outcome, passed}
use tunnel_service.Web.Action.{Action, key_add, key_delete, post_route, post, post_api}
use tunnel_service.Web.Action.Allowed.{IsAllowed, post-IsAllowed}
use tunnel_service.Web.Action.Paths.{IsSegment, path_of}
use tunnel_service.Web.Action.Agree.{post-post_api}
use tunnel_service.Store.Stamp.{stamp_lt}
use tunnel_service.Web.Session.{look_up}
use tunnel_service.Web.Login.{
  Callback, Discord, DiscordUser, LoginReply, failed, logged_in, discord_token, discord_user,
  session_end, oauth_callback,
}
use tunnel_service.Web.Login.Once.{
  IsLogin, oauth_callback-IsLogin, oauth_callback_twice, oauth_callback-look_up,
}
use tunnel_service.Web.Pages.{Url, PageName, api_page}
use tunnel_service.Web.Pages.Shown.{IsShown, api_page-IsShown}
use tunnel_service.Web.Perform.{perform, path_id}
use tunnel_service.Web.Perform.Others.{IsOfAnother, of_key_delete, IsRefusal, perform_others}

abbrev alice : User
alice = record {
  id = 1;
  discord_id = "100";
  username = "alice";
  display_name = "Alice";
  email = "";
  avatar_url = "";
  role = user;
  status = active;
}

abbrev bob : User
bob = record alice { id = 2; discord_id = "200"; username = "bob" }

abbrev bobs_key : SshKey
bobs_key = record {
  id = 7;
  user_id = 2;
  name = codes "desktop";
  public_key = codes "ssh-ed25519 BBBB";
  fingerprint = "SHA256:b";
  enabled = true;
}

abbrev sample : Db
sample = record fresh {
  users = alice ∷ bob ∷ [];
  next_user_id = 3;
  sessions =
      record { token_hash = "s"; user_id = 1; csrf_token = "c"; expires_at = 9 * second } ∷ [];
  oauth_states = record { state_hash = "state"; expires_at = 100 } ∷ [];
  ssh_keys = bobs_key ∷ [];
  next_key_id = 8;
}

abbrev form : Form
form = record {
  csrf_token = "c";
  action = codes "/keys/7/delete";
  name = [];
  public_key = [];
  port = [];
}

abbrev request : Request
request = record {
  session = some "s";
  form = some form;
  source_ip = "192.0.2.1";
  wants_json = false;
  now = 5;
}

abbrev by_alice : Current
by_alice = record { user = alice; csrf = "c" }

abbrev delete_path : List Text
delete_path = codes "keys" ∷ codes "7" ∷ codes "delete" ∷ []

abbrev delete_action : Action
delete_action = key_delete false (codes "7")

posted : post delete_path request sample ≡ passed (delete_action, form, by_alice)
unfolding post tunnel_service.Web.Action.member_action tunnel_service.Prelude.text_eq
    tunnel_service.Web.Session.auth tunnel_service.Web.Session.current
    tunnel_service.Store.Auth.session_user tunnel_service.Prelude.find
    tunnel_service.Store.Stamp.stamp_lt any tunnel_service.Web.Session.csrf
posted = refl

post-IsAllowed_example : IsAllowed request sample delete_action form by_alice
post-IsAllowed_example =
    post-IsAllowed delete_path request sample delete_action form by_alice (inl posted)

delete_segments : All IsSegment delete_path
unfolding any
delete_segments = (
  record { some_byte = λ e. cc; no_slash = refl },
  (
    record { some_byte = λ e. cc; no_slash = refl },
    (record { some_byte = λ e. cc; no_slash = refl }, tt),
  ),
)

delete_routed : post_route delete_path ≡ some delete_action
unfolding post_route tunnel_service.Web.Action.member_action tunnel_service.Prelude.text_eq
delete_routed = refl

delete_written : form.action ≡ path_of delete_path
unfolding path_of
delete_written = refl

post-post_api_example : post delete_path request sample ≡ post_api request sample
post-post_api_example =
    post-post_api delete_path request sample delete_action form delete_segments delete_routed refl
      delete_written

abbrev no_ssh : Ssh Text
no_ssh = record {
  parse_authorized_key = λ s. none;
  marshal_authorized_key = λ k. k;
  fingerprint_sha256 = λ k. "";
}

abbrev calm_world : World
calm_world = record { db = sample; files = []; faults = [] }

seven : path_id (codes "7") ≡ some 7
unfolding path_id tunnel_service.Service.Names.all
seven = refl

bobs_key_found : key_by_id 7 sample ≡ some bobs_key
unfolding key_by_id tunnel_service.Prelude.find any
bobs_key_found = refl

perform_others_example : IsRefusal calm_world (
    perform no_ssh lower
      (λ s. ok false)
      (codes "www")
      delete_action
      request
      form
      by_alice
      calm_world)
perform_others_example =
    perform_others no_ssh lower (λ s. ok false) (codes "www") request form by_alice calm_world
      delete_action (of_key_delete (codes "7") 7 bobs_key seven bobs_key_found (λ e. omega arith))

-- One login: the digests are the identity, and Discord knows one code.
abbrev account : DiscordUser
account = record { id = "100"; username = "alice"; global_name = "Alice"; email = ""; avatar = "" }

abbrev discord : Discord
discord = record {
  token = λ code. some (record { status = 200; body = some "token" });
  me = λ t. some (record { status = 200; body = some account });
}

abbrev callback : Callback
callback = record {
  state = "state";
  code = "code";
  cookie = some "state";
  session = "new";
  csrf = "c2";
  source_ip = "192.0.2.1";
  now = 5;
}

abbrev before_login : World
before_login = record {
  db = record fresh { oauth_states = record { state_hash = "state"; expires_at = 100 } ∷ [] };
  files = [];
  faults = [];
}

abbrev same_text : String → String
same_text s = s

abbrev no_admin : String → Bool
no_admin s = false

abbrev outcome : LoginReply × World
unfolding oauth_callback
outcome = oauth_callback same_text same_text same_text no_admin discord callback before_login

logs_in :
    oauth_callback same_text same_text same_text no_admin discord callback before_login
    ≡ (logged_in "new", outcome.1)
unfolding oauth_callback tunnel_service.Service.World.stored
    tunnel_service.Store.Auth.consume_oauth_state tunnel_service.Prelude.find
    tunnel_service.Store.Auth.login_discord_atomic tunnel_service.Store.Tx.◌>>=◌
    tunnel_service.Store.Users.upsert_user any tunnel_service.Store.Users.user_by_discord_id
    tunnel_service.Store.Users.with_user tunnel_service.Store.Auth.insert_session
    tunnel_service.Store.Tx.insert_audit tunnel_service.Store.Tx.refers
logs_in = refl

before_login-IsValid : IsValid before_login.db
before_login-IsValid = ground arith

oauth_callback-IsLogin_example :
    IsLogin same_text same_text same_text no_admin discord callback "new" before_login outcome.1
oauth_callback-IsLogin_example =
    oauth_callback-IsLogin same_text same_text same_text no_admin discord callback before_login
      outcome.1 "new" logs_in

oauth_callback_twice_example :
    (oauth_callback same_text same_text same_text no_admin discord
      (record callback { now = 6 })
      (record outcome.1 { db = run_all (Call.logout "new" ∷ []) outcome.1.db })).0
    ≡ failed 400
oauth_callback_twice_example =
    oauth_callback_twice same_text same_text same_text no_admin discord callback before_login
      outcome.1 "new" logs_in (Call.logout "new" ∷ []) (tt, tt)
      (record outcome.1 { db = run_all (Call.logout "new" ∷ []) outcome.1.db }) refl
      (record callback { now = 6 }) refl

not_expired : stamp_lt 7 (session_end 5) ≡ true
unfolding stamp_lt
not_expired = refl

-- A login of another browser starts in between.
abbrev ring : List Call
ring = Call.open_oauth "g" 90 ∷ []

oauth_callback-look_up_example :
    (c : Current) × (look_up (some "new") 7 (run_all ring outcome.1.db) ≡ some c)
    × (c.csrf ≡ "c2")
    × (a : DiscordUser) × (k : String) × (discord_token discord "code" ≡ some k)
    × (discord_user discord k ≡ some a)
    × (c.user.discord_id ≡ a.id)
oauth_callback-look_up_example =
    oauth_callback-look_up same_text same_text same_text no_admin discord callback before_login
      outcome.1 "new" before_login-IsValid logs_in ring (tt, tt) 7 not_expired

abbrev parse_keys : Text → Option Url
parse_keys s = some (record { is_abs = false; host = []; path = s })

keys_shown : api_page parse_keys (codes "/keys") request sample ≡ passed (PageName.keys, by_alice)
unfolding api_page tunnel_service.Web.Session.auth tunnel_service.Web.Session.current
    tunnel_service.Store.Auth.session_user tunnel_service.Prelude.find stamp_lt any
    tunnel_service.Prelude.text_eq
keys_shown = refl

api_page-IsShown_example : IsShown request sample PageName.keys by_alice
api_page-IsShown_example =
    api_page-IsShown parse_keys (codes "/keys") request sample PageName.keys by_alice keys_shown
