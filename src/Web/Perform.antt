-- ===== src/Web/Perform.antt =====
-- The handlers of the changes in app/internal/web/server.go: the {id} of a path, the call of the
-- service, and the answer of `actionRedirect`.
pub mod Others
use tunnel_service.Prelude.{
  ℕ, ◌+◌, ◌-◌, ◌*◌, ◌^◌, String, Text, Bool, true, false, not, ◌&&◌, ◌||◌, Option, none, some, List,
  [], ◌∷◌, if◌then◌else◌, leb, ltb, ◌==◌,
}
use tunnel_service.Model.{
  Result, Error, ok, err, not_found, invalid_key, key_too_large, duplicate_key, forbidden,
  suspended_user, invalid_subdomain, reserved_subdomain, duplicate_subdomain, dns_conflict,
  dns_unavailable, invalid_tcp_port, duplicate_tcp_port,
}
use tunnel_service.Store.Auth.{delete_session}
use tunnel_service.Store.Tx.{modify}
use tunnel_service.Service.World.{World, Io, stored}
use tunnel_service.Service.Names.{is_digit, all}
use tunnel_service.Service.PublicKey.{Ssh}
use tunnel_service.Service.Keys.{add_key, switch_key, discard_key, set_user_suspended}
use tunnel_service.Service.Resources.{
  empty, reserve_subdomain, reserve_tcp_port, release_subdomain, release_tcp_port,
}
use tunnel_service.Web.Session.{Request, Form, Current}
use tunnel_service.Web.Action.{
  Action, logout, key_add, subdomain_reserve, tcp_port_reserve, key_set, key_delete,
  subdomain_release, tcp_port_release, user_set,
}

abbrev pub max_int64 : ℕ
max_int64 = 2 ^ 63 - 1

-- The value of digits, from that of the digits before, as long as it is an int64.
unfoldable pub parse_int64 : ℕ → Text → Option ℕ
parse_int64 n [] = some n
parse_int64 n (c ∷ s) =
    let m = n * 10 + (c - b'0') in
    let rest = parse_int64 m s in if ltb max_int64 m then none else rest

abbrev pub positive : Option ℕ → Option ℕ
positive none = none
positive (some n) = if ltb 0 n then some n else none

abbrev pub digits : Text → Option ℕ
digits s = if empty s || not (all is_digit s) then none else positive (parse_int64 0 s)

-- `pathID`: `strconv.ParseInt` takes a sign, and a negative number is refused.
unfoldable pub path_id : Text → Option ℕ
unfolding parse_int64
path_id [] = none
path_id (c ∷ s) = if c == b'+' then digits s else if c == b'-' then none else digits (c ∷ s)

-- What `publicError` shows of an error: a known error's own text, or one of two general ones.
pub data Message : Type 0 where
  text_of : Error → Message
  target_not_found : Message
  not_completed : Message

unfoldable pub public_error : Error → Message
public_error invalid_key = text_of invalid_key
public_error key_too_large = text_of key_too_large
public_error duplicate_key = text_of duplicate_key
public_error forbidden = text_of forbidden
public_error suspended_user = text_of suspended_user
public_error invalid_subdomain = text_of invalid_subdomain
public_error reserved_subdomain = text_of reserved_subdomain
public_error duplicate_subdomain = text_of duplicate_subdomain
public_error dns_conflict = text_of dns_conflict
public_error dns_unavailable = text_of dns_unavailable
public_error invalid_tcp_port = text_of invalid_tcp_port
public_error duplicate_tcp_port = text_of duplicate_tcp_port
public_error not_found = target_not_found
public_error other = not_completed

-- A page that is not there, the answers of `logout`, and those of `actionRedirect`: a redirect to a
-- path with a flash or an error, or JSON with a status and both.
pub data Reply : Type 0 where
  no_page : Reply
  no_content : Reply
  to_login : Reply
  to_flash : String → String → Reply
  to_error : String → Message → Reply
  json_flash : String → Reply
  json_error : String → Message → Reply

unfoldable pub action_redirect : {A : Type 0} → Bool → String → String → Result A → Reply
unfolding public_error
action_redirect false path flash (ok a) = to_flash path flash
action_redirect false path flash (err e) = to_error path (public_error e)
action_redirect true path flash (ok a) = json_flash flash
action_redirect true path flash (err e) = json_error flash (public_error e)

abbrev pub with_reply : {A : Type 0} → Bool → String → String → Result A × World → Reply × World
with_reply json path flash (r, w) = (action_redirect json path flash r, w)

-- A handler that reads the {id} of the path first.
abbrev pub with_id :
    {A : Type 0} → Bool → Option ℕ → String → String → (ℕ → Io A) → World → Reply × World
with_id json none path flash call w = (no_page, w)
with_id json (some id) path flash call w = with_reply json path flash (call id w)

-- The session's row is deleted; an error of the store is not looked at.
abbrev pub forget : Option String → World → World
forget none w = w
forget (some h) w = let (r, after) = stored (modify (delete_session h)) w in after

abbrev pub logged_out : Bool → World → Reply × World
logged_out true w = (no_content, w)
logged_out false w = (to_login, w)

abbrev pub admin_path : Bool → String → String → String
admin_path true a b = a
admin_path false a b = b

module _ {K : Type 0} (ssh : Ssh K) (to_lower : ℕ → ℕ) (dns : Text → Result Bool)
    (control_plane : Text) where
  abbrev pub run_key_add : Request → Form → Current → World → Reply × World
  run_key_add r f c w =
      with_reply r.wants_json "/keys" "key_added"
        (add_key ssh c.user.id f.name f.public_key r.source_ip w)

  abbrev pub run_key_set : Bool → Bool → Text → Request → Current → World → Reply × World
  run_key_set admin enabled id r c w =
      with_id r.wants_json (path_id id) (admin_path admin "/admin/keys" "/keys") "key_updated"
        (λ k. switch_key c.user.id admin k enabled r.source_ip) w

  abbrev pub run_key_delete : Text → Request → Current → World → Reply × World
  run_key_delete id r c w =
      with_id r.wants_json (path_id id) "/keys" "key_deleted"
        (λ k. discard_key c.user.id false k r.source_ip) w

  abbrev pub run_admin_key_revoke : Text → Request → Current → World → Reply × World
  run_admin_key_revoke id r c w =
      with_id r.wants_json (path_id id) "/admin/keys" "key_deleted"
        (λ k. discard_key c.user.id true k r.source_ip) w

  abbrev pub run_subdomain_reserve : Request → Form → Current → World → Reply × World
  run_subdomain_reserve r f c w =
      with_reply r.wants_json "/subdomains" "subdomain_reserved"
        (reserve_subdomain to_lower dns control_plane c.user.id f.name r.source_ip w)

  abbrev pub run_subdomain_release : Text → Request → Current → World → Reply × World
  run_subdomain_release id r c w =
      with_id r.wants_json (path_id id) "/subdomains" "subdomain_released"
        (λ d. release_subdomain c.user.id false d r.source_ip) w

  abbrev pub run_admin_subdomain_release : Text → Request → Current → World → Reply × World
  run_admin_subdomain_release id r c w =
      with_id r.wants_json (path_id id) "/admin/subdomains" "subdomain_released"
        (λ d. release_subdomain c.user.id true d r.source_ip) w

  abbrev pub run_tcp_port_reserve : Request → Form → Current → World → Reply × World
  run_tcp_port_reserve r f c w =
      with_reply r.wants_json "/tcp-ports" "tcp_port_reserved"
        (reserve_tcp_port c.user.id f.port r.source_ip w)

  abbrev pub run_tcp_port_release : Text → Request → Current → World → Reply × World
  run_tcp_port_release id r c w =
      with_id r.wants_json (path_id id) "/tcp-ports" "tcp_port_released"
        (λ p. release_tcp_port c.user.id false p r.source_ip) w

  abbrev pub run_admin_tcp_port_release : Text → Request → Current → World → Reply × World
  run_admin_tcp_port_release id r c w =
      with_id r.wants_json (path_id id) "/admin/tcp-ports" "tcp_port_released"
        (λ p. release_tcp_port c.user.id true p r.source_ip) w

  abbrev pub run_admin_user_set : Bool → Text → Request → Current → World → Reply × World
  run_admin_user_set stop id r c w =
      with_id r.wants_json (path_id id) "/admin/users" "user_updated"
        (λ u. set_user_suspended c.user.id u stop r.source_ip) w

  -- The handler of an action.
  unfoldable pub perform : Action → Request → Form → Current → World → Reply × World
  unfolding path_id action_redirect
  perform logout r f c w = logged_out r.wants_json (forget r.session w)
  perform key_add r f c w = run_key_add r f c w
  perform subdomain_reserve r f c w = run_subdomain_reserve r f c w
  perform tcp_port_reserve r f c w = run_tcp_port_reserve r f c w
  perform (key_set admin enabled id) r f c w = run_key_set admin enabled id r c w
  perform (key_delete true id) r f c w = run_admin_key_revoke id r c w
  perform (key_delete false id) r f c w = run_key_delete id r c w
  perform (subdomain_release true id) r f c w = run_admin_subdomain_release id r c w
  perform (subdomain_release false id) r f c w = run_subdomain_release id r c w
  perform (tcp_port_release true id) r f c w = run_admin_tcp_port_release id r c w
  perform (tcp_port_release false id) r f c w = run_tcp_port_release id r c w
  perform (user_set stop id) r f c w = run_admin_user_set stop id r c w
