-- ===== src/Web/Action.antt =====
-- The routes of the changes in app/internal/web/server.go: the POST patterns of `routes`, and
-- `apiAction`, which reads the same paths from a form field.
pub mod Paths
pub mod Agree
pub mod Allowed
use tunnel_service.Prelude.{
  ℕ, Text, codes, text_eq, Bool, true, false, not, ◌&&◌, ◌||◌, Option, none, some, List, [], ◌∷◌,
  ◌==◌, if◌then◌else◌,
}
use tunnel_service.Model.{User}
use tunnel_service.Store.Db.{Db}
use tunnel_service.Service.Resources.{empty}
use tunnel_service.Web.Session.{
  Request, Form, Current, Outcome, redirect_login, refused, passed, auth, admin, csrf,
}

-- The handlers; a Bool says whether it is the one for administrators, a Text is the path's {id}.
pub data Action : Type 0 where
  logout key_add subdomain_reserve tcp_port_reserve : Action
  key_set : Bool → Bool → Text → Action
  key_delete : Bool → Text → Action
  subdomain_release : Bool → Text → Action
  tcp_port_release : Bool → Text → Action
  user_set : Bool → Text → Action

abbrev pub is_for_admin : Action → Bool
is_for_admin logout = false
is_for_admin key_add = false
is_for_admin subdomain_reserve = false
is_for_admin tcp_port_reserve = false
is_for_admin (key_set a enabled id) = a
is_for_admin (key_delete a id) = a
is_for_admin (subdomain_release a id) = a
is_for_admin (tcp_port_release a id) = a
is_for_admin (user_set suspended id) = true

-- {collection}/{id}/{verb}
unfoldable pub member_action : Text → Text → Text → Option Action
member_action kind id verb =
    if text_eq kind (codes "keys") && text_eq verb (codes "enable")
    then some (key_set false true id)
    else if text_eq kind (codes "keys") && text_eq verb (codes "disable")
    then some (key_set false false id)
    else if text_eq kind (codes "keys") && text_eq verb (codes "delete")
    then some (key_delete false id)
    else if text_eq kind (codes "subdomains") && text_eq verb (codes "release")
    then some (subdomain_release false id)
    else if text_eq kind (codes "tcp-ports") && text_eq verb (codes "release")
    then some (tcp_port_release false id)
    else none

-- admin/{collection}/{id}/{verb}
unfoldable pub admin_action : Text → Text → Text → Option Action
admin_action kind id verb =
    if text_eq kind (codes "users") && text_eq verb (codes "suspend")
    then some (user_set true id)
    else if text_eq kind (codes "users") && text_eq verb (codes "unsuspend")
    then some (user_set false id)
    else if text_eq kind (codes "keys") && text_eq verb (codes "enable")
    then some (key_set true true id)
    else if text_eq kind (codes "keys") && text_eq verb (codes "disable")
    then some (key_set true false id)
    else if text_eq kind (codes "keys") && text_eq verb (codes "revoke")
    then some (key_delete true id)
    else if text_eq kind (codes "subdomains") && text_eq verb (codes "release")
    then some (subdomain_release true id)
    else if text_eq kind (codes "tcp-ports") && text_eq verb (codes "release")
    then some (tcp_port_release true id)
    else none

unfoldable pub plain_action : Text → Option Action
plain_action path =
    if text_eq path (codes "logout")
    then some logout
    else if text_eq path (codes "keys")
    then some key_add
    else if text_eq path (codes "subdomains")
    then some subdomain_reserve
    else if text_eq path (codes "tcp-ports")
    then some tcp_port_reserve
    else none

-- The POST patterns, on the segments of a path.
unfoldable pub post_route : List Text → Option Action
post_route (a ∷ []) = plain_action a
post_route (a ∷ b ∷ c ∷ []) = member_action a b c
post_route (a ∷ b ∷ c ∷ d ∷ []) = if text_eq a (codes "admin") then admin_action b c d else none
post_route _ = none

abbrev pub Ready : Type 0
Ready = Action × Form × Current

abbrev pub run : Action → Form → Current → Outcome Ready
run a f c = passed (a, f, c)

-- The guards that `routes` puts round a handler.
abbrev pub guarded :
    Bool → (r : Request) → (Form → Current → Outcome Ready) → Current → Outcome Ready
guarded true r next = admin (csrf r next)
guarded false r next = csrf r next

abbrev pub route_outcome : Option Action → Request → Db → Outcome Ready
route_outcome none r db = refused 404
route_outcome (some a) r db = auth r db (guarded (is_for_admin a) r (run a))

-- A POST to the path of the segments.
unfoldable pub post : List Text → Request → Db → Outcome Ready
unfolding post_route
post path r db = route_outcome (post_route path) r db

abbrev pub cons_first : ℕ → List Text → List Text
cons_first c [] = (c ∷ []) ∷ []
cons_first c (p ∷ ps) = (c ∷ p) ∷ ps

-- `strings.Split(s, "/")`
unfoldable pub split_slash : Text → List Text
split_slash [] = [] ∷ []
split_slash (c ∷ s) = let rest = split_slash s in if c == b'/' then [] ∷ rest else cons_first c rest

unfoldable pub drop_slashes : Text → Text
drop_slashes [] = []
drop_slashes (c ∷ s) = let rest = drop_slashes s in if c == b'/' then rest else c ∷ s

unfoldable pub drop_last_slashes : Text → Text
drop_last_slashes [] = []
drop_last_slashes (c ∷ s) = elim (drop_last_slashes s) [
  | [] ↦ if c == b'/' then [] else c ∷ []
  | d ∷ t ↦ c ∷ d ∷ t
]

-- `strings.Trim(s, "/")`
unfoldable pub trim_slashes : Text → Text
unfolding drop_slashes drop_last_slashes
trim_slashes s = drop_last_slashes (drop_slashes s)

abbrev pub or_none : Option Action → Form → Current → Outcome Ready
or_none none f c = refused 404
or_none (some a) f c = passed (a, f, c)

abbrev pub by_parts : List Text → Form → Current → Outcome Ready
by_parts (a ∷ b ∷ d ∷ []) f c = or_none (member_action a b d) f c
by_parts (a ∷ b ∷ d ∷ e ∷ []) f c =
    if text_eq a (codes "admin") then admin (or_none (admin_action b d e) f) c else refused 404
by_parts _ f c = refused 404

unfoldable pub api_action : Form → Current → Outcome Ready
unfolding split_slash trim_slashes
api_action f c =
    if text_eq f.action (codes "/logout")
    then passed (logout, f, c)
    else if text_eq f.action (codes "/keys")
    then passed (key_add, f, c)
    else if text_eq f.action (codes "/subdomains")
    then passed (subdomain_reserve, f, c)
    else if text_eq f.action (codes "/tcp-ports")
    then passed (tcp_port_reserve, f, c)
    else by_parts (split_slash (trim_slashes f.action)) f c

-- POST /api/action
unfoldable pub post_api : Request → Db → Outcome Ready
unfolding api_action
post_api r db = auth r db (csrf r api_action)
