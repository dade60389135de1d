-- ===== src/Web/Tests/Limits.antt =====
-- The properties of the lists and of the rate limiter of app/internal/web on small examples.
use tunnel_service.Prelude.{
  ℕ, ◌+◌, ◌-◌, ◌*◌, ◌<◌, ◌≡◌, refl, arith, String, Text, codes, Bool, true, false, none, some, List,
  [], ◌∷◌, map, any, All, ltb, leb, min, length,
}
use tunnel_service.Model.{User, user, active}
use tunnel_service.Store.Db.{fresh}
use tunnel_service.Store.Listing.{user_row, users_page, page_of}
use tunnel_service.Service.World.{World}
use tunnel_service.Web.Paging.{requested_page, page_link}
use tunnel_service.Web.Paging.Decimal.{requested_page-link}
use tunnel_service.Web.Paging.Walk.{walk, walk_all}
use tunnel_service.Web.RateLimit.{Floats, Entry, Limiter, entry_of, refilled, allow_all}
use tunnel_service.Web.RateLimit.Room.{IsBounded, allow_all-IsBounded}
use tunnel_service.Web.RateLimit.Blocked.{any_granted, allow-blocks}

page_link_120 : requested_page (page_link 120) ≡ 120
page_link_120 = requested_page-link 120 (omega arith) (omega arith)

abbrev member : ℕ → User
member id = record {
  id = id;
  discord_id = "";
  username = "";
  display_name = "";
  email = "";
  avatar_url = "";
  role = user;
  status = active;
}

-- Twelve users: two pages.
abbrev members : List User
members = map member (1 ∷ 2 ∷ 3 ∷ 4 ∷ 5 ∷ 6 ∷ 7 ∷ 8 ∷ 9 ∷ 10 ∷ 11 ∷ 12 ∷ [])

abbrev listed_world : World
listed_world = record { db = record fresh { users = members }; files = []; faults = [] }

users_listed :
    (offset : ℕ)
    → users_page (λ xs. xs) 10 offset listed_world.db
      ≡ page_of 10 offset (map (user_row listed_world.db) members)
unfolding users_page
users_listed offset = refl

walk_all_example :
    walk (users_page (λ xs. xs)) listed_world 2 [] ≡ map (user_row listed_world.db) members
walk_all_example =
    walk_all (users_page (λ xs. xs)) (map (user_row listed_world.db) members) listed_world
      users_listed refl 2 (omega arith) (omega arith) (omega arith)

-- Tokens are counted in whole numbers here.
abbrev whole : Floats ℕ
whole = record {
  add = λ a b. a + b;
  times = λ a b. a * b;
  least = min;
  seconds = λ d. d;
  at_least_one = λ a. ltb 0 a;
  less_one = λ a. a - 1;
}

abbrev in_order : List (Entry ℕ) → List (Entry ℕ)
in_order xs = xs

abbrev small : Limiter ℕ
small = record { entries = []; capacity = 1; refill = 0; block = 60; max_entries = 2 }

small-IsBounded : IsBounded whole in_order (λ xs e r. r) small
small-IsBounded = record { positive = omega arith; bounded = omega arith }

allow_all-IsBounded_example :
    IsBounded whole in_order
      (λ xs e r. r)
      (allow_all whole in_order (("a", 1) ∷ ("b", 2) ∷ ("c", 3) ∷ []) small).1
allow_all-IsBounded_example =
    allow_all-IsBounded whole in_order (λ xs e r. r) (("a", 1) ∷ ("b", 2) ∷ ("c", 3) ∷ []) small
      small-IsBounded

abbrev empty_entry : Entry ℕ
empty_entry = record { key = "a"; tokens = 0; updated = 5; blocked_until = 0; strikes = 4 }

abbrev struck : Limiter ℕ
struck = record small { entries = empty_entry ∷ [] }

-- A call of another key comes between those of the blocked key.
abbrev mixed : List (String × ℕ)
mixed = ("a", 10) ∷ ("b", 11) ∷ ("a", 68) ∷ []

abbrev roomy : Limiter ℕ
roomy = record struck { max_entries = 9 }

a_entry : entry_of whole in_order "a" roomy ≡ some empty_entry
unfolding entry_of tunnel_service.Prelude.find
a_entry = refl

no_token : whole.at_least_one (refilled whole in_order roomy 9 empty_entry).tokens ≡ false
unfolding refilled
no_token = refl

allow-blocks_example :
    any_granted "a" (("a", 9) ∷ mixed) (allow_all whole in_order (("a", 9) ∷ mixed) roomy).0 ≡ false
allow-blocks_example =
    allow-blocks whole in_order "a" 9 roomy empty_entry a_entry refl refl no_token mixed
      (omega arith) ((λ _. omega arith), ((λ _. omega arith), ((λ _. omega arith), tt)))
