-- ===== src/Web/RateLimit.antt =====
-- The rate limiter of app/internal/web/ratelimit.go. Its mutex runs the calls one at a time. A
-- float64 is a type with the operations that the source uses, and the order in which Go walks a map
-- is a function on its entries.
pub mod Room
pub mod Blocked
use tunnel_service.Prelude.{
  ℕ, ◌+◌, ◌-◌, ◌*◌, String, Bool, true, false, not, ◌&&◌, ◌||◌, Option, none, some, List, [], ◌∷◌,
  ltb, leb, length, find, update_where, delete_where, str_eq, if◌then◌else◌,
}
use tunnel_service.Model.{Time}
use tunnel_service.Store.Stamp.{second}

pub record Floats (F : Type 0) : Type 0 where
  pub add : F → F → F
  pub times : F → F → F
  pub least : F → F → F
  -- the seconds of a duration
  pub seconds : ℕ → F
  pub at_least_one : F → Bool
  pub less_one : F → F

pub record Entry (F : Type 0) : Type 0 where
  pub key : String
  pub tokens : F
  pub updated : Time
  pub blocked_until : Time
  pub strikes : ℕ

pub record Limiter (F : Type 0) : Type 0 where
  pub entries : List (Entry F)
  pub capacity : F
  pub refill : F
  pub block : ℕ
  pub max_entries : ℕ

abbrev pub max_strikes : ℕ
max_strikes = 5

abbrev pub idle_time : ℕ
idle_time = 10 * 60 * second

module _ {F : Type 0} (floats : Floats F) (walk : List (Entry F) → List (Entry F)) where
  unfoldable pub new_rate_limiter : F → F → ℕ → Limiter F
  new_rate_limiter capacity per_second block = record {
    entries = [];
    capacity = capacity;
    refill = per_second;
    block = block;
    max_entries = 10000;
  }

  abbrev pub is_idle : Time → Entry F → Bool
  is_idle now e = ltb idle_time (now - e.updated) && not (ltb now e.blocked_until)

  -- The second loop deletes until there is room; `order` holds the entries still to be walked.
  unfoldable pub drop_some : ℕ → List (Entry F) → List (Entry F) → List (Entry F)
  drop_some limit [] entries = entries
  drop_some limit (e ∷ order) entries =
      let left = delete_where (λ x. str_eq x.key e.key) entries in
      let rest = drop_some limit order left in if ltb (length left) limit then left else rest

  unfoldable pub evict : Time → Limiter F → Limiter F
  unfolding drop_some
  evict now l =
      let kept = delete_where (is_idle now) l.entries in
      record l {
        entries =
            if ltb (length kept) l.max_entries
            then kept
            else drop_some l.max_entries (walk kept) kept;
      }

  unfoldable pub entry_of : String → Limiter F → Option (Entry F)
  entry_of key l = find (λ e. str_eq e.key key) l.entries

  abbrev pub new_entry : String → Time → Limiter F → Entry F
  new_entry key now l = record {
    key = key;
    tokens = l.capacity;
    updated = now;
    blocked_until = 0;
    strikes = 0;
  }

  abbrev pub insert_entry : Entry F → Limiter F → Limiter F
  insert_entry e l = record l { entries = e ∷ l.entries }

  abbrev pub make_room : Time → Limiter F → Limiter F
  make_room now l = if leb l.max_entries (length l.entries) then evict now l else l

  unfoldable pub refilled : Limiter F → Time → Entry F → Entry F
  refilled l now e =
      if ltb e.updated now
      then record e {
        tokens =
            floats.least l.capacity
              (floats.add e.tokens (floats.times (floats.seconds (now - e.updated)) l.refill));
        updated = now;
      }
      else e

  unfoldable pub strike : ℕ → Time → Entry F → Entry F
  strike block now e =
      if leb max_strikes (e.strikes + 1)
      then record e { blocked_until = now + block; strikes = 0 }
      else record e { strikes = e.strikes + 1 }

  unfoldable pub spend : ℕ → Time → Entry F → Bool × Entry F
  unfolding strike
  spend block now e =
      if floats.at_least_one e.tokens
      then (true, record e { tokens = floats.less_one e.tokens; strikes = e.strikes - 1 })
      else (false, strike block now e)

  -- What a call does to the entry of its key.
  unfoldable pub charge : Limiter F → Time → Entry F → Bool × Entry F
  unfolding refilled spend
  charge l now e =
      if ltb now e.blocked_until then (false, e) else spend l.block now (refilled l now e)

  abbrev pub put : Entry F → Limiter F → Limiter F
  put e l = record l { entries = update_where (λ x. str_eq x.key e.key) (λ x. e) l.entries }

  abbrev pub charged : Limiter F → Bool × Entry F → Bool × Limiter F
  charged l (answer, e) = (answer, put e l)

  abbrev pub allow_entry : Option (Entry F) → String → Time → Limiter F → Bool × Limiter F
  allow_entry (some e) key now l = charged l (charge l now e)
  allow_entry none key now l =
      let room = make_room now l in
      let e = new_entry key now l in charged (insert_entry e room) (charge l now e)

  unfoldable pub allow : String → Time → Limiter F → Bool × Limiter F
  unfolding evict entry_of charge
  allow key now l = allow_entry (entry_of key l) key now l

  -- A run of calls, with the answers.
  unfoldable pub allow_all : List (String × Time) → Limiter F → List Bool × Limiter F
  unfolding allow
  allow_all [] l = ([], l)
  allow_all ((key, now) ∷ calls) l =
      let (answer, after) = allow key now l in
      let (answers, end) = allow_all calls after in (answer ∷ answers, end)

pub data LimitClass : Type 0 where
  general login mutation : LimitClass

-- `rateLimit`: the limiter that a path and a method count against.
unfoldable pub limit_class : String → String → LimitClass
limit_class path method =
    if str_eq path "/auth/discord" || str_eq path "/auth/callback" || str_eq path "/login"
    then login
    else if not (str_eq method "GET") && not (str_eq method "HEAD")
    then mutation
    else general
