-- ===== src/Web/RateLimit/Blocked.antt =====
-- The calls of a key that has struck out at the rate limiter of app/internal/web/ratelimit.go.
use tunnel_service.Prelude.{
  ℕ, ◌+◌, ◌<◌, ◌≤◌, ◌≡◌, refl, sym, ap, ◌∙◌, String, Bool, true, false, ◌&&◌, ◌||◌, Option, none,
  some, List, [], ◌∷◌, All, length, ltb, find, find-Row, update_where, str_eq, eq_iff, eq_refl,
  less_test, arith, Bool-cases, inl, inr,
}
use tunnel_service.Model.{Time}
use tunnel_service.Web.RateLimit.{
  Floats, Entry, Limiter, entry_of, new_entry, insert_entry, make_room, charge, refilled, spend,
  strike, put, charged, allow_entry, allow, allow_all,
}
use tunnel_service.Web.RateLimit.Room.{length-update_where, below_test}

-- Whether a call of the key is among those that were granted.
abbrev pub any_granted : String → List (String × Time) → List Bool → Bool
any_granted key ((k, t) ∷ calls) (answer ∷ answers) =
    (str_eq k key && answer) || any_granted key calls answers
any_granted key calls answers = false

module _ {F : Type 0} (floats : Floats F) (walk : List (Entry F) → List (Entry F)) where
  put_again :
      (key : String) (d e : Entry F) (xs : List (Entry F))
      → e.key ≡ key
      → find (λ (x : Entry F). str_eq x.key key) xs ≡ some d
      → find (λ (x : Entry F). str_eq x.key key) (update_where (λ x. str_eq x.key key) (λ x. e) xs)
        ≡ some e
  unfolding find update_where
  put_again key d e [] k h = cc
  put_again key d e (x ∷ xs) k h = elim (Bool-cases (str_eq x.key key)) [
    | inl t ↦ rw (t, (eq_iff e.key key).1 k) refl
    | inr t ↦ let h' = rw t at h in rw (t, t) (put_again key d e xs k h')
  ]

  -- A call replaces the entry of its key.
  entry_of-put :
      (key : String) (d e : Entry F) (l : Limiter F)
      → entry_of floats walk key l ≡ some d
      → e.key ≡ key
      → entry_of floats walk key (put floats walk e l) ≡ some e
  unfolding entry_of
  entry_of-put key d e l h k =
      ap
        (λ s.
          find (λ (x : Entry F). str_eq x.key key)
            (update_where (λ x. str_eq x.key s) (λ x. e) l.entries))
        k
      ∙ put_again key d e l.entries k h

  entry_key :
      (key : String) (l : Limiter F) (e : Entry F)
      → entry_of floats walk key l ≡ some e
      → e.key ≡ key
  unfolding entry_of
  entry_key key l e h =
      let found = find-Row (λ (x : Entry F). str_eq x.key key) l.entries e h in
      (eq_iff e.key key).0 found.1

  allow-known :
      (key : String) (now : Time) (l : Limiter F) (e : Entry F)
      → entry_of floats walk key l ≡ some e
      → allow floats walk key now l ≡ charged floats walk l (charge floats walk l now e)
  unfolding allow
  allow-known key now l e h = ap (λ o. allow_entry floats walk o key now l) h

  charge-blocked :
      (l : Limiter F) (now : Time) (e : Entry F)
      → now < e.blocked_until
      → charge floats walk l now e ≡ (false, e)
  unfolding charge
  charge-blocked l now e h = rw (less_test now e.blocked_until h) refl

  charge_key :
      (l : Limiter F) (now : Time) (e : Entry F) → (charge floats walk l now e).1.key ≡ e.key
  unfolding charge refilled spend strike
  charge_key l now e = ground arith

  put_other :
      (key : String) (d : Entry F) (xs : List (Entry F))
      → str_eq d.key key ≡ false
      → find
          (λ (x : Entry F). str_eq x.key key)
          (update_where (λ x. str_eq x.key d.key) (λ x. d) xs)
        ≡ find (λ (x : Entry F). str_eq x.key key) xs
  unfolding find update_where
  put_other key d [] h = refl
  put_other key d (x ∷ xs) h = elim (Bool-cases (str_eq x.key d.key)) [
    | inr t ↦ rw t (elim (Bool-cases (str_eq x.key key)) [
      | inl u ↦ rw u refl
      | inr u ↦ rw u (put_other key d xs h)
    ])
    | inl t ↦
        let same = (eq_iff x.key d.key).0 t in
        let off : str_eq x.key key ≡ false = rw same h in rw (t, off, h) (put_other key d xs h)
  ]

  -- What a call of another key leaves of a limiter with room: the entry, and its size but for one.
  record IsSpared (key : String) (e : Entry F) (l after : Limiter F) : Type 0 where
    still : entry_of floats walk key after ≡ some e
    size : length after.entries ≤ length l.entries + 1
    bound : after.max_entries ≡ l.max_entries

  put-IsSpared :
      (key : String) (e d : Entry F) (l m : Limiter F)
      → IsSpared key e l m
      → str_eq d.key key ≡ false
      → IsSpared key e l (put floats walk d m)
  unfolding entry_of
  put-IsSpared key e d l m s h = record {
    still = put_other key d m.entries h ∙ s.still;
    size =
        let same = length-update_where (λ x. str_eq x.key d.key) (λ x. d) m.entries in
        let fits = s.size in omega arith;
    bound = s.bound;
  }

  no_room_made :
      (now : Time) (l : Limiter F)
      → length l.entries < l.max_entries
      → make_room floats walk now l ≡ l
  no_room_made now l h = rw (below_test l.max_entries (length l.entries) h) refl

  insert-IsSpared :
      (key : String) (e d : Entry F) (l : Limiter F)
      → entry_of floats walk key l ≡ some e
      → str_eq d.key key ≡ false
      → IsSpared key e l (insert_entry floats walk d l)
  unfolding entry_of find
  insert-IsSpared key e d l h off = record { still = rw off h; size = omega arith; bound = refl }

  -- A call of another key, with room for its entry.
  other-IsSpared :
      (key other : String) (now : Time) (l : Limiter F) (e : Entry F)
      → entry_of floats walk key l ≡ some e
      → str_eq other key ≡ false
      → length l.entries < l.max_entries
      → IsSpared key e l (allow floats walk other now l).1
  unfolding allow
  other-IsSpared key other now l e h off room = go (entry_of floats walk other l) refl
    where
      go :
          (o : Option (Entry F))
          → entry_of floats walk other l ≡ o
          → IsSpared key e l (allow_entry floats walk o other now l).1
      go (some d) q =
          let at : (charge floats walk l now d).1.key ≡ other =
            charge_key l now d ∙ entry_key other l d q in
          put-IsSpared key e (charge floats walk l now d).1 l l
            (record { still = h; size = omega arith; bound = refl }) (rw at off)
      go none q =
          let d = new_entry floats walk other now l in
          let at : (charge floats walk l now d).1.key ≡ other = charge_key l now d in
          rw (no_room_made now l room) (
            put-IsSpared key e (charge floats walk l now d).1 l (insert_entry floats walk d l)
              (insert-IsSpared key e d l h off) (rw at off))

  put-size : (d : Entry F) (l : Limiter F) → length (put floats walk d l).entries ≡ length l.entries
  put-size d l = length-update_where (λ x. str_eq x.key d.key) (λ x. d) l.entries

  -- The call of the key itself, while it is blocked.
  blocked_call :
      (key : String) (t : Time) (l : Limiter F) (e : Entry F)
      → entry_of floats walk key l ≡ some e
      → t < e.blocked_until
      → allow floats walk key t l ≡ (false, put floats walk e l)
  blocked_call key t l e h b =
      allow-known key t l e h ∙ ap (charged floats walk l) (charge-blocked l t e b)

  allow_all_refused :
      (key : String) (calls : List (String × Time)) (l : Limiter F) (e : Entry F)
      → entry_of floats walk key l ≡ some e
      → length l.entries + length calls ≤ l.max_entries
      → All (λ c. str_eq c.0 key ≡ true → c.1 < e.blocked_until) calls
      → any_granted key calls (allow_all floats walk calls l).0 ≡ false
  unfolding allow_all
  allow_all_refused key [] l e h room w = refl
  allow_all_refused key ((other, t) ∷ calls) l e h room w = elim (Bool-cases (str_eq other key)) [
    | inl m ↦
        let same : key ≡ other = sym ((eq_iff other key).0 m) in
        let call : allow floats walk other t l ≡ (false, put floats walk e l) =
          rw (← same) (blocked_call key t l e h (w.0 m)) in
        let size = put-size e l in
        rw (m, call)
          (allow_all_refused key calls (put floats walk e l) e
            (entry_of-put key e e l h (entry_key key l e h)) (omega arith) w.1)
    | inr m ↦
        let s = other-IsSpared key other t l e h m (omega arith) in
        let size = s.size in
        let bound = s.bound in
        rw m
          (allow_all_refused key calls (allow floats walk other t l).1 e s.still (omega arith) w.1)
  ]

  -- The entry that a refused call with the last strike leaves.
  abbrev struck_out : Limiter F → Time → Entry F → Entry F
  struck_out l now e = record (refilled floats walk l now e) {
    blocked_until = now + l.block;
    strikes = 0;
  }

  strike-last :
      (block : ℕ) (now : Time) (r : Entry F)
      → r.strikes ≡ 4
      → strike floats walk block now r ≡ record r { blocked_until = now + block; strikes = 0 }
  unfolding strike
  strike-last block now r s = rw s refl

  refilled-keeps :
      (l : Limiter F) (now : Time) (e : Entry F)
      → ((refilled floats walk l now e).strikes ≡ e.strikes)
        × ((refilled floats walk l now e).key ≡ e.key)
  unfolding refilled
  refilled-keeps l now e = elim (Bool-cases (ltb e.updated now)) [
    | inl t ↦ rw t (refl, refl)
    | inr t ↦ rw t (refl, refl)
  ]

  charge-struck :
      (l : Limiter F) (now : Time) (e : Entry F)
      → e.strikes ≡ 4
      → ltb now e.blocked_until ≡ false
      → floats.at_least_one (refilled floats walk l now e).tokens ≡ false
      → charge floats walk l now e ≡ (false, struck_out l now e)
  unfolding charge spend
  charge-struck l now e s b t =
      rw (b, t)
        (ap (λ x. (false, x))
          (strike-last l.block now (refilled floats walk l now e) ((refilled-keeps l now e).0 ∙ s)))

  -- Where a key has four strikes and is not blocked, a call that finds less than one token is
  -- refused, and so is every later call of the key that comes before the block has passed, whatever
  -- the calls of other keys between them are, as long as the limiter has room for all these calls.
  pub allow-blocks :
      (key : String) (now : Time) (l : Limiter F) (e : Entry F)
      → entry_of floats walk key l ≡ some e
      → e.strikes ≡ 4
      → ltb now e.blocked_until ≡ false
      → floats.at_least_one (refilled floats walk l now e).tokens ≡ false
      → (calls : List (String × Time)) → length l.entries + length calls ≤ l.max_entries
      → All (λ c. str_eq c.0 key ≡ true → c.1 < now + l.block) calls
      → any_granted key ((key, now) ∷ calls) (allow_all floats walk ((key, now) ∷ calls) l).0
        ≡ false
  unfolding allow_all
  allow-blocks key now l e h s b t calls room w =
      let same_key = (refilled-keeps l now e).1 ∙ entry_key key l e h in
      let next = struck_out l now e in
      let first : allow floats walk key now l ≡ (false, put floats walk next l) =
        allow-known key now l e h ∙ ap (charged floats walk l) (charge-struck l now e s b t) in
      let size = put-size next l in
      rw (eq_refl key, first)
        (allow_all_refused key calls (put floats walk next l) next
          (entry_of-put key e next l h same_key) (omega arith) w)
