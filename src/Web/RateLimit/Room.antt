-- ===== src/Web/RateLimit/Room.antt =====
-- The rate limiter of app/internal/web/ratelimit.go holds no more entries than its bound.
use native.Mathlib.Decide.{dec_lt}
use tunnel_service.Prelude.{
  ℕ, suc, ◌≤◌, ◌<◌, ◌≡◌, refl, ap, String, Bool, true, false, Option, none, some, List, [], ◌∷◌,
  leb, length, update_where, delete_where, str_eq, eq_iff, arith, less_test, not_less_test,
  Row-cases, ◌⊎◌, Bool-cases, inl, inr, Row, here, there,
}
use tunnel_service.Model.{Time}
use tunnel_service.Web.RateLimit.{
  Floats, Entry, Limiter, drop_some, is_idle, evict, entry_of, new_entry, insert_entry, make_room,
  charge, put, allow_entry, allow, allow_all,
}

module _ {A : Type 0} where
  length-delete_where : (p : A → Bool) (xs : List A) → length (delete_where p xs) ≤ length xs
  unfolding delete_where
  length-delete_where p [] = omega arith
  length-delete_where p (x ∷ xs) = ground (arith, length-delete_where p xs)

  delete_where-shorter :
      (p : A → Bool) {a : A} {xs : List A}
      → Row a xs
      → p a ≡ true
      → length (delete_where p xs) < length xs
  unfolding delete_where
  delete_where-shorter p (here {xs = xs}) e =
      let kept = length-delete_where p xs in rw e (omega arith)
  delete_where-shorter p (there {x = x} {xs = xs} r) e = ground (arith, delete_where-shorter p r e)

  Row-kept :
      (p : A → Bool) {a : A} {xs : List A} → Row a xs → p a ≡ false → Row a (delete_where p xs)
  unfolding delete_where
  Row-kept p (here {xs = xs}) e = rw e here
  Row-kept p (there {x = x} {xs = xs} r) e = elim (Bool-cases (p x)) [
    | inl q ↦ rw q (Row-kept p r e)
    | inr q ↦ rw q (there (Row-kept p r e))
  ]

  pub length-update_where :
      (p : A → Bool) (f : A → A) (xs : List A) → length (update_where p f xs) ≡ length xs
  unfolding update_where
  length-update_where p f [] = refl
  length-update_where p f (x ∷ xs) = ap suc (length-update_where p f xs)

  nonempty : (xs : List A) → 0 < length xs → (a : A) × Row a xs
  nonempty [] h = absurd (omega arith)
  nonempty (x ∷ xs) h = (x, here)

pub below_test : (m n : ℕ) → n < m → leb m n ≡ false
below_test m n h = ground arith

above_test : (m n : ℕ) → m ≤ n → leb m n ≡ true
above_test m n h = ground arith

module _ {F : Type 0} (floats : Floats F) (walk : List (Entry F) → List (Entry F))
    (visits : (xs : List (Entry F)) (e : Entry F) → Row e xs → Row e (walk xs)) where
  -- Walking past an entry that is there makes room.
  drop_some-room :
      (limit : ℕ) (order entries : List (Entry F)) (e : Entry F)
      → Row e order
      → Row e entries
      → length entries ≤ limit
      → length (drop_some floats walk limit order entries) < limit
  unfolding drop_some
  drop_some-room limit [] entries e r s b = elim r [ ]
  drop_some-room limit (x ∷ order) entries e r s b =
      elim (dec_lt (length (delete_where same entries)) limit) [
        | yes q ↦ rw (less_test _ _ q) q
        | no q ↦
            let full : limit ≤ length (delete_where same entries) = omega arith in
            let fewer = length-delete_where same entries in
            rw (not_less_test (length (delete_where same entries)) limit full) (
              drop_some-room limit order (delete_where same entries) e (later (Row-cases r) full)
                (Row-kept same s (other full)) (omega arith))
      ]
    where
      same : Entry F → Bool
      same y = str_eq y.key x.key

      other : limit ≤ length (delete_where same entries) → same e ≡ false
      other full = elim (Bool-cases (same e)) [
        | inr k ↦ k
        | inl k ↦ let fewer = delete_where-shorter same s k in absurd (omega arith)
      ]

      later : (e ≡ x) ⊎ Row e order → limit ≤ length (delete_where same entries) → Row e order
      later (inl k) full =
          let t = (eq_iff e.key x.key).1 (ap (λ y. y.key) k) in absurd (let f = other full in cc)
      later (inr k) full = k

  evict-room :
      (now : Time) (l : Limiter F)
      → 0 < l.max_entries
      → length l.entries ≤ l.max_entries
      → length (evict floats walk now l).entries < l.max_entries
  unfolding evict
  evict-room now l p b = elim (dec_lt (length kept) l.max_entries) [
    | yes q ↦ rw (less_test _ _ q) q
    | no q ↦
        let fewer = length-delete_where (is_idle floats walk now) l.entries in
        let full : l.max_entries ≤ length kept = omega arith in
        let (e, row) = nonempty kept (omega arith) in
        rw (not_less_test (length kept) l.max_entries full)
          (drop_some-room l.max_entries (walk kept) kept e (visits kept e row) row (omega arith))
  ]
    where
      kept : List (Entry F)
      kept = delete_where (is_idle floats walk now) l.entries

  make_room-room :
      (now : Time) (l : Limiter F)
      → 0 < l.max_entries
      → length l.entries ≤ l.max_entries
      → length (make_room floats walk now l).entries < l.max_entries
  make_room-room now l p b = elim (dec_lt (length l.entries) l.max_entries) [
    | yes q ↦ rw (below_test l.max_entries (length l.entries) q) q
    | no q ↦
        let full : l.max_entries ≤ length l.entries = omega arith in
        rw (above_test l.max_entries (length l.entries) full) (evict-room now l p b)
  ]

  make_room-bound :
      (now : Time) (l : Limiter F) → (make_room floats walk now l).max_entries ≡ l.max_entries
  unfolding evict
  make_room-bound now l = elim (Bool-cases (leb l.max_entries (length l.entries))) [
    | inl e ↦ rw e refl
    | inr e ↦ rw e refl
  ]

  -- A limiter that holds no more entries than its bound, which is positive.
  pub record IsBounded (l : Limiter F) : Type 0 where
    pub positive : 0 < l.max_entries
    pub bounded : length l.entries ≤ l.max_entries

  put-IsBounded : (e : Entry F) (l : Limiter F) → IsBounded l → IsBounded (put floats walk e l)
  put-IsBounded e l v = record {
    positive = v.positive;
    bounded =
        let size = length-update_where (λ x. str_eq x.key e.key) (λ x. e) l.entries in
        let fits = v.bounded in omega arith;
  }

  allow-IsBounded :
      (key : String) (now : Time) (l : Limiter F)
      → IsBounded l
      → IsBounded (allow floats walk key now l).1
  unfolding allow
  allow-IsBounded key now l v = go (entry_of floats walk key l)
    where
      go : (o : Option (Entry F)) → IsBounded (allow_entry floats walk o key now l).1
      go (some e) = put-IsBounded (charge floats walk l now e).1 l v
      go none =
          let room = make_room-room now l v.positive v.bounded in
          let same = make_room-bound now l in
          let e = new_entry floats walk key now l in
          put-IsBounded (charge floats walk l now e).1
            (insert_entry floats walk e (make_room floats walk now l))
            (record { positive = let p = v.positive in omega arith; bounded = omega arith })

  -- However many calls there are, and with whatever keys and times, a limiter that starts within its
  -- positive bound holds no more entries than the bound, where the walk over the map visits every
  -- entry.
  pub allow_all-IsBounded :
      (calls : List (String × Time)) (l : Limiter F)
      → IsBounded l
      → IsBounded (allow_all floats walk calls l).1
  unfolding allow_all
  allow_all-IsBounded [] l v = v
  allow_all-IsBounded ((key, now) ∷ calls) l v =
      allow_all-IsBounded calls (allow floats walk key now l).1 (allow-IsBounded key now l v)
