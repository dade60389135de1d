-- ===== src/Prelude/Lists.antt =====
-- Lists as the rows of a table: membership, quantifiers, and the SQL verbs SELECT, UPDATE and
-- DELETE over a Boolean condition.
use Prim.Native.Nat.{ℕ, zero, suc, ◌+◌, ◌<◌}
use mathlib.Core.Path.{◌≡◌, refl, sym, subst}
use mathlib.Core.Logic.{◌≢◌, ◌⊎◌, inl, inr}
use mathlib.Core.Bool.{Bool, true, false, ◌||◌}
use mathlib.Core.Option.{Option, none, some}
use mathlib.Core.List.{List, [], ◌∷◌}
use native.Mathlib.Omega.{arith}
use native.Mathlib.Decide.{dec_lt}
use tunnel_service.Prelude.Tests.{if◌then◌else◌, Bool-cases}

module _ {ℓ} {A : Type ℓ} where
  abbrev pub length : List A → ℕ
  length [] = 0
  length (x ∷ xs) = suc (length xs)

  abbrev pub take : ℕ → List A → List A
  take zero xs = []
  take (suc n) [] = []
  take (suc n) (x ∷ xs) = x ∷ take n xs

  abbrev pub drop : ℕ → List A → List A
  drop zero xs = xs
  drop (suc n) [] = []
  drop (suc n) (x ∷ xs) = drop n xs

  -- SELECT … WHERE p
  unfoldable pub select : (A → Bool) → List A → List A
  select p [] = []
  select p (x ∷ xs) = let rest = select p xs in if p x then x ∷ rest else rest

  -- the first row of SELECT … WHERE p
  unfoldable pub find : (A → Bool) → List A → Option A
  find p [] = none
  find p (x ∷ xs) = let rest = find p xs in if p x then some x else rest

  -- SELECT count(*) … WHERE p
  unfoldable pub count : (A → Bool) → List A → ℕ
  count p [] = 0
  count p (x ∷ xs) = let rest = count p xs in if p x then suc rest else rest

  -- The size of a join: the sum of `f` over the rows that meet `p`.
  unfoldable pub sum_where : (A → Bool) → (A → ℕ) → List A → ℕ
  sum_where p f [] = 0
  sum_where p f (x ∷ xs) = let rest = sum_where p f xs in if p x then f x + rest else rest

  unfoldable pub any : (A → Bool) → List A → Bool
  any p [] = false
  any p (x ∷ xs) = p x || any p xs

  -- UPDATE … SET f WHERE p
  unfoldable pub update_where : (A → Bool) → (A → A) → List A → List A
  update_where p f [] = []
  update_where p f (x ∷ xs) = (if p x then f x else x) ∷ update_where p f xs

  -- DELETE … WHERE p
  unfoldable pub delete_where : (A → Bool) → List A → List A
  delete_where p [] = []
  delete_where p (x ∷ xs) = let rest = delete_where p xs in if p x then rest else x ∷ rest

  abbrev pub All {κ} : (A → Type κ) → List A → Type κ
  All P [] = Unit
  All P (x ∷ xs) = P x × All P xs

  pub data Row (a : A) : List A → Type ℓ where
    here : {xs : List A} → Row a (a ∷ xs)
    there : {x : A} {xs : List A} → Row a xs → Row a (x ∷ xs)

module _ {ℓ} {A : Type ℓ} where
  pub find-Row : (p : A → Bool) (xs : List A) (a : A) → find p xs ≡ some a → Row a xs × (p a ≡ true)
  unfolding find
  find-Row p [] a h = cc
  find-Row p (x ∷ xs) a h = elim (Bool-cases (p x)) [
    | inl e ↦ let same : x ≡ a = cc in (subst (λ y. Row y (x ∷ xs)) same here, rw (← same) e)
    | inr e ↦ let found = find-Row p xs a (cc e) in (there found.0, found.1)
  ]

  pub Row-find : (p : A → Bool) {a : A} {xs : List A} → Row a xs → p a ≡ true → find p xs ≢ none
  unfolding find
  Row-find p (here {xs = xs}) e h = let found = rw e at h in cc
  Row-find p (there {x = x} {xs = xs} r) e h = elim (Bool-cases (p x)) [
    | inl q ↦ let found = rw q at h in cc
    | inr q ↦ Row-find p r e (rw q at h)
  ]

  -- A positive count has a row that meets the condition.
  pub count-Row : (p : A → Bool) (xs : List A) → 0 < count p xs → (a : A) × Row a xs × (p a ≡ true)
  unfolding count
  count-Row p [] h = elim h [ ]
  count-Row p (x ∷ xs) h = elim (Bool-cases (p x)) [
    | inl e ↦ (x, here, e)
    | inr e ↦ let (a, r, q) = count-Row p xs (rw e at h) in (a, there r, q)
  ]

  pub sum_where-Row :
      (p : A → Bool) (f : A → ℕ) (xs : List A)
      → 0 < sum_where p f xs
      → (a : A) × Row a xs × (p a ≡ true) × (0 < f a)
  unfolding sum_where
  sum_where-Row p f [] h = elim h [ ]
  sum_where-Row p f (x ∷ xs) h = elim (Bool-cases (p x)) [
    | inl e ↦ elim (dec_lt 0 (f x)) [
      | yes q ↦ (x, here, e, q)
      | no q ↦
          let (a, r, s, t) = sum_where-Row p f xs (let h' = rw e at h in omega arith) in
          (a, there r, s, t)
    ]
    | inr e ↦ let (a, r, s, t) = sum_where-Row p f xs (rw e at h) in (a, there r, s, t)
  ]

  pub Row-count : (p : A → Bool) {a : A} {xs : List A} → Row a xs → p a ≡ true → 0 < count p xs
  unfolding count
  Row-count p (here {xs = xs}) e = rw e (omega arith)
  Row-count p (there {x = x} {xs = xs} r) e = ground (arith, Row-count p r e)

  pub any-Row : (p : A → Bool) (xs : List A) → any p xs ≡ true → (a : A) × Row a xs × (p a ≡ true)
  unfolding any
  any-Row p [] h = cc
  any-Row p (x ∷ xs) h = elim (Bool-cases (p x)) [
    | inl e ↦ (x, here, e)
    | inr e ↦ let (a, r, q) = any-Row p xs (rw e at h) in (a, there r, q)
  ]

  pub Row-any : (p : A → Bool) {a : A} {xs : List A} → Row a xs → p a ≡ true → any p xs ≡ true
  unfolding any
  Row-any p (here {xs = xs}) e = rw e
  Row-any p (there {x = x} {xs = xs} r) e = ground (arith, Row-any p r e)

  pub All-Row {κ} : (P : A → Type κ) {a : A} {xs : List A} → Row a xs → All P xs → P a
  All-Row P here h = h.0
  All-Row P (there r) h = All-Row P r h.1

  pub All-intro {κ} : (P : A → Type κ) (xs : List A) → ((a : A) → Row a xs → P a) → All P xs
  All-intro P [] h = tt
  All-intro P (x ∷ xs) h = (h x here, All-intro P xs (λ a r. h a (there r)))

  pub Row-cases : {a x : A} {xs : List A} → Row a (x ∷ xs) → (a ≡ x) ⊎ Row a xs
  Row-cases here = inl refl
  Row-cases (there r) = inr r

  pub Row-eq : {a x : A} {xs : List A} → a ≡ x → Row a (x ∷ xs)
  Row-eq {x = x} {xs = xs} e = subst (λ y. Row y (x ∷ xs)) (sym e) here

  pub Row-select :
      (p : A → Bool) (xs : List A) {a : A} → Row a (select p xs) → Row a xs × (p a ≡ true)
  unfolding select
  Row-select p [] r = elim r [ ]
  Row-select p (x ∷ xs) {a} r = elim (Bool-cases (p x)) [
    | inl e ↦
        let s : Row a (x ∷ select p xs) = rw e at r in
        elim (Row-cases s) [
          | inl same ↦ (Row-eq same, rw same e)
          | inr t ↦ let found = Row-select p xs t in (there found.0, found.1)
        ]
    | inr e ↦
        let t : Row a (select p xs) = rw e at r in
        let found = Row-select p xs t in (there found.0, found.1)
  ]

  pub Row-delete_where :
      (p : A → Bool) (xs : List A) {a : A} → Row a (delete_where p xs) → Row a xs × (p a ≡ false)
  unfolding delete_where
  Row-delete_where p [] r = elim r [ ]
  Row-delete_where p (x ∷ xs) {a} r = elim (Bool-cases (p x)) [
    | inr e ↦
        let s : Row a (x ∷ delete_where p xs) = rw e at r in
        elim (Row-cases s) [
          | inl same ↦ (Row-eq same, rw same e)
          | inr t ↦ let found = Row-delete_where p xs t in (there found.0, found.1)
        ]
    | inl e ↦
        let t : Row a (delete_where p xs) = rw e at r in
        let found = Row-delete_where p xs t in (there found.0, found.1)
  ]

  -- A row after an UPDATE is the update of a row before it.
  pub Row-update_where :
      (p : A → Bool) (f : A → A) (xs : List A) (a : A)
      → Row a (update_where p f xs)
      → (b : A) × Row b xs × (a ≡ (if p b then f b else b))
  unfolding update_where
  Row-update_where p f [] a r = elim r [ ]
  Row-update_where p f (x ∷ xs) a r = elim (Row-cases r) [
    | inl same ↦ (x, here, same)
    | inr s ↦ let (b, t, e) = Row-update_where p f xs a s in (b, there t, e)
  ]
