-- ===== src/Prelude/Unique.antt =====
-- Tables whose rows differ in a column: the UNIQUE constraints.
use Prim.Native.Nat.{ℕ, ◌+◌, ◌<◌}
use mathlib.Core.Path.{◌≡◌, refl, sym, ◌∙◌, ap}
use mathlib.Core.Logic.{◌≢◌, inl, inr}
use mathlib.Core.Bool.{Bool, true, false}
use mathlib.Core.List.{List, [], ◌∷◌}
use mathlib.Core.Option.{some}
use native.Mathlib.Omega.{arith}
use tunnel_service.Prelude.Tests.{if◌then◌else◌, Bool-cases, Option-cases}
use tunnel_service.Prelude.Lists.{
  All, All-intro, All-Row, Row, here, Row-cases, Row-update_where, Row-delete_where, update_where,
  delete_where, any, Row-any, find, find-Row, Row-find, sum_where, count, count-Row,
}

-- A join that no row meets is empty.
sum_none {ℓ} :
    {A : Type ℓ} (p : A → Bool) (f : A → ℕ) (xs : List A)
    → ¬ (0 < count p xs)
    → sum_where p f xs ≡ 0
unfolding sum_where count
sum_none p f [] h = refl
sum_none p f (x ∷ xs) h = elim (Bool-cases (p x)) [
  | inl q ↦ absurd (h (rw q (omega arith)))
  | inr q ↦ rw q (sum_none p f xs (rw q at h))
]

module _ {ℓ κ} {A : Type ℓ} {K : Type κ} (key : A → K) where
  abbrev pub Distinct : List A → Type (ℓ ⊔ κ)
  Distinct [] = Unit
  Distinct (x ∷ xs) = All (λ y. key x ≢ key y) xs × Distinct xs

  -- A value that the uniqueness test does not find is in no row.
  pub fresh_apart :
      (p : A → Bool) (k : K) (xs : List A)
      → ((y : A) → k ≡ key y → p y ≡ true)
      → any p xs ≡ false
      → All (λ y. k ≢ key y) xs
  fresh_apart p k xs tests fresh =
      All-intro (λ y. k ≢ key y) xs (λ y r e. cc (Row-any p r (tests y e)))

  pub Distinct-Row :
      {a b : A} (xs : List A) → Distinct xs → Row a xs → Row b xs → key a ≡ key b → a ≡ b
  Distinct-Row [] d r s e = elim r [ ]
  Distinct-Row {a} {b} (x ∷ xs) d r s e = elim (Row-cases r) [
    | inl p ↦ elim (Row-cases s) [
      | inl q ↦ p ∙ sym q
      | inr t ↦ absurd (All-Row (λ y. key x ≢ key y) t d.0 (ap key (sym p) ∙ e))
    ]
    | inr t ↦ elim (Row-cases s) [
      | inl q ↦ absurd (All-Row (λ y. key x ≢ key y) t d.0 (ap key (sym q) ∙ sym e))
      | inr u ↦ Distinct-Row xs d.1 t u e
    ]
  ]

  key_if :
      (f : A → A)
      → ((x : A) → key (f x) ≡ key x)
      → (b : Bool) (x : A) → key (if b then f x else x) ≡ key x
  key_if f same true x = same x
  key_if f same false x = refl

  pub Distinct-update_where :
      (p : A → Bool) (f : A → A) (xs : List A)
      → ((x : A) → key (f x) ≡ key x)
      → Distinct xs
      → Distinct (update_where p f xs)
  unfolding update_where
  Distinct-update_where p f [] same d = tt
  Distinct-update_where p f (x ∷ xs) same d = (
    All-intro (λ y. key (if p x then f x else x) ≢ key y) (update_where p f xs) apart,
    Distinct-update_where p f xs same d.1,
  )
    where
      apart : (y : A) → Row y (update_where p f xs) → key (if p x then f x else x) ≢ key y
      apart y r e =
          let (b, s, q) = Row-update_where p f xs y r in
          All-Row (λ y. key x ≢ key y) s d.0
            (sym (key_if f same (p x) x) ∙ e ∙ ap key q ∙ key_if f same (p b) b)

  pub Distinct-delete_where :
      (p : A → Bool) (xs : List A) → Distinct xs → Distinct (delete_where p xs)
  unfolding delete_where
  Distinct-delete_where p [] d = tt
  Distinct-delete_where p (x ∷ xs) d = elim (Bool-cases (p x)) [
    | inl e ↦ rw e (Distinct-delete_where p xs d.1)
    | inr e ↦ rw e (
      All-intro (λ y. key x ≢ key y) (delete_where p xs)
          (λ y r. All-Row (λ y. key x ≢ key y) (Row-delete_where p xs r).0 d.0),
      Distinct-delete_where p xs d.1,
    )
  ]

  module _ (p : A → Bool) (fixes : (x y : A) → p x ≡ true → p y ≡ true → key x ≡ key y) where
    none_behind : {x : A} (xs : List A) → Distinct (x ∷ xs) → p x ≡ true → ¬ (0 < count p xs)
    none_behind {x} xs d e h =
        let (y, r, q) = count-Row p xs h in All-Row (λ y. key x ≢ key y) r d.0 (fixes x y e q)

    -- One row meets a condition that fixes the column.
    pub count-Distinct :
        {a : A} (xs : List A) → Distinct xs → Row a xs → p a ≡ true → count p xs ≡ 1
    unfolding count
    count-Distinct [] d r e = elim r [ ]
    count-Distinct {a} (x ∷ xs) d r e = elim (Bool-cases (p x)) [
      | inl q ↦ rw q (omega (arith, none_behind xs d q))
      | inr q ↦ elim (Row-cases r) [
        | inl same ↦ let clash : p x ≡ true = rw (← same) e in cc
        | inr t ↦ rw q (count-Distinct xs d.1 t e)
      ]
    ]

    -- … so a join over it is the part of that row.
    pub sum_where-Distinct :
        (f : A → ℕ) {a : A} (xs : List A)
        → Distinct xs
        → Row a xs
        → p a ≡ true
        → sum_where p f xs ≡ f a
    unfolding sum_where
    sum_where-Distinct f [] d r e = elim r [ ]
    sum_where-Distinct f {a} (x ∷ xs) d r e = elim (Bool-cases (p x)) [
      | inl q ↦
          let same : x ≡ a = Distinct-Row (x ∷ xs) d here r (fixes x a q e) in
          rw (q, same) (omega (arith, sum_none p f xs (none_behind xs d q)))
      | inr q ↦ elim (Row-cases r) [
        | inl same ↦ let clash : p x ≡ true = rw (← same) e in cc
        | inr t ↦ rw q (sum_where-Distinct f xs d.1 t e)
      ]
    ]

    -- … and the first row found is that row.
    pub find-Distinct :
        {a : A} (xs : List A) → Distinct xs → Row a xs → p a ≡ true → find p xs ≡ some a
    find-Distinct {a} xs d r e = elim (Option-cases (find p xs)) [
      | inl q ↦ absurd (Row-find p r e q)
      | inr (b, q) ↦
          let found = find-Row p xs b q in
          q ∙ ap some (Distinct-Row xs d found.0 r (fixes b a found.1 e))
    ]

-- Columns that are kept by an UPDATE, and conditions kept by an UPDATE or a DELETE.
module _ {ℓ κ} {A : Type ℓ} (P : A → Type κ) where
  pub All-weaken : (xs : List A) {Q : A → Type κ} → ((x : A) → P x → Q x) → All P xs → All Q xs
  All-weaken [] f h = tt
  All-weaken (x ∷ xs) f h = (f x h.0, All-weaken xs f h.1)

  pub All-update_where :
      (p : A → Bool) (f : A → A) (xs : List A)
      → ((x : A) → P x → P (f x))
      → All P xs
      → All P (update_where p f xs)
  unfolding update_where
  All-update_where p f [] k h = tt
  All-update_where p f (x ∷ xs) k h = elim (Bool-cases (p x)) [
    | inl e ↦ rw e (k x h.0, All-update_where p f xs k h.1)
    | inr e ↦ rw e (h.0, All-update_where p f xs k h.1)
  ]

  pub All-delete_where : (p : A → Bool) (xs : List A) → All P xs → All P (delete_where p xs)
  unfolding delete_where
  All-delete_where p [] h = tt
  All-delete_where p (x ∷ xs) h = elim (Bool-cases (p x)) [
    | inl e ↦ rw e (All-delete_where p xs h.1)
    | inr e ↦ rw e (h.0, All-delete_where p xs h.1)
  ]

-- Ids below a counter stay below the next one, and the counter is a new id.
module _ {ℓ} {A : Type ℓ} (id : A → ℕ) where
  pub below_next : (n : ℕ) (xs : List A) → All (λ x. id x < n) xs → All (λ x. id x < n + 1) xs
  below_next n xs h = All-weaken (λ x. id x < n) xs (λ x q. omega arith) h

  pub next_apart : (n : ℕ) (xs : List A) → All (λ x. id x < n) xs → All (λ x. n ≢ id x) xs
  next_apart n xs h = All-weaken (λ x. id x < n) xs (λ x q. omega arith) h
