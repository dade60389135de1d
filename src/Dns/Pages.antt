-- ===== src/Dns/Pages.antt =====
-- The loop over the pages in app/internal/integration/vercel.go, against the chain of pages that the
-- cursors lead through.
use tunnel_service.Prelude.{
  ℕ, zero, suc, ◌≤◌, ◌≡◌, ◌↔◌, refl, ap, sym, ◌∙◌, subst, arith, Text, text_eq, text_eq_iff, Bool,
  true, false, ◌||◌, Option, none, some, List, [], ◌∷◌, any, Bool-cases, inl, inr, All, All-Row,
  any-Row,
}
use tunnel_service.Model.{ok}
use tunnel_service.Service.Resources.{empty}
use tunnel_service.Dns.{
  Json, Fetched, turn_at, max_pages, has_exact_record, answer_of, Turn, unavailable, found,
  finished, onward, decide, read_pages,
}

-- From the cursor, k pages in a row lead to the answer: each hands on to the next, and the last has
-- the record, or is the end of the records.
pub data Leads (turn : Text → Turn) : Text → Bool → ℕ → Type 0 where
  hit : (u : Text) → turn u ≡ found → Leads turn u true 1
  end : (u : Text) → turn u ≡ finished → Leads turn u false 1
  on :
      (u c : Text) (b : Bool) (k : ℕ)
      → turn u ≡ onward c
      → Leads turn c b k
      → Leads turn u b (suc k)

module _ (turn : Text → Turn) where
  decide-Leads :
      (n : ℕ) (u : Text) (seen : List Text) (b : Bool)
      → (t : Turn) → turn u ≡ t
      → ((c : Text)
          → read_pages turn n c (c ∷ seen) ≡ some b
          → (k : ℕ) × Leads turn c b k × (k ≤ n))
      → decide t (λ c. read_pages turn n c (c ∷ seen)) u seen ≡ some b
      → (k : ℕ) × Leads turn u b k × (k ≤ suc n)
  decide-Leads n u seen b unavailable e next h = cc
  decide-Leads n u seen true found e next h = (1, hit u e, omega arith)
  decide-Leads n u seen false found e next h = cc
  decide-Leads n u seen true finished e next h = cc
  decide-Leads n u seen false finished e next h = (1, end u e, omega arith)
  decide-Leads n u seen b (onward c) e next h =
      elim (Bool-cases (any (λ s. text_eq s c) seen || text_eq c u)) [
        | inl t ↦ let k = rw t at h in cc
        | inr t ↦
            let k = rw t at h in
            let (m, leads, bound) = next c k in (suc m, on u c b m e leads, omega arith)
      ]

  read_pages-Leads :
      (n : ℕ) (u : Text) (seen : List Text) (b : Bool)
      → read_pages turn n u seen ≡ some b
      → (k : ℕ) × Leads turn u b k × (k ≤ n)
  unfolding read_pages
  read_pages-Leads zero u seen b h = cc
  read_pages-Leads (suc n) u seen b h =
      decide-Leads n u seen b (turn u) refl (λ c. read_pages-Leads n c (c ∷ seen) b) h

  onward_inj : (c d : Text) → onward c ≡ onward d → c ≡ d
  onward_inj c d h = cc

  -- The pages in a row are determined by the cursor that they start at.
  Leads-length : {u : Text} {b d : Bool} {k m : ℕ} → Leads turn u b k → Leads turn u d m → k ≡ m
  Leads-length (hit u e) (hit _ f) = refl
  Leads-length (hit u e) (end _ f) = refl
  Leads-length (hit u e) (on _ c d m f r) = cc
  Leads-length (end u e) (hit _ f) = refl
  Leads-length (end u e) (end _ f) = refl
  Leads-length (end u e) (on _ c d m f r) = cc
  Leads-length (on u c b k e l) (hit _ f) = cc
  Leads-length (on u c b k e l) (end _ f) = cc
  Leads-length (on u c b k e l) (on _ d b' m f r) =
      let same : c ≡ d = onward_inj c d (sym e ∙ f) in
      ap suc (Leads-length l (subst (λ x. Leads turn x b' m) (sym same) r))

  -- A cursor that has been followed leads through at least so many pages.
  record IsBehind (k : ℕ) (s : Text) : Type 0 where
    pub found : Bool
    pub pages : ℕ
    pub leads : Leads turn s found pages
    pub enough : k ≤ pages

  IsBehind-later : (k : ℕ) (seen : List Text) → All (IsBehind (suc k)) seen → All (IsBehind k) seen
  IsBehind-later k [] h = tt
  IsBehind-later k (s ∷ seen) h = (
    record {
      found = h.0.found;
      pages = h.0.pages;
      leads = h.0.leads;
      enough = let e = h.0.enough in omega arith;
    },
    IsBehind-later k seen h.1,
  )

  -- The next cursor is none of those followed before.
  not_seen :
      (c : Text) (b : Bool) (k : ℕ) (seen : List Text)
      → Leads turn c b k
      → All (IsBehind (suc k)) seen
      → any (λ s. text_eq s c) seen ≡ false
  not_seen c b k seen l h = elim (Bool-cases (any (λ s. text_eq s c) seen)) [
    | inr e ↦ e
    | inl e ↦
        let (s, row, t) = any-Row (λ s. text_eq s c) seen e in
        let w = All-Row (IsBehind (suc k)) row h in
        let same = (text_eq_iff s c).0 t in
        let length_eq = Leads-length (subst (λ x. Leads turn x w.found w.pages) same w.leads) l in
        let bound = w.enough in absurd (omega arith)
  ]

  not_self :
      (u c : Text) (b : Bool) (k : ℕ) → turn u ≡ onward c → Leads turn c b k → text_eq c u ≡ false
  not_self u c b k e l = elim (Bool-cases (text_eq c u)) [
    | inr q ↦ q
    | inl q ↦
        let same = (text_eq_iff c u).0 q in
        let next = on u c b k e l in
        let length_eq = Leads-length (subst (λ x. Leads turn x b k) same l) next in
        absurd (omega arith)
  ]

  Leads-read_pages :
      {u : Text} {b : Bool} {k : ℕ} (n : ℕ) (seen : List Text)
      → Leads turn u b k
      → k ≤ n
      → All (IsBehind k) seen
      → read_pages turn n u seen ≡ some b
  unfolding read_pages
  Leads-read_pages zero seen (hit u e) bound h = absurd (omega arith)
  Leads-read_pages zero seen (end u e) bound h = absurd (omega arith)
  Leads-read_pages zero seen (on u c b k e l) bound h = absurd (omega arith)
  Leads-read_pages (suc n) seen (hit u e) bound h =
      ap (λ t. decide t (λ c. read_pages turn n c (c ∷ seen)) u seen) e
  Leads-read_pages (suc n) seen (end u e) bound h =
      ap (λ t. decide t (λ c. read_pages turn n c (c ∷ seen)) u seen) e
  Leads-read_pages (suc n) seen (on u c b k e l) bound h =
      let fresh = not_seen c b k seen l h in
      let c_is : IsBehind k c = record { found = b; pages = k; leads = l; enough = omega arith } in
      let rest = Leads-read_pages n (c ∷ seen) l (omega arith) (c_is, IsBehind-later k seen h) in
      ap (λ t. decide t (λ x. read_pages turn n x (x ∷ seen)) u seen) e
      ∙ rw (fresh, not_self u c b k e l) rest

  -- The loop gives an answer exactly where at most so many pages in a row lead to it; in all other
  -- cases it gives an error. A page without an answer, a broken cursor, one that comes again and a
  -- row of pages that is too long are all errors, never "no record".
  pub read_pages_iff :
      (n : ℕ) (b : Bool)
      → (read_pages turn n [] [] ≡ some b) ↔ ((k : ℕ) × Leads turn [] b k × (k ≤ n))
  read_pages_iff n b = (read_pages-Leads n [] [] b, λ x. Leads-read_pages n [] x.1 x.2 tt)

answer_of-ok : (o : Option Bool) (b : Bool) → answer_of o ≡ ok b → o ≡ some b
answer_of-ok none b h = cc
answer_of-ok (some d) b h = let same : d ≡ b = cc in ap (λ x. some x) same

module _ (to_lower : ℕ → ℕ) (json : Json) (token : Text) (domain : Text)
    (fetch : Text → Fetched) where
  -- With a token, `has_exact_record` always ends, and it says that there is a record, or that there
  -- is none, exactly where at most a hundred pages in a row, from the first, lead to that answer; a
  -- page that is not answered with status 200 or does not decode, a cursor that is missing, broken or
  -- comes again, and more pages than that are errors.
  pub has_exact_record_iff :
      (label : Text) (b : Bool)
      → empty token ≡ false
      → (has_exact_record to_lower json token domain fetch label ≡ ok b) ↔ (
          (k : ℕ) × Leads (turn_at to_lower json token domain fetch label) [] b k × (k ≤ max_pages))
  unfolding has_exact_record
  has_exact_record_iff label b t =
      let loop = read_pages_iff (turn_at to_lower json token domain fetch label) max_pages b in
      rw t (λ h. loop.0 (answer_of-ok _ b h), λ x. ap answer_of (loop.1 x))
