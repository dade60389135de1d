-- ===== src/Web/Paging/Walk.antt =====
-- The links of app/internal/web/server.go lead through a whole list: from the first page, each next
-- link goes on where the page before ended.
use native.Mathlib.Decide.{dec_lt}
use tunnel_service.Prelude.{
  ℕ, zero, suc, ◌+◌, ◌-◌, ◌*◌, ◌≤◌, ◌<◌, ◌≡◌, refl, ap, sym, ◌∙◌, Text, Bool, true, false, none,
  some, List, [], ◌∷◌, ◌++◌, ltb, length, take, drop, if◌then◌else◌, arith, less_test,
  not_less_test,
}
use tunnel_service.Model.{ok}
use tunnel_service.Store.Db.{Db}
use tunnel_service.Store.Tx.{Tx}
use tunnel_service.Store.Listing.{cut, page_of}
use tunnel_service.Service.World.{World, stored, transact, next_fault, rest_of}
use tunnel_service.Web.Paging.{
  ListReply, internal, shown, pagination, listed, admin_list, requested_page, page_link,
  page_offset, max_page,
}
use tunnel_service.Web.Paging.Decimal.{requested_page-link}

module _ {A : Type 0} where
  take_all : (n : ℕ) (t : List A) → length t ≤ n → take n t ≡ t
  take_all zero [] h = refl
  take_all zero (x ∷ t) h = absurd (omega arith)
  take_all (suc n) [] h = refl
  take_all (suc n) (x ∷ t) h = ap (λ s. x ∷ s) (take_all n t (omega arith))

  length-take : (n : ℕ) (t : List A) → n ≤ length t → length (take n t) ≡ n
  length-take zero t h = refl
  length-take (suc n) [] h = absurd (omega arith)
  length-take (suc n) (x ∷ t) h = ap suc (length-take n t (omega arith))

  take-take : (n : ℕ) (t : List A) → take n (take (suc n) t) ≡ take n t
  take-take zero t = refl
  take-take (suc n) [] = refl
  take-take (suc n) (x ∷ t) = ap (λ s. x ∷ s) (take-take n t)

  take-drop : (n : ℕ) (t : List A) → take n t ++ drop n t ≡ t
  take-drop zero t = refl
  take-drop (suc n) [] = refl
  take-drop (suc n) (x ∷ t) = ap (λ s. x ∷ s) (take-drop n t)

  drop_nil : (n : ℕ) → drop {A = A} n [] ≡ []
  drop_nil zero = refl
  drop_nil (suc n) = refl

  drop-drop : (m n : ℕ) (t : List A) → drop n (drop m t) ≡ drop (m + n) t
  drop-drop zero n t = ap (λ k. drop k t) (omega arith)
  drop-drop (suc m) n [] = drop_nil n ∙ sym (drop_nil (suc m + n))
  drop-drop (suc m) n (x ∷ t) =
      let count : suc (m + n) ≡ suc m + n = omega arith in
      drop-drop m n t ∙ ap (λ k. drop k (x ∷ t)) count

  length-drop : (n : ℕ) (t : List A) → length (drop n t) ≡ length t - n
  length-drop zero t = omega arith
  length-drop (suc n) [] = omega arith
  length-drop (suc n) (x ∷ t) = length-drop n t ∙ omega arith

  cut_if :
      (n : ℕ) (t : List A) (b : Bool)
      → ltb n (length t) ≡ b
      → cut n t ≡ (if b then (take n t, true) else (t, false))
  cut_if n t b e = ap (λ c. if c then (take n t, true) else (t, false)) e

  cut_last : (n : ℕ) (t : List A) → length t ≤ n → cut n (take (suc n) t) ≡ (t, false)
  cut_last n t h =
      ap (cut n) (take_all (suc n) t (omega arith))
      ∙ cut_if n t false (not_less_test n (length t) h)

  cut_more : (n : ℕ) (t : List A) → n < length t → cut n (take (suc n) t) ≡ (take n t, true)
  cut_more n t h =
      let size = length-take (suc n) t (omega arith) in
      cut_if n (take (suc n) t) true (less_test n (length (take (suc n) t)) (omega arith))
      ∙ ap (λ s. (s, true)) (take-take n t)

  append_nil : (t : List A) → t ++ [] ≡ t
  append_nil [] = refl
  append_nil (x ∷ t) = ap (λ s. x ∷ s) (append_nil t)

-- What a reader has seen who opens a page and then follows the links `next` to the end, n pages at
-- most.
abbrev follow : {A : Type 0} → ListReply A → (Text → List A) → List A
follow internal on = []
follow (shown out p) on = out ++ (elim p.next [ none ↦ [] | some link ↦ on link ])

unfoldable pub walk : {A : Type 0} → (ℕ → ℕ → Db → List A × Bool) → World → ℕ → Text → List A
walk query w zero raw = []
walk query w (suc n) raw =
    let (reply, after) = admin_list query raw w in follow reply (walk query w n)

module _ {A : Type 0} (query : ℕ → ℕ → Db → List A × Bool) (rows : List A) (w : World)
    (lists : (offset : ℕ) → query 10 offset w.db ≡ page_of 10 offset rows)
    (calm : w.faults ≡ []) where
  abbrev reading : ℕ → Tx (List A × Bool)
  reading p db = ok (query 10 (page_offset p) db, db)

  at_page :
      (p : ℕ)
      → 0 < p
      → p ≤ max_page
      → (admin_list query (page_link p) w).0
        ≡ shown
            (page_of 10 (page_offset p) rows).0
            (pagination p (page_of 10 (page_offset p) rows).1)
  unfolding admin_list stored requested_page pagination
  at_page p a b =
      ap (λ q. (listed q (stored (reading q) w)).0) (requested_page-link p a b)
      ∙ ap (λ fs. (listed p (transact (next_fault fs) (reading p) (rest_of w))).0) calm
      ∙ ap (λ (x : List A × Bool). shown x.0 (pagination p x.1)) (lists (page_offset p))

  abbrev rest_from : ℕ → List A
  rest_from p = drop (page_offset p) rows

  next_rest : (p : ℕ) → 0 < p → drop 10 (rest_from p) ≡ rest_from (p + 1)
  next_rest p a =
      let next : page_offset p + 10 ≡ page_offset (p + 1) = omega arith in
      drop-drop (page_offset p) 10 rows ∙ ap (λ k. drop k rows) next

  walk_from :
      (n p : ℕ)
      → 0 < n
      → 0 < p
      → p + n ≤ max_page + 1
      → length (rest_from p) ≤ n * 10
      → walk query w n (page_link p) ≡ rest_from p
  unfolding walk page_of pagination
  walk_from zero p c a b h = absurd (omega arith)
  walk_from (suc n) p c a b h = elim (dec_lt 10 (length (rest_from p))) [
    | no q ↦
        ap (λ r. follow r (walk query w n)) (at_page p a (omega arith))
        ∙ ap (λ (x : List A × Bool). follow (shown x.0 (pagination p x.1)) (walk query w n))
            (cut_last 10 (rest_from p) (omega arith))
        ∙ append_nil (rest_from p)
    | yes q ↦
        let size = length-drop 10 (rest_from p) in
        let step = next_rest p a in
        let same_size = ap length step in
        let rest = walk_from n (p + 1) (omega arith) (omega arith) (omega arith) (omega arith) in
        ap (λ r. follow r (walk query w n)) (at_page p a (omega arith))
        ∙ ap (λ (x : List A × Bool). follow (shown x.0 (pagination p x.1)) (walk query w n))
            (cut_more 10 (rest_from p) q)
        ∙ ap (λ t. take 10 (rest_from p) ++ t) (rest ∙ sym step)
        ∙ take-drop 10 (rest_from p)
  ]

  -- A reader who opens a list without a page parameter and follows the next links sees every row of
  -- the list, once and in order, where the query cuts its pages out of the list, the calls of the
  -- store do not fail and n pages hold the list; n is positive and at most the million pages that can
  -- be asked for.
  pub walk_all : (n : ℕ) → 0 < n → n ≤ max_page → length rows ≤ n * 10 → walk query w n [] ≡ rows
  unfolding page_link
  walk_all n a b h = walk_from n 1 a (omega arith) (omega arith) h
