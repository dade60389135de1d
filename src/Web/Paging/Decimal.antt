-- ===== src/Web/Paging/Decimal.antt =====
-- The number of a page in a link of app/internal/web/server.go is read back as that number.
use tunnel_service.Prelude.{
  ℕ, zero, suc, ◌+◌, ◌-◌, ◌*◌, ◌/◌, ◌%◌, ◌^◌, ◌≤◌, ◌<◌, ◌≡◌, refl, ap, sym, ◌∙◌, Text, true, false,
  some, [], ◌∷◌, ◌==◌, arith, ==_iff, &&_join, &&_parts, Bool-cases, inl, inr,
}
use tunnel_service.Service.Names.{all, is_digit}
use tunnel_service.Service.Names.Port.{decimal_from, decimal_from-le}
use tunnel_service.Web.Perform.{parse_int64, path_id, max_int64, digits, positive}
use tunnel_service.Web.Paging.{itoa_from, itoa, page_link, requested_page, page_or_first, max_page}

digit_back : (n : ℕ) → n / 10 * 10 + (n % 10 + b'0' - b'0') ≡ n
digit_back n = omega arith

itoa_from-value :
    (k n : ℕ) (acc : Text) → n < 10 ^ k → decimal_from 0 (itoa_from k n acc) ≡ decimal_from n acc
unfolding itoa_from decimal_from
itoa_from-value zero n acc h = ap (λ m. decimal_from m acc) (omega arith)
itoa_from-value (suc k) n acc h =
    let power : 10 ^ suc k ≡ 10 * 10 ^ k = omega arith in
    let small : n / 10 < 10 ^ k = omega arith in
    elim (Bool-cases (n / 10 == 0)) [
      | inl e ↦ rw e (ap (λ m. decimal_from m acc) (ground arith))
      | inr e ↦ rw e (
          itoa_from-value k (n / 10) ((n % 10 + b'0') ∷ acc) small
          ∙ ap (λ m. decimal_from m acc) (digit_back n))
    ]

last_digit : (n : ℕ) → is_digit (n % 10 + b'0') ≡ true
last_digit n = ground arith

itoa_from-digits :
    (k n : ℕ) (acc : Text) → all is_digit acc ≡ true → all is_digit (itoa_from k n acc) ≡ true
unfolding itoa_from all
itoa_from-digits zero n acc h = h
itoa_from-digits (suc k) n acc h =
    let digit : all is_digit ((n % 10 + b'0') ∷ acc) ≡ true =
      &&_join (is_digit (n % 10 + b'0')) (all is_digit acc) (last_digit n) h in
    elim (Bool-cases (n / 10 == 0)) [
      | inl e ↦ rw e digit
      | inr e ↦ rw e (itoa_from-digits k (n / 10) ((n % 10 + b'0') ∷ acc) digit)
    ]

parse_int64-small :
    (n : ℕ) (s : Text) → decimal_from n s ≤ max_int64 → parse_int64 n s ≡ some (decimal_from n s)
unfolding parse_int64 decimal_from
parse_int64-small n [] h = refl
parse_int64-small n (c ∷ s) h =
    ground
      (arith, decimal_from-le (n * 10 + (c - b'0')) s, parse_int64-small (n * 10 + (c - b'0')) s)

not_sign : (c : ℕ) → is_digit c ≡ true → ((c == b'+') ≡ false) × ((c == b'-') ≡ false)
not_sign c h = (ground arith, ground arith)

positive-some : (n : ℕ) → 0 < n → positive (some n) ≡ some n
positive-some n p = ground arith

digits-value :
    (c : ℕ) (s : Text) (n : ℕ)
    → all is_digit (c ∷ s) ≡ true
    → decimal_from 0 (c ∷ s) ≡ n
    → 0 < n
    → n ≤ max_int64
    → digits (c ∷ s) ≡ some n
digits-value c s n d v p b =
    let value : parse_int64 0 (c ∷ s) ≡ some n =
      parse_int64-small 0 (c ∷ s) (omega (arith, v)) ∙ ap (λ m. some m) v in
    rw d (ap positive value ∙ positive-some n p)

-- Digits that write a positive int64.
path_id-digits :
    (s : Text) (n : ℕ)
    → all is_digit s ≡ true
    → decimal_from 0 s ≡ n
    → 0 < n
    → n ≤ max_int64
    → path_id s ≡ some n
unfolding path_id decimal_from all
path_id-digits [] n d v p b = absurd (omega arith)
path_id-digits (c ∷ s) n d v p b =
    let parts = &&_parts (is_digit c) (all is_digit s) d in
    let signs = not_sign c parts.0 in rw (signs.0, signs.1) (digits-value c s n d v p b)

in_range : (n : ℕ) → n ≤ max_page → page_or_first (some n) ≡ n
in_range n b = ground arith

-- The page parameter of a link to a page that can be asked for is read back as that page.
pub requested_page-link : (n : ℕ) → 0 < n → n ≤ max_page → requested_page (page_link n) ≡ n
unfolding requested_page page_link itoa all decimal_from path_id
requested_page-link n p b = elim (Bool-cases (n == 1)) [
  | inl e ↦ rw e (sym ((==_iff n 1).0 e))
  | inr e ↦
      let value = itoa_from-value 19 n [] (omega arith) in
      rw e (
        ap page_or_first (
          path_id-digits (itoa_from 19 n []) n (itoa_from-digits 19 n [] refl) value p
            (omega arith))
        ∙ in_range n b)
]
