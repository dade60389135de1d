-- ===== src/Store/Stamp.antt =====
-- Times as the text columns hold them. `Format(time.RFC3339Nano)` drops the trailing zeros of the
-- fraction, and SQLite compares the column as text: within one second the order is that of the
-- printed fractions, in which a shorter one goes on with 'Z'.
use tunnel_service.Prelude.{
  ℕ, zero, suc, ◌+◌, ◌/◌, ◌%◌, ◌^◌, ◌<◌, ◌≡◌, refl, Bool, true, false, ◌&&◌, ◌||◌, [], ◌∷◌, ◌++◌,
  ◌==◌, ltb, if◌then◌else◌, Text, arith,
}
use tunnel_service.Model.{Time}

abbrev pub second : ℕ
second = 1000000000

-- The last `k` decimal digits of `n`.
digits : ℕ → ℕ → Text
digits zero n = []
digits (suc k) n = (n / 10 ^ k % 10 + b'0') ∷ digits k n

keep_digit : ℕ → Text → Text
keep_digit c [] = if c == b'0' then [] else c ∷ []
keep_digit c (d ∷ s) = c ∷ d ∷ s

trim_zeros : Text → Text
trim_zeros [] = []
trim_zeros (c ∷ s) = keep_digit c (trim_zeros s)

-- The digits of the fraction behind its point.
unfoldable pub fraction_digits : ℕ → Text
unfolding digits trim_zeros keep_digit
fraction_digits n = trim_zeros (digits 9 n) ++ (b'Z' ∷ [])

-- What stands behind the seconds: ".5Z", or "Z" at a whole second.
unfoldable pub fraction : ℕ → Text
fraction n = if n == 0 then b'Z' ∷ [] else b'.' ∷ fraction_digits n

unfoldable pub text_lt : Text → Text → Bool
text_lt s [] = false
text_lt [] (d ∷ t) = true
text_lt (c ∷ s) (d ∷ t) = ltb c d || (c == d && text_lt s t)

-- `<` of two stamps in SQL.
unfoldable pub stamp_lt : Time → Time → Bool
stamp_lt a b =
    if a / second == b / second
    then text_lt (fraction (a % second)) (fraction (b % second))
    else ltb (a / second) (b / second)

-- Stamps of different seconds are ordered as their times.
pub stamp_lt-second : (a b : Time) → a / second < b / second → stamp_lt a b ≡ true
unfolding stamp_lt
stamp_lt-second a b h = ground arith

pub stamp_lt-second_rev : (a b : Time) → a / second < b / second → stamp_lt b a ≡ false
unfolding stamp_lt
stamp_lt-second_rev a b h = ground arith

fraction_whole : fraction 0 ≡ b'Z' ∷ []
unfolding fraction
fraction_whole = refl

fraction_part : (n : ℕ) → 0 < n → fraction n ≡ b'.' ∷ fraction_digits n
unfolding fraction
fraction_part n h = ground arith

dot_first : (rest : Text) → text_lt (b'.' ∷ rest) (b'Z' ∷ []) ≡ true
unfolding text_lt
dot_first rest = refl

-- Within one second a whole second comes last, though it is the earliest time of that second.
pub stamp_lt-whole :
    (a b : Time) → a / second ≡ b / second → b % second ≡ 0 → 0 < a % second → stamp_lt a b ≡ true
unfolding stamp_lt
stamp_lt-whole a b same whole part =
    rw (same, whole, fraction_part (a % second) part, fraction_whole)
      (ground (arith, dot_first (fraction_digits (a % second))))
