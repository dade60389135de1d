-- ===== src/Config/Values.antt =====
-- How `Load` of app/internal/config/config.go reads numbers, Booleans, lists and labels.
use tunnel_service.Prelude.{
  ℕ, ◌+◌, ◌-◌, ◌*◌, ◌^◌, ℤ, pos, negate, String, Text, codes, text_eq, Bool, true, false, not, ◌||◌,
  Option, none, some, List, [], ◌∷◌, any, ltb, ◌==◌, if◌then◌else◌,
}
use tunnel_service.Service.Names.{
  trim_space, byte_length, all, is_digit, between, starts_with_dash, ends_with_dash,
}
use tunnel_service.Service.Resources.{empty}

abbrev decimal : ℕ → Text → ℕ
decimal n [] = n
decimal n (c ∷ s) = decimal (n * 10 + (c - b'0')) s

abbrev up_to : ℕ → Text → Option ℕ
up_to most s =
    if empty s || not (all is_digit s) || ltb most (decimal 0 s) then none else some (decimal 0 s)

abbrev as_positive : Option ℕ → Option ℤ
as_positive none = none
as_positive (some n) = some (pos n)

abbrev as_negative : Option ℕ → Option ℤ
as_negative none = none
as_negative (some n) = some (negate n)

-- `strconv.Atoi` on a machine of 64 bits
unfoldable pub atoi : Text → Option ℤ
atoi [] = none
atoi (c ∷ s) =
    if c == b'-'
    then as_negative (up_to (2 ^ 63) s)
    else if c == b'+'
    then as_positive (up_to (2 ^ 63 - 1) s)
    else as_positive (up_to (2 ^ 63 - 1) (c ∷ s))

abbrev one_of : List String → Text → Bool
one_of words s = any (λ w. text_eq (codes w) s) words

-- `strconv.ParseBool`
unfoldable pub parse_bool : Text → Option Bool
parse_bool s =
    if one_of ("1" ∷ "t" ∷ "T" ∷ "TRUE" ∷ "true" ∷ "True" ∷ []) s
    then some true
    else if one_of ("0" ∷ "f" ∷ "F" ∷ "FALSE" ∷ "false" ∷ "False" ∷ []) s
    then some false
    else none

unfoldable pub valid_label : Text → Bool
valid_label v =
    if ltb (byte_length v) 1 || ltb 63 (byte_length v) || starts_with_dash v || ends_with_dash v
    then false
    else all (λ r. between b'a' b'z' r || between b'0' b'9' r || r == b'-') v

-- `strings.Split(v, ",")`
abbrev before_comma : Text → Text
before_comma [] = []
before_comma (c ∷ s) = let rest = before_comma s in if c == b',' then [] else c ∷ rest

abbrev put : ℕ → List Text → List Text
put c [] = (c ∷ []) ∷ []
put c (x ∷ xs) = (c ∷ x) ∷ xs

unfoldable pub split_comma : Text → List Text
split_comma [] = [] ∷ []
split_comma (c ∷ s) = let rest = split_comma s in if c == b',' then [] ∷ rest else put c rest

abbrev trimmed : List Text → List Text
trimmed [] = []
trimmed (x ∷ xs) =
    let rest = trimmed xs in if empty (trim_space x) then rest else trim_space x ∷ rest

-- The set as the list of its members, where one may stand twice.
unfoldable pub csv_set : Text → List Text
unfolding split_comma
csv_set v = trimmed (split_comma v)
