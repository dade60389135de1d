-- ===== src/Service/Names.antt =====
-- The validation of app/internal/service/service.go: subdomains, TCP ports and key names. A text is
-- the list of its code points; `to_lower` is Go's `unicode.ToLower`.
pub mod Port
pub mod Label
use tunnel_service.Prelude.{
  ℕ, ◌+◌, ◌-◌, ◌*◌, ◌≤◌, ◌<◌, Text, codes, text_eq, Bool, true, false, not, ◌&&◌, ◌||◌, Option,
  none, some, List, [], ◌∷◌, map, any, leb, ltb, ◌==◌, if◌then◌else◌, length,
}
use tunnel_service.Model.{
  Result, ok, err, invalid_subdomain, reserved_subdomain, invalid_tcp_port, invalid_name,
  public_tcp_port_min, public_tcp_port_max,
}

abbrev pub between : ℕ → ℕ → ℕ → Bool
between low high c = leb low c && leb c high

-- `unicode.IsSpace`
unfoldable pub is_space : ℕ → Bool
is_space c =
    between 9 13 c
    || c == 32
    || c == 0x85
    || c == 0xA0
    || c == 0x1680
    || between 0x2000 0x200A c
    || between 0x2028 0x2029 c
    || c == 0x202F
    || c == 0x205F
    || c == 0x3000

-- `unicode.IsControl`
unfoldable pub is_control : ℕ → Bool
is_control c = leb c 31 || between 127 159 c

unfoldable pub trim_left : Text → Text
trim_left [] = []
trim_left (c ∷ s) = let rest = trim_left s in if is_space c then rest else c ∷ s

unfoldable pub trim_right : Text → Text
trim_right [] = []
trim_right (c ∷ s) = elim (trim_right s) [
  | [] ↦ if is_space c then [] else c ∷ []
  | d ∷ t ↦ c ∷ d ∷ t
]

-- `strings.TrimSpace`
unfoldable pub trim_space : Text → Text
unfolding trim_left trim_right is_space
trim_space s = trim_right (trim_left s)

-- The bytes of a code point in UTF-8.
abbrev pub width : ℕ → ℕ
width c = if ltb c 0x80 then 1 else if ltb c 0x800 then 2 else if ltb c 0x10000 then 3 else 4

-- `len` of a string
unfoldable pub byte_length : Text → ℕ
byte_length [] = 0
byte_length (c ∷ s) = width c + byte_length s

unfoldable pub all : (ℕ → Bool) → Text → Bool
all p [] = true
all p (c ∷ s) = p c && all p s

abbrev pub reserved_subdomains : List Text
reserved_subdomains =
    codes "ssh"
    ∷ codes "tunnel"
    ∷ codes "www"
    ∷ codes "api"
    ∷ codes "admin"
    ∷ codes "auth"
    ∷ codes "app"
    ∷ codes "status"
    ∷ codes "mail"
    ∷ codes "smtp"
    ∷ codes "ftp"
    ∷ codes "ns1"
    ∷ codes "ns2"
    ∷ codes "_acme-challenge"
    ∷ []

unfoldable pub is_reserved : Text → Bool
is_reserved name = any (λ r. text_eq r name) reserved_subdomains

abbrev pub is_digit : ℕ → Bool
is_digit c = between b'0' b'9' c

unfoldable pub is_label_char : ℕ → Bool
is_label_char c = (between b'a' b'z' c || is_digit c || c == b'-') && not (is_space c)

abbrev pub starts_with_dash : Text → Bool
starts_with_dash [] = false
starts_with_dash (c ∷ s) = c == b'-'

abbrev pub ends_with_dash : Text → Bool
ends_with_dash [] = false
ends_with_dash (c ∷ []) = c == b'-'
ends_with_dash (c ∷ d ∷ s) = ends_with_dash (d ∷ s)

-- The checks of NormalizeSubdomain on the text in lower case.
unfoldable pub check_label : Text → Result Text
unfolding is_space
check_label name =
    if is_reserved name
    then err reserved_subdomain
    else if ltb (byte_length name) 1
        || ltb 63 (byte_length name)
        || starts_with_dash name
        || ends_with_dash name
    then err invalid_subdomain
    else if not (all is_label_char name)
    then err invalid_subdomain
    else ok name

unfoldable pub lower_name : (ℕ → ℕ) → Text → Text
lower_name to_lower s = map to_lower (trim_space s)

unfoldable pub normalize_subdomain : (ℕ → ℕ) → Text → Result Text
unfolding lower_name check_label
normalize_subdomain to_lower raw = check_label (lower_name to_lower raw)

-- `strconv.ParseUint(raw, 10, 16)` on digits, from the value of the digits before.
unfoldable pub parse_uint16 : ℕ → Text → Option ℕ
parse_uint16 n [] = some n
parse_uint16 n (c ∷ s) =
    let m = n * 10 + (c - b'0') in let rest = parse_uint16 m s in if ltb 65535 m then none else rest

abbrev is_empty : Text → Bool
is_empty [] = true
is_empty (c ∷ s) = false

unfoldable pub port_of : Option ℕ → Result ℕ
port_of none = err invalid_tcp_port
port_of (some p) =
    if ltb p public_tcp_port_min || ltb public_tcp_port_max p then err invalid_tcp_port else ok p

unfoldable pub parse_trimmed_port : Text → Result ℕ
unfolding port_of
parse_trimmed_port raw =
    if is_empty raw || not (all is_digit raw)
    then err invalid_tcp_port
    else port_of (parse_uint16 0 raw)

unfoldable pub parse_tcp_port : Text → Result ℕ
unfolding parse_trimmed_port
parse_tcp_port raw = parse_trimmed_port (trim_space raw)

unfoldable pub check_name : Text → Result (Unit {0})
check_name name =
    if ltb (byte_length name) 1 || ltb 80 (byte_length name) || any is_control name
    then err invalid_name
    else ok tt

unfoldable pub clean_name : Text → Result (Unit {0})
unfolding check_name
clean_name name = check_name (trim_space name)
