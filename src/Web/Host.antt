-- ===== src/Web/Host.antt =====
-- `canonicalHost` of app/internal/web/internal.go. A text is the list of its code points, `to_lower`
-- is Go's `unicode.ToLower`.
pub mod Roundtrip
use tunnel_service.Prelude.{
  ℕ, Text, text_eq, Bool, true, false, not, ◌&&◌, ◌||◌, Option, none, some, List, [], ◌∷◌, ◌++◌,
  map, any, ltb, ◌==◌, if◌then◌else◌,
}
use tunnel_service.Service.Names.{
  trim_space, byte_length, all, between, is_digit, starts_with_dash, ends_with_dash,
}
use tunnel_service.Service.Resources.{empty}
use tunnel_service.Service.Worker.{trim_dot, has_suffix}

-- `strings.TrimSuffix`
unfoldable pub cut_suffix : Text → Text → Text
cut_suffix [] suffix = []
cut_suffix (c ∷ s) suffix =
    let rest = cut_suffix s suffix in if text_eq (c ∷ s) suffix then [] else c ∷ rest

unfoldable pub is_host_char : ℕ → Bool
is_host_char c = between b'a' b'z' c || is_digit c || c == b'-'

-- The last check, on the text that is left for the label.
unfoldable pub is_label : Text → Bool
is_label host =
    not (
      empty host
      || any (λ c. c == b'.') host
      || ltb 63 (byte_length host)
      || starts_with_dash host
      || ends_with_dash host)
    && all is_host_char host

unfoldable pub clean_host : (ℕ → ℕ) → Text → Text
clean_host to_lower host = map to_lower (trim_dot (trim_space host))

-- The label of a host in the zone, and its full name.
unfoldable pub split_host : Text → Text → Option (Text × Text)
unfolding cut_suffix is_label
split_host host zone =
    let label = if has_suffix host (b'.' ∷ zone) then cut_suffix host (b'.' ∷ zone) else host in
    if empty zone
    then none
    else if is_label label
    then some (label, label ++ (b'.' ∷ zone))
    else none

unfoldable pub canonical_host : (ℕ → ℕ) → Text → Text → Option (Text × Text)
unfolding clean_host split_host
canonical_host to_lower host domain =
    split_host (clean_host to_lower host) (clean_host to_lower domain)
