-- ===== src/Service/Names/Label.antt =====
-- The labels that `NormalizeSubdomain` of app/internal/service/service.go returns.
use tunnel_service.Prelude.{
  ℕ, ◌<◌, ◌≡◌, ◌∙◌, ap, sym, refl, Text, true, [], ◌∷◌, map, arith, &&_parts, lower,
}
use tunnel_service.Model.{ok}
use tunnel_service.Service.Names.{
  all, is_label_char, trim_left, trim_right, trim_space, check_label, lower_name,
  normalize_subdomain,
}

checked :
    (s : Text) {name : Text} → check_label s ≡ ok name → (s ≡ name) × (all is_label_char s ≡ true)
unfolding check_label
checked s h = ground arith

trim_left-label : (s : Text) → all is_label_char s ≡ true → trim_left s ≡ s
unfolding trim_left all is_label_char
trim_left-label [] h = refl
trim_left-label (c ∷ s) h = ground arith

trim_right-label : (s : Text) → all is_label_char s ≡ true → trim_right s ≡ s
unfolding trim_right all is_label_char
trim_right-label [] h = refl
trim_right-label (c ∷ []) h = ground arith
trim_right-label (c ∷ d ∷ s) h =
    let parts = &&_parts (is_label_char c) (all is_label_char (d ∷ s)) h in
    rw (trim_right-label (d ∷ s) parts.1) refl

trim_space-label : (s : Text) → all is_label_char s ≡ true → trim_space s ≡ s
unfolding trim_space
trim_space-label s h = rw (trim_left-label s h) (trim_right-label s h)

lower-label : (c : ℕ) → is_label_char c ≡ true → (c < 128) × (lower c ≡ c)
unfolding is_label_char lower
lower-label c h = (ground arith, ground arith)

module _ (to_lower : ℕ → ℕ) where
  map-label :
      ((c : ℕ) → c < 128 → to_lower c ≡ lower c)
      → (s : Text) → all is_label_char s ≡ true
      → map to_lower s ≡ s
  unfolding all
  map-label ascii [] h = refl
  map-label ascii (c ∷ s) h =
      let (a, b) = &&_parts (is_label_char c) (all is_label_char s) h in
      let (small, kept) = lower-label c a in cc (ascii c small, kept, map-label ascii s b)

  -- Where `to_lower` agrees with the ASCII mapping on ASCII, a normalized subdomain is normalized
  -- to itself.
  pub normalize_subdomain_idem :
      ((c : ℕ) → c < 128 → to_lower c ≡ lower c)
      → (raw name : Text) → normalize_subdomain to_lower raw ≡ ok name
      → normalize_subdomain to_lower name ≡ ok name
  unfolding normalize_subdomain lower_name
  normalize_subdomain_idem ascii raw name h =
      let (same, chars) = checked (lower_name to_lower raw) h in
      let label : all is_label_char name ≡ true = rw (← same) chars in
      ap check_label
        (ap (map to_lower) (trim_space-label name label) ∙ map-label ascii name label ∙ sym same)
      ∙ h
