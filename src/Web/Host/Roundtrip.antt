-- ===== src/Web/Host/Roundtrip.antt =====
-- Names that `canonicalHost` of app/internal/web/internal.go made are its own results again.
use tunnel_service.Prelude.{
  ℕ, ◌+◌, ◌<◌, ◌≡◌, ◌≢◌, refl, sym, ap, ◌∙◌, Text, text_eq, text_eq→eq, text_eq_self, true, false,
  some, [], ◌∷◌, ◌++◌, map, arith, length, lower, Bool-cases, inl, inr, &&_parts, ◌==◌,
}
use tunnel_service.Service.Names.{trim_space, trim_left, trim_right, is_space, all}
use tunnel_service.Service.Worker.{Controller, trim_dot, has_suffix, full_host}
use tunnel_service.Model.{Error}
use tunnel_service.Service.Resources.{empty}
use tunnel_service.Web.Host.{
  cut_suffix, is_host_char, is_label, clean_host, split_host, canonical_host,
}

trim_right-append : (s t : Text) → t ≢ [] → trim_right t ≡ t → trim_right (s ++ t) ≡ s ++ t
unfolding trim_right
trim_right-append [] t n e = e
trim_right-append (c ∷ s) [] n e = elim (n refl) [ ]
trim_right-append (c ∷ []) (d ∷ t) n e = rw e refl
trim_right-append (c ∷ d ∷ s) (b ∷ t) n e = rw (trim_right-append (d ∷ s) (b ∷ t) n e) refl

trim_right_idem : (s : Text) → trim_right (trim_right s) ≡ trim_right s
unfolding trim_right
trim_right_idem [] = refl
trim_right_idem (c ∷ s) = ground (arith, trim_right_idem s)

trim_dot-append :
    (s : Text) (d : ℕ) (t : Text)
    → trim_dot (d ∷ t) ≡ d ∷ t
    → trim_dot (s ++ (d ∷ t)) ≡ s ++ (d ∷ t)
unfolding trim_dot
trim_dot-append [] d t e = e
trim_dot-append (c ∷ []) d t e = rw e refl
trim_dot-append (c ∷ b ∷ s) d t e = rw (trim_dot-append (b ∷ s) d t e) refl

map-append : (f : ℕ → ℕ) (s t : Text) → map f (s ++ t) ≡ map f s ++ map f t
map-append f [] t = refl
map-append f (c ∷ s) t = ap (λ r. f c ∷ r) (map-append f s t)

length-append : (s t : Text) → length (s ++ t) ≡ length s + length t
length-append [] t = omega arith
length-append (c ∷ s) t = omega (arith, length-append s t)

has_suffix-append : (s t : Text) → has_suffix (s ++ t) t ≡ true
unfolding has_suffix
has_suffix-append [] [] = text_eq_self []
has_suffix-append [] (c ∷ t) = rw (text_eq_self (c ∷ t)) refl
has_suffix-append (c ∷ s) t = ground (arith, has_suffix-append s t)

longer : (c : ℕ) (s t : Text) → text_eq (c ∷ (s ++ t)) t ≡ false
longer c s t = elim (Bool-cases (text_eq (c ∷ (s ++ t)) t)) [
  | inr e ↦ e
  | inl e ↦ absurd (omega (arith, ap length (text_eq→eq (c ∷ (s ++ t)) t e), length-append s t))
]

cut_suffix-append : (s t : Text) → t ≢ [] → cut_suffix (s ++ t) t ≡ s
unfolding cut_suffix
cut_suffix-append [] [] n = refl
cut_suffix-append [] (c ∷ t) n = rw (text_eq_self (c ∷ t)) refl
cut_suffix-append (c ∷ s) t n = rw (longer c s t, cut_suffix-append s t n) refl

host_char :
    (c : ℕ)
    → is_host_char c ≡ true
    → (c < 128) × (lower c ≡ c) × (is_space c ≡ false) × ((c == b'.') ≡ false)
unfolding is_host_char is_space lower
host_char c h = (ground arith, ground arith, ground arith, ground arith)

label_parts : (s : Text) → is_label s ≡ true → (empty s ≡ false) × (all is_host_char s ≡ true)
unfolding is_label
label_parts s h = ground arith

-- A domain that the cleaning of a host leaves as it is.
pub record IsClean (to_lower : ℕ → ℕ) (domain : Text) : Type 0 where
  pub nonempty : empty domain ≡ false
  pub trimmed : trim_space domain ≡ domain
  pub undotted : trim_dot domain ≡ domain
  pub lowered : map to_lower domain ≡ domain

not_nil : (s : Text) → empty s ≡ false → s ≢ []
not_nil [] h e = cc
not_nil (c ∷ s) h e = cc

trim_right-domain : (s : Text) → trim_space s ≡ s → trim_right s ≡ s
unfolding trim_space
trim_right-domain s e = ap trim_right (sym e) ∙ trim_right_idem (trim_left s) ∙ e

dotted_right : (s : Text) → s ≢ [] → trim_right s ≡ s → trim_right (b'.' ∷ s) ≡ b'.' ∷ s
unfolding trim_right
dotted_right [] n e = elim (n refl) [ ]
dotted_right (c ∷ s) n e = rw e refl

dotted_dot : (s : Text) → s ≢ [] → trim_dot s ≡ s → trim_dot (b'.' ∷ s) ≡ b'.' ∷ s
unfolding trim_dot
dotted_dot [] n e = elim (n refl) [ ]
dotted_dot (c ∷ s) n e = rw e refl

trim_left-host :
    (s t : Text) → empty s ≡ false → all is_host_char s ≡ true → trim_left (s ++ t) ≡ s ++ t
unfolding trim_left all
trim_left-host [] t n h = cc
trim_left-host (c ∷ s) t n h =
    let (a, b) = &&_parts (is_host_char c) (all is_host_char s) h in
    let (small, low, solid, dotless) = host_char c a in rw solid refl

lower_dot : lower b'.' ≡ b'.'
unfolding lower
lower_dot = refl

trim_dot-label : (s : Text) → all is_host_char s ≡ true → trim_dot s ≡ s
unfolding trim_dot all is_host_char
trim_dot-label [] h = refl
trim_dot-label (c ∷ []) h = ground arith
trim_dot-label (c ∷ d ∷ s) h =
    rw (trim_dot-label (d ∷ s) (&&_parts (is_host_char c) (all is_host_char (d ∷ s)) h).1) refl

trim_left-label : (s : Text) → all is_host_char s ≡ true → trim_left s ≡ s
unfolding trim_left all
trim_left-label [] h = refl
trim_left-label (c ∷ s) h =
    let (small, low, solid, dotless) =
      host_char c (&&_parts (is_host_char c) (all is_host_char s) h).0 in
    rw solid refl

trim_right-label : (s : Text) → all is_host_char s ≡ true → trim_right s ≡ s
unfolding trim_right all
trim_right-label [] h = refl
trim_right-label (c ∷ []) h =
    let (small, low, solid, dotless) = host_char c (&&_parts (is_host_char c) true h).0 in
    rw solid refl
trim_right-label (c ∷ d ∷ s) h =
    rw (trim_right-label (d ∷ s) (&&_parts (is_host_char c) (all is_host_char (d ∷ s)) h).1) refl

-- A label has no dot, so it does not end in the domain.
no_suffix : (s domain : Text) → all is_host_char s ≡ true → has_suffix s (b'.' ∷ domain) ≡ false
unfolding has_suffix all text_eq
no_suffix [] domain h = refl
no_suffix (c ∷ s) domain h =
    let (a, b) = &&_parts (is_host_char c) (all is_host_char s) h in
    let (small, low, solid, dotless) = host_char c a in rw (dotless, no_suffix s domain b) refl

module _ (to_lower : ℕ → ℕ) (ascii : (c : ℕ) → c < 128 → to_lower c ≡ lower c) where
  map-host : (s : Text) → all is_host_char s ≡ true → map to_lower s ≡ s
  unfolding all
  map-host [] h = refl
  map-host (c ∷ s) h =
      let (a, b) = &&_parts (is_host_char c) (all is_host_char s) h in
      let (small, low, solid, dotless) = host_char c a in cc (ascii c small, low, map-host s b)

  clean_host-join :
      (s domain : Text)
      → IsClean to_lower domain
      → is_label s ≡ true
      → clean_host to_lower (s ++ (b'.' ∷ domain)) ≡ s ++ (b'.' ∷ domain)
  unfolding clean_host trim_space
  clean_host-join s domain d l =
      let (n, chars) = label_parts s l in
      let some_domain = not_nil domain d.nonempty in
      let left = trim_left-host s (b'.' ∷ domain) n chars in
      let right =
        trim_right-append s (b'.' ∷ domain) (λ e. cc)
          (dotted_right domain some_domain (trim_right-domain domain d.trimmed)) in
      let undot = trim_dot-append s b'.' domain (dotted_dot domain some_domain d.undotted) in
      rw (left, right, undot, map-append to_lower s (b'.' ∷ domain), map-host s chars, d.lowered)
        (ap (λ c. s ++ (c ∷ domain)) (ascii b'.' (omega arith) ∙ lower_dot))

  clean_host-label : (s : Text) → is_label s ≡ true → clean_host to_lower s ≡ s
  unfolding clean_host trim_space
  clean_host-label s l =
      let (n, chars) = label_parts s l in
      rw (trim_left-label s chars, trim_right-label s chars, trim_dot-label s chars)
        (map-host s chars)

  clean_host-domain :
      (domain : Text) → IsClean to_lower domain → clean_host to_lower domain ≡ domain
  unfolding clean_host
  clean_host-domain domain d = rw (d.trimmed, d.undotted) d.lowered

  module _ (domain : Text) (d : IsClean to_lower domain) where
    split_again :
        (l f : Text)
        → split_host f domain ≡ some (l, f)
        → clean_host to_lower f ≡ f
        → canonical_host to_lower f domain ≡ some (l, f)
    unfolding canonical_host
    split_again l f e c = rw (c, clean_host-domain domain d) e

    split_fqdn :
        (l : Text)
        → is_label l ≡ true
        → split_host (l ++ (b'.' ∷ domain)) domain ≡ some (l, l ++ (b'.' ∷ domain))
    unfolding split_host
    split_fqdn l e =
        rw
          (
            has_suffix-append l (b'.' ∷ domain),
            cut_suffix-append l (b'.' ∷ domain) (λ q. cc),
            d.nonempty,
            e,
          )
          refl

    split_label :
        (l : Text) → is_label l ≡ true → split_host l domain ≡ some (l, l ++ (b'.' ∷ domain))
    unfolding split_host
    split_label l e = rw (no_suffix l domain (label_parts l e).1, d.nonempty, e) refl

    parts_of :
        (host l f : Text)
        → canonical_host to_lower host domain ≡ some (l, f)
        → (is_label l ≡ true) × (f ≡ l ++ (b'.' ∷ domain))
    unfolding canonical_host split_host
    parts_of host l f h =
        let zone = clean_host-domain domain d in
        let k = rw zone at h in (ground arith, ground arith)

    whole :
        (l : Text)
        → is_label l ≡ true
        → canonical_host to_lower l domain ≡ some (l, l ++ (b'.' ∷ domain))
    unfolding canonical_host
    whole l label = rw (clean_host-label l label, clean_host-domain domain d) (split_label l label)

    -- Where `to_lower` agrees with the ASCII mapping on ASCII and the domain is clean, the full name
    -- and the label that a host has give the same label and full name again.
    pub canonical_host_idem :
        (host l f : Text)
        → canonical_host to_lower host domain ≡ some (l, f)
        → (canonical_host to_lower f domain ≡ some (l, f))
          × (canonical_host to_lower l domain ≡ some (l, f))
    canonical_host_idem host l f h =
        let (label, full) = parts_of host l f h in
        (
          rw full (
              split_again l (l ++ (b'.' ∷ domain)) (split_fqdn l label)
                (clean_host-join l domain d label)),
          rw full (whole l label),
        )

    -- Under the same conditions, the outbox worker asks sish to disconnect a label under the full name
    -- that the label's tunnels carry.
    pub full_host-canonical :
        (message : Error → Text) (tunnels : Controller) (host l f : Text)
        → canonical_host to_lower host domain ≡ some (l, f)
        → full_host to_lower domain message tunnels l ≡ f
    unfolding full_host clean_host
    full_host-canonical message tunnels host l f h =
        let (label, full) = parts_of host l f h in
        let same = clean_host-label l label in
        let zone = clean_host-domain domain d in
        rw (same, zone, full, no_suffix l domain (label_parts l label).1, d.nonempty) refl
