-- ===== src/Service/Names/Port.antt =====
-- The TCP ports that `ParseTCPPort` of app/internal/service/service.go accepts.
use tunnel_service.Prelude.{
  ℕ, ◌+◌, ◌-◌, ◌*◌, ◌≤◌, ◌≡◌, ◌≢◌, ◌↔◌, refl, Text, true, some, [], ◌∷◌, arith,
}
use tunnel_service.Model.{ok, public_tcp_port_min, public_tcp_port_max}
use tunnel_service.Service.Names.{
  all, is_digit, parse_uint16, port_of, parse_trimmed_port, parse_tcp_port, trim_space,
}

-- The number that digits write, read on from the value `n`.
unfoldable pub decimal_from : ℕ → Text → ℕ
decimal_from n [] = n
decimal_from n (c ∷ s) = decimal_from (n * 10 + (c - b'0')) s

pub decimal_from-le : (n : ℕ) (s : Text) → n ≤ decimal_from n s
unfolding decimal_from
decimal_from-le n [] = omega arith
decimal_from-le n (c ∷ s) = omega (arith, decimal_from-le (n * 10 + (c - b'0')) s)

parse_small :
    (n : ℕ) (s : Text) → decimal_from n s ≤ 65535 → parse_uint16 n s ≡ some (decimal_from n s)
unfolding parse_uint16 decimal_from
parse_small n [] h = refl
parse_small n (c ∷ s) h =
    ground (arith, decimal_from-le (n * 10 + (c - b'0')) s, parse_small (n * 10 + (c - b'0')) s)

parse_value : (n : ℕ) (s : Text) {p : ℕ} → parse_uint16 n s ≡ some p → p ≡ decimal_from n s
unfolding parse_uint16 decimal_from
parse_value n [] h = ground arith
parse_value n (c ∷ s) {p} h = ground (arith, parse_value (n * 10 + (c - b'0')) s {p = p})

-- A text that writes a public TCP port in decimal, leading zeros allowed.
pub record Writes (s : Text) (p : ℕ) : Type 0 where
  pub nonempty : s ≢ []
  pub digits : all is_digit s ≡ true
  pub value : decimal_from 0 s ≡ p
  pub above : public_tcp_port_min ≤ p
  pub below : p ≤ public_tcp_port_max

parts :
    (s : Text) {p : ℕ}
    → parse_trimmed_port s ≡ ok p
    → (s ≢ [])
      × (all is_digit s ≡ true)
      × (parse_uint16 0 s ≡ some p)
      × (public_tcp_port_min ≤ p)
      × (p ≤ public_tcp_port_max)
unfolding parse_trimmed_port port_of
parts [] h = ground arith
parts (c ∷ s) h = (λ e. cc, ground arith, ground arith, ground arith, ground arith)

accepts :
    (s : Text) {p : ℕ}
    → s ≢ []
    → all is_digit s ≡ true
    → parse_uint16 0 s ≡ some p
    → public_tcp_port_min ≤ p
    → p ≤ public_tcp_port_max
    → parse_trimmed_port s ≡ ok p
unfolding parse_trimmed_port port_of
accepts [] n d e a b = elim (n refl) [ ]
accepts (c ∷ s) n d e a b = ground arith

-- A text is read as a port exactly where its trimmed text writes that port in decimal, in range.
pub parse_tcp_port_iff :
    (raw : Text) (p : ℕ) → (parse_tcp_port raw ≡ ok p) ↔ Writes (trim_space raw) p
unfolding parse_tcp_port
parse_tcp_port_iff raw p = (
  λ h.
      let (n, d, e, a, b) = parts (trim_space raw) h in
      record {
        nonempty = n;
        digits = d;
        value = omega (arith, parse_value 0 (trim_space raw) e);
        above = a;
        below = b;
      },
  λ w. accepts (trim_space raw) w.nonempty w.digits (same w) w.above w.below,
)
  where
    same : Writes (trim_space raw) p → parse_uint16 0 (trim_space raw) ≡ some p
    same w =
        let h = parse_small 0 (trim_space raw) (omega (arith, w.value, w.below)) in rw (← w.value) h
