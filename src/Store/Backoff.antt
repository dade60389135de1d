-- ===== src/Store/Backoff.antt =====
-- The delay of a retried outbox event: `RetryOutbox` of app/internal/store/hardening.go.
use tunnel_service.Prelude.{ℕ, zero, suc, ◌*◌, ◌^◌, ◌≤◌, ◌≡◌, min, arith, ltb, if◌then◌else◌}
use tunnel_service.Store.Stamp.{second}
use tunnel_service.Store.Outbox.{retry_delay}

pow_small : (m : ℕ) → m ≤ 8 → 2 ^ m ≤ 256
pow_small zero h = omega arith
pow_small (suc zero) h = omega arith
pow_small (suc (suc zero)) h = omega arith
pow_small (suc (suc (suc zero))) h = omega arith
pow_small (suc (suc (suc (suc zero)))) h = omega arith
pow_small (suc (suc (suc (suc (suc zero))))) h = omega arith
pow_small (suc (suc (suc (suc (suc (suc zero)))))) h = omega arith
pow_small (suc (suc (suc (suc (suc (suc (suc zero))))))) h = omega arith
pow_small (suc (suc (suc (suc (suc (suc (suc (suc zero)))))))) h = omega arith
pow_small (suc (suc (suc (suc (suc (suc (suc (suc (suc m))))))))) h = omega arith

uncapped :
    (d : ℕ)
    → d ≤ 256
    → (if ltb (300 * second) (second * d) then 300 * second else second * d) ≡ second * d
uncapped d h = ground arith

-- The delay doubles with each attempt up to the eighth, and stands at 256 seconds from there on: the
-- bound of five minutes is never reached.
pub retry_delay_exact :
    (n : ℕ) → (retry_delay n ≡ second * 2 ^ min n 8) × (retry_delay n ≤ 256 * second)
unfolding retry_delay
retry_delay_exact n =
    let small = pow_small (min n 8) (omega arith) in
    let same = uncapped (2 ^ min n 8) small in (same, rw same (ground arith))
