-- ===== src/Events/Connection/Backoff.antt =====
-- The delays of `scheduleReconnect` in web/src/events/EventStreamContext.tsx.
use native.Mathlib.Nat.{two-pow-succ, one-le-pow}
use cloudflared_manager.Base.{ℕ, suc, ◌*◌, ◌^◌, ◌≤◌, ◌≡◌, min, arith, refl}
use cloudflared_manager.Events.Connection.{backoff, backoff_base_ms, backoff_max_ms}

pow_pos : (n : ℕ) → 1 ≤ 2 ^ n
pow_pos n = one-le-pow n 2 (omega arith)

-- The first delay is the base, each further one doubles the one before up to the maximum, and every
-- delay lies between the two.
pub backoff_lem :
    (n : ℕ)
    → (backoff 0 ≡ backoff_base_ms)
      × (backoff (suc n) ≡ min (2 * backoff n) backoff_max_ms)
      × (backoff_base_ms ≤ backoff n)
      × (backoff n ≤ backoff_max_ms)
unfolding backoff
backoff_lem n = (refl, omega (arith, two-pow-succ n), omega (arith, pow_pos n), omega arith)
