-- ===== src/Monitor/Sizes.antt =====
-- The units that the sizes of the pages and panels are shown in.
use cloudflared_manager.Base.{
  ◌≡◌, refl, ℕ, zero, suc, ◌+◌, ◌-◌, ◌*◌, ◌^◌, ◌≤◌, ◌<◌, ◌⊎◌, inl, inr, leb, Bool-cases, arith,
}
use native.Mathlib.Numerals.{unary_clauses}
use cloudflared_manager.Monitor.{scale_from, scale}

-- What a size is divided by is the power of 1024 of its unit; the quotient is at least 1 but in the first
-- unit, and below 1024 but in the last one.
abbrev pub IsScaled : ℕ → ℕ → ℕ × ℕ → Type 0
IsScaled units n (i, base) =
    (base ≡ 1024 ^ i) × (i < units) × ((i ≡ 0) ⊎ (base ≤ n)) × ((n < 1024 * base) ⊎ (suc i ≡ units))

pow_next : (i base : ℕ) → base ≡ 1024 ^ i → 1024 * base ≡ 1024 ^ suc i
pow_next i base e = simp unary_clauses (omega (arith, e))

scale_from-IsScaled :
    (units left n i base : ℕ)
    → suc (i + left) ≡ units
    → base ≡ 1024 ^ i
    → (i ≡ 0) ⊎ (base ≤ n)
    → IsScaled units n (scale_from left n i base)
unfolding scale_from
scale_from-IsScaled units zero n i base count e h =
    (e, omega (arith, count), h, inr (omega (arith, count)))
scale_from-IsScaled units (suc left) n i base count e h = elim (Bool-cases (leb (1024 * base) n)) [
  | inl more ↦ rw more (
      scale_from-IsScaled units left n (suc i) (1024 * base) (omega (arith, count))
        (pow_next i base e) (inr (ground (arith, more))))
  | inr less ↦ rw less (e, omega (arith, count), h, inl (ground (arith, less)))
]

pub scale-IsScaled : (units n : ℕ) → 0 < units → IsScaled units n (scale units n)
unfolding scale
scale-IsScaled units n h =
    scale_from-IsScaled units (units - 1) n 0 1 (omega (arith, h)) refl (inl refl)
