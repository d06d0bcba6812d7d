-- ===== src/Ingress/Seconds/Fuel.antt =====
-- `toSeconds` of web/src/pages/cfIngress.ts: a match of its expression takes something off the text, so
-- the search ends before the length of the text is used up.
use mathlib.Core.Path.{subst}
use cloudflared_manager.Base.{
  ℕ, zero, suc, ◌+◌, ◌≤◌, ◌<◌, ◌≡◌, refl, false, Option, none, some, List, [], ◌∷◌, Str, is_empty,
  length-drop, length, starts_with, Bool-cases, Option-cases, inl, inr, arith,
}
use cloudflared_manager.Api.Types.{Number}
use cloudflared_manager.Api.Json.{Numbers}
use cloudflared_manager.Ingress.Seconds.{
  digits, fraction, amount, units, unit_at, scaled, with_unit, part_at, add_part, parts_from,
}

-- What is read off the front of a text leaves less of it.
module _ {ℓ} {A : Type ℓ} where
  abbrev IsShorter : Str → Option (A × Str) → Type 0
  IsShorter s none = Unit
  IsShorter s (some (x, rest)) = length rest < length s

  abbrev IsNoLonger : Str → Option (A × Str) → Type 0
  IsNoLonger s none = Unit
  IsNoLonger s (some (x, rest)) = length rest ≤ length s

length-digits : (s : Str) → length (digits s).0 + length (digits s).1 ≡ length s
unfolding digits
length-digits [] = refl
length-digits (c ∷ s) = ground (arith, length-digits s)

fraction-IsNoLonger : (whole rest : Str) → length (fraction whole rest).1 ≤ length rest
unfolding digits
fraction-IsNoLonger whole [] = omega arith
fraction-IsNoLonger whole (c ∷ s) = ground (arith, length-digits s)

length_pos : (s : Str) → is_empty s ≡ false → 0 < length s
length_pos [] e = cc
length_pos (c ∷ s) e = omega arith

amount-IsShorter : (s : Str) → IsShorter s (amount s)
unfolding amount
amount-IsShorter s = elim (Bool-cases (is_empty (digits s).0)) [
  | inl e ↦ rw e tt
  | inr e ↦ rw e (
      omega (
        arith,
        length-digits s,
        length_pos (digits s).0 e,
        fraction-IsNoLonger (digits s).0 (digits s).1,
      ))
]

unit_at-IsNoLonger : (us : List (Str × Str)) (s : Str) → IsNoLonger s (unit_at us s)
unfolding unit_at
unit_at-IsNoLonger [] s = tt
unit_at-IsNoLonger ((u, factor) ∷ us) s = elim (Bool-cases (starts_with s u)) [
  | inl e ↦ rw e (length-drop (length u) s)
  | inr e ↦ rw e (unit_at-IsNoLonger us s)
]

module _ (numbers : Numbers) where
  scaled-IsShorter :
      (s rest literal : Str)
      → length rest < length s
      → (o : Option (Str × Str)) → IsNoLonger rest o
      → IsShorter s (scaled numbers literal o)
  scaled-IsShorter s rest literal h none k = tt
  scaled-IsShorter s rest literal h (some (factor, after)) k = omega (arith, h, k)

  with_unit-IsShorter :
      (s : Str) (o : Option (Str × Str)) → IsShorter s o → IsShorter s (with_unit numbers o)
  with_unit-IsShorter s none h = tt
  with_unit-IsShorter s (some (literal, rest)) h =
      scaled-IsShorter s rest literal h (unit_at units rest) (unit_at-IsNoLonger units rest)

  part_at-IsShorter : (s : Str) → IsShorter s (part_at numbers s)
  unfolding part_at
  part_at-IsShorter s = with_unit-IsShorter s (amount s) (amount-IsShorter s)

  -- Any fuel of at least the length of the text gives the same total.
  pub parts_from_enough :
      (n m : ℕ) (total : Option Number) (s : Str)
      → length s ≤ n
      → length s ≤ m
      → parts_from numbers n total s ≡ parts_from numbers m total s
  unfolding parts_from
  parts_from_enough zero zero total s h k = refl
  parts_from_enough zero (suc m) total [] h k = refl
  parts_from_enough zero (suc m) total (c ∷ s) h k = ground arith
  parts_from_enough (suc n) zero total [] h k = refl
  parts_from_enough (suc n) zero total (c ∷ s) h k = ground arith
  parts_from_enough (suc n) (suc m) total [] h k = refl
  parts_from_enough (suc n) (suc m) total (c ∷ s) h k =
      elim (Option-cases (part_at numbers (c ∷ s))) [
        | inl e ↦ rw (e, parts_from) (parts_from_enough n m total s (omega arith) (omega arith))
        | inr (part, e) ↦
            let shorter = subst (IsShorter (c ∷ s)) e (part_at-IsShorter (c ∷ s)) in
            rw (e, parts_from)
              (parts_from_enough n m (add_part numbers total part.0) part.1 (omega (arith, shorter))
                (omega (arith, shorter)))
      ]
