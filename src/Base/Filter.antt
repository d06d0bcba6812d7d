-- ===== src/Base/Filter.antt =====
-- `filter` by a Boolean test, as `Array.prototype.filter` is used.
use mathlib.Core.Path.{◌≡◌, refl}
use mathlib.Core.List.{List, [], ◌∷◌, ◌++◌}
use mathlib.Core.Bool.{Bool, true, false}
use native.Mathlib.Omega.{arith}
use cloudflared_manager.Base.Tests.{if◌then◌else◌}
use cloudflared_manager.Base.Lists.{All, find}

module _ {ℓ} {A : Type ℓ} (p : A → Bool) where
  abbrev pub filter : List A → List A
  filter [] = []
  filter (x ∷ xs) = if p x then x ∷ filter xs else filter xs

  pub filter-append : (xs ys : List A) → filter (xs ++ ys) ≡ filter xs ++ filter ys
  filter-append [] ys = refl
  filter-append (x ∷ xs) ys = ground (arith, filter-append xs ys)

  pub filter-All : (xs : List A) → All (λ x. p x ≡ true) (filter xs)
  filter-All [] = tt
  filter-All (x ∷ xs) = ground (arith, filter-All xs)

  pub filter_of_All : (xs : List A) → All (λ x. p x ≡ true) xs → filter xs ≡ xs
  filter_of_All [] h = refl
  filter_of_All (x ∷ xs) (e, h) = ground (arith, filter_of_All xs h)

  pub filter_of_none : (xs : List A) → All (λ x. p x ≡ false) xs → filter xs ≡ []
  filter_of_none [] h = refl
  filter_of_none (x ∷ xs) (e, h) = ground (arith, filter_of_none xs h)

  pub find-filter : (xs : List A) → find p (filter xs) ≡ find p xs
  find-filter [] = refl
  find-filter (x ∷ xs) = ground (arith, find-filter xs)
