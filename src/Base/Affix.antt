-- ===== src/Base/Affix.antt =====
-- Laws of the string operations: prefixes, suffixes, and trimming by a test on units.
use mathlib.Core.Path.{◌≡◌, refl, sym, ap, ◌∙◌}
use mathlib.Core.Bool.{Bool, true, false, and-eq-true_iff}
use mathlib.Core.List.{[], ◌∷◌, ◌++◌, reverse, reverse-append, reverse-reverse}
use Prim.Native.Nat.{ℕ}
use native.Mathlib.Omega.{arith}
use cloudflared_manager.Base.Tests.{◌==◌, ==_iff, if◌then◌else◌}
use cloudflared_manager.Base.Text.{Str, strip_front, strip, trim, is_space, starts_with, ends_with}

pub starts_with-append : (t s : Str) → starts_with (t ++ s) t ≡ true
unfolding starts_with
starts_with-append [] s = refl
starts_with-append (d ∷ t) s = ground (arith, starts_with-append t s)

-- A text that starts with another is that one and a rest.
pub starts_with_sound : (s t : Str) → starts_with s t ≡ true → (r : Str) × (s ≡ t ++ r)
unfolding starts_with
starts_with_sound s [] h = (s, refl)
starts_with_sound [] (d ∷ t) h = cc
starts_with_sound (c ∷ s) (d ∷ t) h =
    let (same, more) = (and-eq-true_iff (c == d) (starts_with s t)).0 h in
    let (r, e) = starts_with_sound s t more in (r, cc ((==_iff c d).0 same))

pub ends_with-append : (r t : Str) → ends_with (r ++ t) t ≡ true
unfolding ends_with
ends_with-append r t = rw reverse-append (starts_with-append (reverse t) (reverse r))

pub ends_with_sound : (s t : Str) → ends_with s t ≡ true → (r : Str) × (s ≡ r ++ t)
unfolding ends_with
ends_with_sound s t h =
    let (r, e) = starts_with_sound (reverse s) (reverse t) h in
    (
      reverse r,
      sym (reverse-reverse s)
          ∙ ap reverse e
          ∙ reverse-append (reverse t) r
          ∙ ap (λ u. reverse r ++ u) (reverse-reverse t),
    )

module _ (p : ℕ → Bool) where
  -- The first unit, if there is one, fails the test.
  abbrev pub FrontTight : Str → Type 0
  FrontTight [] = Unit
  FrontTight (c ∷ s) = p c ≡ false

  -- Neither end passes the test, so there is nothing to strip.
  abbrev pub Tight : Str → Type 0
  Tight s = FrontTight s × FrontTight (reverse s)

  FrontTight-append : (s t : Str) → FrontTight s → FrontTight t → FrontTight (s ++ t)
  FrontTight-append [] t h k = k
  FrontTight-append (c ∷ s) t h k = h

  FrontTight-left : (s t : Str) → FrontTight (s ++ t) → FrontTight s
  FrontTight-left [] t h = tt
  FrontTight-left (c ∷ s) t h = h

  pub Tight-append : (s t : Str) → Tight s → Tight t → Tight (s ++ t)
  Tight-append s t h k = (
    FrontTight-append s t h.0 k.0,
    rw reverse-append (FrontTight-append (reverse t) (reverse s) k.1 h.1),
  )

  strip_front-FrontTight : (s : Str) → FrontTight (strip_front p s)
  unfolding strip_front
  strip_front-FrontTight [] = tt
  strip_front-FrontTight (c ∷ s) = ground (arith, strip_front-FrontTight s)

  pub strip_front_of_tight : (s : Str) → FrontTight s → strip_front p s ≡ s
  unfolding strip_front
  strip_front_of_tight [] h = refl
  strip_front_of_tight (c ∷ s) h = rw h

  strip_front_suffix : (s : Str) → (r : Str) × (s ≡ r ++ strip_front p s)
  unfolding strip_front
  strip_front_suffix [] = ([], refl)
  strip_front_suffix (c ∷ s) = let (r, e) = strip_front_suffix s in go (p c) r e
    where
      go :
          (b : Bool) (r : Str)
          → s ≡ r ++ strip_front p s
          → (q : Str) × (c ∷ s ≡ q ++ (if b then strip_front p s else c ∷ s))
      go true r e = (c ∷ r, ap (λ t. c ∷ t) e)
      go false r e = ([], refl)

  pub strip-Tight : (s : Str) → Tight (strip p s)
  unfolding strip
  strip-Tight s =
      let u = strip_front p s in
      let (r, e) = strip_front_suffix (reverse u) in
      let whole : u ≡ reverse (strip_front p (reverse u)) ++ reverse r =
        sym (reverse-reverse u) ∙ ap reverse e ∙ reverse-append r (strip_front p (reverse u)) in
      (
        FrontTight-left (reverse (strip_front p (reverse u))) (reverse r)
            (rw whole at (strip_front-FrontTight s)),
        rw reverse-reverse (strip_front-FrontTight (reverse u)),
      )

  pub strip_of_Tight : (s : Str) → Tight s → strip p s ≡ s
  unfolding strip
  strip_of_Tight s h =
      rw (strip_front_of_tight s h.0, strip_front_of_tight (reverse s) h.1, reverse-reverse s)

  pub strip_idempotent : (s : Str) → strip p (strip p s) ≡ strip p s
  strip_idempotent s = strip_of_Tight (strip p s) (strip-Tight s)

pub trim-Tight : (s : Str) → Tight is_space (trim s)
unfolding trim
trim-Tight s = strip-Tight is_space s

pub trim_of_Tight : (s : Str) → Tight is_space s → trim s ≡ s
unfolding trim
trim_of_Tight s h = strip_of_Tight is_space s h

pub trim_idempotent : (s : Str) → trim (trim s) ≡ trim s
trim_idempotent s = trim_of_Tight (trim s) (trim-Tight s)
