-- ===== src/Base/Lower.antt =====
-- `String.prototype.toLowerCase`. Its full Unicode table belongs to the JavaScript engine, so the
-- function is a parameter; what the client relies on is its documented effect on ASCII text.
use Prim.Native.Nat.{ℕ, ◌+◌, ◌<◌}
use mathlib.Core.Path.{◌≡◌, refl, ap, ap₂, ◌∙◌}
use mathlib.Core.Bool.{◌&&◌}
use mathlib.Core.List.{[], ◌∷◌, ◌++◌, map, map-append}
use native.Mathlib.Omega.{arith}
use cloudflared_manager.Base.Tests.{leb, if◌then◌else◌}
use cloudflared_manager.Base.Lists.{length, All, All-append}
use cloudflared_manager.Base.Text.{Str}

abbrev pub lower_unit : ℕ → ℕ
lower_unit c = if leb 65 c && leb c 90 then c + 32 else c

abbrev pub IsAscii : Str → Type 0
IsAscii = All (λ c. c < 128)

pub record Casing : Type 0 where
  pub lower : Str → Str
  pub lower_ascii : (s : Str) → IsAscii s → lower s ≡ map lower_unit s

-- The function of an engine that handles no more than ASCII.
abbrev pub ascii_casing : Casing
ascii_casing = record { lower = map lower_unit; lower_ascii = λ s h. refl }

length-map_lower : (s : Str) → length (map lower_unit s) ≡ length s
length-map_lower [] = refl
length-map_lower (c ∷ s) = omega (arith, length-map_lower s)

map_lower_idempotent : (s : Str) → IsAscii s → map lower_unit (map lower_unit s) ≡ map lower_unit s
map_lower_idempotent [] h = refl
map_lower_idempotent (c ∷ s) (k, h) = ap₂ (λ a b. a ∷ b) (ground arith) (map_lower_idempotent s h)

map_lower-IsAscii : (s : Str) → IsAscii s → IsAscii (map lower_unit s)
map_lower-IsAscii [] h = tt
map_lower-IsAscii (c ∷ s) (k, h) = (ground arith, map_lower-IsAscii s h)

module _ (casing : Casing) where
  open casing use {lower, lower_ascii}

  pub length-lower : (s : Str) → IsAscii s → length (lower s) ≡ length s
  length-lower s h = ap length (lower_ascii s h) ∙ length-map_lower s

  pub lower-IsAscii : (s : Str) → IsAscii s → IsAscii (lower s)
  lower-IsAscii s h = rw (lower_ascii s h) (map_lower-IsAscii s h)

  pub lower_idempotent : (s : Str) → IsAscii s → lower (lower s) ≡ lower s
  lower_idempotent s h =
      rw (lower_ascii (lower s) (lower-IsAscii s h), lower_ascii s h) (map_lower_idempotent s h)

  pub lower-append : (s t : Str) → IsAscii s → IsAscii t → lower (s ++ t) ≡ lower s ++ lower t
  lower-append s t h k =
      rw (lower_ascii (s ++ t) (All-append _ s t h k), lower_ascii s h, lower_ascii t k)
        (map-append lower_unit s t)
