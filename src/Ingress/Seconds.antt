-- ===== src/Ingress/Seconds.antt =====
-- web/src/pages/cfIngress.ts, `toSeconds`: a duration in seconds from a number, a decimal text or a Go
-- duration such as "1m30s".
pub mod Fuel
use cloudflared_manager.Base.{
  ℕ, zero, suc, Bool, true, false, not, ◌&&◌, Option, none, some, List, [], ◌∷◌, ◌++◌,
  if◌then◌else◌, leb, ◌==◌, Str, codes, is_empty, trim, drop, length, starts_with,
}
use cloudflared_manager.Api.Types.{Number, Value, null, num, str}
use cloudflared_manager.Api.Json.{Numbers, is_finite, to_text}

-- \d
abbrev pub is_digit : ℕ → Bool
is_digit c = leb b'0' c && leb c b'9'

-- \d+ as far as it goes: the digits and the rest.
pub digits : Str → Str × Str
digits [] = ([], [])
digits (c ∷ s) = if is_digit c then (c ∷ (digits s).0, (digits s).1) else ([], c ∷ s)

-- (\.\d+)? behind the digits of an amount.
abbrev pub fraction : Str → Str → Str × Str
fraction whole [] = (whole, [])
fraction whole (c ∷ s) =
    let (ds, rest) = digits s in
    if c == b'.' && not (is_empty ds) then (whole ++ (codes "." ++ ds), rest) else (whole, c ∷ s)

-- \d+(\.\d+)? at the front: the literal and the rest. A shorter literal is never followed by a unit,
-- so there is nothing to go back for.
pub amount : Str → Option (Str × Str)
unfolding digits
amount s = let (ds, rest) = digits s in if is_empty ds then none else some (fraction ds rest)

-- The alternatives of the unit in their order, with the factor of the table `mult`.
abbrev pub units : List (Str × Str)
units =
    (codes "ns", codes "1e-9")
    ∷ (codes "us", codes "1e-6")
    ∷ (codes "µs", codes "1e-6")
    ∷ (codes "ms", codes "1e-3")
    ∷ (codes "s", codes "1")
    ∷ (codes "m", codes "60")
    ∷ (codes "h", codes "3600")
    ∷ []

-- The first unit at the front: its factor and the rest.
pub unit_at : List (Str × Str) → Str → Option (Str × Str)
unit_at [] s = none
unit_at ((u, factor) ∷ us) s =
    if starts_with s u then some (factor, drop (length u) s) else unit_at us s

module _ (numbers : Numbers) where
  -- The value of an amount behind which a unit stands.
  abbrev pub scaled : Str → Option (Str × Str) → Option (Number × Str)
  scaled literal none = none
  scaled literal (some (factor, after)) =
      some (numbers.mul (numbers.of_text literal) (numbers.of_text factor), after)

  abbrev pub with_unit : Option (Str × Str) → Option (Number × Str)
  with_unit none = none
  with_unit (some (literal, rest)) = scaled literal (unit_at units rest)

  -- A match of the expression at the front: its value and the rest.
  pub part_at : Str → Option (Number × Str)
  unfolding amount unit_at
  part_at s = with_unit (amount s)

  -- `total += …`, from 0; `none` is the flag `matched` still unset.
  abbrev pub add_part : Option Number → Number → Option Number
  add_part none n = some (numbers.add (numbers.of_text (codes "0")) n)
  add_part (some t) n = some (numbers.add t n)

  -- `while ((m = re.exec(s)) !== null)`: behind a match the search goes on at its end, and where nothing
  -- matches one unit further. The length of the text is fuel enough.
  pub parts_from : ℕ → Option Number → Str → Option Number
  parts_from zero total s = total
  parts_from (suc fuel) total [] = total
  parts_from (suc fuel) total (c ∷ s) = elim (part_at (c ∷ s)) [
    | none ↦ parts_from fuel total s
    | some (n, after) ↦ parts_from fuel (add_part total n) after
  ]

  abbrev pub finite_or_none : Number → Option Number
  finite_or_none n = if is_finite n then some n else none

  -- Whether an amount is the whole text.
  abbrev pub is_whole : Option (Str × Str) → Bool
  is_whole none = false
  is_whole (some (literal, rest)) = is_empty rest

  abbrev pub text_seconds : Str → Option Number
  text_seconds s =
      if is_empty s
      then none
      else if is_whole (amount s)
      then some (numbers.of_text s)
      else parts_from (length s) none s

  unfoldable pub to_seconds : Option Value → Option Number
  unfolding parts_from amount part_at starts_with
  to_seconds none = none
  to_seconds (some null) = none
  to_seconds (some (num n)) = finite_or_none n
  to_seconds (some v) = text_seconds (trim (to_text numbers v))
