-- ===== src/Monitor.antt =====
-- web/src/pages/System.tsx, web/src/pages/Dashboard.tsx, web/src/pages/Binaries.tsx and
-- web/src/components/instance/format.ts: durations and sizes as texts. A duration is a natural number of
-- seconds or milliseconds, and a size one of bytes, as the daemon sends them.
pub mod Durations
pub mod Sizes
pub mod Window
pub mod Pump
pub mod Board
mod Tests
use cloudflared_manager.Base.{
  ◌≡◌, ℕ, zero, suc, ◌+◌, ◌-◌, ◌*◌, ◌/◌, ◌%◌, Bool, true, false, not, ◌&&◌, ◌||◌, Option, none,
  some, List, [], ◌∷◌, ◌++◌, if◌then◌else◌, ◌==◌, ltb, leb, Str, codes, get_elem?, length,
  or_default,
}

pub data TimeUnit : Type 0 where
  days hours minutes seconds : TimeUnit

-- A count of units, and the unit.
abbrev pub Part : Type 0
Part = ℕ × TimeUnit

-- A part that is left out where its test fails.
abbrev pub part_if : Bool → ℕ → TimeUnit → List Part
part_if b n u = if b then (n, u) ∷ [] else []

-- The parts of `fmtUptime` of Dashboard.tsx, none for '—'.
unfoldable pub dashboard_uptime : ℕ → List Part
dashboard_uptime s =
    let d = s / 86400 in
    let h = s % 86400 / 3600 in
    let m = s % 3600 / 60 in
    if s == 0
    then []
    else part_if (ltb 0 d) d days ++ (part_if (ltb 0 h) h hours ++ (m, minutes) ∷ [])

-- The parts of `fmtUptime` of System.tsx.
unfoldable pub system_uptime : ℕ → List Part
system_uptime s =
    let d = s / 86400 in
    let h = s % 86400 / 3600 in
    let m = s % 3600 / 60 in
    let parts =
      part_if (ltb 0 d) d days
      ++ (part_if (ltb 0 h) h hours ++ part_if (ltb 0 m && d == 0) m minutes) in
    if s == 0 then [] else or_seconds parts (s % 60)
  where
    -- `if (parts.length === 0) parts.push(…)`
    or_seconds : List Part → ℕ → List Part
    or_seconds [] n = (n, seconds) ∷ []
    or_seconds (p ∷ parts) n = p ∷ parts

-- The parts of `fmtDuration` of format.ts, of a number of milliseconds.
unfoldable pub duration_parts : ℕ → List Part
duration_parts ms =
    let s = ms / 1000 in
    let d = s / 86400 in
    let h = s % 86400 / 3600 in
    let m = s % 3600 / 60 in
    let sec = s % 60 in
    if ltb 0 d
    then (d, days) ∷ (h, hours) ∷ (m, minutes) ∷ []
    else if ltb 0 h
    then (h, hours) ∷ (m, minutes) ∷ []
    else if ltb 0 m
    then (m, minutes) ∷ (sec, seconds) ∷ []
    else (sec, seconds) ∷ []

-- The place of the unit that the loop of `fmtBytes` ends with, behind the one at `i`, where `base` is what
-- the value was divided by so far and `left` is how many units are left.
unfoldable pub scale_from : ℕ → ℕ → ℕ → ℕ → ℕ × ℕ
scale_from zero n i base = (i, base)
scale_from (suc left) n i base =
    let rest = scale_from left n (suc i) (1024 * base) in
    if leb (1024 * base) n then rest else (i, base)

-- The place of the unit among `units` and what a size is divided by for it.
unfoldable pub scale : ℕ → ℕ → ℕ × ℕ
unfolding scale_from
scale units n = scale_from (units - 1) n 0 1

-- The digits behind the point in `fmtBytes` of System.tsx and Dashboard.tsx, of the size over `base`.
abbrev pub page_digits : ℕ → ℕ → ℕ → ℕ
page_digits n i base = if leb (100 * base) n then 0 else if leb (10 * base) n then 1 else 2

-- Those of format.ts and of Binaries.tsx, by the place of the unit.
abbrev pub instance_digits : ℕ → ℕ → ℕ → ℕ
instance_digits n i base = if leb (100 * base) n || i == 0 then 0 else 1

abbrev pub binary_digits : ℕ → ℕ → ℕ → ℕ
binary_digits n i base = if i == 0 then 0 else 2

-- `toFixed` on the quotient of two integers, the second a power of 1024, and the decimal text of an integer.
pub record Printing : Type 0 where
  pub to_fixed : ℕ → ℕ → ℕ → Str
  pub print : ℕ → Str

module _ (printing : Printing) where
  unfoldable pub join_parts : (TimeUnit → Str) → List Part → Str
  join_parts label [] = []
  join_parts label ((n, u) ∷ []) = printing.print n ++ label u
  join_parts label ((n, u) ∷ p ∷ parts) =
      printing.print n ++ (label u ++ (codes " " ++ join_parts label (p ∷ parts)))

  abbrev or_dash : Str → Str
  or_dash [] = codes "—"
  or_dash (c ∷ s) = c ∷ s

  abbrev pub short_label : TimeUnit → Str
  short_label days = codes "天"
  short_label hours = codes "时"
  short_label minutes = codes "分"
  short_label seconds = codes "秒"

  abbrev pub long_label : TimeUnit → Str
  long_label days = codes "天"
  long_label hours = codes "小时"
  long_label minutes = codes "分"
  long_label seconds = codes "秒"

  -- `fmtUptime` of the two pages, and `fmtDuration`.
  abbrev pub fmt_uptime : ℕ → Str
  fmt_uptime s = or_dash (join_parts short_label (dashboard_uptime s))

  abbrev pub fmt_system_uptime : ℕ → Str
  fmt_system_uptime s = or_dash (join_parts long_label (system_uptime s))

  abbrev pub fmt_duration : ℕ → Str
  fmt_duration ms = join_parts short_label (duration_parts ms)

  -- `fmtBytes` and `formatBytes`, by their units, their digits and their text for nothing.
  unfoldable pub size_text : List Str → (ℕ → ℕ → ℕ → ℕ) → Str → ℕ → Str
  unfolding scale
  size_text units digits zero_text n =
      let (i, base) = scale (length units) n in
      if n == 0
      then zero_text
      else printing.to_fixed n base (digits n i base)
        ++ (codes " " ++ or_default (get_elem? units i) (codes "undefined"))

  abbrev five_units : List Str
  five_units = codes "B" ∷ codes "KB" ∷ codes "MB" ∷ codes "GB" ∷ codes "TB" ∷ []

  abbrev pub fmt_system_bytes : ℕ → Str
  fmt_system_bytes n = size_text (five_units ++ codes "PB" ∷ []) page_digits (codes "0 B") n

  abbrev pub fmt_rate : ℕ → Str
  fmt_rate n = fmt_system_bytes n ++ codes "/s"

  abbrev pub fmt_dashboard_bytes : ℕ → Str
  fmt_dashboard_bytes n = size_text five_units page_digits (codes "0 B") n

  abbrev pub fmt_instance_bytes : ℕ → Str
  fmt_instance_bytes n = size_text five_units instance_digits (codes "0 B") n

  abbrev pub format_bytes : ℕ → Str
  format_bytes n =
      size_text (codes "B" ∷ codes "KB" ∷ codes "MB" ∷ codes "GB" ∷ []) binary_digits (codes "—") n
