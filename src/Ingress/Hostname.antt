-- ===== src/Ingress/Hostname.antt =====
-- web/src/pages/cfIngress.ts: the zone that a hostname belongs to, and a hostname against its two
-- parts in the form, a subdomain and a zone. `toLowerCase` is the parameter `casing`.
pub mod Zones
pub mod RoundTrip
use cloudflared_manager.Base.{
  ℕ, ◌-◌, Bool, true, not, ◌&&◌, ◌||◌, Option, none, some, List, [], ◌∷◌, ◌++◌, length, take,
  if◌then◌else◌, ltb, ◌==◌, Str, codes, str_eq, is_empty, or_empty, strip, trim, ends_with, Casing,
}
use cloudflared_manager.Api.Types.{Zone}

pub record HostParts : Type 0 where
  pub subdomain : Str
  pub zone_name : Str

abbrev pub is_dot : ℕ → Bool
is_dot c = c == b'.'

-- `!best || n > (best.name || '').length`
abbrev pub beats : ℕ → Option Zone → Bool
beats n none = true
beats n (some best) = ltb (length best.name) n

-- `(x || '').trim().replace(/^\.+|\.+$/g, '')`
abbrev pub tidy : Option Str → Str
tidy s = strip is_dot (trim (or_empty s))

unfoldable pub build_hostname : Option Str → Option Str → Str
build_hostname subdomain zone_name =
    let sub = tidy subdomain in
    let zone = tidy zone_name in
    if is_empty zone then sub else if not (is_empty sub) then sub ++ (codes "." ++ zone) else zone

module _ (casing : Casing) where
  open casing use {lower}

  -- The test of the loop in `pickZone` on a lower-cased hostname.
  pub zone_matches : Str → Zone → Bool
  zone_matches h z =
      let zn = lower z.name in not (is_empty zn) && (str_eq h zn || ends_with h (codes "." ++ zn))

  -- One round of the loop in `pickZone`.
  pub better : Str → Option Zone → Zone → Option Zone
  better h best z = if zone_matches h z && beats (length (lower z.name)) best then some z else best

  pub pick_from : Str → Option Zone → List Zone → Option Zone
  pick_from h best [] = best
  pick_from h best (z ∷ zones) = pick_from h (better h best z) zones

  unfoldable pub pick_zone : Str → List Zone → Option Zone
  unfolding pick_from better zone_matches
  pick_zone hostname zones = pick_from (lower hostname) none zones

  -- The last part of `splitHostname`, for the zone that was picked.
  abbrev pub split_at_zone : Str → Option Zone → HostParts
  split_at_zone raw none = record { subdomain = []; zone_name = raw }
  split_at_zone raw (some zone) =
      let h = lower raw in
      let zn = lower zone.name in
      if str_eq h zn
      then record { subdomain = []; zone_name = zone.name }
      else if ends_with h (codes "." ++ zn)
      then record { subdomain = take (length raw - length zn - 1) raw; zone_name = zone.name }
      else record { subdomain = []; zone_name = zone.name }

  unfoldable pub split_hostname : Str → List Zone → HostParts
  split_hostname hostname zones =
      let raw = trim hostname in
      if str_eq raw []
      then record { subdomain = []; zone_name = [] }
      else split_at_zone raw (pick_zone (lower raw) zones)
