-- ===== src/Records.antt =====
-- web/src/components/cf/DNSRecordsTab.tsx: the tab with the DNS records of a zone, the names of its form.
pub mod Names
pub mod Page
mod Tests
use cloudflared_manager.Base.{
  ℕ, ◌+◌, ◌-◌, Bool, ◌||◌, Option, some, List, ◌++◌, length, take, leb, if◌then◌else◌, Str, codes,
  str_eq, is_empty, trim, ends_with, Casing,
}
use cloudflared_manager.Ingress.Hostname.{tidy}

-- `n.slice(0, n.length - k)`: an index below 0 counts from the end.
abbrev pub slice_off : ℕ → Str → Str
slice_off k n =
    if leb k (length n) then take (length n - k) n else take (length n - (k - length n)) n

module _ (casing : Casing) where
  open casing use {lower}

  -- `sl === zl || sl.endsWith('.' + zl)`
  abbrev pub is_under : Str → Str → Bool
  is_under s zone = str_eq (lower s) (lower zone) || ends_with (lower s) (codes "." ++ lower zone)

  unfoldable pub dns_combine : Str → Str → Str
  dns_combine subdomain zone =
      let s = tidy (some subdomain) in
      if is_empty zone
      then s
      else if is_empty s || str_eq s (codes "@")
      then zone
      else if is_under s zone
      then s
      else s ++ (codes "." ++ zone)

  unfoldable pub dns_split : Str → Str → Str
  dns_split name zone =
      let n = trim name in
      if is_empty zone || is_empty n
      then codes ""
      else if str_eq (lower n) (lower zone)
      then codes "@"
      else if ends_with (lower n) (codes "." ++ lower zone)
      then slice_off (length zone + 1) n
      else n
