-- ===== src/Records/Names.antt =====
-- `dnsCombine` and `dnsSplit` of web/src/components/cf/DNSRecordsTab.tsx against one another.
use cloudflared_manager.Base.{
  ◌+◌, ◌-◌, ◌≡◌, refl, ap, ◌∙◌, true, false, [], ◌∷◌, ◌++◌, length, length-append,
  take-length-append, arith, Str, codes, str_eq, is_empty, trim, is_space, Tight-append,
  trim_of_Tight, ends_with, ends_with-append, Casing, lower-append, leb,
}
use cloudflared_manager.Ingress.Hostname.RoundTrip.{IsClean, tidy_of_IsClean, str_eq_of_length}
use cloudflared_manager.Records.{is_under, dns_combine, dns_split, slice_off}

-- The name of a record under a zone.
abbrev pub under : Str → Str → Str
under s zone = s ++ (codes "." ++ zone)

under-ne-nil : (s zone : Str) → is_empty (under s zone) ≡ false
under-ne-nil [] zone = refl
under-ne-nil (c ∷ s) zone = refl

trim-under : (s zone : Str) → IsClean s → IsClean zone → trim (under s zone) ≡ under s zone
trim-under s zone h k = trim_of_Tight _ (
    Tight-append is_space s (codes "." ++ zone) h.spaces
      (Tight-append is_space (codes ".") zone (refl, refl) k.spaces))

module _ (casing : Casing) (s zone : Str) (h : IsClean s) (k : IsClean zone) where
  open casing use {lower, lower_ascii}

  lower-under : lower (under s zone) ≡ under (lower s) (lower zone)
  lower-under =
      lower-append casing s (codes "." ++ zone) h.ascii (omega arith, k.ascii)
      ∙ ap (λ t. lower s ++ t)
          (lower-append casing (codes ".") zone (omega arith) k.ascii
            ∙ ap (λ t. t ++ lower zone) (lower_ascii (codes ".") (omega arith)))

  longer : str_eq (lower (under s zone)) (lower zone) ≡ false
  longer =
      str_eq_of_length (lower (under s zone)) (lower zone)
        (omega (arith, ap length lower-under, length-append (lower s) (codes "." ++ lower zone)))

  ends : ends_with (lower (under s zone)) (codes "." ++ lower zone) ≡ true
  ends = rw lower-under (ends_with-append (lower s) (codes "." ++ lower zone))

  slice_off-under : slice_off (length zone + 1) (under s zone) ≡ s
  slice_off-under =
      let size : length (under s zone) ≡ length s + (length zone + 1) =
        omega (arith, length-append s (codes "." ++ zone)) in
      let fits : leb (length zone + 1) (length (under s zone)) ≡ true = ground (arith, size) in
      let left : length (under s zone) - (length zone + 1) ≡ length s = omega (arith, size) in
      rw (fits, left) (take-length-append s (codes "." ++ zone))

  pub dns_split-under : is_empty zone ≡ false → dns_split casing (under s zone) zone ≡ s
  unfolding dns_split
  dns_split-under e =
      rw (trim-under s zone h k, e, under-ne-nil s zone, longer, ends) slice_off-under

  pub is_under-under : is_under casing (under s zone) zone ≡ true
  is_under-under = rw (longer, ends)

-- A name that is no zone's apex is combined as it was split, if what is left of it neither is the zone nor
-- ends in it again.
pub dns_combine-dns_split :
    (casing : Casing) (s zone : Str)
    → IsClean s
    → IsClean zone
    → is_empty zone ≡ false
    → is_empty s ≡ false
    → str_eq s (codes "@") ≡ false
    → is_under casing s zone ≡ false
    → dns_combine casing (dns_split casing (under s zone) zone) zone ≡ under s zone
unfolding dns_combine
dns_combine-dns_split casing s zone h k e n at u =
    rw (dns_split-under casing s zone h k e, tidy_of_IsClean s h, e, n, at, u)

-- A name that ends in the zone twice loses one of the two.
pub dns_combine-dns_split_nested :
    (casing : Casing) (s zone : Str)
    → IsClean s
    → IsClean zone
    → IsClean (under s zone)
    → is_empty zone ≡ false
    → str_eq (under s zone) (codes "@") ≡ false
    → dns_combine casing (dns_split casing (under (under s zone) zone) zone) zone ≡ under s zone
unfolding dns_combine
dns_combine-dns_split_nested casing s zone h k w e at = rw (
  dns_split-under casing (under s zone) zone w k e,
  tidy_of_IsClean (under s zone) w,
  e,
  under-ne-nil s zone,
  at,
  is_under-under casing s zone h k,
)
