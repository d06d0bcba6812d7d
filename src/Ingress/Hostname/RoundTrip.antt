-- ===== src/Ingress/Hostname/RoundTrip.antt =====
-- `buildHostname` and `splitHostname` of web/src/pages/cfIngress.ts against one another.
use cloudflared_manager.Base.{
  ℕ, ◌-◌, ◌≡◌, ◌≢◌, refl, ap, ◌∙◌, true, false, some, List, [], ◌∷◌, ◌++◌, length, length-append,
  take-length-append, arith, Str, codes, str_eq, str_eq_iff, trim, is_space, Tight, Tight-append,
  strip_of_Tight, trim_of_Tight, ends_with, ends_with-append, Casing, IsAscii, length-lower,
  lower-append, Bool-cases, inl, inr,
}
use cloudflared_manager.Api.Types.{Zone}
use cloudflared_manager.Ingress.Hostname.{
  is_dot, tidy, build_hostname, pick_zone, split_at_zone, split_hostname,
}

-- A name that the form leaves as it is: ASCII, with no white space and no dot at either end.
pub record IsClean (s : Str) : Type 0 where
  pub ascii : IsAscii s
  pub spaces : Tight is_space s
  pub dots : Tight is_dot s

-- The hostname of a clean subdomain and a clean zone.
abbrev pub whole : Str → Str → Str
whole [] zone = zone
whole (c ∷ s) zone = (c ∷ s) ++ (codes "." ++ zone)

pub tidy_of_IsClean : (s : Str) → IsClean s → tidy (some s) ≡ s
tidy_of_IsClean s h = rw (trim_of_Tight s h.spaces) (strip_of_Tight is_dot s h.dots)

pub build_hostname-whole :
    (sub zone : Str)
    → IsClean sub
    → IsClean zone
    → zone ≢ []
    → build_hostname (some sub) (some zone) ≡ whole sub zone
unfolding build_hostname
build_hostname-whole sub [] h k e = absurd (e refl)
build_hostname-whole [] (d ∷ t) h k e = rw (tidy_of_IsClean [] h, tidy_of_IsClean (d ∷ t) k)
build_hostname-whole (c ∷ s) (d ∷ t) h k e =
    rw (tidy_of_IsClean (c ∷ s) h, tidy_of_IsClean (d ∷ t) k)

pub trim-whole :
    (sub zone : Str) → IsClean sub → IsClean zone → trim (whole sub zone) ≡ whole sub zone
trim-whole [] zone h k = trim_of_Tight zone k.spaces
trim-whole (c ∷ s) zone h k = trim_of_Tight _ (
    Tight-append is_space (c ∷ s) (codes "." ++ zone) h.spaces
      (Tight-append is_space (codes ".") zone (refl, refl) k.spaces))

pub whole-ne-nil : (sub zone : Str) → zone ≢ [] → str_eq (whole sub zone) [] ≡ false
whole-ne-nil [] [] e = absurd (e refl)
whole-ne-nil [] (d ∷ t) e = refl
whole-ne-nil (c ∷ s) zone e = refl

pub str_eq_of_length : (s t : Str) → length s ≢ length t → str_eq s t ≡ false
str_eq_of_length s t h = elim (Bool-cases (str_eq s t)) [
  | inl e ↦ absurd (h (ap length ((str_eq_iff s t).0 e)))
  | inr e ↦ e
]

module _ (casing : Casing) where
  open casing use {lower, lower_ascii}

  lower-whole :
      (c : ℕ) (s zone : Str)
      → IsClean (c ∷ s)
      → IsClean zone
      → lower (whole (c ∷ s) zone) ≡ lower (c ∷ s) ++ (codes "." ++ lower zone)
  lower-whole c s zone h k =
      lower-append casing (c ∷ s) (codes "." ++ zone) h.ascii (omega arith, k.ascii)
      ∙ ap (λ t. lower (c ∷ s) ++ t)
          (lower-append casing (codes ".") zone (omega arith) k.ascii
            ∙ ap (λ t. t ++ lower zone) (lower_ascii (codes ".") (omega arith)))

  split_at_zone-whole :
      (sub : Str) (z : Zone)
      → IsClean sub
      → IsClean z.name
      → split_at_zone casing (whole sub z.name) (some z)
        ≡ record { subdomain = sub; zone_name = z.name }
  split_at_zone-whole [] z h k = rw ((str_eq_iff (lower z.name) (lower z.name)).1 refl)
  split_at_zone-whole (c ∷ s) z h k =
      let suffix = codes "." ++ lower z.name in
      let shape = lower-whole c s z.name h k in
      let longer : str_eq (lower (whole (c ∷ s) z.name)) (lower z.name) ≡ false =
        str_eq_of_length (lower (whole (c ∷ s) z.name)) (lower z.name) (
          omega (
            arith,
            ap length shape,
            length-append (lower (c ∷ s)) suffix,
            length-lower casing (c ∷ s) h.ascii,
          )) in
      let ends : ends_with (lower (whole (c ∷ s) z.name)) suffix ≡ true =
        rw shape (ends_with-append (lower (c ∷ s)) suffix) in
      let size : length (whole (c ∷ s) z.name) - length (lower z.name) - 1 ≡ length (c ∷ s) =
        omega (
          arith,
          length-append (c ∷ s) (codes "." ++ z.name),
          length-lower casing z.name k.ascii,
        ) in
      rw (longer, ends, size) (rw (take-length-append (c ∷ s) (codes "." ++ z.name)))

-- What the form shows of a saved hostname is what it was saved from: for a clean subdomain, which may
-- be empty, and a clean zone that is not, if `pickZone` finds the zone in the account's list. Clean is ASCII
-- with no white space or dots around it.
pub split_hostname-build_hostname :
    (casing : Casing) (sub : Str) (z : Zone) (zones : List Zone)
    → IsClean sub
    → IsClean z.name
    → z.name ≢ []
    → pick_zone casing (casing.lower (build_hostname (some sub) (some z.name))) zones ≡ some z
    → split_hostname casing (build_hostname (some sub) (some z.name)) zones
      ≡ record { subdomain = sub; zone_name = z.name }
unfolding split_hostname
split_hostname-build_hostname casing sub z zones h k e picked =
    let built = build_hostname-whole sub z.name h k e in
    let found = rw built at picked in
    rw (built, trim-whole sub z.name h k, whole-ne-nil sub z.name e, found)
      (split_at_zone-whole casing sub z h k)
