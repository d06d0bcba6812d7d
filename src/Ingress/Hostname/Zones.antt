-- ===== src/Ingress/Hostname/Zones.antt =====
-- `pickZone` of web/src/pages/cfIngress.ts: the longest zone that the hostname lies in.
use cloudflared_manager.Base.{
  ℕ, ◌≤◌, ◌<◌, ◌≡◌, refl, ap, ◌∙◌, true, false, ◌&&◌, Option, none, some, List, [], ◌∷◌, ◌++◌,
  append_assoc, append-nil, length, All, All-append, arith, Str, Casing, IsAscii, length-lower,
  Bool-cases, inl, inr,
}
use cloudflared_manager.Api.Types.{Zone}
use cloudflared_manager.Ingress.Hostname.{beats, zone_matches, better, pick_from, pick_zone}

module _ (casing : Casing) (h : Str) where
  open casing use {lower}

  -- Neither a zone in front of the picked one is as long, nor one behind it longer.
  pub record IsFirstLongest (zones : List Zone) (z : Zone) : Type 0 where
    pub before : List Zone
    pub after : List Zone
    pub shape : zones ≡ before ++ z ∷ after
    pub matching : zone_matches casing h z ≡ true
    pub beaten : All (λ y. zone_matches casing h y ≡ true → length y.name < length z.name) before
    pub bounded : All (λ y. zone_matches casing h y ≡ true → length y.name ≤ length z.name) after

  abbrev pub IsPick : List Zone → Option Zone → Type 0
  IsPick zones none = All (λ y. zone_matches casing h y ≡ false) zones
  IsPick zones (some z) = IsFirstLongest zones z

  unmatched-beaten :
      (n : ℕ) (zones : List Zone)
      → All (λ y. zone_matches casing h y ≡ false) zones
      → All (λ y. zone_matches casing h y ≡ true → length y.name < n) zones
  unmatched-beaten n [] a = tt
  unmatched-beaten n (y ∷ ys) (e, a) = (λ m. cc, unmatched-beaten n ys a)

  beaten-lt :
      (n m : ℕ) (zones : List Zone)
      → n < m
      → All (λ y. zone_matches casing h y ≡ true → length y.name ≤ n) zones
      → All (λ y. zone_matches casing h y ≡ true → length y.name < m) zones
  beaten-lt n m [] k a = tt
  beaten-lt n m (y ∷ ys) k (f, a) = (λ e. omega (arith, f e), beaten-lt n m ys k a)

  weaken :
      (n : ℕ) (zones : List Zone)
      → All (λ y. zone_matches casing h y ≡ true → length y.name < n) zones
      → All (λ y. zone_matches casing h y ≡ true → length y.name ≤ n) zones
  weaken n [] a = tt
  weaken n (y ∷ ys) (f, a) = (λ e. omega (arith, f e), weaken n ys a)

  longer :
      (b z : Zone)
      → IsAscii z.name
      → (zone_matches casing h z && beats (length (lower z.name)) (some b)) ≡ true
      → length b.name < length z.name
  longer b z ascii e = ground (arith, length-lower casing z.name ascii)

  not_longer :
      (b z : Zone)
      → IsAscii z.name
      → (zone_matches casing h z && beats (length (lower z.name)) (some b)) ≡ false
      → zone_matches casing h z ≡ true
      → length z.name ≤ length b.name
  not_longer b z ascii e m = ground (arith, length-lower casing z.name ascii)

  seen_beaten :
      (seen : List Zone) (b z : Zone)
      → IsFirstLongest seen b
      → length b.name < length z.name
      → All (λ y. zone_matches casing h y ≡ true → length y.name < length z.name) seen
  seen_beaten seen b z p k = rw p.shape (
      All-append _ p.before (b ∷ p.after)
        (beaten-lt (length b.name) (length z.name) p.before k
          (weaken (length b.name) p.before p.beaten))
        (λ e. k, beaten-lt (length b.name) (length z.name) p.after k p.bounded))

  better-IsPick :
      (seen : List Zone) (best : Option Zone) (z : Zone)
      → IsAscii z.name
      → IsPick seen best
      → IsPick (seen ++ z ∷ []) (better casing h best z)
  unfolding better
  better-IsPick seen none z ascii p = elim (Bool-cases (zone_matches casing h z)) [
    | inl m ↦ rw m (record {
      before = seen;
      after = [];
      shape = refl;
      matching = m;
      beaten = unmatched-beaten (length z.name) seen p;
      bounded = tt;
    })
    | inr m ↦ rw m (All-append _ seen (z ∷ []) p (m, tt))
  ]
  better-IsPick seen (some b) z ascii p =
      elim (Bool-cases (zone_matches casing h z && beats (length (lower z.name)) (some b))) [
        | inl e ↦ rw e (record {
          before = seen;
          after = [];
          shape = refl;
          matching = ground arith;
          beaten = seen_beaten seen b z p (longer b z ascii e);
          bounded = tt;
        })
        | inr e ↦ rw e (record {
          before = p.before;
          after = p.after ++ z ∷ [];
          shape = ap (λ t. t ++ z ∷ []) p.shape ∙ append_assoc p.before (b ∷ p.after) (z ∷ []);
          matching = p.matching;
          beaten = p.beaten;
          bounded = All-append _ p.after (z ∷ []) p.bounded (not_longer b z ascii e, tt);
        })
      ]

  pick_from-IsPick :
      (seen zones : List Zone) (best : Option Zone)
      → All (λ z. IsAscii z.name) zones
      → IsPick seen best
      → IsPick (seen ++ zones) (pick_from casing h best zones)
  unfolding pick_from
  pick_from-IsPick seen [] best a p = rw append-nil p
  pick_from-IsPick seen (z ∷ zones) best (k, a) p = rw (append_assoc seen (z ∷ []) zones) at (
      pick_from-IsPick (seen ++ z ∷ []) zones (better casing h best z) a
        (better-IsPick seen best z k p))

-- With ASCII zone names, `pickZone` returns the first of the longest zones that the hostname equals or
-- ends in behind a dot, and nothing exactly when there is no such zone.
pub pick_zone-IsPick :
    (casing : Casing) (hostname : Str) (zones : List Zone)
    → All (λ z. IsAscii z.name) zones
    → IsPick casing (casing.lower hostname) zones (pick_zone casing hostname zones)
unfolding pick_zone
pick_zone-IsPick casing hostname zones a =
    pick_from-IsPick casing (casing.lower hostname) [] zones none a tt
