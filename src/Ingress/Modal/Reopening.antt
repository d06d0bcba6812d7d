-- ===== src/Ingress/Modal/Reopening.antt =====
-- A hostname that is opened in web/src/components/cf/PublicHostnameModal.tsx and confirmed untouched.
use mathlib.Core.List.{reverse, reverse-append, reverse-reverse}
use cloudflared_manager.Base.{
  ◌≡◌, ◌≢◌, refl, sym, ap, ◌∙◌, ◌⊎◌, inl, inr, ℕ, Bool, false, Option, none, some, List, [], ◌∷◌,
  ◌++◌, Str, codes, is_empty, or_empty, FrontTight, Tight, Casing, strip_of_Tight, Bool-cases,
}
use cloudflared_manager.Api.Types.{Zone}
use cloudflared_manager.Api.Reply.{Reply}
use cloudflared_manager.Ingress.Form.{PublicHostnameForm}
use cloudflared_manager.Ingress.Hostname.{is_dot, tidy, build_hostname, pick_zone, split_hostname}
use cloudflared_manager.Ingress.Hostname.RoundTrip.{
  IsClean, tidy_of_IsClean, split_hostname-build_hostname, build_hostname-whole, trim-whole,
  whole-ne-nil, whole,
}
use cloudflared_manager.Ingress.Modal.{
  Modal, ModalRequest, api, on_submit, opened, zones_listed, confirmed, modal_step, modal_steps,
  zones_of,
}

module _ (p : ℕ → Bool) where
  FrontTight-front : (s t : Str) → s ≢ [] → FrontTight p s → FrontTight p (s ++ t)
  FrontTight-front [] t e h = absurd (e refl)
  FrontTight-front (c ∷ s) t e h = h

reverse-ne-nil : (s : Str) → s ≢ [] → reverse s ≢ []
reverse-ne-nil s e h = e (sym (reverse-reverse s) ∙ ap reverse h)

append-ne-nil : (s t : Str) → s ≢ [] → s ++ t ≢ []
append-ne-nil [] t e h = e refl
append-ne-nil (c ∷ s) t e h = cc

nothing-IsClean : IsClean []
nothing-IsClean = record { ascii = tt; spaces = (tt, tt); dots = (tt, tt) }

pub is_empty-whole : (sub zone : Str) → zone ≢ [] → is_empty (whole sub zone) ≡ false
is_empty-whole [] [] e = absurd (e refl)
is_empty-whole [] (d ∷ t) e = refl
is_empty-whole (c ∷ s) zone e = refl

whole-dots :
    (sub zone : Str) → IsClean sub → IsClean zone → zone ≢ [] → Tight is_dot (whole sub zone)
whole-dots [] zone h k e = k.dots
whole-dots (c ∷ s) zone h k e = (
  h.dots.0,
  rw (reverse-append (c ∷ s) (codes "." ++ zone), reverse-append (codes ".") zone)
      (FrontTight-front is_dot (reverse zone ++ codes ".") (reverse (c ∷ s))
        (append-ne-nil (reverse zone) (codes ".") (reverse-ne-nil zone e))
        (FrontTight-front is_dot (reverse zone) (codes ".") (reverse-ne-nil zone e) k.dots.1)),
)

-- The name as a whole, under no subdomain.
tidy-whole :
    (sub zone : Str)
    → IsClean sub
    → IsClean zone
    → zone ≢ []
    → tidy (some (whole sub zone)) ≡ whole sub zone
tidy-whole sub zone h k e =
    rw (trim-whole sub zone h k)
      (strip_of_Tight is_dot (whole sub zone) (whole-dots sub zone h k e))

whole_alone :
    (sub zone : Str)
    → IsClean sub
    → IsClean zone
    → zone ≢ []
    → build_hostname (some []) (some (whole sub zone)) ≡ whole sub zone
unfolding build_hostname
whole_alone sub zone h k e =
    rw (tidy-whole sub zone h k e, tidy_of_IsClean [] nothing-IsClean, is_empty-whole sub zone e)
      refl

-- What is submitted last.
abbrev pub submitted_names : List ModalRequest → List (Option Str)
submitted_names [] = []
submitted_names (api call ∷ requests) = submitted_names requests
submitted_names (on_submit v ∷ requests) = v.hostname ∷ submitted_names requests

module _ (casing : Casing) where
  split_unknown :
      (sub : Str) (z : Zone) (zones : List Zone)
      → IsClean sub
      → IsClean z.name
      → z.name ≢ []
      → pick_zone casing (casing.lower (whole sub z.name)) zones ≡ none
      → split_hostname casing (whole sub z.name) zones
        ≡ record { subdomain = []; zone_name = whole sub z.name }
  unfolding split_hostname
  split_unknown sub z zones h k e missed =
      rw (trim-whole sub z.name h k, whole-ne-nil sub z.name e, missed) refl

  pub split-build :
      (sub : Str) (z : Zone) (zones : List Zone)
      → IsClean sub
      → IsClean z.name
      → z.name ≢ []
      → (pick_zone casing (casing.lower (whole sub z.name)) zones ≡ some z)
        ⊎ (pick_zone casing (casing.lower (whole sub z.name)) zones ≡ none)
      → let parts = split_hostname casing (whole sub z.name) zones in
        build_hostname (some parts.subdomain) (some parts.zone_name) ≡ whole sub z.name
  split-build sub z zones h k e (inl found) =
      let built = build_hostname-whole sub z.name h k e in
      let picked = ap (λ u. pick_zone casing (casing.lower u) zones) built ∙ found in
      let parts =
        ap (λ u. split_hostname casing u zones) (sym built)
        ∙ split_hostname-build_hostname casing sub z zones h k e picked in
      rw parts built
  split-build sub z zones h k e (inr missed) =
      rw (split_unknown sub z zones h k e missed) (whole_alone sub z.name h k e)

  -- A hostname under a clean zone of the account, opened and confirmed untouched, is submitted as it is, whatever
  -- zones were there before, when the account's zones have come, also if they hold no zone of it or could not be
  -- loaded: the hostname is of a clean subdomain, which may be empty, and `pickZone` finds that zone or none.
  pub modal_steps-hostname :
      (sub : Str) (z : Zone) (v : PublicHostnameForm) (r : Reply (Option (List Zone))) (p : Modal)
      → IsClean sub
      → IsClean z.name
      → z.name ≢ []
      → v.hostname ≡ some (whole sub z.name)
      → (pick_zone casing (casing.lower (whole sub z.name)) (zones_of r) ≡ some z)
        ⊎ (pick_zone casing (casing.lower (whole sub z.name)) (zones_of r) ≡ none)
      → submitted_names (modal_steps casing (opened (some v) ∷ zones_listed r ∷ confirmed ∷ []) p).1
        ≡ v.hostname ∷ []
  unfolding modal_steps modal_step
  modal_steps-hostname sub z v r p h k e name found =
      let kept = split-build sub z (zones_of r) h k e found in
      let same : build_hostname
            (some (split_hostname casing (or_empty v.hostname) (zones_of r)).subdomain)
            (some (split_hostname casing (or_empty v.hostname) (zones_of r)).zone_name)
          ≡ whole sub z.name =
        rw name kept in
      let shown = ap (λ u. some u ∷ []) same ∙ ap (λ u. u ∷ []) (sym name) in
      elim (Bool-cases (is_empty p.aid)) [
        | inl none_asked ↦ rw none_asked shown
        | inr asked ↦ rw asked shown
      ]
