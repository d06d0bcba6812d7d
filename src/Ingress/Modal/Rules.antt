-- ===== src/Ingress/Modal/Rules.antt =====
-- A rule of a tunnel that is opened in web/src/components/cf/PublicHostnameModal.tsx and confirmed, as
-- web/src/components/cf/PublicHostnamesTab.tsx does: what becomes of its fields.
use cloudflared_manager.Base.{
  ◌≡◌, ◌≢◌, refl, sym, ap, ◌∙◌, ◌⊎◌, inl, inr, Bool, true, false, Option, none, some, List, [], ◌∷◌,
  ◌++◌, Str, is_empty, or_else, or_empty, trim, Casing, if◌then◌else◌, Bool-cases,
}
use cloudflared_manager.Api.Types.{Zone, IngressRule}
use cloudflared_manager.Api.Json.{Numbers}
use cloudflared_manager.Api.Reply.{Reply}
use cloudflared_manager.Ingress.Form.{
  PublicHostnameForm, form_hostname, form_to_ingress_rule, ingress_rule_to_form,
}
use cloudflared_manager.Ingress.Form.RoundTrip.{IsShown, form_to_ingress_rule-ingress_rule_to_form}
use cloudflared_manager.Ingress.Hostname.{build_hostname, pick_zone, split_hostname}
use cloudflared_manager.Ingress.Hostname.RoundTrip.{IsClean, whole}
use cloudflared_manager.Ingress.Origin.{build_origin_request}
use cloudflared_manager.Ingress.Seconds.{to_seconds}
use cloudflared_manager.Ingress.Modal.{
  Modal, ModalRequest, api, on_submit, ModalSignal, opened, zones_listed, advanced_shown, confirmed,
  modal_step, modal_steps, zones_of, registered, with_parts, with_hostname, blank_origin,
}
use cloudflared_manager.Ingress.Modal.Reopening.{is_empty-whole, split-build}

or_else_of_full : (s t : Str) → is_empty s ≡ false → or_else s t ≡ s
or_else_of_full [] t h = cc
or_else_of_full (c ∷ s) t h = refl

-- A rule as the dialog leaves it: its originRequest is kept only where the fields of it were there.
abbrev pub kept_rule : Bool → IngressRule → IngressRule
kept_rule advanced rule = record rule {
  origin_request = if advanced then rule.origin_request else none;
}

-- The user may unfold the section of the originRequest fields.
abbrev pub unfolded : Bool → List ModalSignal
unfolded true = advanced_shown ∷ []
unfolded false = []

module _ (numbers : Numbers) (casing : Casing) where
  -- The rules that the tab makes of what is submitted.
  abbrev pub submitted_rules : List ModalRequest → List IngressRule
  submitted_rules [] = []
  submitted_rules (api call ∷ requests) = submitted_rules requests
  submitted_rules (on_submit v ∷ requests) =
      form_to_ingress_rule numbers v ∷ submitted_rules requests

  -- No field of the section gives no originRequest.
  blank_origin_built : build_origin_request numbers blank_origin ≡ none
  unfolding build_origin_request to_seconds
  blank_origin_built = refl

  -- What the dialog submits when it was opened on `first` and the zones are there.
  abbrev submitted_form : List Zone → PublicHostnameForm → Bool → PublicHostnameForm
  submitted_form zones first advanced = with_hostname (
      registered advanced
        (with_parts (split_hostname casing (or_empty first.hostname) zones) first))

  modal_steps_lem :
      (first : PublicHostnameForm) (r : Reply (Option (List Zone))) (p : Modal) (advanced : Bool)
      → submitted_rules
          (modal_steps casing
            (opened (some first) ∷ zones_listed r ∷ (unfolded advanced ++ confirmed ∷ []))
            p).1
        ≡ form_to_ingress_rule numbers (submitted_form (zones_of r) first advanced) ∷ []
  unfolding modal_steps modal_step
  modal_steps_lem first r p true = elim (Bool-cases (is_empty p.aid)) [
    | inl e ↦ rw e refl
    | inr e ↦ rw e refl
  ]
  modal_steps_lem first r p false = elim (Bool-cases (is_empty p.aid)) [
    | inl e ↦ rw e refl
    | inr e ↦ rw e refl
  ]

  module _ (v : PublicHostnameForm) (sub : Str) (z : Zone) (zones : List Zone) where
    -- The hostname is of clean parts under a zone that is picked for it, or for which none is picked.
    pub record IsSplit : Type 0 where
      pub sub_clean : IsClean sub
      pub zone_clean : IsClean z.name
      pub zoned : z.name ≢ []
      pub name : form_hostname v ≡ whole sub z.name
      pub found :
          (pick_zone casing (casing.lower (whole sub z.name)) zones ≡ some z)
          ⊎ (pick_zone casing (casing.lower (whole sub z.name)) zones ≡ none)

    opened_form : PublicHostnameForm
    opened_form = ingress_rule_to_form numbers (form_to_ingress_rule numbers v)

    confirmed_form : Bool → PublicHostnameForm
    confirmed_form advanced = submitted_form zones opened_form advanced

    opened_name : or_empty opened_form.hostname ≡ form_hostname v
    unfolding opened_form form_to_ingress_rule ingress_rule_to_form
    opened_name = refl

    rebuilt : Str
    rebuilt =
        let parts = split_hostname casing (or_empty opened_form.hostname) zones in
        build_hostname (some parts.subdomain) (some parts.zone_name)

    module _ (split : IsSplit) (shown : IsShown numbers v) where
      rebuilt_name : rebuilt ≡ whole sub z.name
      unfolding rebuilt
      rebuilt_name =
          ap
            (λ u.
              let parts = split_hostname casing u zones in
              build_hostname (some parts.subdomain) (some parts.zone_name))
            (opened_name ∙ split.name)
          ∙ split-build casing sub z zones split.sub_clean split.zone_clean split.zoned split.found

      rebuilt_hostname : or_else rebuilt (trim rebuilt) ≡ form_hostname v
      rebuilt_hostname =
          or_else_of_full rebuilt (trim rebuilt)
            (ap is_empty rebuilt_name ∙ is_empty-whole sub z.name split.zoned)
          ∙ rebuilt_name
          ∙ sym split.name

      back : form_to_ingress_rule numbers opened_form ≡ form_to_ingress_rule numbers v
      unfolding opened_form
      back = form_to_ingress_rule-ingress_rule_to_form numbers v shown

      confirmed-kept :
          (advanced : Bool)
          → form_to_ingress_rule numbers (confirmed_form advanced)
            ≡ kept_rule advanced (form_to_ingress_rule numbers v)
      unfolding confirmed_form rebuilt form_to_ingress_rule opened_form
      confirmed-kept true = λ i. record {
        hostname = some (rebuilt_hostname i);
        service = (back i).service;
        path = (back i).path;
        origin_request = (back i).origin_request;
      }
      confirmed-kept false = λ i. record {
        hostname = some (rebuilt_hostname i);
        service = (back i).service;
        path = (back i).path;
        origin_request = blank_origin_built i;
      }

  -- A rule that the form sent, opened in the dialog and confirmed with no field edited after the zones came, is
  -- sent as it was if the section of the originRequest fields was unfolded, and without its originRequest if it
  -- was not. The hostname is of clean parts, and no other zone is picked for it; a status target is not blank,
  -- and no duration is infinite.
  pub modal_steps-kept_rule :
      (v : PublicHostnameForm) (sub : Str) (z : Zone) (r : Reply (Option (List Zone))) (p : Modal)
      (advanced : Bool)
      → IsSplit v sub z (zones_of r)
      → IsShown numbers v
      → let rule = form_to_ingress_rule numbers v in
        submitted_rules
          (modal_steps casing
            (opened (some (ingress_rule_to_form numbers rule))
              ∷ zones_listed r
              ∷ (unfolded advanced ++ confirmed ∷ []))
            p).1
        ≡ kept_rule advanced rule ∷ []
  unfolding confirmed_form opened_form
  modal_steps-kept_rule v sub z r p advanced split shown =
      modal_steps_lem (ingress_rule_to_form numbers (form_to_ingress_rule numbers v)) r p advanced
      ∙ ap (λ u. u ∷ []) (confirmed-kept v sub z (zones_of r) split shown advanced)
