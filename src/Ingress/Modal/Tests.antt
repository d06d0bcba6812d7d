-- ===== src/Ingress/Modal/Tests.antt =====
-- A hostname that is opened in the dialog of web/src/components/cf/PublicHostnameModal.tsx and confirmed.
use cloudflared_manager.Base.{
  ◌≡◌, refl, inl, none, some, [], ◌∷◌, codes, ascii_casing, arith, false, ends_with, starts_with,
  trim, ◌++◌,
}
use cloudflared_manager.Api.Types.{Zone}
use cloudflared_manager.Api.Reply.{done}
use cloudflared_manager.Ingress.Service.{http_status}
use cloudflared_manager.Ingress.Origin.Tests.{
  whole_numbers, origin_form, origin_form-FiniteDurations,
}
use cloudflared_manager.Ingress.Form.{
  PublicHostnameForm, form_to_ingress_rule, ingress_rule_to_form,
}
use cloudflared_manager.Ingress.Form.RoundTrip.{IsShown}
use cloudflared_manager.Ingress.Hostname.{build_hostname, pick_zone}
use cloudflared_manager.Ingress.Hostname.RoundTrip.{IsClean}
use cloudflared_manager.Ingress.Modal.{
  Modal, new_form, opened, zones_listed, confirmed, modal_steps,
}
use cloudflared_manager.Ingress.Modal.Reopening.{submitted_names, modal_steps-hostname}
use cloudflared_manager.Ingress.Modal.Rules.{
  IsSplit, submitted_rules, unfolded, kept_rule, modal_steps-kept_rule,
}

abbrev example_zone : Zone
example_zone = record {
  id = codes "z1";
  name = codes "example.com";
  status = none;
  paused = none;
  account = record { id = codes "acc"; name = codes "acc" };
}

abbrev saved_form : PublicHostnameForm
saved_form = record new_form { hostname = some (codes "api.example.com") }

abbrev closed_modal : Modal
closed_modal = record {
  is_open = false;
  aid = codes "acc";
  first = none;
  form = new_form;
  advanced = false;
  submitting = false;
  zones = [];
  zones_loading = false;
}

sub-IsClean : IsClean (codes "api")
sub-IsClean = record { ascii = omega arith; spaces = (refl, refl); dots = (refl, refl) }

zone-IsClean : IsClean (codes "example.com")
zone-IsClean = record { ascii = omega arith; spaces = (refl, refl); dots = (refl, refl) }

example_picked :
    pick_zone ascii_casing (ascii_casing.lower (codes "api.example.com")) (example_zone ∷ [])
    ≡ some example_zone
unfolding pick_zone ends_with starts_with
example_picked = refl

modal_steps-hostname_example :
    submitted_names
      (modal_steps ascii_casing
        (opened (some saved_form) ∷ zones_listed (done (some (example_zone ∷ []))) ∷ confirmed ∷ [])
        closed_modal).1
    ≡ some (codes "api.example.com") ∷ []
modal_steps-hostname_example =
    modal_steps-hostname ascii_casing (codes "api") example_zone saved_form
      (done (some (example_zone ∷ []))) closed_modal sub-IsClean zone-IsClean (λ e. cc) refl
      (inl example_picked)

-- A tunnel's rule with an originRequest, as the form has sent it.
abbrev sent_form : PublicHostnameForm
sent_form = record {
  hostname = none;
  subdomain = some (codes "api");
  zone_name = some (codes "example.com");
  path = some (codes "/v1 ");
  service_type = http_status;
  service_target = some (codes " 503");
  manage_dns = some false;
  origin = origin_form;
}

sent_form-IsShown : IsShown whole_numbers sent_form
unfolding trim build_hostname
sent_form-IsShown = record { target = refl; tight = refl; finite = origin_form-FiniteDurations }

sent_form-IsSplit :
    IsSplit whole_numbers ascii_casing sent_form (codes "api") example_zone (example_zone ∷ [])
unfolding trim build_hostname
sent_form-IsSplit = record {
  sub_clean = sub-IsClean;
  zone_clean = zone-IsClean;
  zoned = λ e. cc;
  name = refl;
  found = inl example_picked;
}

-- The section of the originRequest fields stays folded.
modal_steps-kept_rule_example :
    let rule = form_to_ingress_rule whole_numbers sent_form in
    submitted_rules whole_numbers ascii_casing
      (modal_steps ascii_casing
        (opened (some (ingress_rule_to_form whole_numbers rule))
          ∷ zones_listed (done (some (example_zone ∷ [])))
          ∷ (unfolded false ++ confirmed ∷ []))
        closed_modal).1
    ≡ kept_rule false rule ∷ []
modal_steps-kept_rule_example =
    modal_steps-kept_rule whole_numbers ascii_casing sent_form (codes "api") example_zone
      (done (some (example_zone ∷ []))) closed_modal false sent_form-IsSplit sent_form-IsShown
