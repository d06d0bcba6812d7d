-- ===== src/Ingress/Form/RoundTrip.antt =====
-- The public hostname form of web/src/pages/cfIngress.ts: what is sent, shown again and sent again.
use cloudflared_manager.Base.{
  ◌≡◌, refl, ap, ◌∙◌, true, false, Option, none, some, [], ◌∷◌, or_else, or_empty, Str, codes,
  is_empty, trim, trim_idempotent, Bool-cases, inl, inr,
}
use cloudflared_manager.Api.Types.{Number, DnsStatus, PublicHostname}
use cloudflared_manager.Api.Json.{Numbers}
use cloudflared_manager.Ingress.Service.{ServiceType, http_status, parse_service, build_service}
use cloudflared_manager.Ingress.Service.RoundTrip.{shown_target, parse_service-build_service}
use cloudflared_manager.Ingress.Hostname.{build_hostname}
use cloudflared_manager.Ingress.Origin.{build_origin_request}
use cloudflared_manager.Ingress.Origin.RoundTrip.{
  FiniteDurations, build_origin_request-origin_request_to_form,
}
use cloudflared_manager.Ingress.Form.{
  PublicHostnameForm, PublicHostnamePayload, form_hostname, form_service, trimmed_path,
  form_to_payload, form_to_ingress_rule, stored_to_form, ingress_rule_to_form,
  public_hostname_to_form,
}

-- A target that is written behind the scheme: a status, if one is asked for.
abbrev pub HasTarget : ServiceType → Str → Type 0
HasTarget http_status target = is_empty (shown_target http_status target) ≡ false
HasTarget _ target = Unit

or_else_nonempty : (s d : Str) → is_empty s ≡ false → or_else s d ≡ s
or_else_nonempty [] d h = cc
or_else_nonempty (c ∷ s) d h = refl

build_service-shown_target :
    (type_name : ServiceType) (target : Str)
    → HasTarget type_name target
    → build_service type_name (shown_target type_name target) ≡ build_service type_name target
unfolding build_service
build_service-shown_target http_status target h =
    rw
      (
        or_else_nonempty (trim (or_else target (codes "404"))) (codes "404") h,
        trim_idempotent (or_else target (codes "404")),
      )
      refl
build_service-shown_target _ target h = rw (trim_idempotent target) refl

-- A service string that was built is built again from its parts.
build_service-parse_service :
    (type_name : ServiceType) (target : Str)
    → HasTarget type_name target
    → (let s = parse_service (build_service type_name target) in build_service s.type_name s.target)
      ≡ build_service type_name target
build_service-parse_service type_name target h =
    ap (λ s. build_service s.type_name s.target) (parse_service-build_service type_name target)
    ∙ build_service-shown_target type_name target h

trimmed_path_again : (p : Option Str) → trimmed_path (trimmed_path p) ≡ trimmed_path p
trimmed_path_again none = refl
trimmed_path_again (some s) = elim (Bool-cases (is_empty (trim s))) [
  | inl e ↦ rw e refl
  | inr e ↦ rw (e, trim_idempotent s, e) refl
]

hostname_again :
    (v : PublicHostnameForm)
    → trim (form_hostname v) ≡ form_hostname v
    → or_else (build_hostname none none) (trim (form_hostname v)) ≡ form_hostname v
unfolding build_hostname trim
hostname_again v h = h

-- The entry of the list for what was sent.
abbrev pub listed : Number → Option DnsStatus → PublicHostnamePayload → PublicHostname
listed index dns payload = record {
  index = index;
  hostname = payload.hostname;
  service = payload.service;
  path = payload.path;
  origin_request = payload.origin_request;
  dns = dns;
}

abbrev pub managed : PublicHostnamePayload → PublicHostnamePayload
managed payload = record {
  hostname = payload.hostname;
  service = payload.service;
  path = payload.path;
  origin_request = payload.origin_request;
  manage_dns = some true;
}

module _ (numbers : Numbers) (v : PublicHostnameForm) where
  -- The form shows what it sent: a status target that is not blank, a hostname without outer white
  -- space, finite durations.
  pub record IsShown : Type 0 where
    pub target : HasTarget v.service_type (or_empty v.service_target)
    pub tight : trim (form_hostname v) ≡ form_hostname v
    pub finite : FiniteDurations numbers v.origin

  sent : PublicHostnameForm
  sent =
      stored_to_form numbers (form_hostname v) (form_service v) (trimmed_path v.path)
        (build_origin_request numbers v.origin)

  module _ (shown : IsShown) where
    sent_hostname : form_hostname sent ≡ form_hostname v
    unfolding sent
    sent_hostname = hostname_again v shown.tight

    sent_service : form_service sent ≡ form_service v
    unfolding sent
    sent_service =
        build_service-parse_service v.service_type (or_empty v.service_target) shown.target

    sent_path : trimmed_path sent.path ≡ trimmed_path v.path
    unfolding sent
    sent_path = trimmed_path_again v.path

    sent_origin : build_origin_request numbers sent.origin ≡ build_origin_request numbers v.origin
    unfolding sent
    sent_origin = build_origin_request-origin_request_to_form numbers v.origin shown.finite

    -- Opening the rule that the form sent in the form again and sending it changes nothing.
    pub form_to_ingress_rule-ingress_rule_to_form :
        form_to_ingress_rule numbers (ingress_rule_to_form numbers (form_to_ingress_rule numbers v))
        ≡ form_to_ingress_rule numbers v
    unfolding form_to_ingress_rule ingress_rule_to_form sent
    form_to_ingress_rule-ingress_rule_to_form = λ i. record {
      hostname = some (sent_hostname i);
      service = some (sent_service i);
      path = sent_path i;
      origin_request = sent_origin i;
    }

    -- Opening a listed public hostname that holds what the form sent and sending it again changes
    -- nothing but that its DNS record is managed.
    pub form_to_payload-public_hostname_to_form :
        (index : Number) (dns : Option DnsStatus)
        → form_to_payload numbers
            (public_hostname_to_form numbers (listed index dns (form_to_payload numbers v)))
          ≡ managed (form_to_payload numbers v)
    unfolding form_to_payload public_hostname_to_form sent
    form_to_payload-public_hostname_to_form index dns = λ i. record {
      hostname = sent_hostname i;
      service = sent_service i;
      path = sent_path i;
      origin_request = sent_origin i;
      manage_dns = some true;
    }
