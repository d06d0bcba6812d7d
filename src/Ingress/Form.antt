-- ===== src/Ingress/Form.antt =====
-- web/src/pages/cfIngress.ts: the values of the public hostname form, and what is sent for them and
-- shown of what is stored.
pub mod RoundTrip
use cloudflared_manager.Base.{
  Bool, true, false, Option, none, some, if◌then◌else◌, or_default, or_else, or_empty, Str,
  is_empty, trim,
}
use cloudflared_manager.Api.Types.{OriginRequest, IngressRule, PublicHostname}
use cloudflared_manager.Api.Json.{Numbers}
use cloudflared_manager.Ingress.Service.{ServiceType, Service, parse_service, build_service}
use cloudflared_manager.Ingress.Hostname.{build_hostname}
use cloudflared_manager.Ingress.Origin.{OriginForm, build_origin_request, origin_request_to_form}

-- The fields of `OriginRequestFormValues`, which this form extends, are under `origin`.
pub record PublicHostnameForm : Type 0 where
  pub hostname : Option Str
  pub subdomain : Option Str
  pub zone_name : Option Str
  pub path : Option Str
  pub service_type : ServiceType
  pub service_target : Option Str
  pub manage_dns : Option Bool
  pub origin : OriginForm

pub record PublicHostnamePayload : Type 0 where
  pub hostname : Str
  pub service : Str
  pub path : Option Str
  pub origin_request : Option OriginRequest
  pub manage_dns : Option Bool

-- The hostname sent: of the two parts, or of the whole where these are empty.
abbrev pub form_hostname : PublicHostnameForm → Str
form_hostname v = or_else (build_hostname v.subdomain v.zone_name) (trim (or_empty v.hostname))

abbrev pub form_service : PublicHostnameForm → Str
form_service v = build_service v.service_type (or_empty v.service_target)

-- `if (v.path && v.path.trim() !== '') … = v.path.trim()`
abbrev pub trimmed_path : Option Str → Option Str
trimmed_path none = none
trimmed_path (some s) = if is_empty (trim s) then none else some (trim s)

module _ (numbers : Numbers) where
  unfoldable pub form_to_payload : PublicHostnameForm → PublicHostnamePayload
  form_to_payload v = record {
    hostname = form_hostname v;
    service = form_service v;
    path = trimmed_path v.path;
    origin_request = build_origin_request numbers v.origin;
    manage_dns = some (or_default v.manage_dns false);
  }

  unfoldable pub form_to_ingress_rule : PublicHostnameForm → IngressRule
  form_to_ingress_rule v = record {
    hostname = some (form_hostname v);
    service = some (form_service v);
    path = trimmed_path v.path;
    origin_request = build_origin_request numbers v.origin;
  }

  -- The form for a stored hostname, service, path and originRequest.
  abbrev pub stored_to_form : Str → Str → Option Str → Option OriginRequest → PublicHostnameForm
  stored_to_form hostname service path origin =
      let parsed = parse_service service in
      record {
        hostname = some hostname;
        subdomain = none;
        zone_name = none;
        path = path;
        service_type = parsed.type_name;
        service_target = some parsed.target;
        manage_dns = some true;
        origin = origin_request_to_form numbers origin;
      }

  unfoldable pub ingress_rule_to_form : IngressRule → PublicHostnameForm
  ingress_rule_to_form rule =
      stored_to_form (or_empty rule.hostname) (or_empty rule.service) rule.path rule.origin_request

  unfoldable pub public_hostname_to_form : PublicHostname → PublicHostnameForm
  public_hostname_to_form ph = stored_to_form ph.hostname ph.service ph.path ph.origin_request
