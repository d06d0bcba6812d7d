-- ===== src/Ingress/Modal.antt =====
-- web/src/components/cf/PublicHostnameModal.tsx: the dialog of a public hostname, whose domain is chosen among the
-- zones of the account. Its effects run when it is opened and when the zones arrive.
pub mod Reopening
pub mod Rules
mod Tests
use cloudflared_manager.Base.{
  Bool, true, false, not, ◌||◌, Option, none, some, List, [], ◌∷◌, ◌++◌, if◌then◌else◌, or_default,
  or_empty, Str, is_empty, Casing,
}
use cloudflared_manager.Api.Types.{Zone, end}
use cloudflared_manager.Api.Reply.{Rejection, Reply, done, failed}
use cloudflared_manager.Api.Client.Routes.{ApiCall, zones_list}
use cloudflared_manager.Ingress.Service.{http}
use cloudflared_manager.Ingress.Hostname.{HostParts, build_hostname, split_hostname}
use cloudflared_manager.Ingress.Origin.{OriginForm}
use cloudflared_manager.Ingress.Form.{PublicHostnameForm}

-- `first` is the prop `initial`; `advanced` tells that the section of the originRequest fields has been unfolded since
-- the dialog was opened: before, its fields are not there for antd's form.
pub record Modal : Type 0 where
  pub is_open : Bool
  pub aid : Str
  pub first : Option PublicHostnameForm
  pub form : PublicHostnameForm
  pub advanced : Bool
  pub submitting : Bool
  pub zones : List Zone
  pub zones_loading : Bool

-- The zones are asked for, and the values are handed to `onSubmit`.
pub data ModalRequest : Type 0 where
  api : ApiCall → ModalRequest
  on_submit : PublicHostnameForm → ModalRequest

-- `confirmed` is a click on the button of a form that passed its validation.
pub data ModalSignal : Type 0 where
  opened : Option PublicHostnameForm → ModalSignal
  zones_listed : Reply (Option (List Zone)) → ModalSignal
  form_edited : PublicHostnameForm → ModalSignal
  advanced_shown confirmed submit_done canceled : ModalSignal

abbrev pub blank_origin : OriginForm
blank_origin = record {
  fields = end;
  access_required = none;
  access_team_name = none;
  access_aud_tag = none;
}

-- The values of a new hostname.
abbrev pub new_form : PublicHostnameForm
new_form = record {
  hostname = none;
  subdomain = none;
  zone_name = none;
  path = none;
  service_type = http;
  service_target = none;
  manage_dns = some true;
  origin = blank_origin;
}

abbrev pub with_parts : HostParts → PublicHostnameForm → PublicHostnameForm
with_parts parts v = record v { subdomain = some parts.subdomain; zone_name = some parts.zone_name }

-- `r.data?.items || []`, and `[]` where the request failed
abbrev pub zones_of : Reply (Option (List Zone)) → List Zone
zones_of (done items) = or_default items []
zones_of (failed e) = []

-- What `validateFields` gives: the values of the fields that are there, while `setFieldsValue` keeps all.
abbrev pub registered : Bool → PublicHostnameForm → PublicHostnameForm
registered advanced v = record v { origin = if advanced then v.origin else blank_origin }

-- The value that `handleOk` hands on.
abbrev pub with_hostname : PublicHostnameForm → PublicHostnameForm
with_hostname v = record v { hostname = some (build_hostname v.subdomain v.zone_name) }

module _ (casing : Casing) where
  -- The effect that splits the hostname with the zones that are there.
  abbrev pub split_first :
      Option PublicHostnameForm → List Zone → PublicHostnameForm → PublicHostnameForm
  split_first none zones v = v
  split_first (some first) zones v =
      with_parts (split_hostname casing (or_empty first.hostname) zones) v

  abbrev pub on_opened : Option PublicHostnameForm → Modal → Modal
  on_opened first p = record p {
    is_open = true;
    first = first;
    advanced = false;
    form = split_first first p.zones (or_default first new_form);
    zones_loading = not (is_empty p.aid) || p.zones_loading;
  }

  abbrev pub on_modal_zones : List Zone → Modal → Modal
  on_modal_zones zones p = record p {
    zones = zones;
    zones_loading = false;
    form = if p.is_open then split_first p.first zones p.form else p.form;
  }

  unfoldable pub modal_step : ModalSignal → Modal → Modal × List ModalRequest
  modal_step (opened first) p =
      (on_opened first p, if is_empty p.aid then [] else api (zones_list p.aid none) ∷ [])
  modal_step (zones_listed r) p = (on_modal_zones (zones_of r) p, [])
  modal_step (form_edited v) p = (record p { form = v }, [])
  modal_step advanced_shown p = (record p { advanced = true }, [])
  modal_step confirmed p = (
    record p { submitting = true },
    on_submit (with_hostname (registered p.advanced p.form)) ∷ [],
  )
  modal_step submit_done p = (record p { submitting = false }, [])
  modal_step canceled p = (record p { is_open = false }, [])

  unfoldable pub modal_steps : List ModalSignal → Modal → Modal × List ModalRequest
  unfolding modal_step
  modal_steps [] p = (p, [])
  modal_steps (s ∷ signals) p =
      let (p1, first) = modal_step s p in
      let (p2, others) = modal_steps signals p1 in (p2, first ++ others)
