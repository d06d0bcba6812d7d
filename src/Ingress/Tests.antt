-- ===== src/Ingress/Tests.antt =====
-- The theorems on services, hostnames and DNS records of web/src/pages/cfIngress.ts at concrete inputs.
use cloudflared_manager.Base.{
  ◌≡◌, refl, not, none, some, List, [], ◌∷◌, ◌++◌, Str, codes, map, filter, ascii_casing, arith,
  trim, strip, ends_with, str_eq_iff, or_empty,
}
use cloudflared_manager.Api.Types.{Zone, DnsRecord}
use cloudflared_manager.Ingress.Service.{http_status, ssh, parse_service, build_service}
use cloudflared_manager.Ingress.Service.RoundTrip.{shown_target, parse_service-build_service}
use cloudflared_manager.Ingress.Hostname.{pick_zone, build_hostname, split_hostname}
use cloudflared_manager.Ingress.Hostname.Zones.{IsPick, pick_zone-IsPick}
use cloudflared_manager.Ingress.Hostname.RoundTrip.{IsClean, split_hostname-build_hostname}
use cloudflared_manager.Ingress.Dns.{CfApi, ok, same_name, sync_proxy_cname}
use cloudflared_manager.Ingress.Dns.Service.{has_id, replace, Carries, IsDnsService}
use cloudflared_manager.Ingress.Dns.Sync.{IsSynced, sync_proxy_cname-PointsAt}

parse_service-build_service_example :
    parse_service (build_service http_status (codes " 503 "))
    ≡ record { type_name = http_status; target = shown_target http_status (codes " 503 ") }
parse_service-build_service_example = parse_service-build_service http_status (codes " 503 ")

-- A target of white space alone does not stand for 404: the service string has no status.
blank_status : build_service http_status (codes " ") ≡ codes "http_status:"
unfolding build_service trim
blank_status = refl

parse_test :
    parse_service (codes " ssh://host:22 ") ≡ record { type_name = ssh; target = codes "host:22" }
unfolding parse_service trim
parse_test = refl

abbrev zone_named : Str → Zone
zone_named name = record {
  id = name;
  name = name;
  status = none;
  paused = none;
  account = record { id = codes "acc"; name = codes "acc" };
}

abbrev zones : List Zone
zones = zone_named (codes "example.com") ∷ zone_named (codes "Dev.example.com") ∷ []

pick_zone-IsPick_example :
    IsPick ascii_casing
      (ascii_casing.lower (codes "api.DEV.example.com"))
      zones
      (pick_zone ascii_casing (codes "api.DEV.example.com") zones)
pick_zone-IsPick_example =
    pick_zone-IsPick ascii_casing (codes "api.DEV.example.com") zones (omega arith)

api-IsClean : IsClean (codes "API")
api-IsClean = record { ascii = omega arith; spaces = (refl, refl); dots = (refl, refl) }

dev-IsClean : IsClean (codes "Dev.example.com")
dev-IsClean = record { ascii = omega arith; spaces = (refl, refl); dots = (refl, refl) }

dev_picked :
    pick_zone ascii_casing
      (ascii_casing.lower (build_hostname (some (codes "API")) (some (codes "Dev.example.com"))))
      zones
    ≡ some (zone_named (codes "Dev.example.com"))
unfolding pick_zone build_hostname strip trim ends_with
dev_picked = refl

split_hostname-build_hostname_example :
    split_hostname ascii_casing
      (build_hostname (some (codes "API")) (some (codes "Dev.example.com")))
      zones
    ≡ record { subdomain = codes "API"; zone_name = codes "Dev.example.com" }
split_hostname-build_hostname_example =
    split_hostname-build_hostname ascii_casing (codes "API") (zone_named (codes "Dev.example.com"))
      zones api-IsClean dev-IsClean (cc) dev_picked

-- A stored record, with fields of the service's own.
abbrev stored : Str → DnsRecord → DnsRecord
stored id rec = record rec { id = some id; created_on = some (codes "2026-01-01T00:00:00Z") }

-- An account whose zones are `zones`, with one list of records under every zone id.
abbrev account : CfApi (List DnsRecord)
account = record {
  list_zones = λ aid w. (ok (some zones), w);
  list_dns = λ aid zid name w. (ok (some (filter (same_name ascii_casing name) w)), w);
  create_dns = λ aid zid rec w. (ok (stored (codes "new") rec), w ++ stored (codes "new") rec ∷ []);
  update_dns = λ aid zid rid rec w. (ok (stored rid rec), map (replace rid (stored rid rec)) w);
  delete_dns = λ aid zid rid w. (ok tt, filter (λ r. not (has_id rid r)) w);
}

stored-Carries : (id : Str) (rec : DnsRecord) → Carries ascii_casing rec (stored id rec)
stored-Carries id rec = record {
  named =
      (str_eq_iff (ascii_casing.lower (or_empty rec.name))
          (ascii_casing.lower (or_empty rec.name))).1
        refl;
  typed = refl;
  valued = refl;
  through = refl;
}

account-IsDnsService : IsDnsService ascii_casing account (λ w. zones) (λ w zid. w)
account-IsDnsService = record {
  list_zones_reads = λ aid w. refl;
  list_dns_reads = λ aid zid name w. refl;
  create_dns_adds = λ aid zid rec w. (stored-Carries (codes "new") rec, refl, refl);
  update_dns_replaces = λ aid zid rid rec w. (stored-Carries rid rec, refl, refl);
  delete_dns_removes = λ aid zid rid w. refl;
}

abbrev old_record : DnsRecord
old_record = record {
  id = some (codes "r1");
  type_name = some (codes "A");
  name = some (codes "example.com");
  content = some (codes "192.0.2.1");
  proxied = none;
  ttl = none;
  comment = none;
  proxiable = none;
  created_on = none;
  modified_on = none;
}

root_picked :
    pick_zone ascii_casing (codes "example.com") zones ≡ some (zone_named (codes "example.com"))
unfolding pick_zone ends_with
root_picked = refl

other_missed : pick_zone ascii_casing (codes "example.org") zones ≡ none
unfolding pick_zone ends_with
other_missed = refl

-- The record under the name is replaced.
sync_proxy_cname-PointsAt_example :
    IsSynced ascii_casing account
      (λ w. zones)
      (λ w zid. w)
      account-IsDnsService
      (codes "acc")
      (codes "t1")
      (codes "example.com")
      (codes "example.com")
      (old_record ∷ [])
      (sync_proxy_cname ascii_casing account
        (codes "acc")
        (codes "t1")
        (codes "example.com")
        (old_record ∷ []))
sync_proxy_cname-PointsAt_example =
    sync_proxy_cname-PointsAt ascii_casing account (λ w. zones) (λ w zid. w) account-IsDnsService
      (codes "acc") (codes "t1") (codes "example.com") (old_record ∷ [])
      (zone_named (codes "example.com")) root_picked (refl, tt)
