-- ===== src/Records/Tests.antt =====
-- The theorems on web/src/components/cf/DNSRecordsTab.tsx at a concrete zone.
use cloudflared_manager.Base.{
  ◌≡◌, refl, false, none, some, [], ◌∷◌, Str, codes, ascii_casing, strip, trim, ends_with, arith,
}
use cloudflared_manager.Api.Types.{Zone, DnsRecord}
use cloudflared_manager.Ingress.Hostname.RoundTrip.{IsClean}
use cloudflared_manager.Records.{is_under, dns_combine, dns_split}
use cloudflared_manager.Records.Page.{
  RecordTab, new_record_form, update_record, zone_name, open_record, submit, record_steps,
}
use cloudflared_manager.Records.Page.Editing.{renamed, open_record-submit}

abbrev zone : Zone
zone = record {
  id = codes "z1";
  name = codes "ex.com";
  status = none;
  paused = none;
  account = record { id = []; name = [] };
}

abbrev dns_record : Str → DnsRecord
dns_record name = record {
  id = some (codes "r1");
  type_name = some (codes "A");
  name = some name;
  content = some (codes "192.0.2.1");
  proxied = some false;
  ttl = none;
  comment = some (codes "old host");
  proxiable = none;
  created_on = none;
  modified_on = none;
}

abbrev tab : RecordTab
tab = record {
  zones = zone ∷ [];
  zone_id = codes "z1";
  records = [];
  zones_loading = false;
  records_loading = false;
  modal_open = false;
  editing = none;
  form = new_record_form;
  saving = false;
  notices = [];
}

zone-IsClean : IsClean (codes "ex.com")
zone-IsClean = record { ascii = omega arith; spaces = (refl, refl); dots = (refl, refl) }

www-IsClean : IsClean (codes "www")
www-IsClean = record { ascii = omega arith; spaces = (refl, refl); dots = (refl, refl) }

whole-IsClean : IsClean (codes "www.ex.com")
whole-IsClean = record { ascii = omega arith; spaces = (refl, refl); dots = (refl, refl) }

found_zone : zone_name tab.zones tab.zone_id ≡ codes "ex.com"
unfolding zone_name
found_zone = refl

www-outside : is_under ascii_casing (codes "www") (codes "ex.com") ≡ false
unfolding ends_with
www-outside = refl

apex_test :
    dns_combine ascii_casing
      (dns_split ascii_casing (codes "Ex.com") (codes "ex.com"))
      (codes "ex.com")
    ≡ codes "ex.com"
unfolding dns_combine dns_split strip trim ends_with
apex_test = refl

open_record-submit_example :
    (record_steps ascii_casing (open_record (dns_record (codes "www.ex.com")) ∷ submit ∷ []) tab).1
    ≡ update_record
        (codes "z1")
        (codes "r1")
        (renamed (dns_record (codes "www.ex.com")) (codes "www.ex.com"))
      ∷ []
open_record-submit_example =
    open_record-submit ascii_casing tab (dns_record (codes "www.ex.com")) (codes "r1") (codes "www")
      (codes "ex.com") refl refl found_zone refl www-IsClean zone-IsClean refl refl refl www-outside
