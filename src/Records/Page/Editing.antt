-- ===== src/Records/Page/Editing.antt =====
-- A record of web/src/components/cf/DNSRecordsTab.tsx that is opened and saved.
use cloudflared_manager.Base.{
  ◌≡◌, ap, ◌∙◌, false, none, some, [], ◌∷◌, if◌then◌else◌, or_default, or_else, or_empty, Str,
  codes, str_eq, is_empty, trim, Casing,
}
use cloudflared_manager.Api.Types.{DnsRecord}
use cloudflared_manager.Ingress.Hostname.RoundTrip.{IsClean}
use cloudflared_manager.Records.{is_under, dns_combine, dns_split}
use cloudflared_manager.Records.Names.{under, dns_combine-dns_split, dns_combine-dns_split_nested}
use cloudflared_manager.Records.Page.{
  automatic, update_record, RecordTab, zone_name, open_record, submit, record_step, record_steps,
}

-- The record under another name, or its own, without what the form does not have.
abbrev pub renamed : DnsRecord → Str → DnsRecord
renamed rec name = record {
  id = none;
  type_name = some (or_else (or_empty rec.type_name) (codes "CNAME"));
  name = some name;
  content = some (trim (or_empty rec.content));
  proxied = some (or_default rec.proxied false);
  ttl = some (if or_default rec.proxied false then automatic else or_default rec.ttl automatic);
  comment = none;
  proxiable = none;
  created_on = none;
  modified_on = none;
}

module _ (casing : Casing) (p : RecordTab) (rec : DnsRecord) (id s zone : Str) where
  sent :
      rec.id ≡ some id
      → is_empty id ≡ false
      → zone_name p.zones p.zone_id ≡ zone
      → (name : Str) → rec.name ≡ some name
      → (record_steps casing (open_record rec ∷ submit ∷ []) p).1
        ≡ update_record p.zone_id id
            (renamed rec (dns_combine casing (dns_split casing name zone) zone))
          ∷ []
  unfolding record_steps record_step
  sent i e z name n = rw (i, e, z, n)

  -- A record with a clean name under its zone, not at the apex, that is opened and saved untouched
  -- keeps its name, type, proxying and trimmed content, and its time to live unless it is proxied,
  -- if what stands before the zone is neither "@" nor the zone again or under it.
  pub open_record-submit :
      rec.id ≡ some id
      → is_empty id ≡ false
      → zone_name p.zones p.zone_id ≡ zone
      → rec.name ≡ some (under s zone)
      → IsClean s
      → IsClean zone
      → is_empty zone ≡ false
      → is_empty s ≡ false
      → str_eq s (codes "@") ≡ false
      → is_under casing s zone ≡ false
      → (record_steps casing (open_record rec ∷ submit ∷ []) p).1
        ≡ update_record p.zone_id id (renamed rec (under s zone)) ∷ []
  open_record-submit i e z n h k f g at u =
      sent i e z (under s zone) n
      ∙ ap (λ name. update_record p.zone_id id (renamed rec name) ∷ [])
          (dns_combine-dns_split casing s zone h k f g at u)

  -- A record whose clean name ends in the zone twice loses one of the two when it is opened and
  -- saved untouched.
  pub open_record-submit_nested :
      rec.id ≡ some id
      → is_empty id ≡ false
      → zone_name p.zones p.zone_id ≡ zone
      → rec.name ≡ some (under (under s zone) zone)
      → IsClean s
      → IsClean zone
      → IsClean (under s zone)
      → is_empty zone ≡ false
      → str_eq (under s zone) (codes "@") ≡ false
      → (record_steps casing (open_record rec ∷ submit ∷ []) p).1
        ≡ update_record p.zone_id id (renamed rec (under s zone)) ∷ []
  open_record-submit_nested i e z n h k w f at =
      sent i e z (under (under s zone) zone) n
      ∙ ap (λ name. update_record p.zone_id id (renamed rec name) ∷ [])
          (dns_combine-dns_split_nested casing s zone h k w f at)
