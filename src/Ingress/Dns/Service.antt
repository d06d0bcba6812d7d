-- ===== src/Ingress/Dns/Service.antt =====
-- What `syncProxyCNAME` and `deleteProxyCNAME` rely on of the DNS service behind `cfApi`
-- (internal/api/cf_dns.go and the Cloudflare API, documented there): the records of a zone, and what
-- each request does to them when it is accepted and when it is refused.
use cloudflared_manager.Base.{
  ◌≡◌, Bool, true, false, not, some, List, [], ◌∷◌, ◌++◌, map, filter, if◌then◌else◌, or_empty, Str,
  str_eq, is_empty, Casing,
}
use cloudflared_manager.Api.Types.{Zone, DnsRecord}
use cloudflared_manager.Ingress.Dns.{Result, ok, err, CfApi, same_name}

abbrev pub has_id : Str → DnsRecord → Bool
has_id rid r = str_eq (or_empty r.id) rid

-- A replaced record keeps its place.
abbrev pub replace : Str → DnsRecord → DnsRecord → DnsRecord
replace rid new r = if has_id rid r then new else r

-- What the service stores has what was sent, its name in whatever case, and further fields of its own.
pub record Carries (casing : Casing) (sent stored : DnsRecord) : Type 0 where
  pub named : same_name casing (or_empty sent.name) stored ≡ true
  pub typed : stored.type_name ≡ sent.type_name
  pub valued : stored.content ≡ sent.content
  pub through : stored.proxied ≡ sent.proxied

module _ {W : Type 0} (casing : Casing) (records : W → Str → List DnsRecord) where
  -- A new record stands behind the others, with an id; a request that is refused changes nothing.
  abbrev pub IsCreated : Str → DnsRecord → W → Result DnsRecord × W → Type 0
  IsCreated zid rec w (ok r, w') =
      Carries casing rec r
      × (is_empty (or_empty r.id) ≡ false)
      × (records w' zid ≡ records w zid ++ r ∷ [])
  IsCreated zid rec w (err e, w') = records w' zid ≡ records w zid

  abbrev pub IsUpdated : Str → Str → DnsRecord → W → Result DnsRecord × W → Type 0
  IsUpdated zid rid rec w (ok r, w') =
      Carries casing rec r
      × (or_empty r.id ≡ rid)
      × (records w' zid ≡ map (replace rid r) (records w zid))
  IsUpdated zid rid rec w (err e, w') = records w' zid ≡ records w zid

  abbrev pub IsDeleted : Str → Str → W → Result (Unit {0}) × W → Type 0
  IsDeleted zid rid w (ok _, w') = records w' zid ≡ filter (λ r. not (has_id rid r)) (records w zid)
  IsDeleted zid rid w (err e, w') = records w' zid ≡ records w zid

-- The listings answer; a write may be refused, as a CNAME is beside other records of its name.
pub record IsDnsService {W : Type 0} (casing : Casing) (api : CfApi W) (zones : W → List Zone)
    (records : W → Str → List DnsRecord) : Type 0 where
  pub list_zones_reads : (aid : Str) (w : W) → api.list_zones aid w ≡ (ok (some (zones w)), w)
  pub list_dns_reads :
      (aid zid name : Str) (w : W)
      → api.list_dns aid zid name w
        ≡ (ok (some (filter (same_name casing name) (records w zid))), w)
  pub create_dns_adds :
      (aid zid : Str) (rec : DnsRecord) (w : W)
      → IsCreated casing records zid rec w (api.create_dns aid zid rec w)
  pub update_dns_replaces :
      (aid zid rid : Str) (rec : DnsRecord) (w : W)
      → IsUpdated casing records zid rid rec w (api.update_dns aid zid rid rec w)
  pub delete_dns_removes :
      (aid zid rid : Str) (w : W)
      → IsDeleted casing records zid rid w (api.delete_dns aid zid rid w)
