-- ===== src/Ingress/Dns/Sync.antt =====
-- What `syncProxyCNAME` and `deleteProxyCNAME` of web/src/pages/cfIngress.ts do to a zone's records.
use cloudflared_manager.Base.{
  ◌≡◌, refl, ap, ◌∙◌, true, false, Option, none, some, List, [], ◌∷◌, ◌++◌, map, if◌then◌else◌,
  or_empty, codes, ◌⊎◌, find, find-filter, find_sound, All, Str, str_eq_iff, is_empty, Casing,
  Bool-cases, Option-cases, inl, inr,
}
use cloudflared_manager.Api.Types.{Zone, DnsRecord}
use cloudflared_manager.Ingress.Hostname.{pick_zone}
use cloudflared_manager.Ingress.Dns.{
  Result, ok, err, no_zone, continue, pure, CfApi, same_name, existing_id, proxy_record,
  write_record, sync_proxy_cname, delete_proxy_cname,
}
use cloudflared_manager.Ingress.Dns.Service.{
  has_id, replace, IsCreated, IsUpdated, IsDeleted, IsDnsService,
}

-- Every stored record has an id.
abbrev pub AllIdentified : List DnsRecord → Type 0
AllIdentified = All (λ r. is_empty (or_empty r.id) ≡ false)

-- The hostname's first record is a proxied CNAME to the tunnel.
abbrev pub PointsAt : Casing → Str → Str → List DnsRecord → Type 0
PointsAt casing tid hostname rs =
    (r : DnsRecord) × (find (same_name casing hostname) rs ≡ some r)
    × (r.type_name ≡ some (codes "CNAME"))
    × (r.content ≡ some (tid ++ codes ".cfargotunnel.com"))
    × (r.proxied ≡ some true)

module _ (casing : Casing) (hostname : Str) where
  -- The record that was the first under the name is replaced by one of that name.
  find-replace :
      (rid : Str) (new : DnsRecord) (rs : List DnsRecord) (r : DnsRecord)
      → same_name casing hostname new ≡ true
      → find (same_name casing hostname) rs ≡ some r
      → or_empty r.id ≡ rid
      → find (same_name casing hostname) (map (replace rid new) rs) ≡ some new
  find-replace rid new [] r s e k = cc
  find-replace rid new (x ∷ rs) r s e k = elim (Bool-cases (has_id rid x)) [
    | inl i ↦ rw (i, s) refl
    | inr n ↦ elim (Bool-cases (same_name casing hostname x)) [
      | inl m ↦
          let found : some x ≡ some r = rw m at e in
          let same : x ≡ r = cc in
          let hit : has_id rid x ≡ true =
            (str_eq_iff (or_empty x.id) rid).1 (ap (λ (y : DnsRecord). or_empty y.id) same ∙ k) in
          cc
      | inr m ↦ rw (n, m) (find-replace rid new rs r s (rw m at e) k)
    ]
  ]

  find-create :
      (new : DnsRecord) (rs : List DnsRecord)
      → same_name casing hostname new ≡ true
      → find (same_name casing hostname) rs ≡ none
      → find (same_name casing hostname) (rs ++ new ∷ []) ≡ some new
  find-create new [] s e = rw s refl
  find-create new (x ∷ rs) s e = elim (Bool-cases (same_name casing hostname x)) [
    | inl m ↦ let impossible : some x ≡ none = rw m at e in cc
    | inr m ↦ rw m (find-create new rs s (rw m at e))
  ]

-- An identified record is one that `existing && existing.id` accepts.
existing_id_of_identified :
    (r : DnsRecord)
    → is_empty (or_empty r.id) ≡ false
    → (rid : Str) × (existing_id (some r) ≡ some rid) × (or_empty r.id ≡ rid)
existing_id_of_identified r h = go r.id h
  where
    go :
        (o : Option Str)
        → is_empty (or_empty o) ≡ false
        → (rid : Str) × ((if is_empty (or_empty o) then none else o) ≡ some rid)
          × (or_empty o ≡ rid)
    go none h = cc
    go (some rid) h = (rid, rw h, refl)

module _ (casing : Casing) {W : Type 0} (api : CfApi W) (zones : W → List Zone)
    (records : W → Str → List DnsRecord) (service : IsDnsService casing api zones records) where
  module _ (aid tid hostname zid : Str) (w : W) where
    -- Where the sync fails, the service has refused the one write of it, and the zone is as it was.
    abbrev pub IsSynced : Result (Unit {0}) × W → Type 0
    IsSynced (ok _, w') = PointsAt casing tid hostname (records w' zid)
    IsSynced (err e, w') =
        (records w' zid ≡ records w zid)
        × ((api.create_dns aid zid (proxy_record tid hostname) w ≡ (err e, w'))
            ⊎ ((rid : Str) × (api.update_dns aid zid rid (proxy_record tid hostname) w
                  ≡ (err e, w'))))

    -- The outcome of a write, which drops the record of the answer.
    written : Result DnsRecord × W → Result (Unit {0}) × W
    written o = continue o (λ r. pure tt)

    created-IsSynced :
        (o : Result DnsRecord × W)
        → api.create_dns aid zid (proxy_record tid hostname) w ≡ o
        → IsCreated casing records zid (proxy_record tid hostname) w o
        → find (same_name casing hostname) (records w zid) ≡ none
        → IsSynced (written o)
    unfolding written
    created-IsSynced (ok r, w') called (carries, _, added) missing = (
      r,
      rw added (find-create casing hostname r (records w zid) carries.named missing),
      carries.typed,
      carries.valued,
      carries.through,
    )
    created-IsSynced (err e, w') called kept missing = (kept, inl called)

    updated-IsSynced :
        (rid : Str) (old : DnsRecord) (o : Result DnsRecord × W)
        → api.update_dns aid zid rid (proxy_record tid hostname) w ≡ o
        → IsUpdated casing records zid rid (proxy_record tid hostname) w o
        → find (same_name casing hostname) (records w zid) ≡ some old
        → or_empty old.id ≡ rid
        → IsSynced (written o)
    unfolding written
    updated-IsSynced rid old (ok r, w') called (carries, _, replaced) found same = (
      r,
      rw replaced (find-replace casing hostname rid r (records w zid) old carries.named found same),
      carries.typed,
      carries.valued,
      carries.through,
    )
    updated-IsSynced rid old (err e, w') called kept found same = (kept, inr (rid, called))

    -- The write of `syncProxyCNAME`, on what the zone holds.
    write_record-IsSynced :
        AllIdentified (records w zid)
        → IsSynced (
            write_record casing api aid zid
              (existing_id (find (same_name casing hostname) (records w zid)))
              (proxy_record tid hostname)
              w)
    unfolding written
    write_record-IsSynced ids =
        elim (Option-cases (find (same_name casing hostname) (records w zid))) [
          | inl missing ↦ rw missing (
              created-IsSynced (api.create_dns aid zid (proxy_record tid hostname) w) refl
                (service.create_dns_adds aid zid (proxy_record tid hostname) w) missing)
          | inr (old, found) ↦
              let (hit, identified) =
                find_sound (same_name casing hostname) (λ r. is_empty (or_empty r.id) ≡ false)
                  (records w zid) old found ids in
              let (rid, chosen, same) = existing_id_of_identified old identified in
              rw (found, chosen)
                (updated-IsSynced rid old (api.update_dns aid zid rid (proxy_record tid hostname) w)
                  refl (service.update_dns_replaces aid zid rid (proxy_record tid hostname) w) found
                  same)
        ]

  -- For a hostname in a zone of the account whose records have ids, `syncProxyCNAME` ends in one of two
  -- ways: it succeeds, and the first record under that name is the proxied CNAME to this tunnel, or the
  -- service has refused its write, and the zone is as it was. The listings are taken to answer.
  pub sync_proxy_cname-PointsAt :
      (aid tid hostname : Str) (w : W) (zone : Zone)
      → pick_zone casing hostname (zones w) ≡ some zone
      → AllIdentified (records w zone.id)
      → IsSynced aid tid hostname zone.id w (sync_proxy_cname casing api aid tid hostname w)
  unfolding sync_proxy_cname
  sync_proxy_cname-PointsAt aid tid hostname w zone picked ids =
      rw
        (
          service.list_zones_reads aid w,
          picked,
          service.list_dns_reads aid zone.id hostname w,
          find-filter,
        )
        (write_record-IsSynced aid tid hostname zone.id w ids)

  -- A hostname in no zone of the account is an error that names it, and nothing is written.
  sync_proxy_cname_no_zone :
      (aid tid hostname : Str) (w : W)
      → pick_zone casing hostname (zones w) ≡ none
      → sync_proxy_cname casing api aid tid hostname w ≡ (err (no_zone hostname), w)
  unfolding sync_proxy_cname
  sync_proxy_cname_no_zone aid tid hostname w missed = rw (service.list_zones_reads aid w, missed)

  -- `deleteProxyCNAME` has the first record under the hostname removed, whatever its type and its content
  -- are: every record of that id is gone and the others stay, or the service has refused.
  delete_proxy_cname_any_type :
      (aid hostname rid : Str) (w : W) (zone : Zone) (old : DnsRecord)
      → pick_zone casing hostname (zones w) ≡ some zone
      → find (same_name casing hostname) (records w zone.id) ≡ some old
      → old.id ≡ some rid
      → is_empty rid ≡ false
      → IsDeleted casing records zone.id rid w (delete_proxy_cname casing api aid hostname w)
  unfolding delete_proxy_cname
  delete_proxy_cname_any_type aid hostname rid w zone old picked found id named =
      rw
        (
          service.list_zones_reads aid w,
          picked,
          service.list_dns_reads aid zone.id hostname w,
          find-filter,
          found,
          id,
          named,
        )
        (service.delete_dns_removes aid zone.id rid w)
