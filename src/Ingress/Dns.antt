-- ===== src/Ingress/Dns.antt =====
-- web/src/pages/cfIngress.ts: `syncProxyCNAME` and `deleteProxyCNAME`, which keep a hostname's DNS
-- record in step with the tunnel. The requests of `cfApi` are parameters over the state of the remote
-- account; a rejected promise is an error value.
pub mod Service
pub mod Sync
use cloudflared_manager.Base.{
  Bool, true, false, Option, none, some, List, [], ◌∷◌, ◌++◌, if◌then◌else◌, find, or_default,
  or_empty, Str, codes, str_eq, is_empty, Casing,
}
use cloudflared_manager.Api.Types.{Number, Zone, DnsRecord}
use cloudflared_manager.Ingress.Hostname.{pick_zone}

pub data Failure : Type 0 where
  no_zone : Str → Failure
  rejected : Str → Failure

pub data Result (A : Type 0) : Type 0 where
  ok : A → Result A
  err : Failure → Result A

-- An awaited call: it may change the remote state also where it fails.
abbrev pub M : Type 0 → Type 0 → Type 0
M W A = W → Result A × W

-- Total clauses on the pair keep a chain of calls readable in proofs.
abbrev pub continue : {W A B : Type 0} → Result A × W → (A → M W B) → Result B × W
continue (ok a, w) f = f a w
continue (err e, w) f = (err e, w)

infixl 5 ◌>>=◌ ◌>>◌
abbrev pub ◌>>=◌ : {W A B : Type 0} → M W A → (A → M W B) → M W B
◌>>=◌ m f w = continue (m w) f

abbrev pub ◌>>◌ : {W B : Type 0} → M W (Unit {0}) → M W B → M W B
m >> k = m >>= λ _. k

abbrev pub pure : {W A : Type 0} → A → M W A
pure a w = (ok a, w)

abbrev pub fail : {W A : Type 0} → Failure → M W A
fail e w = (err e, w)

-- The requests, by account id; `items` of a response may be missing.
pub record CfApi (W : Type 0) : Type 0 where
  pub list_zones : Str → M W (Option (List Zone))
  pub list_dns : Str → Str → Str → M W (Option (List DnsRecord))
  pub create_dns : Str → Str → DnsRecord → M W DnsRecord
  pub update_dns : Str → Str → Str → DnsRecord → M W DnsRecord
  pub delete_dns : Str → Str → Str → M W (Unit {0})

-- The binary64 pattern of 1.
abbrev pub one : Number
one = 0x3ff0_0000_0000_0000

abbrev pub tunnel_target : Str → Str
tunnel_target tid = tid ++ codes ".cfargotunnel.com"

abbrev pub proxy_record : Str → Str → DnsRecord
proxy_record tid hostname = record {
  id = none;
  type_name = some (codes "CNAME");
  name = some hostname;
  content = some (tunnel_target tid);
  proxied = some true;
  ttl = some one;
  comment = none;
  proxiable = none;
  created_on = none;
  modified_on = none;
}

-- The test of `items.find` for an existing record.
abbrev pub same_name : Casing → Str → DnsRecord → Bool
same_name casing hostname r = str_eq (casing.lower (or_empty r.name)) (casing.lower hostname)

-- `existing && existing.id`
abbrev pub existing_id : Option DnsRecord → Option Str
existing_id none = none
existing_id (some r) = if is_empty (or_empty r.id) then none else r.id

module _ (casing : Casing) {W : Type 0} (api : CfApi W) where
  open api use {list_zones, list_dns, create_dns, update_dns, delete_dns}

  abbrev pub write_record : Str → Str → Option Str → DnsRecord → M W (Unit {0})
  write_record aid zid (some rid) rec = do _ ← update_dns aid zid rid rec; pure tt
  write_record aid zid none rec = do _ ← create_dns aid zid rec; pure tt

  abbrev pub remove_record : Str → Str → Option Str → M W (Unit {0})
  remove_record aid zid (some rid) = delete_dns aid zid rid
  remove_record aid zid none = pure tt

  -- The part of `syncProxyCNAME` behind the choice of the zone.
  abbrev pub sync_in_zone : Str → Str → Str → Option Zone → M W (Unit {0})
  sync_in_zone aid tid hostname none = fail (no_zone hostname)
  sync_in_zone aid tid hostname (some zone) = do
    items ← list_dns aid zone.id hostname
    write_record aid zone.id (existing_id (find (same_name casing hostname) (or_default items [])))
        (proxy_record tid hostname)

  unfoldable pub sync_proxy_cname : Str → Str → Str → M W (Unit {0})
  sync_proxy_cname aid tid hostname = do
    zones ← list_zones aid
    sync_in_zone aid tid hostname (pick_zone casing hostname (or_default zones []))

  -- The part of `deleteProxyCNAME` behind the choice of the zone.
  abbrev pub delete_in_zone : Str → Str → Option Zone → M W (Unit {0})
  delete_in_zone aid hostname none = pure tt
  delete_in_zone aid hostname (some zone) = do
    items ← list_dns aid zone.id hostname
    remove_record aid zone.id (existing_id (find (same_name casing hostname) (or_default items [])))

  unfoldable pub delete_proxy_cname : Str → Str → M W (Unit {0})
  delete_proxy_cname aid hostname = do
    zones ← list_zones aid
    delete_in_zone aid hostname (pick_zone casing hostname (or_default zones []))
