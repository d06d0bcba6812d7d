-- ===== src/Records/Page.antt =====
-- web/src/components/cf/DNSRecordsTab.tsx: the state of the tab and its handlers, each cut at its `await`.
pub mod Editing
use cloudflared_manager.Base.{
  ℕ, Bool, true, false, ◌==◌, Option, none, some, List, [], ◌∷◌, ◌++◌, if◌then◌else◌, or_default,
  or_else, or_empty, find_index, get_elem?, Str, codes, str_eq, is_empty, trim, Casing,
}
use cloudflared_manager.Api.Types.{Number, Zone, DnsRecord}
use cloudflared_manager.Api.Reply.{err_msg, Reply, done, failed}
use cloudflared_manager.Records.{dns_combine, dns_split}

-- `DNSFormValues`
pub record RecordForm : Type 0 where
  pub type_name : Str
  pub subdomain : Str
  pub content : Str
  pub proxied : Bool
  pub ttl : Option Number

-- The number 1, a time to live that Cloudflare chooses.
abbrev pub automatic : Number
automatic = 4607182418800017408

pub data RecordRequest : Type 0 where
  list_zones : RecordRequest
  list_records : Str → RecordRequest
  create_record : Str → DnsRecord → RecordRequest
  update_record : Str → Str → DnsRecord → RecordRequest
  delete_record : Str → Str → RecordRequest

pub data RecordNotice : Type 0 where
  zones_failed records_failed save_failed delete_failed : Str → RecordNotice
  record_updated record_created record_deleted : RecordNotice

pub record RecordTab : Type 0 where
  pub zones : List Zone
  pub zone_id : Str
  pub records : List DnsRecord
  pub zones_loading : Bool
  pub records_loading : Bool
  pub modal_open : Bool
  pub editing : Option DnsRecord
  pub form : RecordForm
  pub saving : Bool
  pub notices : List RecordNotice

pub data RecordSignal : Type 0 where
  mount refresh open_create cancel submit : RecordSignal
  zones_listed : Reply (Option (List Zone)) → RecordSignal
  records_listed : Reply (Option (List DnsRecord)) → RecordSignal
  select_zone : Str → RecordSignal
  open_record : DnsRecord → RecordSignal
  edit_form : RecordForm → RecordSignal
  submit_answered : Str → Bool → Reply Unit → RecordSignal
  delete_confirmed : DnsRecord → RecordSignal
  delete_answered : Str → Reply Unit → RecordSignal

abbrev pub inform : RecordNotice → RecordTab → RecordTab
inform n p = record p { notices = n ∷ p.notices }

-- `prev || items[0].id`
abbrev pub first_zone : Str → List Zone → Str
first_zone prev [] = prev
first_zone prev (z ∷ zones) = or_else prev z.id

abbrev pub load_records : Str → RecordTab → RecordTab × List RecordRequest
load_records zid p =
    if is_empty zid
    then (record p { records = [] }, [])
    else (record p { records_loading = true }, list_records zid ∷ [])

-- The effect on the zone runs when it changes.
abbrev pub change_zone : Str → RecordTab → RecordTab × List RecordRequest
change_zone zid p =
    if str_eq zid p.zone_id then (p, []) else load_records zid (record p { zone_id = zid })

abbrev pub on_zones : Reply (Option (List Zone)) → RecordTab → RecordTab × List RecordRequest
on_zones (failed e) p = (inform (zones_failed (err_msg e)) (record p { zones_loading = false }), [])
on_zones (done items) p =
    change_zone (first_zone p.zone_id (or_default items []))
      (record p { zones = or_default items []; zones_loading = false })

abbrev pub on_records : Reply (Option (List DnsRecord)) → RecordTab → RecordTab
on_records (failed e) p = inform (records_failed (err_msg e)) (record p { records_loading = false })
on_records (done items) p = record p { records = or_default items []; records_loading = false }

-- The name of the selected zone, or nothing.
unfoldable pub zone_name : List Zone → Str → Str
zone_name [] zid = []
zone_name (z ∷ zones) zid =
    let rest = zone_name zones zid in if str_eq z.id zid then z.name else rest

abbrev pub new_record_form : RecordForm
new_record_form = record {
  type_name = codes "CNAME";
  subdomain = [];
  content = [];
  proxied = true;
  ttl = some automatic;
}

-- What is told of a save or a deletion, and the records of its zone again.
abbrev pub on_record_saved : Str → Bool → Reply Unit → RecordTab → RecordTab × List RecordRequest
on_record_saved zid edited (failed e) p =
    (inform (save_failed (err_msg e)) (record p { saving = false }), [])
on_record_saved zid edited (done u) p = load_records zid (
    inform (if edited then record_updated else record_created)
      (record p { modal_open = false; saving = false }))

abbrev pub on_record_deleted : Str → Reply Unit → RecordTab → RecordTab × List RecordRequest
on_record_deleted zid (failed e) p = (inform (delete_failed (err_msg e)) p, [])
on_record_deleted zid (done u) p = load_records zid (inform record_deleted p)

-- `if (editing && editing.id)`
abbrev pub record_request : Option Str → Str → DnsRecord → RecordRequest
record_request none zid rec = create_record zid rec
record_request (some id) zid rec =
    if is_empty id then create_record zid rec else update_record zid id rec

abbrev pub id_of : Option DnsRecord → Option Str
id_of none = none
id_of (some rec) = rec.id

-- `if (!rec.id) return`
abbrev pub delete_request : Str → Option Str → List RecordRequest
delete_request zid none = []
delete_request zid (some id) = if is_empty id then [] else delete_record zid id ∷ []

module _ (casing : Casing) where
  abbrev pub record_to_form : DnsRecord → Str → RecordForm
  record_to_form rec zone = record {
    type_name = or_else (or_empty rec.type_name) (codes "CNAME");
    subdomain = dns_split casing (or_empty rec.name) zone;
    content = or_empty rec.content;
    proxied = or_default rec.proxied false;
    ttl = some (or_default rec.ttl automatic);
  }

  -- The record that is sent.
  abbrev pub form_to_record : RecordForm → Str → DnsRecord
  form_to_record v zone = record {
    id = none;
    type_name = some v.type_name;
    name = some (dns_combine casing v.subdomain zone);
    content = some (trim v.content);
    proxied = some v.proxied;
    ttl = some (if v.proxied then automatic else or_default v.ttl automatic);
    comment = none;
    proxiable = none;
    created_on = none;
    modified_on = none;
  }

  -- `submit` is a submission whose form passed its validation.
  unfoldable pub record_step : RecordSignal → RecordTab → RecordTab × List RecordRequest
  record_step mount p =
      let (p1, rs) = load_records p.zone_id (record p { zones_loading = true }) in
      (p1, list_zones ∷ rs)
  record_step (zones_listed r) p = on_zones r p
  record_step (records_listed r) p = (on_records r p, [])
  record_step (select_zone zid) p = change_zone zid p
  record_step refresh p = load_records p.zone_id p
  record_step open_create p =
      (record p { editing = none; form = new_record_form; modal_open = true }, [])
  record_step (open_record rec) p = (
    record p {
      editing = some rec;
      form = record_to_form rec (zone_name p.zones p.zone_id);
      modal_open = true;
    },
    [],
  )
  record_step (edit_form v) p = (record p { form = v }, [])
  record_step cancel p = (record p { modal_open = false }, [])
  record_step submit p = (
    record p { saving = true },
    record_request (id_of p.editing) p.zone_id (form_to_record p.form (zone_name p.zones p.zone_id))
        ∷ [],
  )
  record_step (submit_answered zid edited r) p = on_record_saved zid edited r p
  record_step (delete_confirmed rec) p = (p, delete_request p.zone_id rec.id)
  record_step (delete_answered zid r) p = on_record_deleted zid r p

  -- The tab and all requests behind a sequence of signals, the first request first.
  unfoldable pub record_steps : List RecordSignal → RecordTab → RecordTab × List RecordRequest
  unfolding record_step
  record_steps [] p = (p, [])
  record_steps (s ∷ signals) p =
      let (p1, first) = record_step s p in
      let (p2, others) = record_steps signals p1 in (p2, first ++ others)
