-- ===== src/Configs/Page.antt =====
-- web/src/pages/Configs.tsx: the handlers of the page. A handler returns the requests that it
-- makes; their responses, the events of the stream and what the user does enter as signals, in any order.
-- A failed request is a response with nothing in it; a response carries what its handler's closure captured
-- before the request, such as the selected instance.
pub mod Editing
pub mod Tokens
pub mod Rows
use cloudflared_manager.Base.{
  ℕ, Bool, true, false, not, ◌&&◌, ◌||◌, Option, none, some, List, [], ◌∷◌, ◌++◌, map,
  if◌then◌else◌, or_default, or_else, or_empty, Str, codes, str_eq, is_empty, trim,
}
use cloudflared_manager.Api.Types.{
  Value, str, Fields, end, field, Snapshot, MgrMeta, ConnectorConfig, ConfigEnvelope,
}
use cloudflared_manager.Api.Json.{lookup, put, fields_of}
use cloudflared_manager.Token.{extract_cloudflared_token}
use cloudflared_manager.Configs.Hint.{yaml_hint, new_yaml}
use cloudflared_manager.Configs.State.{
  Command, start, stop, reload, Request, list_configs, get_status, command, delete_config,
  get_config, put_config, post_config, duplicate, reorder, Notice, list_failed, order_failed,
  delete_failed, deleted, load_failed, yaml_failed, saved, created, save_failed, id_missing,
  duplicated, duplicate_failed, commanded, command_failed, EditForm, empty_form, Page, Signal,
  mount, poll, config_changed, open_create, cancel, save, duplicate_clicked, cancel_duplicate,
  drag_end, toggle_list, state_event, deleted_event, listed, status_of, clicked, answered,
  delete_clicked, delete_answered, open_edit, loaded, edit_form, edit_yaml, save_answered,
  open_duplicate, set_dup_new, duplicate_answered, set_active, drag_start, drag_over, row_drop,
  reorder_answered, notify,
}
use cloudflared_manager.Configs.{
  Yaml, delete_field, config_to_yaml, mapping_of, merge, update_at, without, reordered,
}

-- `{ ...p, [id]: b }`
abbrev pub set_busy : Str → Bool → (Str → Bool) → Str → Bool
set_busy id b busy j = if str_eq id j then b else busy j

-- `if (items.length > 0 && !activeConfigId) setActiveConfigId(items[0].id)`
abbrev pub first_id : Str → List Snapshot → Str → Str
first_id captured [] active = active
first_id captured (c ∷ cs) active = if is_empty captured then c.id else active

abbrev pub state_of : Option Value → Str
state_of payload = elim (lookup (codes "state") (fields_of payload)) [ some (str s) ↦ s | _ ↦ [] ]

abbrev pub set_state : Str → Str → List Snapshot → List Snapshot
set_state id state = update_at id (λ c. record c { state = state })

abbrev pub on_state : Option Str → Str → Page → Page
on_state none state p = p
on_state (some id) state p =
    if is_empty id || is_empty state then p else record p { configs = set_state id state p.configs }

abbrev pub drop_active : Str → Str → Str
drop_active id active = if str_eq active id then [] else active

abbrev pub on_deleted : Option Str → Page → Page
on_deleted none p = p
on_deleted (some id) p =
    if is_empty id
    then p
    else record p { configs = without id p.configs; active = drop_active id p.active }

abbrev pub on_listed : Str → Option (List Snapshot) → Page → Page
on_listed captured none p = notify list_failed p
on_listed captured (some items) p = record p {
  configs = items;
  active = first_id captured items p.active;
}

abbrev pub on_status : Str → Option Snapshot → Page → Page
on_status id none p = p
on_status id (some snap) p = record p { configs = update_at id (λ c. merge c snap) p.configs }

-- `name || (editingId ?? values.id)`
abbrev pub meta_of : Page → MgrMeta
meta_of p = record {
  name = or_else p.form.name (or_default p.editing p.form.id);
  manual_start = p.form.manual_start;
}

-- `delete parsed.token; if (values.token) parsed.token = …`
abbrev pub with_token : Str → Fields → Fields
with_token token parsed =
    let bare = delete_field (codes "token") parsed in
    if is_empty token
    then bare
    else put (codes "token") (str (extract_cloudflared_token token)) bare

-- `if (editingId)`: an empty id counts as none.
abbrev pub save_request : Option Str → EditForm → Fields → MgrMeta → Request
save_request none form config meta = post_config form.id config meta
save_request (some id) form config meta =
    if is_empty id then post_config form.id config meta else put_config id config meta

abbrev pub on_save : Option Fields → Page → Page × List Request
on_save none p = (notify yaml_failed p, [])
on_save (some parsed) p = (
  record p { saving = true },
  save_request p.editing p.form (with_token p.form.token parsed) (meta_of p) ∷ [],
)

abbrev pub on_drop : Option Str → Str → Page → Page × List Request
on_drop none target p = (p, [])
on_drop (some src) target p =
    if is_empty src || str_eq src target then (p, []) else (elim (reordered src target p.configs) [
      | none ↦ (p, [])
      | some next ↦ (record p { configs = next }, reorder (map (λ (c : Snapshot). c.id) next) ∷ [])
    ])

-- `env.cfdmgr?.name || env.name || env.id`
abbrev pub meta_name : Option MgrMeta → Str
meta_name none = []
meta_name (some meta) = meta.name

abbrev pub meta_manual : Option MgrMeta → Bool
meta_manual none = false
meta_manual (some meta) = meta.manual_start

abbrev pub form_of : ConfigEnvelope → EditForm
form_of env = record {
  id = env.snap.id;
  name = or_else (meta_name env.cfdmgr) (or_else env.snap.name env.snap.id);
  token = [];
  manual_start = meta_manual env.cfdmgr;
}

abbrev pub on_loaded : Yaml → Option ConfigEnvelope → Page → Page
on_loaded yaml none p = notify load_failed p
on_loaded yaml (some env) p = record p {
  form = form_of env;
  has_token = or_default env.has_token false;
  yaml_text = yaml_hint ++ config_to_yaml yaml (or_default env.config end);
  modal_open = true;
}

abbrev pub on_deleted_answer : Str → Str → Bool → Page → Page
on_deleted_answer id captured false p = notify delete_failed p
on_deleted_answer id captured true p = record (notify deleted p) {
  configs = without id p.configs;
  active = if str_eq captured id then [] else p.active;
}

-- Behind a save: of an instance under an id, or of a new one.
abbrev pub on_saved : Option Str → Str → Page → Page
on_saved none new_id p = record (notify created p) {
  active = new_id;
  modal_open = false;
  saving = false;
}
on_saved (some id) new_id p =
    if is_empty id
    then record (notify created p) { active = new_id; modal_open = false; saving = false }
    else record (notify saved p) { modal_open = false; saving = false }

abbrev pub on_save_answer : Option Str → Str → Str → Bool → Page → Page × List Request
on_save_answer editing new_id captured false p =
    (record (notify save_failed p) { saving = false }, [])
on_save_answer editing new_id captured true p =
    (on_saved editing new_id p, list_configs captured ∷ [])

abbrev pub on_duplicate : Page → Page × List Request
on_duplicate p =
    if is_empty (trim p.dup_new)
    then (notify id_missing p, [])
    else (p, duplicate p.dup_source p.dup_new ∷ [])

abbrev pub on_duplicate_answer : Str → Bool → Page → Page × List Request
on_duplicate_answer captured false p = (notify duplicate_failed p, [])
on_duplicate_answer captured true p =
    (record (notify duplicated p) { dup_open = false }, list_configs captured ∷ [])

abbrev pub on_reorder_answer : Str → Bool → Page → Page × List Request
on_reorder_answer captured true p = (p, [])
on_reorder_answer captured false p = (notify order_failed p, list_configs captured ∷ [])

abbrev pub on_drag_over : Option Str → Str → Page → Page
on_drag_over none id p = p
on_drag_over (some src) id p = record p { over = some id }

-- `save` is a save whose form passed its validation.
unfoldable pub handle : Yaml → Signal → Page → Page × List Request
handle yaml mount p = (p, list_configs p.active ∷ [])
handle yaml poll p = (p, map (λ (c : Snapshot). get_status c.id) p.configs)
handle yaml config_changed p = (p, list_configs p.active ∷ [])
handle yaml (state_event id payload) p = (on_state id (state_of payload) p, [])
handle yaml (deleted_event id) p = (on_deleted id p, [])
handle yaml (listed captured items) p = (on_listed captured items p, [])
handle yaml (status_of id snap) p = (on_status id snap p, [])
handle yaml (clicked what id) p =
    (record p { busy = set_busy id true p.busy }, command what id ∷ [])
handle yaml (answered what id done) p =
    let told = notify (if done then commanded what else command_failed what) p in
    (record told { busy = set_busy id false p.busy }, get_status id ∷ [])
handle yaml (delete_clicked id) p = (p, delete_config id p.active ∷ [])
handle yaml (delete_answered id captured done) p = (on_deleted_answer id captured done p, [])
handle yaml open_create p = (
  record p {
    editing = none;
    has_token = false;
    form = empty_form;
    yaml_text = new_yaml;
    modal_open = true;
  },
  [],
)
handle yaml (open_edit id) p = (record p { editing = some id }, get_config id ∷ [])
handle yaml (loaded env) p = (on_loaded yaml env p, [])
handle yaml (edit_form form) p = (record p { form = form }, [])
handle yaml (edit_yaml text) p = (record p { yaml_text = text }, [])
handle yaml cancel p = (record p { modal_open = false }, [])
handle yaml save p = on_save (mapping_of (yaml.parse p.yaml_text)) p
handle yaml (save_answered editing new_id captured done) p =
    on_save_answer editing new_id captured done p
handle yaml (open_duplicate id) p =
    (record p { dup_source = id; dup_new = id ++ codes "_copy"; dup_open = true }, [])
handle yaml (set_dup_new id) p = (record p { dup_new = id }, [])
handle yaml duplicate_clicked p = on_duplicate p
handle yaml (duplicate_answered captured done) p = on_duplicate_answer captured done p
handle yaml cancel_duplicate p = (record p { dup_open = false }, [])
handle yaml (set_active id) p = (record p { active = id }, [])
handle yaml (drag_start id) p = (record p { drag = some id }, [])
handle yaml (drag_over id) p = (on_drag_over p.drag id p, [])
handle yaml drag_end p = (record p { drag = none; over = none }, [])
handle yaml (row_drop target) p = on_drop p.drag target (record p { drag = none; over = none })
handle yaml (reorder_answered captured done) p = on_reorder_answer captured done p
handle yaml toggle_list p = (record p { collapsed = not p.collapsed }, [])

-- The page and all requests behind a sequence of signals, the first request first.
unfoldable pub run : Yaml → List Signal → Page → Page × List Request
unfolding handle
run yaml [] p = (p, [])
run yaml (s ∷ signals) p =
    let (p1, first) = handle yaml s p in
    let (p2, others) = run yaml signals p1 in (p2, first ++ others)
