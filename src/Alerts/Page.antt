-- ===== src/Alerts/Page.antt =====
-- web/src/pages/Alerts.tsx: the state of the page and its handlers, each cut at its `await`.
pub mod Editing
pub mod History
use cloudflared_manager.Base.{
  ℕ, Bool, true, false, not, ◌==◌, Option, none, some, List, [], ◌∷◌, ◌++◌, map, if◌then◌else◌,
  or_default, or_else, or_empty, Str, codes, str_eq, is_empty,
}
use cloudflared_manager.Api.Types.{Snapshot, AlertRule, AlertEvent}
use cloudflared_manager.Api.Reply.{Rejection, Reply, done, failed}
use cloudflared_manager.Alerts.{RuleForm, new_rule_form, rule_to_form, form_to_rule}

-- An empty state asks for all events; `create_rule` sends its rule without the id.
pub data AlertRequest : Type 0 where
  list_instances list_rules : AlertRequest
  list_events : Str → AlertRequest
  create_rule : AlertRule → AlertRequest
  put_rule : Str → AlertRule → AlertRequest
  delete_rule : Str → AlertRequest

pub data AlertNotice : Type 0 where
  rules_failed events_failed rule_updated rule_created rule_deleted : AlertNotice
  save_failed delete_failed toggle_failed : Str → AlertNotice

pub record AlertPage : Type 0 where
  pub instances : List Snapshot
  pub rules : List AlertRule
  pub events : List AlertEvent
  pub loading_rules : Bool
  pub loading_events : Bool
  pub disabled : Bool
  pub event_state : Str
  pub modal_open : Bool
  pub editing : Option Str
  pub form : RuleForm
  pub saving : Bool
  pub notices : List AlertNotice

pub data AlertSignal : Type 0 where
  mount reload open_create cancel submit : AlertSignal
  instances_listed : Reply (Option (List Snapshot)) → AlertSignal
  rules_listed : Reply (Option (List AlertRule)) → AlertSignal
  events_listed : Reply (Option (List AlertEvent)) → AlertSignal
  select_state : Str → AlertSignal
  open_edit : AlertRule → AlertSignal
  edit_form : RuleForm → AlertSignal
  submit_answered : Bool → Reply Unit → AlertSignal
  delete_confirmed : Str → AlertSignal
  delete_answered : Reply Unit → AlertSignal
  toggle : AlertRule → Bool → AlertSignal
  toggle_answered : Str → Bool → Reply Unit → AlertSignal

abbrev pub warn : AlertNotice → AlertPage → AlertPage
warn n p = record p { notices = n ∷ p.notices }

-- `err?.response?.data?.error?.message || err?.message || ''`
abbrev pub alert_msg : Rejection → Str
alert_msg e = or_else (or_empty e.answer) (or_empty e.text)

-- `err?.response?.status === 503`: the daemon runs without alerts.
abbrev pub is_unavailable : Rejection → Bool
is_unavailable e = elim e.status [ none ↦ false | some status ↦ status == 503 ]

abbrev pub load_rules : AlertPage → AlertPage × List AlertRequest
load_rules p = (record p { loading_rules = true; disabled = false }, list_rules ∷ [])

abbrev pub load_events : Str → AlertPage → AlertPage × List AlertRequest
load_events state p = (record p { loading_events = true }, list_events state ∷ [])

abbrev pub on_instances : Reply (Option (List Snapshot)) → AlertPage → AlertPage
on_instances (failed e) p = p
on_instances (done items) p = record p { instances = or_default items [] }

abbrev pub on_rules : Reply (Option (List AlertRule)) → AlertPage → AlertPage
on_rules (failed e) p =
    if is_unavailable e
    then record p { disabled = true; rules = []; loading_rules = false }
    else warn rules_failed (record p { loading_rules = false })
on_rules (done items) p = record p { rules = or_default items []; loading_rules = false }

abbrev pub on_events : Reply (Option (List AlertEvent)) → AlertPage → AlertPage
on_events (failed e) p =
    let empty = record p { events = []; loading_events = false } in
    if is_unavailable e then empty else warn events_failed empty
on_events (done items) p = record p { events = or_default items []; loading_events = false }

-- `if (editingId)`: an empty id counts as none.
abbrev pub rule_request : Option Str → RuleForm → AlertRequest
rule_request none v = create_rule (form_to_rule [] v)
rule_request (some id) v =
    if is_empty id then create_rule (form_to_rule [] v) else put_rule id (form_to_rule id v)

abbrev pub on_rule_submitted : Bool → Reply Unit → AlertPage → AlertPage × List AlertRequest
on_rule_submitted edited (failed e) p =
    (warn (save_failed (alert_msg e)) (record p { saving = false }), [])
on_rule_submitted edited (done u) p = load_rules (
    warn (if edited then rule_updated else rule_created)
      (record p { modal_open = false; saving = false }))

abbrev pub on_removed : Reply Unit → AlertPage → AlertPage × List AlertRequest
on_removed (failed e) p = (warn (delete_failed (alert_msg e)) p, [])
on_removed (done u) p = load_rules (warn rule_deleted p)

abbrev pub set_enabled : Str → Bool → List AlertRule → List AlertRule
set_enabled id b = map (λ (r : AlertRule). if str_eq r.id id then record r { enabled = b } else r)

abbrev pub on_toggled : Str → Bool → Reply Unit → AlertPage → AlertPage × List AlertRequest
on_toggled id b (failed e) p = load_rules (warn (toggle_failed (alert_msg e)) p)
on_toggled id b (done u) p = (record p { rules = set_enabled id b p.rules }, [])

-- The effect on the state asked for runs when it changes.
abbrev pub on_select_state : Str → AlertPage → AlertPage × List AlertRequest
on_select_state state p =
    if str_eq state p.event_state
    then (p, [])
    else load_events state (record p { event_state = state })

abbrev pub on_mount : AlertPage → AlertPage × List AlertRequest
on_mount p = (
  record p { loading_rules = true; disabled = false; loading_events = true },
  list_instances ∷ list_rules ∷ list_events p.event_state ∷ [],
)

-- `submit` is a submission whose form passed its validation.
unfoldable pub alert_step : AlertSignal → AlertPage → AlertPage × List AlertRequest
alert_step mount p = on_mount p
alert_step (instances_listed r) p = (on_instances r p, [])
alert_step (rules_listed r) p = (on_rules r p, [])
alert_step (events_listed r) p = (on_events r p, [])
alert_step reload p = load_rules p
alert_step (select_state state) p = on_select_state state p
alert_step open_create p =
    (record p { editing = none; form = new_rule_form; modal_open = true }, [])
alert_step (open_edit rule) p =
    (record p { editing = some rule.id; form = rule_to_form rule; modal_open = true }, [])
alert_step (edit_form v) p = (record p { form = v }, [])
alert_step cancel p = (record p { modal_open = false }, [])
alert_step submit p = (record p { saving = true }, rule_request p.editing p.form ∷ [])
alert_step (submit_answered edited r) p = on_rule_submitted edited r p
alert_step (delete_confirmed id) p = (p, delete_rule id ∷ [])
alert_step (delete_answered r) p = on_removed r p
alert_step (toggle rule b) p = (p, put_rule rule.id (record rule { enabled = b }) ∷ [])
alert_step (toggle_answered id b r) p = on_toggled id b r p

-- The page and all requests behind a sequence of signals, the first request first.
unfoldable pub alert_steps : List AlertSignal → AlertPage → AlertPage × List AlertRequest
unfolding alert_step
alert_steps [] p = (p, [])
alert_steps (s ∷ signals) p =
    let (p1, first) = alert_step s p in
    let (p2, others) = alert_steps signals p1 in (p2, first ++ others)
