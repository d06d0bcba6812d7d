-- ===== src/Alerts.antt =====
-- web/src/pages/Alerts.tsx: the page of the alert rules and of the alerts that they have raised.
pub mod Page
mod Tests
use cloudflared_manager.Base.{
  ℕ, Bool, true, false, ◌||◌, ◌==◌, Option, none, some, List, [], ◌∷◌, map, if◌then◌else◌,
  or_default, or_else, or_empty, Str, codes, str_eq, is_empty,
}
use cloudflared_manager.Api.Types.{
  Number, Snapshot, AlertMetric, conns, requests_rate, errors_rate, traffic_in_rate,
  traffic_out_rate, AlertOp, gt, AlertRule,
}

-- `RuleFormValues`; the fields that may be left empty are options.
pub record RuleForm : Type 0 where
  pub name : Str
  pub enabled : Option Bool
  pub inst_id : Option Str
  pub metric : AlertMetric
  pub op : AlertOp
  pub threshold : Option Number
  pub for_seconds : Option Number
  pub target : Option Str
  pub webhook : Option Str

abbrev pub every_instance : Str
every_instance = codes "*"

-- `openCreate`; the number 0 is the bit pattern 0.
abbrev pub new_rule_form : RuleForm
new_rule_form = record {
  name = [];
  enabled = some true;
  inst_id = some every_instance;
  metric = conns;
  op = gt;
  threshold = some 0;
  for_seconds = some 0;
  target = some [];
  webhook = some [];
}

-- `openEdit`
abbrev pub rule_to_form : AlertRule → RuleForm
rule_to_form rule = record {
  name = rule.name;
  enabled = some rule.enabled;
  inst_id = some rule.inst_id;
  metric = rule.metric;
  op = rule.op;
  threshold = some rule.threshold;
  for_seconds = some rule.for_seconds;
  target = some rule.target;
  webhook = some rule.webhook;
}

-- The payload, under an id.
unfoldable pub form_to_rule : Str → RuleForm → AlertRule
form_to_rule id v = record {
  id = id;
  name = v.name;
  enabled = or_default v.enabled true;
  inst_id = or_else (or_empty v.inst_id) every_instance;
  metric = v.metric;
  op = v.op;
  threshold = or_default v.threshold 0;
  for_seconds = or_default v.for_seconds 0;
  target = or_empty v.target;
  webhook = or_empty v.webhook;
}

-- `METRIC_OPTS` and `metricLabel`
abbrev pub metric_label : AlertMetric → Str
metric_label conns = codes "HA 连接数 (conns)"
metric_label requests_rate = codes "请求速率·次/秒 (requests_rate)"
metric_label errors_rate = codes "错误速率·次/秒 (errors_rate)"
metric_label traffic_in_rate = codes "traffic_in_rate"
metric_label traffic_out_rate = codes "traffic_out_rate"

-- `map.get(id)`: the last instance with the id has set it.
abbrev pub name_of : Str → Option Str → List Snapshot → Option Str
name_of id found [] = found
name_of id found (c ∷ cs) =
    let later = name_of id (some (or_else c.name c.id)) cs in
    let same = name_of id found cs in if str_eq c.id id then later else same

unfoldable pub inst_label : List Snapshot → Str → Str
inst_label configs id =
    if str_eq id every_instance || is_empty id
    then codes "全部实例"
    else or_else (or_empty (name_of id none configs)) id
