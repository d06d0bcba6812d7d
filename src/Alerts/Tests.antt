-- ===== src/Alerts/Tests.antt =====
-- The theorems on web/src/pages/Alerts.tsx at a concrete page.
use cloudflared_manager.Base.{◌≡◌, refl, false, none, [], ◌∷◌, Str, codes}
use cloudflared_manager.Api.Types.{AlertRule, AlertEvent, conns, lt}
use cloudflared_manager.Alerts.{new_rule_form, inst_label}
use cloudflared_manager.Alerts.Page.{put_rule, AlertPage, open_edit, submit, alert_steps}
use cloudflared_manager.Alerts.Page.Editing.{open_edit-submit}

abbrev rule : AlertRule
rule = record {
  id = codes "r1";
  name = codes "lost";
  enabled = false;
  inst_id = codes "a";
  metric = conns;
  op = lt;
  threshold = 4607182418800017408;
  for_seconds = 4633641066610819072;
  target = [];
  webhook = codes "https://example.com";
}

abbrev alert_event : Str → AlertEvent
alert_event state = record {
  id = codes "e1";
  rule_id = codes "r1";
  inst_id = codes "a";
  target = [];
  fired_at = 0;
  resolved_at = 0;
  value = 0;
  state = state;
}

abbrev page : AlertPage
page = record {
  instances = [];
  rules = rule ∷ [];
  events = [];
  loading_rules = false;
  loading_events = false;
  disabled = false;
  event_state = [];
  modal_open = false;
  editing = none;
  form = new_rule_form;
  saving = false;
  notices = [];
}

label_test : inst_label [] (codes "*") ≡ codes "全部实例"
unfolding inst_label
label_test = refl

open_edit-submit_example :
    (alert_steps (open_edit rule ∷ submit ∷ []) page).1 ≡ put_rule (codes "r1") rule ∷ []
open_edit-submit_example = open_edit-submit page rule refl refl
