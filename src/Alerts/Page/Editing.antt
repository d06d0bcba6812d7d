-- ===== src/Alerts/Page/Editing.antt =====
-- The rule editor of web/src/pages/Alerts.tsx.
use cloudflared_manager.Base.{◌≡◌, refl, ap, false, [], ◌∷◌, is_empty, or_else, Str}
use cloudflared_manager.Api.Types.{AlertRule}
use cloudflared_manager.Alerts.{every_instance, rule_to_form, form_to_rule}
use cloudflared_manager.Alerts.Page.{
  put_rule, AlertPage, open_edit, submit, alert_step, alert_steps,
}

or_else_left : (s t : Str) → is_empty s ≡ false → or_else s t ≡ s
or_else_left [] t h = cc
or_else_left (c ∷ s) t h = refl

pub form_to_rule-rule_to_form :
    (rule : AlertRule)
    → is_empty rule.inst_id ≡ false
    → form_to_rule rule.id (rule_to_form rule) ≡ rule
unfolding form_to_rule
form_to_rule-rule_to_form rule h =
    ap (λ i. record rule { inst_id = i }) (or_else_left rule.inst_id every_instance h)

-- A rule with an id and an instance that is opened and saved untouched is sent as it is, under its
-- own id.
pub open_edit-submit :
    (p : AlertPage) (rule : AlertRule)
    → is_empty rule.id ≡ false
    → is_empty rule.inst_id ≡ false
    → (alert_steps (open_edit rule ∷ submit ∷ []) p).1 ≡ put_rule rule.id rule ∷ []
unfolding alert_steps alert_step
open_edit-submit p rule named h =
    rw named (ap (λ r. put_rule rule.id r ∷ []) (form_to_rule-rule_to_form rule h))
