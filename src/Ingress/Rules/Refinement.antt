-- ===== src/Ingress/Rules/Refinement.antt =====
-- Any run of the edits of web/src/pages/cfIngress.ts against its specification, a plain list of
-- hostname rules.
use mathlib.Core.Path.{subst}
use cloudflared_manager.Base.{
  ℕ, ◌<◌, ◌≡◌, false, Option, some, List, [], ◌∷◌, ◌++◌, length, set, remove, filter, refl, sym, ap,
  ◌∙◌,
}
use cloudflared_manager.Api.Types.{IngressRule, TunnelConfig}
use cloudflared_manager.Ingress.Rules.{
  ingress_of, pos, is_catch_all, append_hostname_rule, replace_rule_at, remove_rule_at,
  reorder_hostnames,
}
use cloudflared_manager.Ingress.Rules.Layout.{IsServable, IsEditable, catch_all_of}
use cloudflared_manager.Ingress.Rules.Listing.{is_host, hosts_of}
use cloudflared_manager.Ingress.Rules.Edits.{
  IsEdit, IsEdit-IsServable, IsServable-IsEditable, append_hostname_rule-IsEdit,
  replace_rule_at-IsEdit, remove_rule_at-IsEdit, reorder_hostnames-IsEdit,
}

-- What the panel asks for; an index counts in the list that it shows.
pub data Edit : Type 0 where
  append : IngressRule → Edit
  replace : ℕ → IngressRule → Edit
  delete : ℕ → Edit
  reorder : List IngressRule → Edit

-- The edit as the client makes it.
unfoldable pub apply_edit : Option TunnelConfig → Edit → TunnelConfig
apply_edit config (append rule) = append_hostname_rule config rule
apply_edit config (replace i rule) = replace_rule_at config (pos i) rule
apply_edit config (delete i) = remove_rule_at config (pos i)
apply_edit config (reorder rules) = reorder_hostnames config rules

-- The edit as the user means it.
abbrev pub edit_list : List IngressRule → Edit → List IngressRule
edit_list hosts (append rule) = hosts ++ rule ∷ []
edit_list hosts (replace i rule) = set hosts i rule
edit_list hosts (delete i) = remove hosts i
edit_list hosts (reorder rules) = filter is_host rules

-- A written rule has a hostname, and an index stands for a row.
abbrev pub IsAllowed : List IngressRule → Edit → Type 0
IsAllowed hosts (append rule) = is_catch_all rule ≡ false
IsAllowed hosts (replace i rule) = (i < length hosts) × (is_catch_all rule ≡ false)
IsAllowed hosts (delete i) = i < length hosts
IsAllowed hosts (reorder rules) = Unit

abbrev pub apply_edits : TunnelConfig → List Edit → TunnelConfig
apply_edits config [] = config
apply_edits config (e ∷ es) = apply_edits (apply_edit (some config) e) es

abbrev pub edit_lists : List IngressRule → List Edit → List IngressRule
edit_lists hosts [] = hosts
edit_lists hosts (e ∷ es) = edit_lists (edit_list hosts e) es

abbrev pub AllAllowed : List IngressRule → List Edit → Type 0
AllAllowed hosts [] = Unit
AllAllowed hosts (e ∷ es) = IsAllowed hosts e × AllAllowed (edit_list hosts e) es

-- An allowed edit of a configuration with at most a trailing catch-all changes the list of hostname
-- rules as it is meant to, keeps the catch-all, or adds the default one, as the last rule, and
-- leaves the other fields of the configuration alone.
pub apply_edit-IsEdit :
    (config : Option TunnelConfig) (editable : IsEditable config) (e : Edit)
    → IsAllowed (hosts_of config) e
    → IsEdit config
        (apply_edit config e)
        (edit_list (hosts_of config) e)
        (catch_all_of editable.tail)
unfolding apply_edit
apply_edit-IsEdit config editable (append rule) h =
    append_hostname_rule-IsEdit config editable rule h
apply_edit-IsEdit config editable (replace i rule) h =
    replace_rule_at-IsEdit config editable i rule h.0 h.1
apply_edit-IsEdit config editable (delete i) h = remove_rule_at-IsEdit config editable i h
apply_edit-IsEdit config editable (reorder rules) h = reorder_hostnames-IsEdit config editable rules

apply_edits-IsServable :
    (config : TunnelConfig)
    → IsServable (ingress_of (some config))
    → (es : List Edit) → AllAllowed (hosts_of (some config)) es
    → (hosts_of (some (apply_edits config es)) ≡ edit_lists (hosts_of (some config)) es)
      × IsServable (ingress_of (some (apply_edits config es)))
apply_edits-IsServable config s [] h = (refl, s)
apply_edits-IsServable config s (e ∷ es) h =
    let d = apply_edit-IsEdit (some config) (IsServable-IsEditable config s) e h.0 in
    let ih =
      apply_edits-IsServable (apply_edit (some config) e) (IsEdit-IsServable d) es
        (subst (λ hs. AllAllowed hs es) (sym d.shown) h.1) in
    (ih.0 ∙ ap (λ hs. edit_lists hs es) d.shown, ih.1)

-- From a configuration with at most a trailing catch-all, also one without rules or none at all,
-- any non-empty sequence of allowed edits shows exactly the list that the specification computes,
-- and leaves an ingress whose one catch-all is its last rule.
pub apply_edits-refines :
    (config : Option TunnelConfig) (e : Edit) (es : List Edit)
    → IsEditable config
    → AllAllowed (hosts_of config) (e ∷ es)
    → (hosts_of (some (apply_edits (apply_edit config e) es))
        ≡ edit_lists (hosts_of config) (e ∷ es))
      × IsServable (ingress_of (some (apply_edits (apply_edit config e) es)))
apply_edits-refines config e es editable h =
    let d = apply_edit-IsEdit config editable e h.0 in
    let run =
      apply_edits-IsServable (apply_edit config e) (IsEdit-IsServable d) es
        (subst (λ hs. AllAllowed hs es) (sym d.shown) h.1) in
    (run.0 ∙ ap (λ hs. edit_lists hs es) d.shown, run.1)
