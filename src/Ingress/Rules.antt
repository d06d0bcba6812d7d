-- ===== src/Ingress/Rules.antt =====
-- web/src/pages/cfIngress.ts, the operations on the ingress rules. A rule without a hostname is a
-- catch-all; cloudflared matches in order, so the catch-all has to be the one last rule.
pub mod Layout
pub mod Listing
pub mod Edits
pub mod Refinement
mod Tests
use cloudflared_manager.Base.{
  ℕ, suc, ◌+◌, Bool, true, false, not, ◌||◌, Option, none, some, List, [], ◌∷◌, ◌++◌, length, set,
  remove, take, drop, last?, find_index, filter, leb, ltb, if◌then◌else◌, or_default, codes,
  is_empty, trim,
}
use cloudflared_manager.Api.Types.{IngressRule, TunnelConfig}

-- An array index as the callers pass it: an integer, and `negsuc n` is -(n + 1).
pub data ℤ : Type 0 where
  pos : ℕ → ℤ
  negsuc : ℕ → ℤ

-- `{ service: 'http_status:404' }`
abbrev pub fallback_rule : IngressRule
fallback_rule = record {
  hostname = none;
  service = some (codes "http_status:404");
  path = none;
  origin_request = none;
}

-- `{}`
abbrev pub empty_config : TunnelConfig
empty_config = record { ingress = none; origin_request = none; warp_routing = none }

-- `config ?? {}`
abbrev pub base_of : Option TunnelConfig → TunnelConfig
base_of config = or_default config empty_config

-- `base.ingress ?? []`
abbrev pub ingress_of : Option TunnelConfig → List IngressRule
ingress_of config = or_default (base_of config).ingress []

unfoldable pub is_catch_all : IngressRule → Bool
unfolding trim
is_catch_all rule = elim rule.hostname [ none ↦ true | some h ↦ is_empty h || is_empty (trim h) ]

-- The loop of `listHostnameRules`, from an index on.
list_from : ℕ → List IngressRule → List (IngressRule × ℕ)
list_from index [] = []
list_from index (rule ∷ rules) =
    let rest = list_from (index + 1) rules in
    if not (is_catch_all rule) then (rule, index) ∷ rest else rest

unfoldable pub list_hostname_rules : Option TunnelConfig → List (IngressRule × ℕ)
unfolding list_from
list_hostname_rules config = list_from 0 (ingress_of config)

unfoldable pub ensure_catch_all : List IngressRule → List IngressRule
ensure_catch_all ingress =
    if (elim (last? ingress) [ none ↦ true | some r ↦ not (is_catch_all r) ])
    then ingress ++ fallback_rule ∷ []
    else ingress

unfoldable pub append_hostname_rule : Option TunnelConfig → IngressRule → TunnelConfig
append_hostname_rule config rule =
    let base : TunnelConfig = base_of config in
    let ingress = ensure_catch_all (ingress_of config) in
    let at = or_default (find_index is_catch_all ingress) (length ingress) in
    record base { ingress = some (take at ingress ++ rule ∷ drop at ingress) }

unfoldable pub replace_rule_at : Option TunnelConfig → ℤ → IngressRule → TunnelConfig
replace_rule_at config (negsuc n) rule = base_of config
replace_rule_at config (pos index) rule =
    let base : TunnelConfig = base_of config in
    let ingress = ingress_of config in
    if leb (length ingress) index
    then base
    else record base { ingress = some (ensure_catch_all (set ingress index rule)) }

unfoldable pub reorder_hostnames : Option TunnelConfig → List IngressRule → TunnelConfig
reorder_hostnames config ordered =
    let base : TunnelConfig = base_of config in
    let catch_all = filter is_catch_all (ingress_of config) in
    let tail = if ltb 0 (length catch_all) then catch_all else fallback_rule ∷ [] in
    record base { ingress = some (filter (λ r. not (is_catch_all r)) ordered ++ tail) }

unfoldable pub remove_rule_at : Option TunnelConfig → ℤ → TunnelConfig
remove_rule_at config (negsuc n) = base_of config
remove_rule_at config (pos index) =
    let base : TunnelConfig = base_of config in
    let ingress = ingress_of config in
    if leb (length ingress) index
    then base
    else record base { ingress = some (ensure_catch_all (remove ingress index)) }
