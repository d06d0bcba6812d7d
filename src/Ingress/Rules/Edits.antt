-- ===== src/Ingress/Rules/Edits.antt =====
-- The edits of web/src/pages/cfIngress.ts against the list of hostname rules that the panel shows:
-- append, replace, remove and reorder act on that list, and leave a servable ingress.
use cloudflared_manager.Base.{
  or_default, find_index, take, drop, ℕ, ◌<◌, ◌≡◌, refl, sym, ap, ◌∙◌, true, false, Option, none,
  some, List, [], ◌∷◌, ◌++◌, length, length-append, set, remove, take-length-append,
  drop-length-append, filter, All-append, arith, leb, append_assoc, ltb, if◌then◌else◌,
}
use cloudflared_manager.Api.Types.{IngressRule, TunnelConfig}
use cloudflared_manager.Ingress.Rules.{
  pos, base_of, ingress_of, fallback_rule, is_catch_all, ensure_catch_all, append_hostname_rule,
  replace_rule_at, remove_rule_at, reorder_hostnames,
}
use cloudflared_manager.Ingress.Rules.Layout.{
  AllHosted, AllCaught, IsServable, IsEditable, to_list, catch_all_of, catch_all_of-caught,
  ensure_catch_all_of_layout, find_index_of_layout, set-AllHosted, remove-AllHosted, set-append,
  remove-append, filter_caught_of_layout,
}
use cloudflared_manager.Ingress.Rules.Listing.{is_host, hosts_of, hosts_of-filter, filter_hosts}

-- `next` differs from `config` in the ingress alone, which is `hosts` and the configuration's own
-- catch-all, or the default one: Cloudflare accepts it, and the panel shows `hosts`.
pub record IsEdit (config : Option TunnelConfig) (next : TunnelConfig) (hosts : List IngressRule)
    (catch_all : IngressRule) : Type 0 where
  pub ingress : next.ingress ≡ some (hosts ++ catch_all ∷ [])
  pub origin_request : next.origin_request ≡ (base_of config).origin_request
  pub warp_routing : next.warp_routing ≡ (base_of config).warp_routing
  pub servable : IsServable (hosts ++ catch_all ∷ [])
  pub shown : hosts_of (some next) ≡ hosts

hosts_of-servable :
    (next : TunnelConfig) (hosts : List IngressRule) (c : IngressRule)
    → next.ingress ≡ some (hosts ++ c ∷ [])
    → AllHosted hosts
    → is_catch_all c ≡ true
    → hosts_of (some next) ≡ hosts
hosts_of-servable next hosts c e h k =
    rw (hosts_of-filter (some next), e) (filter_hosts hosts (c ∷ []) h (k, tt))

-- An edit that writes a servable ingress over `config`.
edit :
    (config : Option TunnelConfig) (rules hosts : List IngressRule) (c : IngressRule)
    → rules ≡ hosts ++ c ∷ []
    → AllHosted hosts
    → is_catch_all c ≡ true
    → IsEdit config
        (let base : TunnelConfig = base_of config in record base { ingress = some rules })
        hosts
        c
edit config rules hosts c e h k = record {
  ingress = ap some e;
  origin_request = refl;
  warp_routing = refl;
  servable = record { hosts = hosts; catch_all = c; shape = refl; hosted = h; caught = k };
  shown = hosts_of-servable _ hosts c (ap some e) h k;
}

-- What `appendHostnameRule` builds: the new rule stands before the catch-all.
inserted :
    (rules hosts : List IngressRule) (c rule : IngressRule)
    → rules ≡ hosts ++ c ∷ []
    → AllHosted hosts
    → is_catch_all c ≡ true
    → (let at = or_default (find_index is_catch_all rules) (length rules) in
        take at rules ++ rule ∷ drop at rules)
      ≡ (hosts ++ rule ∷ []) ++ c ∷ []
inserted rules hosts c rule e h k =
    rw (e, find_index_of_layout hosts c h k, take-length-append, drop-length-append)
      (sym (append_assoc hosts (rule ∷ []) (c ∷ [])))

-- The tail that `reorderHostnames` keeps or makes.
kept_tail :
    (rules hosts : List IngressRule) (tail : Option IngressRule)
    → rules ≡ hosts ++ to_list tail
    → AllHosted hosts
    → AllCaught (to_list tail)
    → (let caught = filter is_catch_all rules in
        if ltb 0 (length caught) then caught else fallback_rule ∷ [])
      ≡ catch_all_of tail ∷ []
kept_tail rules hosts none e h k = rw (e, filter_caught_of_layout hosts none h k)
kept_tail rules hosts (some c) e h k = rw (e, filter_caught_of_layout hosts (some c) h k)

filter-AllHosted : (rules : List IngressRule) → AllHosted (filter is_host rules)
filter-AllHosted [] = tt
filter-AllHosted (r ∷ rules) = ground (arith, filter-AllHosted rules)

module _ (config : Option TunnelConfig) (e : IsEditable config) where
  caught : is_catch_all (catch_all_of e.tail) ≡ true
  caught = catch_all_of-caught e.tail e.caught

  in_range : (i : ℕ) → i < length e.hosts → leb (length (ingress_of config)) i ≡ false
  in_range i h = rw e.shape (ground (arith, length-append e.hosts (to_list e.tail)))

  hosts_of-IsEditable : hosts_of config ≡ e.hosts
  hosts_of-IsEditable =
      hosts_of-filter config
      ∙ ap (filter is_host) e.shape
      ∙ filter_hosts e.hosts (to_list e.tail) e.hosted e.caught

  -- A new hostname goes behind the others and before the catch-all.
  pub append_hostname_rule-IsEdit :
      (rule : IngressRule)
      → is_catch_all rule ≡ false
      → IsEdit config
          (append_hostname_rule config rule)
          (hosts_of config ++ rule ∷ [])
          (catch_all_of e.tail)
  unfolding append_hostname_rule
  append_hostname_rule-IsEdit rule hosted =
      let ensured : ensure_catch_all (ingress_of config) ≡ e.hosts ++ catch_all_of e.tail ∷ [] =
        ap ensure_catch_all e.shape ∙ ensure_catch_all_of_layout e.hosts e.tail e.hosted e.caught in
      rw hosts_of-IsEditable (
        edit config _ (e.hosts ++ rule ∷ []) (catch_all_of e.tail)
          (inserted _ e.hosts (catch_all_of e.tail) rule ensured e.hosted caught)
          (All-append _ e.hosts (rule ∷ []) e.hosted (hosted, tt)) caught)

  pub replace_rule_at-IsEdit :
      (i : ℕ) (rule : IngressRule)
      → i < length (hosts_of config)
      → is_catch_all rule ≡ false
      → IsEdit config
          (replace_rule_at config (pos i) rule)
          (set (hosts_of config) i rule)
          (catch_all_of e.tail)
  unfolding replace_rule_at
  replace_rule_at-IsEdit i rule h hosted =
      let within : i < length e.hosts = rw hosts_of-IsEditable at h in
      rw (in_range i within, hosts_of-IsEditable)
        (edit config _ (set e.hosts i rule) (catch_all_of e.tail)
          (ap (λ rs. ensure_catch_all (set rs i rule)) e.shape
            ∙ ap ensure_catch_all (set-append e.hosts (to_list e.tail) i rule within)
            ∙ ensure_catch_all_of_layout (set e.hosts i rule) e.tail
                (set-AllHosted e.hosts i rule e.hosted hosted) e.caught)
          (set-AllHosted e.hosts i rule e.hosted hosted) caught)

  pub remove_rule_at-IsEdit :
      (i : ℕ)
      → i < length (hosts_of config)
      → IsEdit config
          (remove_rule_at config (pos i))
          (remove (hosts_of config) i)
          (catch_all_of e.tail)
  unfolding remove_rule_at
  remove_rule_at-IsEdit i h =
      let within : i < length e.hosts = rw hosts_of-IsEditable at h in
      rw (in_range i within, hosts_of-IsEditable)
        (edit config _ (remove e.hosts i) (catch_all_of e.tail)
          (ap (λ rs. ensure_catch_all (remove rs i)) e.shape
            ∙ ap ensure_catch_all (remove-append e.hosts (to_list e.tail) i within)
            ∙ ensure_catch_all_of_layout (remove e.hosts i) e.tail
                (remove-AllHosted e.hosts i e.hosted) e.caught)
          (remove-AllHosted e.hosts i e.hosted) caught)

  pub reorder_hostnames-IsEdit :
      (ordered : List IngressRule)
      → IsEdit config
          (reorder_hostnames config ordered)
          (filter is_host ordered)
          (catch_all_of e.tail)
  unfolding reorder_hostnames
  reorder_hostnames-IsEdit ordered =
      edit config _ (filter is_host ordered) (catch_all_of e.tail)
        (ap (λ t. filter is_host ordered ++ t)
          (kept_tail (ingress_of config) e.hosts e.tail e.shape e.hosted e.caught))
        (filter-AllHosted ordered) caught

pub IsServable-IsEditable :
    (config : TunnelConfig) → IsServable (ingress_of (some config)) → IsEditable (some config)
IsServable-IsEditable config s = record {
  hosts = s.hosts;
  tail = some s.catch_all;
  shape = s.shape;
  hosted = s.hosted;
  caught = (s.caught, tt);
}

pub IsEdit-IsServable :
    {config : Option TunnelConfig} {next : TunnelConfig} {hosts : List IngressRule}
    {c : IngressRule}
    → IsEdit config next hosts c
    → IsServable (ingress_of (some next))
IsEdit-IsServable d = rw d.ingress d.servable
