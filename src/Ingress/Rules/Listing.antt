-- ===== src/Ingress/Rules/Listing.antt =====
-- `listHostnameRules` of web/src/pages/cfIngress.ts: each hostname rule with its place in the ingress.
use cloudflared_manager.Base.{
  ℕ, ◌+◌, ◌≡◌, refl, ap, Bool, true, false, not, Option, some, List, [], ◌∷◌, ◌++◌, map, filter,
  filter-append, filter_of_All, filter_of_none, length, length-append, append_assoc,
  get_elem?-length-append, get_elem?, All, Bool-cases, inl, inr, arith, append-nil,
}
use cloudflared_manager.Api.Types.{IngressRule, TunnelConfig}
use cloudflared_manager.Ingress.Rules.{ingress_of, is_catch_all, list_from, list_hostname_rules}
use cloudflared_manager.Ingress.Rules.Layout.{AllHosted, AllCaught}

abbrev pub is_host : IngressRule → Bool
is_host r = not (is_catch_all r)

-- The rules that the listing shows, in its order.
abbrev pub hosts_of : Option TunnelConfig → List IngressRule
hosts_of config = map (λ e. e.0) (list_hostname_rules config)

-- An entry names a rule with a hostname and the place where it stands.
abbrev pub IsEntry : List IngressRule → IngressRule × ℕ → Type 0
IsEntry rules e = (get_elem? rules e.1 ≡ some e.0) × (is_catch_all e.0 ≡ false)

list_from-filter :
    (n : ℕ) (rules : List IngressRule)
    → map (λ (e : IngressRule × ℕ). e.0) (list_from n rules) ≡ filter is_host rules
unfolding list_from
list_from-filter n [] = refl
list_from-filter n (r ∷ rules) = elim (Bool-cases (is_catch_all r)) [
  | inl e ↦ rw e (list_from-filter (n + 1) rules)
  | inr e ↦ rw e (ap (λ t. r ∷ t) (list_from-filter (n + 1) rules))
]

pub hosts_of-filter :
    (config : Option TunnelConfig) → hosts_of config ≡ filter is_host (ingress_of config)
unfolding list_hostname_rules
hosts_of-filter config = list_from-filter 0 (ingress_of config)

-- `pre` is what stands before the rules that are still to be listed.
list_from-IsEntry :
    (pre rules : List IngressRule) (n : ℕ)
    → length pre ≡ n
    → All (IsEntry (pre ++ rules)) (list_from n rules)
unfolding list_from
list_from-IsEntry pre [] n e = tt
list_from-IsEntry pre (r ∷ rules) n e =
    let moved : length (pre ++ r ∷ []) ≡ n + 1 = omega (arith, length-append pre (r ∷ [])) in
    let rest : All (IsEntry (pre ++ r ∷ rules)) (list_from (n + 1) rules) =
      rw (append_assoc pre (r ∷ []) rules) at
        (list_from-IsEntry (pre ++ r ∷ []) rules (n + 1) moved) in
    elim (Bool-cases (is_catch_all r)) [
      | inl caught ↦ rw caught rest
      | inr hosted ↦ rw hosted ((rw (← e) (get_elem?-length-append pre rules r), hosted), rest)
    ]

-- The listing shows every rule with a hostname once, in the order of the ingress, and each entry's
-- index is the rule's place in the ingress.
pub list_hostname_rules_correct :
    (config : Option TunnelConfig)
    → (hosts_of config ≡ filter is_host (ingress_of config))
      × All (IsEntry (ingress_of config)) (list_hostname_rules config)
unfolding list_hostname_rules
list_hostname_rules_correct config =
    (hosts_of-filter config, list_from-IsEntry [] (ingress_of config) 0 refl)

is_host-AllHosted : (hosts : List IngressRule) → AllHosted hosts → All (λ r. is_host r ≡ true) hosts
is_host-AllHosted [] h = tt
is_host-AllHosted (x ∷ xs) (e, h) = (rw e, is_host-AllHosted xs h)

is_host-AllCaught : (rs : List IngressRule) → AllCaught rs → All (λ r. is_host r ≡ false) rs
is_host-AllCaught [] h = tt
is_host-AllCaught (x ∷ xs) (e, h) = (rw e, is_host-AllCaught xs h)

pub filter_hosts :
    (hosts tail : List IngressRule)
    → AllHosted hosts
    → AllCaught tail
    → filter is_host (hosts ++ tail) ≡ hosts
filter_hosts hosts tail h k =
    rw
      (
        filter-append,
        filter_of_All is_host hosts (is_host-AllHosted hosts h),
        filter_of_none is_host tail (is_host-AllCaught tail k),
      )
      (append-nil hosts)
