-- ===== src/Ingress/Rules/Layout.antt =====
-- The shape that the edits of web/src/pages/cfIngress.ts keep: hostname rules, then at most one
-- catch-all. `ensureCatchAll` and `findIndex` on that shape.
use cloudflared_manager.Base.{
  ◌≡◌, ◌<◌, refl, true, false, Option, none, some, List, [], ◌∷◌, ◌++◌, append-nil, length, set,
  remove, last?, last?-concat, find_index, find_index_first, All, or_default, filter, filter-append,
  filter_of_All, filter_of_none, arith, ℕ, zero, suc, Option-cases, inl, inr,
}
use cloudflared_manager.Api.Types.{IngressRule, TunnelConfig}
use cloudflared_manager.Ingress.Rules.{fallback_rule, ingress_of, is_catch_all, ensure_catch_all}

abbrev pub AllHosted : List IngressRule → Type 0
AllHosted = All (λ r. is_catch_all r ≡ false)

abbrev pub AllCaught : List IngressRule → Type 0
AllCaught = All (λ r. is_catch_all r ≡ true)

abbrev pub to_list : Option IngressRule → List IngressRule
to_list none = []
to_list (some r) = r ∷ []

-- What Cloudflare accepts: the one catch-all is the last rule.
pub record IsServable (rules : List IngressRule) : Type 0 where
  pub hosts : List IngressRule
  pub catch_all : IngressRule
  pub shape : rules ≡ hosts ++ catch_all ∷ []
  pub hosted : AllHosted hosts
  pub caught : is_catch_all catch_all ≡ true

-- What a configuration has before an edit: the catch-all may be missing.
pub record IsEditable (config : Option TunnelConfig) : Type 0 where
  pub hosts : List IngressRule
  pub tail : Option IngressRule
  pub shape : ingress_of config ≡ hosts ++ to_list tail
  pub hosted : AllHosted hosts
  pub caught : AllCaught (to_list tail)

-- The catch-all after an edit.
abbrev pub catch_all_of : Option IngressRule → IngressRule
catch_all_of tail = or_default tail fallback_rule

pub fallback-caught : is_catch_all fallback_rule ≡ true
unfolding is_catch_all
fallback-caught = refl

pub catch_all_of-caught :
    (tail : Option IngressRule) → AllCaught (to_list tail) → is_catch_all (catch_all_of tail) ≡ true
catch_all_of-caught none h = fallback-caught
catch_all_of-caught (some c) (h, _) = h

-- A servable list of rules is left as it is.
pub ensure_catch_all_of_caught :
    (hosts : List IngressRule) (c : IngressRule)
    → is_catch_all c ≡ true
    → ensure_catch_all (hosts ++ c ∷ []) ≡ hosts ++ c ∷ []
unfolding ensure_catch_all
ensure_catch_all_of_caught hosts c h = rw (last?-concat hosts c, h)

last?-hosted :
    (xs : List IngressRule) (c : IngressRule)
    → AllHosted xs
    → last? xs ≡ some c
    → is_catch_all c ≡ false
last?-hosted [] c h e = cc
last?-hosted (x ∷ []) c (h, _) e = let same : x ≡ c = cc in rw (← same) h
last?-hosted (x ∷ y ∷ xs) c (_, h) e = last?-hosted (y ∷ xs) c h e

pub ensure_catch_all_of_hosted :
    (hosts : List IngressRule)
    → AllHosted hosts
    → ensure_catch_all hosts ≡ hosts ++ fallback_rule ∷ []
unfolding ensure_catch_all
ensure_catch_all_of_hosted hosts h = elim (Option-cases (last? hosts)) [
  | inl e ↦ rw e
  | inr (c, e) ↦ rw (e, last?-hosted hosts c h e)
]

pub ensure_catch_all_of_layout :
    (hosts : List IngressRule) (tail : Option IngressRule)
    → AllHosted hosts
    → AllCaught (to_list tail)
    → ensure_catch_all (hosts ++ to_list tail) ≡ hosts ++ catch_all_of tail ∷ []
ensure_catch_all_of_layout hosts none h k = rw append-nil (ensure_catch_all_of_hosted hosts h)
ensure_catch_all_of_layout hosts (some c) h (k, _) = ensure_catch_all_of_caught hosts c k

pub find_index_of_layout :
    (hosts : List IngressRule) (c : IngressRule)
    → AllHosted hosts
    → is_catch_all c ≡ true
    → find_index is_catch_all (hosts ++ c ∷ []) ≡ some (length hosts)
find_index_of_layout hosts c h k = find_index_first is_catch_all hosts [] c h k

pub set-AllHosted :
    (hosts : List IngressRule) (i : ℕ) (rule : IngressRule)
    → AllHosted hosts
    → is_catch_all rule ≡ false
    → AllHosted (set hosts i rule)
set-AllHosted [] i rule h k = tt
set-AllHosted (x ∷ xs) zero rule (_, h) k = (k, h)
set-AllHosted (x ∷ xs) (suc i) rule (e, h) k = (e, set-AllHosted xs i rule h k)

pub remove-AllHosted :
    (hosts : List IngressRule) (i : ℕ) → AllHosted hosts → AllHosted (remove hosts i)
remove-AllHosted [] i h = tt
remove-AllHosted (x ∷ xs) zero (_, h) = h
remove-AllHosted (x ∷ xs) (suc i) (e, h) = (e, remove-AllHosted xs i h)

pub set-append :
    (xs ys : List IngressRule) (i : ℕ) (v : IngressRule)
    → i < length xs
    → set (xs ++ ys) i v ≡ set xs i v ++ ys
set-append [] ys i v h = elim h [ ]
set-append (x ∷ xs) ys zero v h = refl
set-append (x ∷ xs) ys (suc i) v h = rw (set-append xs ys i v (omega arith))

pub remove-append :
    (xs ys : List IngressRule) (i : ℕ) → i < length xs → remove (xs ++ ys) i ≡ remove xs i ++ ys
remove-append [] ys i h = elim h [ ]
remove-append (x ∷ xs) ys zero h = refl
remove-append (x ∷ xs) ys (suc i) h = rw (remove-append xs ys i (omega arith))

pub filter_caught_of_layout :
    (hosts : List IngressRule) (tail : Option IngressRule)
    → AllHosted hosts
    → AllCaught (to_list tail)
    → filter is_catch_all (hosts ++ to_list tail) ≡ to_list tail
filter_caught_of_layout hosts tail h k =
    rw (filter-append, filter_of_none is_catch_all hosts h)
      (filter_of_All is_catch_all (to_list tail) k)
