-- ===== src/Ingress/Origin/Fixpoints.antt =====
-- What `buildOriginRequest` picks of a field of web/src/pages/cfIngress.ts, read back by
-- `originRequestToForm`, is picked again.
use cloudflared_manager.Base.{
  ◌≡◌, refl, ap, Bool, true, false, Option, none, some, List, [], ◌∷◌, Str, is_empty, trim,
  trim_idempotent, Bool-cases, inl, inr, arith,
}
use cloudflared_manager.Api.Types.{Number, Value, null, num, str, Fields, end, field}
use cloudflared_manager.Api.Json.{
  Numbers, is_finite, truthy, present, str_items, fields_of, to_text, item_texts,
}
use cloudflared_manager.Ingress.Seconds.{to_seconds}
use cloudflared_manager.Ingress.Origin.{
  some_text, number_field, bool_field, team_text, aud_items, required_flag, some_object,
  string_field, rounded, duration_field, seconds_value, text_of, flag_of, texts_of,
}

pub number_field_again :
    (x : Option Value) → number_field (present (number_field x)) ≡ number_field x
number_field_again none = refl
number_field_again (some null) = refl
number_field_again (some (num n)) = ground arith
number_field_again (some v) = refl

pub bool_field_again : (x : Option Value) → bool_field (present (bool_field x)) ≡ bool_field x
bool_field_again x = elim (Bool-cases (truthy x)) [ inl e ↦ rw e | inr e ↦ rw e ]

pub required_flag_again :
    (x : Option Bool) → required_flag (flag_of (required_flag x)) ≡ required_flag x
required_flag_again none = refl
required_flag_again (some true) = refl
required_flag_again (some false) = refl

pub item_texts-str_items :
    (numbers : Numbers) (ts : List Str) → item_texts numbers (str_items ts) ≡ ts
unfolding item_texts to_text
item_texts-str_items numbers [] = refl
item_texts-str_items numbers (t ∷ ts) = ap (λ r. t ∷ r) (item_texts-str_items numbers ts)

pub fields_of-some_object : (o : Fields) → fields_of (some_object o) ≡ o
fields_of-some_object end = refl
fields_of-some_object (field k v o) = refl

-- What `toSeconds` makes of a form value is finite, where it makes anything.
abbrev pub IsFiniteOption : Option Number → Type 0
IsFiniteOption none = Unit
IsFiniteOption (some n) = is_finite n ≡ true

module _ (numbers : Numbers) where
  open numbers use {round, round_idempotent, round_finite}

  pub string_text_again :
      (s : Str) → string_field numbers (present (some_text (trim s))) ≡ some_text (trim s)
  unfolding to_text
  string_text_again s = elim (Bool-cases (is_empty (trim s))) [
    | inl e ↦ rw e
    | inr e ↦ rw (e, trim_idempotent s, e)
  ]

  pub string_field_again :
      (x : Option Value)
      → string_field numbers (present (string_field numbers x)) ≡ string_field numbers x
  string_field_again none = refl
  string_field_again (some null) = refl
  string_field_again (some (str s)) = string_text_again _
  string_field_again (some v) = string_text_again _

  pub duration_text_again :
      (o : Option Number)
      → IsFiniteOption o
      → duration_field numbers (seconds_value (to_seconds numbers (rounded numbers o)))
        ≡ rounded numbers o
  unfolding to_seconds
  duration_text_again none h = refl
  duration_text_again (some n) h = rw (round_finite n h, round_finite n h, round_idempotent n)

  pub team_text_again : (t : Option Str) → team_text (text_of numbers (team_text t)) ≡ team_text t
  unfolding to_text
  team_text_again none = refl
  team_text_again (some s) = elim (Bool-cases (is_empty (trim s))) [
    | inl e ↦ rw e
    | inr e ↦ rw (e, trim_idempotent s, e)
  ]

  pub aud_items_again :
      (a : Option (List Str)) → aud_items (texts_of numbers (aud_items a)) ≡ aud_items a
  aud_items_again none = refl
  aud_items_again (some []) = refl
  aud_items_again (some (t ∷ ts)) = rw (item_texts-str_items numbers (t ∷ ts))
