-- ===== src/Ingress/Origin/Assembly.antt =====
-- The loops over key lists in web/src/pages/cfIngress.ts: what stands under a key afterwards, and what
-- of a form they read.
use cloudflared_manager.Base.{
  ◌≡◌, refl, ap, ◌∙◌, Bool, false, ◌||◌, Option, none, some, List, [], ◌∷◌, if◌then◌else◌, Str,
  str_eq, str_eq_iff, All, Bool-cases, inl, inr, arith,
}
use cloudflared_manager.Api.Types.{Value, Fields, end, field, OriginRequest}
use cloudflared_manager.Api.Json.{Numbers, lookup, put, has_fields}
use cloudflared_manager.Ingress.Origin.{
  OriginForm, string_keys, duration_keys, number_keys, bool_keys, write_field, copy_keys,
  number_field, bool_field, build_access, string_field, duration_field, collect_fields,
  build_origin_request, origin_request_to_form,
}

abbrev pub mem : Str → List Str → Bool
mem j [] = false
mem j (k ∷ keys) = str_eq k j || mem j keys

pub lookup-put :
    (k j : Str) (x : Value) (o : Fields)
    → lookup j (put k x o) ≡ (if str_eq k j then some x else lookup j o)
unfolding lookup put
lookup-put k j x end = refl
lookup-put k j x (field i w o) =
    ground (arith, str_eq_iff k j, str_eq_iff i k, str_eq_iff i j, lookup-put k j x o)

-- What was written last, or what was there.
abbrev pub first : Option Value → Option Value → Option Value
first none y = y
first (some x) y = some x

first_twice : (x y : Option Value) → first x (first x y) ≡ first x y
first_twice none y = refl
first_twice (some x) y = refl

pub first-none : (x : Option Value) → first x none ≡ x
first-none none = refl
first-none (some x) = refl

pub lookup-write_field :
    (k j : Str) (x : Option Value) (o : Fields)
    → lookup j (write_field k x o) ≡ (if str_eq k j then first x (lookup j o) else lookup j o)
lookup-write_field k j none o = elim (Bool-cases (str_eq k j)) [ inl e ↦ rw e | inr e ↦ rw e ]
lookup-write_field k j (some x) o = lookup-put k j x o

module _ (pick : Option Value → Option Value) where
  -- A named key has what is picked for it, or else what it had; another key keeps its value.
  pub lookup-copy_keys :
      (j : Str) (keys : List Str) (v out : Fields)
      → lookup j (copy_keys pick keys v out)
        ≡ (if mem j keys then first (pick (lookup j v)) (lookup j out) else lookup j out)
  unfolding copy_keys
  lookup-copy_keys j [] v out = refl
  lookup-copy_keys j (k ∷ keys) v out = elim (Bool-cases (str_eq k j)) [
    | inl same ↦
        rw
          (
            lookup-copy_keys j keys v,
            lookup-write_field,
            same,
            ap (λ t. pick (lookup t v)) ((str_eq_iff k j).0 same),
          )
          (elim (Bool-cases (mem j keys)) [
            | inl again ↦ rw again (first_twice (pick (lookup j v)) (lookup j out))
            | inr once ↦ rw once
          ])
    | inr other ↦ rw (lookup-copy_keys j keys v, lookup-write_field, other)
  ]

  -- The loop sees of its source what it picks under its keys.
  pub copy_keys_cong :
      (keys : List Str) (v w out : Fields)
      → All (λ k. pick (lookup k v) ≡ pick (lookup k w)) keys
      → copy_keys pick keys v out ≡ copy_keys pick keys w out
  unfolding copy_keys
  copy_keys_cong [] v w out h = refl
  copy_keys_cong (k ∷ keys) v w out (e, h) =
      copy_keys_cong keys v w (write_field k (pick (lookup k v)) out) h
      ∙ ap (λ x. copy_keys pick keys w (write_field k x out)) e

-- A form is read only by what the loops pick of it.
pub collect_fields_cong :
    (numbers : Numbers) (v w : OriginForm)
    → build_access w ≡ build_access v
    → All
        (λ k. string_field numbers (lookup k v.fields) ≡ string_field numbers (lookup k w.fields))
        string_keys
    → All
        (λ k.
          duration_field numbers (lookup k v.fields) ≡ duration_field numbers (lookup k w.fields))
        duration_keys
    → All (λ k. number_field (lookup k v.fields) ≡ number_field (lookup k w.fields)) number_keys
    → All (λ k. bool_field (lookup k v.fields) ≡ bool_field (lookup k w.fields)) bool_keys
    → collect_fields numbers v ≡ collect_fields numbers w
unfolding collect_fields
collect_fields_cong numbers v w access strings durations counts flags = rw (
  copy_keys_cong (string_field numbers) string_keys v.fields w.fields end strings,
  copy_keys_cong (duration_field numbers) duration_keys v.fields w.fields _ durations,
  copy_keys_cong number_field number_keys v.fields w.fields _ counts,
  copy_keys_cong bool_field bool_keys v.fields w.fields _ flags,
  access,
)

abbrev pub some_request : Fields → Option OriginRequest
some_request out = if has_fields out then some out else none

-- No request is shown as one without fields.
pub to_form-some_request :
    (numbers : Numbers) (out : Fields)
    → origin_request_to_form numbers (some_request out) ≡ origin_request_to_form numbers (some out)
unfolding origin_request_to_form
to_form-some_request numbers end = refl
to_form-some_request numbers (field k x out) = refl

pub build_origin_request-some_request :
    (numbers : Numbers) (v : OriginForm)
    → build_origin_request numbers v ≡ some_request (collect_fields numbers v)
unfolding build_origin_request
build_origin_request-some_request numbers v = refl

pub some_request-some : (o out : Fields) → some_request o ≡ some out → o ≡ out
some_request-some end out h = cc
some_request-some (field k x o) out h = cc
