-- ===== src/Api/Json.antt =====
-- JavaScript on the values of Api/Types: objects as ordered lists of fields, truth, `String` and the
-- tests on doubles. Arithmetic on doubles is the engine's, a parameter.
use mathlib.Core.Bool.{Bool, true, false, not, ◌&&◌, ◌||◌}
use cloudflared_manager.Base.{
  ◌/◌, ◌%◌, ◌^◌, ◌≡◌, Option, none, some, List, [], ◌∷◌, ◌++◌, if◌then◌else◌, ◌==◌, Str, codes,
  str_eq, str_eq_iff, is_empty, refl, arith,
}
use cloudflared_manager.Api.Types.{
  Number, Value, null, bool, num, str, arr, obj, Items, nil, cons, Fields, end, field,
}

-- A double is finite unless the eleven bits of its exponent are all set.
abbrev pub is_finite : Number → Bool
is_finite n = not (n / 2 ^ 52 % 2 ^ 11 == 2047)

abbrev pub is_nan : Number → Bool
is_nan n = not (is_finite n) && not (n % 2 ^ 52 == 0)

-- Zero of either sign and NaN are falsy.
abbrev pub truthy_num : Number → Bool
truthy_num n = not (n % 2 ^ 63 == 0 || is_nan n)

-- What the client asks of the engine's numbers: `Number(text)` on a decimal literal, `+`, `*`,
-- `Math.round` and `String(n)`.
pub record Numbers : Type 0 where
  pub of_text : Str → Number
  pub add : Number → Number → Number
  pub mul : Number → Number → Number
  pub round : Number → Number
  pub print : Number → Str
  pub round_idempotent : (n : Number) → round (round n) ≡ round n
  pub round_finite : (n : Number) → is_finite n ≡ true → is_finite (round n) ≡ true

-- `o[k]`, with `none` for undefined.
unfoldable pub lookup : Str → Fields → Option Value
lookup k end = none
lookup k (field j v o) = if str_eq j k then some v else lookup k o

-- `o[k] = v`
unfoldable pub put : Str → Value → Fields → Fields
put k v end = field k v end
put k v (field j w o) = if str_eq j k then field j v o else field j w (put k v o)

pub lookup-put_same : (k : Str) (v : Value) (o : Fields) → lookup k (put k v o) ≡ some v
unfolding lookup put
lookup-put_same k v end = rw ((str_eq_iff k k).1 refl) refl
lookup-put_same k v (field j w o) = ground (arith, str_eq_iff j k, lookup-put_same k v o)

-- `Object.keys(o).length > 0`
abbrev pub has_fields : Fields → Bool
has_fields end = false
has_fields (field k v o) = true

abbrev pub truthy : Option Value → Bool
truthy none = false
truthy (some null) = false
truthy (some (bool b)) = b
truthy (some (num n)) = truthy_num n
truthy (some (str s)) = not (is_empty s)
truthy (some (arr xs)) = true
truthy (some (obj o)) = true

-- `x != null`
abbrev pub present : Option Value → Option Value
present none = none
present (some null) = none
present (some v) = some v

-- The items of an array of strings.
abbrev pub str_items : List Str → Items
str_items [] = nil
str_items (s ∷ ss) = cons (str s) (str_items ss)

-- The object under `x || {}`: what is no object has none of the fields that are read.
abbrev pub fields_of : Option Value → Fields
fields_of (some (obj o)) = o
fields_of _ = end

module _ (numbers : Numbers) where
  -- `String(v)`; in an array null is the empty text.
  unfoldable mutual
    pub to_text : Value → Str
    to_text null = codes "null"
    to_text (bool true) = codes "true"
    to_text (bool false) = codes "false"
    to_text (num n) = numbers.print n
    to_text (str s) = s
    to_text (arr xs) = join_items xs
    to_text (obj o) = codes "[object Object]"

    pub join_items : Items → Str
    join_items nil = []
    join_items (cons x xs) = item_text x ++ rest_items xs

    pub rest_items : Items → Str
    rest_items nil = []
    rest_items (cons x xs) = codes "," ++ (item_text x ++ rest_items xs)

    pub item_text : Value → Str
    item_text null = []
    item_text (bool true) = codes "true"
    item_text (bool false) = codes "false"
    item_text (num n) = numbers.print n
    item_text (str s) = s
    item_text (arr xs) = join_items xs
    item_text (obj o) = codes "[object Object]"

  -- `xs.map((x) => String(x))`
  unfoldable pub item_texts : Items → List Str
  unfolding to_text
  item_texts nil = []
  item_texts (cons x xs) = to_text x ∷ item_texts xs
