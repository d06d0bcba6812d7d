-- ===== src/Configs.antt =====
-- web/src/pages/Configs.tsx: the page with the list of instances and the editor of their configurations.
-- The YAML library is a parameter.
pub mod Hint
pub mod State
pub mod Page
mod Tests
use cloudflared_manager.Base.{
  ℕ, ◌-◌, Bool, true, false, not, ◌&&◌, Option, none, some, List, [], ◌∷◌, ◌++◌, map, filter,
  if◌then◌else◌, leb, ltb, length, take, drop, Str, codes, str_eq, is_empty, or_empty, trim,
  starts_with, find_index, get_elem?, remove,
}
use cloudflared_manager.Api.Json.{truthy}
use cloudflared_manager.Token.{is_token_unit, token_head, extract_cloudflared_token}
use cloudflared_manager.Api.Types.{Value, obj, null, Fields, end, field, Snapshot, ConnectorConfig}

-- The calls of the library `yaml`; what throws gives nothing.
pub record Yaml : Type 0 where
  pub parse : Str → Option Value
  pub stringify : Fields → Option Str

-- `delete o[k]`
unfoldable pub delete_field : Str → Fields → Fields
delete_field k end = end
delete_field k (field j v o) = if str_eq j k then delete_field k o else field j v (delete_field k o)

abbrev pub shown_yaml : Option Str → Str
shown_yaml none = []
shown_yaml (some text) = if str_eq (trim text) (codes "{}") then [] else text

unfoldable pub config_to_yaml : Yaml → ConnectorConfig → Str
unfolding delete_field
config_to_yaml yaml config = shown_yaml (yaml.stringify (delete_field (codes "token") config))

-- `parseYaml(yamlText) || {}` and the test behind it: a mapping, or an error.
abbrev pub object_of : Value → Option Fields
object_of (obj o) = some o
object_of _ = none

abbrev pub mapping_of : Option Value → Option Fields
mapping_of none = none
mapping_of (some v) = if truthy (some v) then object_of v else some end

-- `o.x ?? …` of a field that `{ ...c, ...snap }` takes from `snap` where it is there.
abbrev pub spread {ℓ} : {A : Type ℓ} → Option A → Option A → Option A
spread none old = old
spread (some x) old = some x

-- `{ ...c, ...snap }`
abbrev pub merge : Snapshot → Snapshot → Snapshot
merge c snap = record {
  id = snap.id;
  name = snap.name;
  path = snap.path;
  log_path = snap.log_path;
  state = snap.state;
  last_error = spread snap.last_error c.last_error;
  started_at = spread snap.started_at c.started_at;
  stopped_at = spread snap.stopped_at c.stopped_at;
  binary_version = spread snap.binary_version c.binary_version;
  pid = spread snap.pid c.pid;
  metrics_port = spread snap.metrics_port c.metrics_port;
}

-- `prev.map((c) => (c.id === id ? … : c))`
abbrev pub update_at : Str → (Snapshot → Snapshot) → List Snapshot → List Snapshot
update_at id f = map (λ (c : Snapshot). if str_eq c.id id then f c else c)

abbrev pub without : Str → List Snapshot → List Snapshot
without id = filter (λ (c : Snapshot). not (str_eq c.id id))

-- `findIndex`, `splice` and `splice` in `handleReorderDrop`; `none` where an id is not in the list.
abbrev pub move_to : ℕ → Option Snapshot → List Snapshot → Option (List Snapshot)
move_to to none left = none
move_to to (some moved) left = some (take to left ++ moved ∷ drop to left)

abbrev pub place_of : Str → List Snapshot → Option ℕ
place_of id = find_index (λ (c : Snapshot). str_eq c.id id)

abbrev pub moved_between : Option ℕ → Option ℕ → List Snapshot → Option (List Snapshot)
moved_between (some from) (some to) cs = move_to to (get_elem? cs from) (remove cs from)
moved_between _ _ cs = none

unfoldable pub reordered : Str → Str → List Snapshot → Option (List Snapshot)
reordered src target cs = moved_between (place_of src cs) (place_of target cs) cs

abbrev pub all : (ℕ → Bool) → Str → Bool
all p [] = true
all p (c ∷ s) = p c && all p s

abbrev pub is_token : Str → Bool
is_token t = starts_with t token_head && not (is_empty (drop 3 t)) && all is_token_unit (drop 3 t)

-- Whether a pasted token is a plausible one: /^eyJ[A-Za-z0-9_\-+/=]+$/ and a length of 100 at least.
abbrev pub looks_like_token : Str → Bool
looks_like_token t = is_token t && leb 100 (length t)

-- What the field's hint says of the text in it.
pub data TokenHint : Type 0 where
  recognised : Str → ℕ → Bool → TokenHint
  unrecognised kept unset wanted : TokenHint

-- `${t.slice(0, 4)}…${t.slice(-4)}`
abbrev pub mask : Str → Str
mask t = take 4 t ++ (codes "…" ++ drop (length t - 4) t)

abbrev pub empty_hint : Bool → Bool → TokenHint
empty_hint false has_token = wanted
empty_hint true false = unset
empty_hint true true = kept

-- `editing` tells whether there is an `editingId`.
unfoldable pub token_hint : Option Str → Bool → Bool → TokenHint
token_hint watched editing has_token =
    let raw = trim (or_empty watched) in
    if is_empty raw
    then empty_hint editing has_token
    else (let t = extract_cloudflared_token raw in
        if looks_like_token t
        then recognised (mask t) (length t) (not (str_eq t raw))
        else unrecognised)
