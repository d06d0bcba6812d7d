-- ===== src/Configs/Tests.antt =====
-- The theorems on the page of web/src/pages/Configs.tsx at concrete inputs, with a library that reads and
-- prints the empty mapping and one other.
use mathlib.Core.Path.{subst}
use mathlib.Core.List.{Perm}
use mathlib.Core.Bool.{and-eq-true_iff}
use cloudflared_manager.Base.{
  ℕ, ◌≡◌, refl, sym, Bool, true, false, ◌&&◌, Option, none, some, [], ◌∷◌, if◌then◌else◌, ◌==◌,
  get_elem?, Str, codes, str_eq, str_eq_iff, trim, Bool-cases, inl, inr, All,
}
use cloudflared_manager.Api.Types.{
  Value, null, bool, num, str, arr, obj, Fields, end, field, Snapshot, MgrMeta, ConfigEnvelope,
}
use cloudflared_manager.Configs.Hint.{yaml_hint}
use cloudflared_manager.Configs.{Yaml, delete_field, place_of, reordered}
use cloudflared_manager.Configs.State.{
  Page, empty_form, get_config, put_config, open_edit, loaded, save, edit_form, EditForm,
}
use cloudflared_manager.Configs.Page.{run}
use cloudflared_manager.Configs.Page.Editing.{IsYaml, open_edit-save}
use cloudflared_manager.Configs.Page.Rows.{reordered_lem}
use cloudflared_manager.Configs.Page.Tokens.{SendsToken, run-SendsToken}

abbrev pinned : Fields
pinned = field (codes "binaryVersion") (str (codes "current")) end

abbrev pinned_text : Str
pinned_text = codes "binaryVersion: current"

print : Fields → Option Str
print end = some (codes "{}")
print (field k (str v) end) =
    if str_eq k (codes "binaryVersion") && str_eq v (codes "current")
    then some pinned_text
    else none
print (field k v o) = none

-- The text behind the comment lines at its front; `inside` tells whether the reader is in one.
skip_comments : Bool → Str → Str
skip_comments inside [] = []
skip_comments true (c ∷ s) = if c == 10 then skip_comments false s else skip_comments true s
skip_comments false (c ∷ s) = if c == b'#' then skip_comments true s else c ∷ s

abbrev read_text : Str → Option Value
read_text s =
    if str_eq s []
    then some null
    else if str_eq s (codes "{}")
    then some (obj end)
    else if str_eq s pinned_text
    then some (obj pinned)
    else none

unfoldable small_yaml : Yaml
unfolding print skip_comments
small_yaml = record { parse = λ s. read_text (skip_comments false s); stringify = print }

abbrev IsPrinted : Fields → Str → Type 0
IsPrinted o text =
    (small_yaml.parse text ≡ some (obj o)) × (str_eq (trim text) (codes "{}") ≡ true → o ≡ end)

print-IsPrinted : (o : Fields) (text : Str) → print o ≡ some text → IsPrinted o text
unfolding small_yaml trim
print-IsPrinted end text h =
    let same : codes "{}" ≡ text = cc in subst (IsPrinted end) same (refl, λ h. refl)
print-IsPrinted (field k (str v) end) text h =
    let key_test = str_eq k (codes "binaryVersion") in
    let value_test = str_eq v (codes "current") in
    elim (Bool-cases (key_test && value_test)) [
      | inl hit ↦
          let (ek, ev) = (and-eq-true_iff key_test value_test).0 hit in
          let printed : some pinned_text ≡ some text = rw hit at h in
          let same : pinned_text ≡ text = cc in
          subst (λ j. IsPrinted (field j (str v) end) text)
            (sym ((str_eq_iff k (codes "binaryVersion")).0 ek))
            (subst (λ w. IsPrinted (field (codes "binaryVersion") (str w) end) text)
              (sym ((str_eq_iff v (codes "current")).0 ev))
              (subst (IsPrinted pinned) same (refl, λ h. cc)))
      | inr miss ↦ let impossible : none ≡ some text = rw miss at h in cc
    ]
print-IsPrinted (field k (str v) (field j w o)) text h = cc
print-IsPrinted (field k null o) text h = cc
print-IsPrinted (field k (bool b) o) text h = cc
print-IsPrinted (field k (num n) o) text h = cc
print-IsPrinted (field k (arr xs) o) text h = cc
print-IsPrinted (field k (obj x) o) text h = cc

small_yaml-IsYaml : IsYaml small_yaml
unfolding small_yaml yaml_hint
small_yaml-IsYaml = record {
  parse_hint = λ text. refl;
  parse_empty = refl;
  stringify_braces = λ o text h k. (print-IsPrinted o text h).1 k;
  parse-stringify = λ o text h. (print-IsPrinted o text h).0;
}

abbrev row : Str → Snapshot
row id = record {
  id = id;
  name = id;
  path = [];
  log_path = [];
  state = codes "started";
  last_error = some (codes "exit status 1");
  started_at = none;
  stopped_at = none;
  binary_version = none;
  pid = some 42;
  metrics_port = none;
}

abbrev stopped_row : Str → Snapshot
stopped_row id = record (row id) { state = codes "stopped"; last_error = none; pid = none }

abbrev page : Page
page = record {
  configs = row (codes "a") ∷ row (codes "b") ∷ row (codes "c") ∷ [];
  busy = λ id. false;
  active = [];
  modal_open = false;
  editing = none;
  yaml_text = [];
  saving = false;
  has_token = false;
  dup_open = false;
  dup_source = [];
  dup_new = [];
  form = empty_form;
  drag = none;
  over = none;
  collapsed = false;
  notices = [];
}

abbrev meta : MgrMeta
meta = record { name = codes "A"; manual_start = true }

abbrev envelope : ConfigEnvelope
envelope = record {
  snap = row (codes "a");
  config = some (field (codes "token") (str (codes "masked")) pinned);
  cfdmgr = some meta;
  has_token = some true;
}

open_edit-save_example :
    (run small_yaml (open_edit (codes "a") ∷ loaded (some envelope) ∷ save ∷ []) page).1
    ≡ get_config (codes "a")
      ∷ put_config
          (codes "a")
          (delete_field (codes "token") (field (codes "token") (str (codes "masked")) pinned))
          meta
      ∷ []
unfolding small_yaml delete_field
open_edit-save_example =
    open_edit-save small_yaml small_yaml-IsYaml page (codes "a") envelope
      (field (codes "token") (str (codes "masked")) pinned) meta pinned_text refl refl refl refl
      refl

reordered_test :
    reordered (codes "c") (codes "a") page.configs
    ≡ some (row (codes "c") ∷ row (codes "a") ∷ row (codes "b") ∷ [])
unfolding reordered
reordered_test = refl

reordered_lem_example :
    Perm (row (codes "c") ∷ row (codes "a") ∷ row (codes "b") ∷ []) page.configs
    × ((to : ℕ) × (moved : Snapshot) × (place_of (codes "a") page.configs ≡ some to)
        × (moved.id ≡ codes "c")
        × (get_elem? (row (codes "c") ∷ row (codes "a") ∷ row (codes "b") ∷ []) to ≡ some moved))
reordered_lem_example =
    reordered_lem (codes "c") (codes "a") page.configs
      (row (codes "c") ∷ row (codes "a") ∷ row (codes "b") ∷ []) reordered_test

abbrev typed_form : EditForm
typed_form = record empty_form { id = codes "a"; token = codes "eyJx" }

run-SendsToken_example :
    All
      (SendsToken (λ t. t ≡ codes "eyJx"))
      (run small_yaml
        (open_edit (codes "a") ∷ loaded (some envelope) ∷ edit_form typed_form ∷ save ∷ [])
        page).1
run-SendsToken_example =
    run-SendsToken (λ t. t ≡ codes "eyJx") small_yaml
      (open_edit (codes "a") ∷ loaded (some envelope) ∷ edit_form typed_form ∷ save ∷ []) page refl
      (refl, tt)
