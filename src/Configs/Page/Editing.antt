-- ===== src/Configs/Page/Editing.antt =====
-- The editor of web/src/pages/Configs.tsx: a configuration that is opened and saved.
use mathlib.Core.Path.{ap₂}
use cloudflared_manager.Base.{
  ◌≡◌, refl, sym, ap, ◌∙◌, Bool, true, false, some, [], ◌∷◌, ◌++◌, append-nil, or_else, Str, codes,
  str_eq, is_empty, trim, Bool-cases, inl, inr,
}
use cloudflared_manager.Api.Types.{null, obj, Fields, end, field, MgrMeta, ConfigEnvelope}
use cloudflared_manager.Configs.Hint.{yaml_hint}
use cloudflared_manager.Configs.State.{get_config, put_config, Page, open_edit, loaded, save}
use cloudflared_manager.Configs.{Yaml, delete_field, config_to_yaml, shown_yaml, mapping_of}
use cloudflared_manager.Configs.Page.{meta_manual, on_loaded, on_save, handle, run}

-- What the page relies on of the YAML library: the comment above the text is no content, an empty text is
-- null, only the empty mapping is printed as empty braces, and what was printed is read again.
pub record IsYaml (yaml : Yaml) : Type 0 where
  pub parse_hint : (text : Str) → yaml.parse (yaml_hint ++ text) ≡ yaml.parse text
  pub parse_empty : yaml.parse [] ≡ some null
  pub stringify_braces :
      (o : Fields) (text : Str)
      → yaml.stringify o ≡ some text
      → str_eq (trim text) (codes "{}") ≡ true
      → o ≡ end
  pub parse-stringify :
      (o : Fields) (text : Str) → yaml.stringify o ≡ some text → yaml.parse text ≡ some (obj o)

delete_field_idempotent :
    (k : Str) (o : Fields) → delete_field k (delete_field k o) ≡ delete_field k o
unfolding delete_field
delete_field_idempotent k end = refl
delete_field_idempotent k (field j v o) = elim (Bool-cases (str_eq j k)) [
  | inl same ↦ rw same (delete_field_idempotent k o)
  | inr other ↦ rw (other, other) (ap (field j v) (delete_field_idempotent k o))
]

or_else_full : (s d : Str) → is_empty s ≡ false → or_else s d ≡ s
or_else_full [] d h = cc
or_else_full (c ∷ s) d h = refl

saved_request :
    (q : Page) (id : Str) (o : Fields)
    → q.editing ≡ some id
    → is_empty id ≡ false
    → q.form.token ≡ []
    → is_empty q.form.name ≡ false
    → (on_save (some o) q).1
      ≡ put_config id
          (delete_field (codes "token") o)
          (record { name = q.form.name; manual_start = q.form.manual_start })
        ∷ []
saved_request q id o editing named token name =
    simp (editing, token, named, or_else_full q.form.name id name)

module _ (yaml : Yaml) (laws : IsYaml yaml) where
  open laws use {parse_hint, parse_empty, stringify_braces, parse-stringify}

  mapping_of-shown_yaml :
      (o : Fields) (text : Str)
      → yaml.stringify o ≡ some text
      → mapping_of (yaml.parse (shown_yaml (some text))) ≡ some o
  mapping_of-shown_yaml o text printed = elim (Bool-cases (str_eq (trim text) (codes "{}"))) [
    | inl bare ↦ rw (bare, parse_empty) (ap some (sym (stringify_braces o text printed bare)))
    | inr full ↦ rw (full, parse-stringify o text printed)
  ]

  -- The editor's text stands for the configuration that was loaded, without its token.
  mapping_of-config_to_yaml :
      (config : Fields) (text : Str)
      → yaml.stringify (delete_field (codes "token") config) ≡ some text
      → mapping_of (yaml.parse (yaml_hint ++ config_to_yaml yaml config))
        ≡ some (delete_field (codes "token") config)
  unfolding config_to_yaml
  mapping_of-config_to_yaml config text printed =
      rw (parse_hint, printed)
        (mapping_of-shown_yaml (delete_field (codes "token") config) text printed)

  -- A configuration that arrives is saved, as it is but for its token, under the id that is being edited.
  loaded-save :
      (p : Page) (id : Str) (env : ConfigEnvelope) (config : Fields) (meta : MgrMeta) (text : Str)
      → p.editing ≡ some id
      → is_empty id ≡ false
      → env.config ≡ some config
      → env.cfdmgr ≡ some meta
      → is_empty meta.name ≡ false
      → yaml.stringify (delete_field (codes "token") config) ≡ some text
      → (run yaml (loaded (some env) ∷ save ∷ []) p).1
        ≡ put_config id (delete_field (codes "token") config) meta ∷ []
  unfolding run handle
  loaded-save p id env config meta text editing named c m n printed =
      let q = on_loaded yaml (some env) p in
      let parsed : mapping_of (yaml.parse q.yaml_text)
          ≡ some (delete_field (codes "token") config) =
        rw c (mapping_of-config_to_yaml config text printed) in
      let name : q.form.name ≡ meta.name = rw m (or_else_full meta.name _ n) in
      ap (λ o. (on_save o q).1 ++ []) parsed
      ∙ append-nil _
      ∙ saved_request q id (delete_field (codes "token") config) editing named refl
          (ap is_empty name ∙ n)
      ∙ ap₂ (λ (c : Fields) (m : MgrMeta). put_config id c m ∷ [])
          (delete_field_idempotent (codes "token") config)
          (ap₂ (λ (n : Str) (b : Bool). record { name = n; manual_start = b }) name
            (ap meta_manual m))

  -- An instance that is opened in the editor and saved as it is keeps its configuration, sent
  -- without the token under the instance's id, name and start mode, if id and name are not empty,
  -- the YAML library prints the configuration and `IsYaml` holds of it.
  pub open_edit-save :
      (p : Page) (id : Str) (env : ConfigEnvelope) (config : Fields) (meta : MgrMeta) (text : Str)
      → is_empty id ≡ false
      → env.config ≡ some config
      → env.cfdmgr ≡ some meta
      → is_empty meta.name ≡ false
      → yaml.stringify (delete_field (codes "token") config) ≡ some text
      → (run yaml (open_edit id ∷ loaded (some env) ∷ save ∷ []) p).1
        ≡ get_config id ∷ put_config id (delete_field (codes "token") config) meta ∷ []
  unfolding run handle
  open_edit-save p id env config meta text named c m n printed =
      ap (λ rs. get_config id ∷ rs)
        (loaded-save (record p { editing = some id }) id env config meta text refl named c m n
          printed)

  -- Where a second instance is opened before the first one's configuration has arrived, and arrives
  -- before it, a save sends the first one's configuration and name under the second one's id, under
  -- the conditions of `open_edit-save`.
  pub open_edit_overtaken :
      (p : Page) (first second : Str) (env other : ConfigEnvelope) (config : Fields)
      (meta : MgrMeta) (text : Str)
      → is_empty second ≡ false
      → env.config ≡ some config
      → env.cfdmgr ≡ some meta
      → is_empty meta.name ≡ false
      → yaml.stringify (delete_field (codes "token") config) ≡ some text
      → (run yaml
          (open_edit first ∷ open_edit second ∷ loaded (some other) ∷ loaded (some env) ∷ save ∷ [])
          p).1
        ≡ get_config first
          ∷ get_config second
          ∷ put_config second (delete_field (codes "token") config) meta
          ∷ []
  unfolding run handle
  open_edit_overtaken p first second env other config meta text named c m n printed =
      ap (λ rs. get_config first ∷ get_config second ∷ rs)
        (loaded-save (on_loaded yaml (some other) (record p { editing = some second })) second env
          config meta text refl named c m n printed)
