-- ===== src/Configs/Page/Tokens.antt =====
-- The tokens that web/src/pages/Configs.tsx sends over any sequence of signals.
use cloudflared_manager.Base.{
  ◌≡◌, refl, sym, ap, ◌∙◌, ◌⊎◌, inl, inr, true, false, ◌||◌, Option, none, some, List, [], ◌∷◌, map,
  Str, codes, str_eq, is_empty, All, All-append, Bool-cases, Option-cases, if_intro,
}
use cloudflared_manager.Api.Types.{str, Fields, end, field, Snapshot, MgrMeta}
use cloudflared_manager.Api.Json.{lookup, lookup-put_same}
use cloudflared_manager.Token.{extract_cloudflared_token}
use cloudflared_manager.Configs.{Yaml, delete_field, mapping_of, reordered}
use cloudflared_manager.Configs.State.{
  Page, Request, get_status, put_config, post_config, EditForm, Signal, mount, poll, config_changed,
  open_create, cancel, save, duplicate_clicked, cancel_duplicate, drag_end, toggle_list,
  state_event, deleted_event, listed, status_of, clicked, answered, delete_clicked, delete_answered,
  open_edit, loaded, edit_form, edit_yaml, save_answered, open_duplicate, set_dup_new,
  duplicate_answered, set_active, drag_start, drag_over, row_drop, reorder_answered,
}
use cloudflared_manager.Configs.Page.{
  with_token, save_request, on_save, on_drop, on_state, on_deleted, on_drag_over, on_duplicate,
  meta_of, handle, run, state_of,
}

lookup-delete_field : (k : Str) (o : Fields) → lookup k (delete_field k o) ≡ none
unfolding lookup delete_field
lookup-delete_field k end = refl
lookup-delete_field k (field j v o) = elim (Bool-cases (str_eq j k)) [
  | inl same ↦ rw same (lookup-delete_field k o)
  | inr other ↦ rw (other, other) (lookup-delete_field k o)
]

-- The tokens that were put into the form.
abbrev pub typed : List Signal → List Str
typed [] = []
typed (edit_form form ∷ signals) = form.token ∷ typed signals
typed (_ ∷ signals) = typed signals

module _ (P : Str → Type 0) where
  -- The configuration has no token, or what is extracted of a text of which `P` holds.
  abbrev pub HasToken : Fields → Type 0
  HasToken config =
      (lookup (codes "token") config ≡ none)
      ⊎ ((text : Str) × (is_empty text ≡ false)
          × (lookup (codes "token") config ≡ some (str (extract_cloudflared_token text)))
          × P text)

  abbrev pub SendsToken : Request → Type 0
  SendsToken (put_config id config meta) = HasToken config
  SendsToken (post_config id config meta) = HasToken config
  SendsToken _ = Unit

  abbrev IsHeld : Page → Type 0
  IsHeld p = (p.form.token ≡ []) ⊎ P p.form.token

  abbrev Keeps : Page × List Request → Type 0
  Keeps out = IsHeld out.0 × All SendsToken out.1

  with_token-HasToken :
      (token : Str) (parsed : Fields) → (token ≡ []) ⊎ P token → HasToken (with_token token parsed)
  with_token-HasToken token parsed h =
      if_intro HasToken (is_empty token) _ _ (λ e. inl (lookup-delete_field (codes "token") parsed))
        (λ e. inr (
          token,
          e,
          lookup-put_same (codes "token") _ (delete_field (codes "token") parsed),
          elim h [
            | inl gone ↦ let clash : true ≡ false = ap is_empty (sym gone) ∙ e in cc
            | inr fine ↦ fine
          ],
        ))

  save_request-SendsToken :
      (editing : Option Str) (form : EditForm) (config : Fields) (meta : MgrMeta)
      → HasToken config
      → SendsToken (save_request editing form config meta)
  save_request-SendsToken none form config meta h = h
  save_request-SendsToken (some id) form config meta h =
      if_intro SendsToken (is_empty id) _ _ (λ e. h) (λ e. h)

  on_save-Keeps : (parsed : Option Fields) (p : Page) → IsHeld p → Keeps (on_save parsed p)
  on_save-Keeps none p h = (h, tt)
  on_save-Keeps (some parsed) p h = (
    h,
    (
      save_request-SendsToken p.editing p.form _ (meta_of p)
          (with_token-HasToken p.form.token parsed h),
      tt,
    ),
  )

  statuses-SendsToken :
      (configs : List Snapshot) → All SendsToken (map (λ (c : Snapshot). get_status c.id) configs)
  statuses-SendsToken [] = tt
  statuses-SendsToken (c ∷ configs) = (tt, statuses-SendsToken configs)

  on_drop-Keeps :
      (source : Option Str) (target : Str) (p : Page) → IsHeld p → Keeps (on_drop source target p)
  on_drop-Keeps none target p h = (h, tt)
  on_drop-Keeps (some src) target p h =
      if_intro Keeps (is_empty src || str_eq src target) (p, []) _ (λ e. (h, tt))
        (λ e. elim (Option-cases (reordered src target p.configs)) [
          | inl none_moved ↦ rw none_moved (h, tt)
          | inr (next, moved) ↦ rw moved (h, (tt, tt))
        ])

  on_duplicate-Keeps : (p : Page) → IsHeld p → Keeps (on_duplicate p)
  on_duplicate-Keeps p h = if_intro Keeps _ (_, _) (_, _) (λ e. (h, tt)) (λ e. (h, (tt, tt)))

  on_state-IsHeld :
      (id : Option Str) (state : Str) (p : Page) → IsHeld p → IsHeld (on_state id state p)
  on_state-IsHeld none state p h = h
  on_state-IsHeld (some id) state p h =
      if_intro IsHeld (is_empty id || is_empty state) _ _ (λ e. h) (λ e. h)

  on_deleted-IsHeld : (id : Option Str) (p : Page) → IsHeld p → IsHeld (on_deleted id p)
  on_deleted-IsHeld none p h = h
  on_deleted-IsHeld (some id) p h = if_intro IsHeld (is_empty id) _ _ (λ e. h) (λ e. h)

  on_drag_over-IsHeld :
      (source : Option Str) (id : Str) (p : Page) → IsHeld p → IsHeld (on_drag_over source id p)
  on_drag_over-IsHeld none id p h = h
  on_drag_over-IsHeld (some src) id p h = h

  handle-Keeps :
      (yaml : Yaml) (s : Signal) (p : Page)
      → IsHeld p
      → All P (typed (s ∷ []))
      → Keeps (handle yaml s p)
  unfolding handle
  handle-Keeps yaml mount p h k = (h, (tt, tt))
  handle-Keeps yaml poll p h k = (h, statuses-SendsToken p.configs)
  handle-Keeps yaml config_changed p h k = (h, (tt, tt))
  handle-Keeps yaml (state_event id payload) p h k = (on_state-IsHeld id (state_of payload) p h, tt)
  handle-Keeps yaml (deleted_event id) p h k = (on_deleted-IsHeld id p h, tt)
  handle-Keeps yaml (listed captured none) p h k = (h, tt)
  handle-Keeps yaml (listed captured (some items)) p h k = (h, tt)
  handle-Keeps yaml (status_of id none) p h k = (h, tt)
  handle-Keeps yaml (status_of id (some snap)) p h k = (h, tt)
  handle-Keeps yaml (clicked what id) p h k = (h, (tt, tt))
  handle-Keeps yaml (answered what id done) p h k = (h, (tt, tt))
  handle-Keeps yaml (delete_clicked id) p h k = (h, (tt, tt))
  handle-Keeps yaml (delete_answered id captured true) p h k = (h, tt)
  handle-Keeps yaml (delete_answered id captured false) p h k = (h, tt)
  handle-Keeps yaml open_create p h k = (inl refl, tt)
  handle-Keeps yaml (open_edit id) p h k = (h, (tt, tt))
  handle-Keeps yaml (loaded none) p h k = (h, tt)
  handle-Keeps yaml (loaded (some env)) p h k = (inl refl, tt)
  handle-Keeps yaml (edit_form form) p h (good, k) = (inr good, tt)
  handle-Keeps yaml (edit_yaml text) p h k = (h, tt)
  handle-Keeps yaml cancel p h k = (h, tt)
  handle-Keeps yaml save p h k = on_save-Keeps (mapping_of (yaml.parse p.yaml_text)) p h
  handle-Keeps yaml (save_answered editing new_id captured false) p h k = (h, tt)
  handle-Keeps yaml (save_answered none new_id captured true) p h k = (h, (tt, tt))
  handle-Keeps yaml (save_answered (some id) new_id captured true) p h k =
      (if_intro IsHeld (is_empty id) _ _ (λ e. h) (λ e. h), (tt, tt))
  handle-Keeps yaml (open_duplicate id) p h k = (h, tt)
  handle-Keeps yaml (set_dup_new id) p h k = (h, tt)
  handle-Keeps yaml duplicate_clicked p h k = on_duplicate-Keeps p h
  handle-Keeps yaml (duplicate_answered captured true) p h k = (h, (tt, tt))
  handle-Keeps yaml (duplicate_answered captured false) p h k = (h, tt)
  handle-Keeps yaml cancel_duplicate p h k = (h, tt)
  handle-Keeps yaml (set_active id) p h k = (h, tt)
  handle-Keeps yaml (drag_start id) p h k = (h, tt)
  handle-Keeps yaml (drag_over id) p h k = (on_drag_over-IsHeld p.drag id p h, tt)
  handle-Keeps yaml drag_end p h k = (h, tt)
  handle-Keeps yaml (row_drop target) p h k =
      on_drop-Keeps p.drag target (record p { drag = none; over = none }) h
  handle-Keeps yaml (reorder_answered captured true) p h k = (h, tt)
  handle-Keeps yaml (reorder_answered captured false) p h k = (h, (tt, tt))
  handle-Keeps yaml toggle_list p h k = (h, tt)

  typed-cons :
      (s : Signal) (signals : List Signal)
      → All P (typed (s ∷ signals))
      → All P (typed (s ∷ [])) × All P (typed signals)
  typed-cons (edit_form form) signals (good, k) = ((good, tt), k)
  typed-cons s signals k = (tt, k)

  run-Keeps :
      (yaml : Yaml) (signals : List Signal) (p : Page)
      → IsHeld p
      → All P (typed signals)
      → Keeps (run yaml signals p)
  unfolding run
  run-Keeps yaml [] p h k = (h, tt)
  run-Keeps yaml (s ∷ signals) p h k =
      let (here, later) = typed-cons s signals k in
      let (h1, first) = handle-Keeps yaml s p h here in
      let (h2, others) = run-Keeps yaml signals (handle yaml s p).0 h1 later in
      (h2, All-append SendsToken (handle yaml s p).1 _ first others)

  -- Over any signals, from a page with no token in its form, each configuration that is sent has no token,
  -- whatever the YAML says, or what is extracted of a text that is not empty and was put into the token
  -- field: what holds of all of those holds of it.
  pub run-SendsToken :
      (yaml : Yaml) (signals : List Signal) (p : Page)
      → p.form.token ≡ []
      → All P (typed signals)
      → All SendsToken (run yaml signals p).1
  run-SendsToken yaml signals p blank k = (run-Keeps yaml signals p (inl blank) k).1
