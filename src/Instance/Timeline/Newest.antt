-- ===== src/Instance/Timeline/Newest.antt =====
-- What web/src/components/instance/InstanceEvents.tsx shows over any sequence of events, said without its steps.
use mathlib.Core.Path.{subst}
use cloudflared_manager.Base.{
  ◌≡◌, refl, sym, ap, ◌∙◌, ℕ, zero, suc, Bool, true, false, not, ◌&&◌, str_eq_iff, Option, none,
  some, List, [], ◌∷◌, map, filter, if◌then◌else◌, Str, str_eq, is_empty, or_empty, take,
  Bool-cases, inl, inr,
}
use cloudflared_manager.Events.Types.{
  EventType, instance_state, instance_error, proxy_status, proxy_connections, config_changed,
  config_deleted, log_line, alert, binary_update, BusEvent,
}
use cloudflared_manager.Instance.Timeline.{
  Item, Timeline, TimelineSignal, shown, seen, is_foreign, kind_item, item_for, keep_items,
  add_item, timeline_step, timeline_steps,
}

-- The kinds of event that have an item: states and errors of an instance, changed configurations and alerts.
abbrev pub is_told : EventType → Bool
is_told instance_state = true
is_told instance_error = true
is_told proxy_status = false
is_told proxy_connections = false
is_told config_changed = true
is_told config_deleted = false
is_told log_line = false
is_told alert = true
is_told binary_update = false

-- An event of this instance, or one that names no instance.
abbrev pub is_own : Str → Option Str → Bool
is_own id none = true
is_own id (some []) = true
is_own id (some (c ∷ name)) = str_eq (c ∷ name) id

abbrev pub is_listed : Str → BusEvent → Bool
is_listed id e = is_own id e.config_id && is_told e.type_name

-- The events since the shown instance was chosen, with that instance, the newest event first; `es` are those
-- before the signals.
abbrev pub since_shown : List TimelineSignal → Str → List BusEvent → Str × List BusEvent
since_shown [] id es = (id, es)
since_shown (shown other ∷ signals) id es =
    since_shown signals other (if str_eq other id then es else [])
since_shown (seen e ∷ signals) id es = since_shown signals id (e ∷ es)

-- What names an item in the list.
abbrev pub of_item : Item → ℕ × Str
of_item it = (it.seq, it.ts)

abbrev pub of_event : BusEvent → ℕ × Str
of_event e = (e.seq, e.ts)

-- The newest hundred events of the instance.
abbrev pub newest : Str → List BusEvent → List (ℕ × Str)
newest id es = take 100 (map of_event (filter (is_listed id) es))

module _ {ℓ} {A : Type ℓ} where
  take-suc-take : (n : ℕ) (xs : List A) → take n (take (suc n) xs) ≡ take n xs
  take-suc-take zero xs = refl
  take-suc-take (suc n) [] = refl
  take-suc-take (suc n) (x ∷ xs) = ap (λ t. x ∷ t) (take-suc-take n xs)

  -- A bound on the old items does not show behind a new one.
  take-cons-take : (n : ℕ) (x : A) (xs : List A) → take n (x ∷ take n xs) ≡ take n (x ∷ xs)
  take-cons-take zero x xs = refl
  take-cons-take (suc n) x xs = ap (λ t. x ∷ t) (take-suc-take n xs)

map-take : {A B : Type 0} (f : A → B) (n : ℕ) (xs : List A) → map f (take n xs) ≡ take n (map f xs)
map-take f zero xs = refl
map-take f (suc n) [] = refl
map-take f (suc n) (x ∷ xs) = ap (λ t. f x ∷ t) (map-take f n xs)

-- The item of an event names the event, and there is none for the other kinds.
abbrev Names : BusEvent → Bool → Option Item → Type 0
Names e told none = told ≡ false
Names e told (some it) = (told ≡ true) × (of_item it ≡ of_event e)

kind_item-Names : (t : EventType) (e : BusEvent) → Names e (is_told t) (kind_item t e)
kind_item-Names instance_state e = (refl, refl)
kind_item-Names instance_error e = (refl, refl)
kind_item-Names proxy_status e = refl
kind_item-Names proxy_connections e = refl
kind_item-Names config_changed e = (refl, refl)
kind_item-Names config_deleted e = refl
kind_item-Names log_line e = refl
kind_item-Names alert e = (refl, refl)
kind_item-Names binary_update e = refl

not_foreign : (id : Str) (e : BusEvent) → is_foreign id e ≡ not (is_own id e.config_id)
not_foreign id e = go e.config_id
  where
    go :
        (o : Option Str)
        → (not (is_empty (or_empty o)) && not (str_eq (or_empty o) id)) ≡ not (is_own id o)
    go none = refl
    go (some []) = refl
    go (some (c ∷ name)) = refl

item_for-Names : (id : Str) (e : BusEvent) → Names e (is_listed id e) (item_for id e)
unfolding item_for
item_for-Names id e = elim (Bool-cases (is_own id e.config_id)) [
  | inl own ↦ rw (not_foreign id e, own) (kind_item-Names e.type_name e)
  | inr other ↦ rw (not_foreign id e, other) refl
]

-- One more event, on a list that names the newest ones.
add_item-newest :
    (id : Str) (e : BusEvent) (es : List BusEvent) (it : Option Item) (items : List Item)
    → Names e (is_listed id e) it
    → map of_item items ≡ newest id es
    → map of_item (add_item it items) ≡ newest id (e ∷ es)
add_item-newest id e es none items told h = rw told h
add_item-newest id e es (some it) items (told, same) h = rw told (
    map-take of_item keep_items (it ∷ items)
    ∙ ap (λ xs. take 100 (of_item it ∷ xs)) h
    ∙ ap (λ x. take 100 (x ∷ newest id es)) same
    ∙ take-cons-take 100 (of_event e) (map of_event (filter (is_listed id) es)))

-- What a run from `p` shows, when `id` is its instance and `es` are its events so far.
abbrev IsNewest : List TimelineSignal → Timeline → Str → List BusEvent → Type 0
IsNewest signals p id es =
    let (last, after) = since_shown signals id es in
    let q = timeline_steps signals p in (q.id ≡ last) × (map of_item q.items ≡ newest last after)

shown-IsNewest :
    (signals : List TimelineSignal) (p : Timeline) (other : Str) (es : List BusEvent) (same : Bool)
    → (same ≡ true → other ≡ p.id)
    → IsNewest signals p p.id es
    → IsNewest signals (record { id = other; items = [] }) other []
    → IsNewest signals
        (if same then p else record { id = other; items = [] })
        other
        (if same then es else [])
shown-IsNewest signals p other es true e h k =
    subst (λ id. IsNewest signals p id es) (sym (e refl)) h
shown-IsNewest signals p other es false e h k = k

timeline_steps-IsNewest :
    (signals : List TimelineSignal) (p : Timeline) (es : List BusEvent)
    → map of_item p.items ≡ newest p.id es
    → IsNewest signals p p.id es
unfolding timeline_steps timeline_step
timeline_steps-IsNewest [] p es h = (refl, h)
timeline_steps-IsNewest (shown other ∷ signals) p es h =
    shown-IsNewest signals p other es (str_eq other p.id) (str_eq_iff other p.id).0
      (timeline_steps-IsNewest signals p es h)
      (timeline_steps-IsNewest signals (record { id = other; items = [] }) [] refl)
timeline_steps-IsNewest (seen e ∷ signals) p es h =
    timeline_steps-IsNewest signals (record p { items = add_item (item_for p.id e) p.items })
      (e ∷ es) (add_item-newest p.id e es (item_for p.id e) p.items (item_for-Names p.id e) h)

-- The items name, in order, the newest hundred of the events that came since the shown instance was chosen, that are
-- of this instance or of none, and that are states, errors, changed configurations or alerts.
pub timeline_steps-take :
    (signals : List TimelineSignal) (first : Str)
    → let (id, events) = since_shown signals first [] in
      let p = timeline_steps signals (record { id = first; items = [] }) in
      (p.id ≡ id) × (map of_item p.items ≡ newest id events)
timeline_steps-take signals first =
    timeline_steps-IsNewest signals (record { id = first; items = [] }) [] refl
