-- ===== src/Events/Registry.antt =====
-- web/src/events/EventStreamContext.tsx: the listeners, a `Map` from keys to `Set`s of functions, both
-- in the order of insertion. A listener is the identity of its function, a number. Listeners are taken
-- not to subscribe or unsubscribe while an event is being dispatched.
pub mod Views
pub mod Laws
use cloudflared_manager.Base.{
  ℕ, Bool, true, false, not, ◌&&◌, ◌||◌, Option, none, some, List, [], ◌∷◌, ◌++◌, map, filter,
  if◌then◌else◌, ◌==◌, or_default,
}
use cloudflared_manager.Events.Types.{EventType, BusEvent, Key, star, on, key_eq}

abbrev pub Listener : Type 0
Listener = ℕ

abbrev pub Registry : Type 0
Registry = List (Key × List Listener)

-- `Map.get`
unfoldable pub map_get : Registry → Key → Option (List Listener)
map_get [] k = none
map_get ((j, set) ∷ reg) k = if key_eq j k then some set else map_get reg k

-- `Map.set`: a new key goes to the end.
pub map_set : Registry → Key → List Listener → Registry
map_set [] k set = (k, set) ∷ []
map_set ((j, old) ∷ reg) k set = if key_eq j k then (j, set) ∷ reg else (j, old) ∷ map_set reg k set

-- `Map.delete`
pub map_delete : Registry → Key → Registry
map_delete reg k = filter (λ e. not (key_eq e.0 k)) reg

-- `Set.has`
abbrev pub has : List Listener → Listener → Bool
has [] fn = false
has (g ∷ set) fn = g == fn || has set fn

-- `Set.add`
abbrev pub set_add : List Listener → Listener → List Listener
set_add set fn = if has set fn then set else set ++ fn ∷ []

-- `Set.delete`
abbrev pub set_delete : List Listener → Listener → List Listener
set_delete set fn = filter (λ g. not (g == fn)) set

-- `!types || types.length === 0 ? ['*'] : types`
abbrev pub keys_of : Option (List EventType) → List Key
keys_of none = star ∷ []
keys_of (some []) = star ∷ []
keys_of (some (t ∷ types)) = map on (t ∷ types)

-- One round of the loop in `subscribe`. A missing set is made and stored, then the listener is added
-- to the stored set.
pub add_under : Listener → Registry → Key → Registry
unfolding map_get map_set
add_under fn reg k = map_set reg k (set_add (or_default (map_get reg k) []) fn)

pub add_all : Listener → Registry → List Key → Registry
add_all fn reg [] = reg
add_all fn reg (k ∷ keys) = add_all fn (add_under fn reg k) keys

unfoldable pub subscribe : Registry → Option (List EventType) → Listener → Registry
unfolding add_all add_under
subscribe reg types fn = add_all fn reg (keys_of types)

-- What is left of a set goes back, and an empty one takes its key away.
abbrev pub store_left : Registry → Key → List Listener → Registry
store_left reg k [] = map_delete reg k
store_left reg k (g ∷ set) = map_set reg k (g ∷ set)

-- One round of the loop in the function that `subscribe` returns.
pub delete_under : Listener → Registry → Key → Registry
unfolding map_get map_set map_delete
delete_under fn reg k = elim (map_get reg k) [
  | none ↦ reg
  | some set ↦ store_left reg k (set_delete set fn)
]

pub delete_all : Listener → Registry → List Key → Registry
delete_all fn reg [] = reg
delete_all fn reg (k ∷ keys) = delete_all fn (delete_under fn reg k) keys

unfoldable pub unsubscribe : Registry → Option (List EventType) → Listener → Registry
unfolding delete_all delete_under
unsubscribe reg types fn = delete_all fn reg (keys_of types)

-- The listeners that `dispatch` calls for an event, in order.
unfoldable pub dispatch : Registry → BusEvent → List Listener
unfolding map_get
dispatch reg evt =
    or_default (map_get reg star) [] ++ or_default (map_get reg (on evt.type_name)) []
