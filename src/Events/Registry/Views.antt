-- ===== src/Events/Registry/Views.antt =====
-- The map and set operations of the listener registry, seen through who is subscribed to what.
use cloudflared_manager.Base.{
  ◌≡◌, refl, sym, ◌∙◌, Bool, true, not, ◌&&◌, ◌||◌, none, some, List, [], ◌∷◌, ◌++◌, if◌then◌else◌,
  ◌==◌, or_default, arith, Bool-cases, Option-cases, inl, inr,
}
use cloudflared_manager.Events.Types.{Key, key_eq}
use cloudflared_manager.Events.Registry.{
  Listener, Registry, map_get, map_set, map_delete, has, set_add, set_delete, add_under,
  delete_under, store_left,
}

pub map_get-map_set :
    (reg : Registry) (k j : Key) (set : List Listener)
    → map_get (map_set reg k set) j ≡ (if key_eq k j then some set else map_get reg j)
unfolding map_get map_set
map_get-map_set [] k j set = refl
map_get-map_set ((i, old) ∷ reg) k j set = ground (arith, map_get-map_set reg k j set)

pub map_get-map_delete :
    (reg : Registry) (k j : Key)
    → map_get (map_delete reg k) j ≡ (if key_eq k j then none else map_get reg j)
unfolding map_get map_delete
map_get-map_delete [] k j = ground arith
map_get-map_delete ((i, old) ∷ reg) k j = ground (arith, map_get-map_delete reg k j)

pub has-append :
    (set rest : List Listener) (g : Listener) → has (set ++ rest) g ≡ has set g || has rest g
has-append [] rest g = refl
has-append (x ∷ set) rest g = ground (arith, has-append set rest g)

has_of_eq :
    (set : List Listener) (fn g : Listener) → has set fn ≡ true → has set g ≡ has set g || fn == g
has_of_eq [] fn g h = cc
has_of_eq (x ∷ set) fn g h = ground (arith, has_of_eq set fn g)

pub has-set_add :
    (set : List Listener) (fn g : Listener) → has (set_add set fn) g ≡ has set g || fn == g
has-set_add set fn g = elim (Bool-cases (has set fn)) [
  | inl old ↦ rw old (has_of_eq set fn g old)
  | inr new ↦ rw (new, has-append) (ground arith)
]

pub has-set_delete :
    (set : List Listener) (fn g : Listener) → has (set_delete set fn) g ≡ has set g && not (fn == g)
has-set_delete [] fn g = refl
has-set_delete (x ∷ set) fn g = ground (arith, has-set_delete set fn g)

-- Whether a listener is called for what is filed under a key.
abbrev pub subscribed : Registry → Key → Listener → Bool
subscribed reg k g = has (or_default (map_get reg k) []) g

map_get_of_key_eq : (reg : Registry) (k j : Key) → key_eq k j ≡ true → map_get reg k ≡ map_get reg j
unfolding map_get
map_get_of_key_eq [] k j e = refl
map_get_of_key_eq ((i, set) ∷ reg) k j e = ground (arith, map_get_of_key_eq reg k j e)

pub subscribed-add_under :
    (fn : Listener) (reg : Registry) (k j : Key) (g : Listener)
    → subscribed (add_under fn reg k) j g ≡ subscribed reg j g || key_eq k j && fn == g
unfolding add_under
subscribed-add_under fn reg k j g = elim (Bool-cases (key_eq k j)) [
  | inl same ↦ rw (map_get-map_set, same, has-set_add, map_get_of_key_eq reg k j same)
  | inr other ↦ rw (map_get-map_set, other) (ground arith)
]

map_get-store_left :
    (reg : Registry) (k j : Key) (set : List Listener) (g : Listener)
    → subscribed (store_left reg k set) j g ≡ (if key_eq k j then has set g else subscribed reg j g)
map_get-store_left reg k j [] g = rw map_get-map_delete (ground arith)
map_get-store_left reg k j (x ∷ set) g = rw map_get-map_set (ground arith)

pub subscribed-delete_under :
    (fn : Listener) (reg : Registry) (k j : Key) (g : Listener)
    → subscribed (delete_under fn reg k) j g ≡ subscribed reg j g && not (key_eq k j && fn == g)
unfolding delete_under
subscribed-delete_under fn reg k j g = elim (Option-cases (map_get reg k)) [
  | inl missing ↦
      rw (missing, delete_under)
        (elim (Bool-cases (key_eq k j)) [
          | inl same ↦ rw (same, sym (map_get_of_key_eq reg k j same) ∙ missing)
          | inr other ↦ rw other (ground arith)
        ])
  | inr (set, found) ↦
      rw (found, delete_under)
        (rw map_get-store_left (elim (Bool-cases (key_eq k j)) [
          | inl same ↦
              rw (same, sym (map_get_of_key_eq reg k j same) ∙ found) (has-set_delete set fn g)
          | inr other ↦ rw other (ground arith)
        ]))
]
