-- ===== src/Events/Registry/Laws.antt =====
-- `subscribe`, the function that it returns, and `dispatch` of web/src/events/EventStreamContext.tsx
-- against the relation "this listener is subscribed to this key".
use cloudflared_manager.Base.{
  ◌≡◌, refl, sym, ap, ◌∙◌, Bool, true, false, not, ◌&&◌, ◌||◌, Option, List, [], ◌∷◌, ◌==◌, ==_iff,
  arith,
}
use cloudflared_manager.Events.Types.{EventType, BusEvent, Key, star, on, key_eq}
use cloudflared_manager.Events.Registry.{
  Listener, Registry, has, keys_of, add_under, add_all, subscribe, delete_under, delete_all,
  unsubscribe, dispatch,
}
use cloudflared_manager.Events.Registry.Views.{
  subscribed, subscribed-add_under, subscribed-delete_under, has-append,
}

-- The key is one of those that a subscription names.
abbrev pub names : List Key → Key → Bool
names [] j = false
names (k ∷ keys) j = key_eq k j || names keys j

subscribed-add_all :
    (fn : Listener) (reg : Registry) (keys : List Key) (j : Key) (g : Listener)
    → subscribed (add_all fn reg keys) j g ≡ subscribed reg j g || names keys j && fn == g
unfolding add_all
subscribed-add_all fn reg [] j g = ground arith
subscribed-add_all fn reg (k ∷ keys) j g =
    subscribed-add_all fn (add_under fn reg k) keys j g
    ∙ (rw subscribed-add_under (or-and (subscribed reg j g) (key_eq k j) (names keys j) (fn == g)))
  where
    or-and : (a b c d : Bool) → (a || b && d) || c && d ≡ a || (b || c) && d
    or-and a b c d = ground arith

subscribed-delete_all :
    (fn : Listener) (reg : Registry) (keys : List Key) (j : Key) (g : Listener)
    → subscribed (delete_all fn reg keys) j g ≡ subscribed reg j g && not (names keys j && fn == g)
unfolding delete_all
subscribed-delete_all fn reg [] j g = ground arith
subscribed-delete_all fn reg (k ∷ keys) j g =
    subscribed-delete_all fn (delete_under fn reg k) keys j g
    ∙ (rw subscribed-delete_under
        (and-or (subscribed reg j g) (key_eq k j) (names keys j) (fn == g)))
  where
    and-or : (a b c d : Bool) → (a && not (b && d)) && not (c && d) ≡ a && not ((b || c) && d)
    and-or a b c d = ground arith

-- After `subscribe` a listener is subscribed to a key exactly when it was before, or when it is the one
-- that subscribed and the key is among the named types, which are '*' where none is named.
pub subscribed-subscribe :
    (reg : Registry) (types : Option (List EventType)) (fn : Listener) (j : Key) (g : Listener)
    → subscribed (subscribe reg types fn) j g
      ≡ subscribed reg j g || names (keys_of types) j && fn == g
unfolding subscribe
subscribed-subscribe reg types fn j g = subscribed-add_all fn reg (keys_of types) j g

-- The function that `subscribe` returns takes this listener off the named keys, and nothing else.
pub subscribed-unsubscribe :
    (reg : Registry) (types : Option (List EventType)) (fn : Listener) (j : Key) (g : Listener)
    → subscribed (unsubscribe reg types fn) j g
      ≡ subscribed reg j g && not (names (keys_of types) j && fn == g)
unfolding unsubscribe
subscribed-unsubscribe reg types fn j g = subscribed-delete_all fn reg (keys_of types) j g

-- `dispatch` calls a listener exactly if it is subscribed to everything or to the event's type.
pub has-dispatch :
    (reg : Registry) (evt : BusEvent) (g : Listener)
    → has (dispatch reg evt) g ≡ subscribed reg star g || subscribed reg (on evt.type_name) g
unfolding dispatch
has-dispatch reg evt g = has-append _ _ g

absorb : (a n e : Bool) → (n ≡ true → e ≡ true → a ≡ false) → (a || n && e) && not (n && e) ≡ a
absorb true true true h = sym (h refl refl)
absorb a n e h = ground arith

restored :
    (reg : Registry) (types : Option (List EventType)) (fn : Listener) (j : Key) (g : Listener)
    → ((k : Key) → names (keys_of types) k ≡ true → subscribed reg k fn ≡ false)
    → subscribed (unsubscribe (subscribe reg types fn) types fn) j g ≡ subscribed reg j g
restored reg types fn j g fresh =
    rw (subscribed-unsubscribe, subscribed-subscribe)
      (absorb (subscribed reg j g) (names (keys_of types) j) (fn == g)
        (λ n e. ap (subscribed reg j) (sym ((==_iff fn g).0 e)) ∙ fresh j n))

-- A subscription that is taken back leaves `dispatch` calling whom it called before, for every event,
-- if the listener was not already filed under one of the named keys.
pub unsubscribe-subscribe :
    (reg : Registry) (types : Option (List EventType)) (fn : Listener) (evt : BusEvent)
    (g : Listener)
    → ((j : Key) → names (keys_of types) j ≡ true → subscribed reg j fn ≡ false)
    → has (dispatch (unsubscribe (subscribe reg types fn) types fn) evt) g
      ≡ has (dispatch reg evt) g
unsubscribe-subscribe reg types fn evt g fresh = rw (
  has-dispatch,
  has-dispatch,
  restored reg types fn star g fresh,
  restored reg types fn (on evt.type_name) g fresh,
)
