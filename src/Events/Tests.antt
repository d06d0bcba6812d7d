-- ===== src/Events/Tests.antt =====
-- The theorems on web/src/events at concrete listeners and connections.
use cloudflared_manager.Base.{ℕ, ◌≡◌, refl, true, false, none, some, List, [], ◌∷◌, codes, arith}
use cloudflared_manager.Events.Types.{alert, log_line, BusEvent, Key, star, on, opened}
use cloudflared_manager.Events.Registry.{
  Registry, map_get, keys_of, has, subscribe, unsubscribe, dispatch,
}
use cloudflared_manager.Events.Registry.Views.{subscribed}
use cloudflared_manager.Events.Registry.Laws.{names, unsubscribe-subscribe}
use cloudflared_manager.Events.Connection.{
  Conn, storage, mount, message, close_event, timeout, unmount, initial, handle, run,
}
use cloudflared_manager.Events.Connection.Invariant.{IsSound, IsQuiet, run-IsSound, run-IsQuiet}
use cloudflared_manager.Events.Connection.Overlap.{live, token_change, token_change-live}

-- Listener 1 takes alerts, listener 2 takes everything.
abbrev sample : Registry
sample = (on alert, 1 ∷ []) ∷ (star, 2 ∷ []) ∷ []

abbrev frame : BusEvent
frame = record { seq = 4; type_name = alert; config_id = none; ts = codes "now"; payload = none }

fresh_three :
    (j : Key) → names (keys_of (some (alert ∷ log_line ∷ []))) j ≡ true → subscribed [] j 3 ≡ false
unfolding map_get
fresh_three j h = refl

unsubscribe-subscribe_example :
    has
      (dispatch
        (unsubscribe
          (subscribe [] (some (alert ∷ log_line ∷ [])) 3)
          (some (alert ∷ log_line ∷ []))
          3)
        frame)
      3
    ≡ has (dispatch [] frame) 3
unsubscribe-subscribe_example =
    unsubscribe-subscribe [] (some (alert ∷ log_line ∷ [])) 3 frame 3 fresh_three

run-IsSound_example :
    IsSound
      (run (mount true ∷ message (some frame) ∷ close_event 0 ∷ timeout false ∷ []) (initial true))
run-IsSound_example =
    run-IsSound (mount true ∷ message (some frame) ∷ close_event 0 ∷ timeout false ∷ []) true

-- Behind the first unmounting.
abbrev unmounted : Conn
unmounted = let c = initial true in record c { stopped = true }

run-IsQuiet_example :
    IsQuiet (run (close_event 0 ∷ storage true true ∷ []) unmounted)
    × ((run (close_event 0 ∷ storage true true ∷ []) unmounted).next ≡ 0)
run-IsQuiet_example =
    run-IsQuiet (close_event 0 ∷ storage true true ∷ []) unmounted (tt, (tt, tt)) (refl, refl)

-- One socket, mounted and open.
abbrev connected : Conn
connected =
    let c = initial true in
    record c {
      phase = opened;
      ws = some 0;
      sockets = record { id = 0; since = 0; closing = false } ∷ [];
      next = 1;
    }

connected-IsSound : IsSound connected
connected-IsSound = record {
  same_seq = refl;
  quiet = λ _. refl;
  delay = tt;
  made = omega arith;
  current = omega arith;
}

token_change-live_example :
    (rest kept : List ℕ) × (live (run (token_change 0) connected) ≡ 2 ∷ 1 ∷ rest)
    × (live (handle unmount (run (token_change 0) connected)) ≡ 1 ∷ kept)
token_change-live_example = token_change-live connected 0 connected-IsSound refl refl refl
