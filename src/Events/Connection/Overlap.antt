-- ===== src/Events/Connection/Overlap.antt =====
-- A token change in web/src/events/EventStreamContext.tsx: `onStorage` closes the socket and connects
-- at once, but the old socket's close event comes later and then clears the reference to the new one.
use mathlib.Core.Path.{subst}
use cloudflared_manager.Base.{
  ℕ, ◌+◌, ◌<◌, ◌≡◌, ap, ◌∙◌, true, false, not, none, some, List, [], ◌∷◌, map, filter, ◌==◌, arith,
  if_false, if_true,
}
use cloudflared_manager.Events.Types.{connecting}
use cloudflared_manager.Events.Connection.Invariant.{IsSound, GivenOut}
use cloudflared_manager.Events.Connection.{
  Socket, Conn, Signal, close_event, timeout, storage, unmount, close_socket, is_some, handle, run,
}

-- The sockets that were made, have not closed and are not asked to.
abbrev pub live : Conn → List ℕ
live c = map (λ (s : Socket). s.id) (filter (λ (s : Socket). not s.closing) c.sockets)

-- What the storage event, the old socket's close event and the reconnect timer do together.
abbrev pub token_change : ℕ → List Signal
token_change old = storage true true ∷ close_event old ∷ timeout true ∷ []

abbrev fresh : ℕ → ℕ → Socket
fresh id since = record { id = id; since = since; closing = false }

-- What is left of the sockets that were there before.
abbrev others : ℕ → Conn → List Socket
others old c = filter (λ (s : Socket). not (s.id == old)) (close_socket c.ws c.sockets)

-- The state behind the three signals, with the older sockets given.
abbrev overlapped : Conn → List Socket → Conn
overlapped c older = record c {
  phase = connecting;
  ws = some (c.next + 1);
  retries = 1;
  timer = none;
  token = true;
  sockets = fresh (c.next + 1) c.seq ∷ older;
  next = c.next + 1 + 1;
}

run-token_change :
    (c : Conn) (old : ℕ)
    → old < c.next
    → c.stopped ≡ false
    → c.timer ≡ none
    → run (token_change old) c ≡ overlapped c (fresh c.next c.seq ∷ others old c)
unfolding run
run-token_change c old given running quiet =
    ap (λ d. handle (timeout true) (handle (close_event old) d)) (if_false _ _ running)
    ∙ ap (handle (timeout true)) (if_false _ _ running ∙ if_false _ _ (ap is_some quiet))
    ∙ if_false _ _ running
    ∙ ap (overlapped c) (
        if_true {b = not (c.next == old)} (fresh c.next c.seq ∷ others old c) (others old c)
          (ground arith))

ids : List Socket → List ℕ
ids sockets = map (λ (s : Socket). s.id) (filter (λ (s : Socket). not s.closing) sockets)

live_after_unmount :
    (c : Conn) (older : List Socket)
    → live (handle unmount (overlapped c (fresh c.next c.seq ∷ older)))
      ≡ c.next ∷ ids (close_socket (some (c.next + 1)) older)
unfolding handle ids
live_after_unmount c older = ground arith

given_out : {c : Conn} {old : ℕ} → IsSound c → c.ws ≡ some old → old < c.next
given_out {c} sound current = subst (GivenOut c.next) current sound.current

-- In a mounted connection with a current socket and no reconnect pending, a token change ends with two
-- live sockets, so that each event is dispatched twice; and the unmounting that follows leaves one of
-- them live.
pub token_change-live :
    (c : Conn) (old : ℕ)
    → IsSound c
    → c.ws ≡ some old
    → c.stopped ≡ false
    → c.timer ≡ none
    → (rest kept : List ℕ) × (live (run (token_change old) c) ≡ (c.next + 1) ∷ c.next ∷ rest)
      × (live (handle unmount (run (token_change old) c)) ≡ c.next ∷ kept)
unfolding ids
token_change-live c old sound current running quiet =
    let given : old < c.next = given_out sound current in
    let end = run-token_change c old given running quiet in
    (
      ids (others old c),
      ids (close_socket (some (c.next + 1)) (others old c)),
      ap live end,
      ap (λ d. live (handle unmount d)) end ∙ live_after_unmount c (others old c),
    )
