-- ===== src/Logs/Stream/Reconnect.antt =====
-- The socket of web/src/components/instance/InstanceLogPanel.tsx when it closes.
use cloudflared_manager.Base.{◌≡◌, refl, true, false, some, [], ◌∷◌, Str, arith}
use cloudflared_manager.Logs.Stream.{
  connecting, closed, Socket, Panel, connect, change_level, open_event, close_event, timeout,
  handle, run,
}

-- While the panel is mounted, the close of its own socket and the timer make it connect again.
pub close_event-timeout :
    (p : Panel) (s : Socket)
    → p.mounted ≡ true
    → s.effect ≡ p.effect
    → (let q = handle (close_event s) p in (q.phase ≡ closed) × (q.retry ≡ true))
      × (let q = run (close_event s ∷ timeout true ∷ []) p in
          (q.phase ≡ connecting)
          × (q.ws ≡ some p.next)
          × (q.retry ≡ false)
          × (q.entries ≡ p.entries))
unfolding run handle connect
close_event-timeout p s m e = ((refl, ground arith), (refl, refl, refl, refl))

-- A level change closes the socket, whose close event comes behind the opening of the next one: the panel
-- then shows that it is not connected, though its socket is open, and nothing is scheduled.
pub change_level_closed :
    (p : Panel) (level : Str) (old : Socket)
    → old.effect ≡ p.effect
    → (let q = run (change_level level true ∷ open_event ∷ close_event old ∷ []) p in
        (q.phase ≡ closed) × (q.ws ≡ some p.next) × (q.retry ≡ false))
unfolding run handle connect
change_level_closed p level old e = (refl, refl, ground arith)
