-- ===== src/Updates/Card/Ending.antt =====
-- How an update of web/src/components/UpdateCard.tsx ends, with the wait of web/src/api/update.ts.
use cloudflared_manager.Base.{
  ◌≡◌, refl, ℕ, ◌≤◌, ◌+◌, false, Option, none, some, List, [], ◌∷◌, Str, codes, is_empty, str_eq,
  arith, Bool-cases, inl, inr,
}
use cloudflared_manager.Api.Update.{Browser, Outcome, restarted, timed_out, wait_for_restart}
use cloudflared_manager.Api.Update.Restart.{HasClock, IsEnd, wait_for_restart-IsEnd}
use cloudflared_manager.Updates.Card.{
  Card, updated, update_failed, came_back, final_read, card_step, card_steps, CardSignal, show_log,
}

-- What follows the end of a wait: behind a restart, the last log is read.
abbrev pub signals_of : ℕ → Option Str → Option Outcome → List CardSignal
signals_of k log none = []
signals_of k log (some (restarted v)) = came_back k (restarted v) ∷ final_read k v log ∷ []
signals_of k log (some timed_out) = came_back k timed_out ∷ []

show_log-polling : (log : Option Str) (p : Card) → (show_log log p).polling ≡ p.polling
show_log-polling none p = refl
show_log-polling (some log) p = elim (Bool-cases (is_empty log)) [
  | inl e ↦ rw e refl
  | inr e ↦ rw e refl
]

module _ {W : Type 0} (browser : Browser W) (k : ℕ) (log : Option Str) (p : Card) where
  -- The card behind the end of the wait.
  abbrev pub ending : Option Outcome × W → Card
  ending out = (card_steps (signals_of k log out.0) p).0

  -- The update is over: with the new version, which is another one, or with the failure, behind the deadline.
  abbrev pub IsSettled : Str → ℕ → Option Outcome × W → Type 0
  IsSettled from deadline (none, w) = ⊥
  IsSettled from deadline (some (restarted v), w) =
      let p1 = ending (some (restarted v), w) in
      (p1.phase ≡ updated)
      × (p1.new_version ≡ v)
      × (is_empty v ≡ false)
      × (str_eq v from ≡ false)
      × (p1.polling k ≡ false)
  IsSettled from deadline (some timed_out, w) =
      let p1 = ending (some timed_out, w) in
      (p1.phase ≡ update_failed)
      × (p1.progress_text ≡ codes "等待服务重启超时")
      × (deadline ≤ browser.now w)
      × (p1.polling k ≡ false)

  settled :
      (from : Str) (deadline : ℕ) (out : Option Outcome × W)
      → IsEnd browser from deadline out
      → IsSettled from deadline out
  unfolding card_steps card_step
  settled from deadline (none, w) h = h
  settled from deadline (some (restarted v), w) (full, other) =
      (refl, refl, full, other, rw (show_log-polling log _) (ground arith))
  settled from deadline (some timed_out, w) h = (refl, refl, h, ground arith)

  -- With a clock that does not run backwards and a timer that is not early, an update that was started ends
  -- with a version that is not empty and is not the one that was updated, or with the failure of the wait,
  -- two minutes after it began; either way its polling has stopped.
  pub wait_for_restart-IsSettled :
      HasClock browser
      → (from : Str) (w : W)
      → IsSettled from (browser.now w + 120000) (wait_for_restart browser from none w)
  wait_for_restart-IsSettled clock from w =
      settled from (browser.now w + 120000) (wait_for_restart browser from none w)
        (wait_for_restart-IsEnd browser clock from none w)
