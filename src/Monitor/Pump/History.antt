-- ===== src/Monitor/Pump/History.antt =====
-- The history of web/src/pages/System.tsx over any sequence of answers.
use cloudflared_manager.Base.{
  ◌≡◌, refl, ap, ◌∙◌, ℕ, true, false, Option, none, some, List, [], ◌∷◌, if◌then◌else◌, arith,
}
use cloudflared_manager.Api.Types.{Number}
use cloudflared_manager.Api.Reply.{Reply, done, failed}
use cloudflared_manager.Monitor.Window.{pushes, last_of, pushes-last_of}
use cloudflared_manager.Monitor.Pump.{
  SystemInfo, NetSample, HistoryPoint, SystemPage, SystemSignal, answered, unmounted, sample_of,
  keep_history, point_of, system_step, system_steps, blank_page, on_answer, on_info,
}

module _ (per_second : ℕ → ℕ → Number) where
  -- The points of the answers that came before the page was left, each with the rates since the one before.
  abbrev pub points_of : Option NetSample → List SystemSignal → List HistoryPoint
  points_of prev [] = []
  points_of prev (unmounted ∷ signals) = []
  points_of prev (answered now (failed e) ∷ signals) = points_of prev signals
  points_of prev (answered now (done data_) ∷ signals) =
      point_of per_second prev now data_ ∷ points_of (some (sample_of now data_)) signals

  answered-stopped :
      (now : ℕ) (r : Reply SystemInfo) (p : SystemPage)
      → p.stopped ≡ true
      → system_step per_second (answered now r) p ≡ p
  unfolding system_step
  answered-stopped now r p h = ap (λ b. if b then p else on_answer per_second now r p) h

  answered-live :
      (now : ℕ) (r : Reply SystemInfo) (p : SystemPage)
      → p.stopped ≡ false
      → system_step per_second (answered now r) p ≡ on_answer per_second now r p
  unfolding system_step
  answered-live now r p h = ap (λ b. if b then p else on_answer per_second now r p) h

  abbrev history_after : List SystemSignal → SystemPage → List HistoryPoint
  history_after signals p = (system_steps per_second signals p).history

  stopped_still :
      (signals : List SystemSignal) (p : SystemPage)
      → p.stopped ≡ true
      → history_after signals p ≡ p.history
  unfolding system_steps system_step
  stopped_still [] p h = refl
  stopped_still (unmounted ∷ signals) p h = stopped_still signals (record p { stopped = true }) refl
  stopped_still (answered now r ∷ signals) p h =
      ap (history_after signals) (answered-stopped now r p h) ∙ stopped_still signals p h

  system_steps-pushes :
      (signals : List SystemSignal) (p : SystemPage)
      → p.stopped ≡ false
      → history_after signals p ≡ pushes keep_history (points_of p.prev_net signals) p.history
  unfolding system_steps system_step
  system_steps-pushes [] p h = refl
  system_steps-pushes (unmounted ∷ signals) p h =
      stopped_still signals (record p { stopped = true }) refl
  system_steps-pushes (answered now (failed e) ∷ signals) p h =
      ap (history_after signals) (answered-live now (failed e) p h)
      ∙ system_steps-pushes signals (record p { loading = false }) h
  system_steps-pushes (answered now (done data_) ∷ signals) p h =
      ap (history_after signals) (answered-live now (done data_) p h)
      ∙ system_steps-pushes signals (on_info per_second now data_ p) h

  -- The history is the last sixty points of the answers that came while the page was there.
  pub system_steps-last_of :
      (signals : List SystemSignal)
      → (system_steps per_second signals blank_page).history
        ≡ last_of keep_history (points_of none signals)
  system_steps-last_of signals =
      rw (system_steps-pushes signals blank_page refl)
        (pushes-last_of keep_history [] (points_of none signals) (omega arith))
