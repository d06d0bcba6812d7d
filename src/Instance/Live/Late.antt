-- ===== src/Instance/Live/Late.antt =====
-- Answers that come late to web/src/components/instance/InstanceDetailPanel.tsx.
use cloudflared_manager.Base.{
  ◌≡◌, refl, ℕ, suc, ◌≤◌, ◌<◌, Bool, false, ◌&&◌, none, List, [], ◌∷◌, if◌then◌else◌, ◌==◌, Str,
  codes, str_eq, All, if_intro, arith,
}
use cloudflared_manager.Api.Reply.{Reply}
use cloudflared_manager.Instance.Live.{
  LivePanel, LiveSignal, shown, answered, tick, left, LiveRequest, is_live, on_live, on_shown,
  live_step, live_steps, same_bool,
}

module _ (k : ℕ) where
  -- An answer to a request of an earlier run.
  abbrev pub IsLate : LiveSignal → Type 0
  IsLate (answered j r) = j < k
  IsLate _ = Unit

  -- No status is shown, and the request is one of this run or a later one.
  abbrev IsBlank : LivePanel → Type 0
  IsBlank p = (p.status ≡ none) × (k ≤ p.run)

  on_shown-IsBlank :
      (id : Str) (running : Bool) (p : LivePanel) → IsBlank p → IsBlank (on_shown id running p).0
  on_shown-IsBlank id running p (blank, later) =
      if_intro (λ (out : LivePanel × List LiveRequest). IsBlank out.0)
        (str_eq id p.id && same_bool running p.running) _ _ (λ e. (blank, later))
        (λ e. (refl, omega (arith, later)))

  late-answer :
      (j : ℕ) (r : Reply _) (p : LivePanel)
      → j < k
      → IsBlank p
      → IsBlank (if is_live j p then on_live r p else p)
  late-answer j r p before (blank, later) =
      let other : (j == p.run) ≡ false = ground (arith, before, later) in rw other (blank, later)

  live_step-IsBlank :
      (s : LiveSignal) (p : LivePanel) → IsLate s → IsBlank p → IsBlank (live_step s p).0
  unfolding live_step
  live_step-IsBlank (shown id state) p late h =
      on_shown-IsBlank id (str_eq state (codes "started")) p h
  live_step-IsBlank (answered j r) p late h = late-answer j r p late h
  live_step-IsBlank (tick j) p late h = h
  live_step-IsBlank left p late h = h

  live_steps-IsBlank :
      (signals : List LiveSignal) (p : LivePanel)
      → All IsLate signals
      → IsBlank p
      → IsBlank (live_steps signals p).0
  unfolding live_steps
  live_steps-IsBlank [] p late h = h
  live_steps-IsBlank (s ∷ signals) p (late, more) h =
      live_steps-IsBlank signals (live_step s p).0 more (live_step-IsBlank s p late h)

-- When another instance is shown, the status of the one before is gone, and it does not come back: until an
-- answer to a request made since comes, the panel shows no status, whatever else happens.
pub live_steps_late :
    (id state : Str) (p : LivePanel) (signals : List LiveSignal)
    → str_eq id p.id ≡ false
    → All (IsLate (suc p.run)) signals
    → (live_steps (shown id state ∷ signals) p).0.status ≡ none
unfolding live_steps live_step
live_steps_late id state p signals other late =
    (live_steps-IsBlank (suc p.run) signals (live_step (shown id state) p).0 late
      (rw other (refl, omega arith))).0
