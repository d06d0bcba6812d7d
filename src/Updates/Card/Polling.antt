-- ===== src/Updates/Card/Polling.antt =====
-- The polling of the update's log, in web/src/components/UpdateCard.tsx.
use cloudflared_manager.Base.{
  ◌≡◌, refl, sym, ap, ◌∙◌, ℕ, ◌<◌, Bool, true, false, Option, none, some, List, [], ◌∷◌, ◌==◌,
  ==_iff, arith, Str, is_empty, All, All-append, Bool-cases, inl, inr,
}
use cloudflared_manager.Api.Reply.{done, failed}
use cloudflared_manager.Api.Update.{Outcome, restarted, timed_out}
use cloudflared_manager.Updates.{VersionCheck}
use cloudflared_manager.Updates.Card.{
  Card, CardRequest, request, poll_log, final_log, wait_restart, starting, poll_timer, CardSignal,
  check, checked, update_clicked, update_confirmed, update_declined, update_started, log_read,
  poll_due, came_back, final_read, card_step, card_steps, set_polling, show_log, poll_round,
  do_update,
}

module _ (k : ℕ) where
  -- The call is one of the card's, and polls no more.
  abbrev pub Ended : Card → Type 0
  Ended p = (p.polling k ≡ false) × (k < p.calls)

  abbrev pub IsOther : CardRequest → Type 0
  IsOther (request r) = Unit
  IsOther (poll_log j r) = (j == k) ≡ false
  IsOther (final_log j r) = Unit
  IsOther (starting j from r) = Unit
  IsOther (wait_restart j from) = Unit
  IsOther (poll_timer j) = Unit

  -- What a step makes of the card, without a request of the call's polling.
  abbrev Quiet : Card × List CardRequest → Type 0
  Quiet out = Ended out.0 × All IsOther out.1

  stopped : (j : ℕ) (polling : ℕ → Bool) → polling k ≡ false → set_polling j false polling k ≡ false
  stopped j polling h = ground (arith, h)

  show_log-Ended : (log : Option Str) (p : Card) → Ended p → Ended (show_log log p)
  show_log-Ended none p h = h
  show_log-Ended (some log) p h = elim (Bool-cases (is_empty log)) [
    | inl e ↦ rw e h
    | inr e ↦ rw e h
  ]

  poll_round-IsOther : (j : ℕ) (p : Card) → Ended p → All IsOther (poll_round j p)
  poll_round-IsOther j p h = elim (Bool-cases (p.polling j)) [
    | inl e ↦ rw e (elim (Bool-cases (j == k)) [
      | inl same ↦ let clash : true ≡ false = sym e ∙ ap p.polling ((==_iff j k).0 same) ∙ h.0 in cc
      | inr other ↦ (other, tt)
    ])
    | inr e ↦ rw e tt
  ]

  do_update-Quiet : (info : Option VersionCheck) (p : Card) → Ended p → Quiet (do_update info p)
  do_update-Quiet none p h = (h, tt)
  do_update-Quiet (some info) p (h, before) =
      ((ground (arith, h, before), omega (arith, before)), (tt, tt))

  card_step-Quiet : (s : CardSignal) (p : Card) → Ended p → Quiet (card_step s p)
  unfolding card_step
  card_step-Quiet (check force) p h = (h, (tt, tt))
  card_step-Quiet (checked true (done r)) p h = (h, tt)
  card_step-Quiet (checked false (done r)) p h = (h, tt)
  card_step-Quiet (checked force (failed e)) p h = (h, tt)
  card_step-Quiet update_clicked p h = (h, tt)
  card_step-Quiet update_confirmed p h = do_update-Quiet p.confirming p h
  card_step-Quiet update_declined p h = (h, tt)
  card_step-Quiet (update_started j from (failed e)) p (h, before) =
      ((stopped j p.polling h, before), tt)
  card_step-Quiet (update_started j from (done r)) p h =
      (h, All-append IsOther (poll_round j p) _ (poll_round-IsOther j p h) (tt, tt))
  card_step-Quiet (log_read j log) p h = elim (Bool-cases (p.polling j)) [
    | inl e ↦ rw e (show_log-Ended log p h, (tt, tt))
    | inr e ↦ rw e (h, (tt, tt))
  ]
  card_step-Quiet (poll_due j) p h = (h, poll_round-IsOther j p h)
  card_step-Quiet (came_back j (restarted v)) p (h, before) =
      ((stopped j p.polling h, before), (tt, tt))
  card_step-Quiet (came_back j timed_out) p (h, before) = ((stopped j p.polling h, before), tt)
  card_step-Quiet (final_read j v log) p h = (show_log-Ended log p h, tt)

  card_steps-Quiet : (signals : List CardSignal) (p : Card) → Ended p → Quiet (card_steps signals p)
  unfolding card_steps
  card_steps-Quiet [] p h = (h, tt)
  card_steps-Quiet (s ∷ signals) p h =
      let (h1, first) = card_step-Quiet s p h in
      let (h2, others) = card_steps-Quiet signals (card_step s p).0 h1 in
      (h2, All-append IsOther (card_step s p).1 _ first others)

  came_back-Ended :
      (outcome : Outcome) (p : Card) → k < p.calls → Ended (card_step (came_back k outcome) p).0
  unfolding card_step
  came_back-Ended (restarted v) p h = (ground arith, h)
  came_back-Ended timed_out p h = (ground arith, h)

-- Once the wait of a call has ended, whichever way, no signals make that call poll the log again, and an
-- answer to a poll of it that is still under way leaves the card as it is.
pub came_back-IsOther :
    (k : ℕ) (outcome : Outcome) (p : Card) (signals : List CardSignal) (log : Option Str)
    → k < p.calls
    → let p1 = (card_step (came_back k outcome) p).0 in
      let out = card_steps signals p1 in
      All (IsOther k) out.1 × ((card_step (log_read k log) out.0).0 ≡ out.0)
unfolding card_step
came_back-IsOther k outcome p signals log h =
    let p1 = (card_step (came_back k outcome) p).0 in
    let quiet = card_steps-Quiet k signals p1 (came_back-Ended k outcome p h) in
    (quiet.1, rw (quiet.0.0) refl)
