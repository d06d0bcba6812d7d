-- ===== src/Updates/Tests.antt =====
-- Runs of the updates: one of the daemon in the simulated browser, and the pages of the binaries.
use cloudflared_manager.Base.{◌≡◌, refl, true, false, none, some, List, [], ◌∷◌, codes, All, arith}
use cloudflared_manager.Api.Reply.{done}
use cloudflared_manager.Api.Update.{restarted, wait_for_restart}
use cloudflared_manager.Api.Update.Simulated.{simulated, simulated-HasClock}
use cloudflared_manager.Updates.{VersionCheck, UpdateStart, log_line_color}
use cloudflared_manager.Updates.Card.{
  CardSignal, checked, update_clicked, update_confirmed, update_started, log_read, poll_due,
  came_back, card_step, card_steps, first_card, Card,
}
use cloudflared_manager.Updates.Card.Polling.{IsOther, came_back-IsOther}
use cloudflared_manager.Updates.Card.Ending.{IsSettled, wait_for_restart-IsSettled}

abbrev available_check : VersionCheck
available_check = record {
  current = codes "1.0";
  deployment_mode = codes "systemd";
  self_update_enabled = true;
  has_update = true;
  can_self_update = true;
  reason = [];
  latest = some (codes "1.1");
  changelog = none;
  html_url = none;
  published_at = none;
  check_error = none;
}

abbrev accepted_start : UpdateStart
accepted_start = record {
  status = codes "started";
  from = codes "1.0";
  to = codes "1.1";
  message = [];
}

-- The card while the update is awaited.
abbrev until_restart : List CardSignal
until_restart =
    checked false (done available_check)
    ∷ update_clicked
    ∷ update_confirmed
    ∷ update_started 0 (codes "1.0") (done accepted_start)
    ∷ log_read 0 (some (codes "[*] download"))
    ∷ []

abbrev waiting : Card
unfolding card_steps card_step
waiting = (card_steps until_restart first_card).0

color_test : log_line_color (codes "  [x] failed") ≡ codes "#f48771"
unfolding log_line_color
color_test = refl

came_back-IsOther_example :
    let p1 = (card_step (came_back 0 (restarted (codes "1.1"))) waiting).0 in
    let out = card_steps (poll_due 0 ∷ []) p1 in
    All (IsOther 0) out.1 × ((card_step (log_read 0 (some (codes "late"))) out.0).0 ≡ out.0)
unfolding card_steps card_step waiting
came_back-IsOther_example =
    came_back-IsOther 0 (restarted (codes "1.1")) waiting (poll_due 0 ∷ []) (some (codes "late"))
      (omega arith)

wait_for_restart-IsSettled_example :
    IsSettled simulated 0 none waiting
      (codes "1.0")
      120000
      (wait_for_restart simulated (codes "1.0") none (0, 7000))
wait_for_restart-IsSettled_example =
    wait_for_restart-IsSettled simulated 0 none waiting simulated-HasClock (codes "1.0") (0, 7000)
