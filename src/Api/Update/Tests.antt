-- ===== src/Api/Update/Tests.antt =====
-- `waitForRestart` of web/src/api/update.ts in the simulated browser.
use cloudflared_manager.Base.{◌≡◌, refl, none, some, codes}
use cloudflared_manager.Api.Update.{restarted, timed_out, wait_for_restart}
use cloudflared_manager.Api.Update.Simulated.{simulated}

restart_test :
    wait_for_restart simulated (codes "1.0") none (0, 7000)
    ≡ (some (restarted (codes "1.1")), (8000, 7000))
unfolding wait_for_restart
restart_test = refl

timeout_test :
    wait_for_restart simulated (codes "1.0") (some 9000) (0, 20000)
    ≡ (some timed_out, (10500, 20000))
unfolding wait_for_restart
timeout_test = refl
