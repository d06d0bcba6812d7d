-- ===== src/Api/Update/Simulated.antt =====
-- A browser for web/src/api/update.ts, whose state is the time and the time at which the new version answers.
use cloudflared_manager.Base.{ℕ, ◌+◌, some, none, Str, codes, ltb, if◌then◌else◌, arith}
use cloudflared_manager.Api.Update.{VersionResp, Browser}
use cloudflared_manager.Api.Update.Restart.{HasClock}

abbrev reported : Str → VersionResp
reported v = record { daemon = some v; version = none }

abbrev pub simulated : Browser (ℕ × ℕ)
simulated = record {
  now = λ w. w.0;
  sleep = λ n w. (w.0 + n, w.1);
  get_version =
      λ w. (some (if ltb w.0 w.1 then reported (codes "1.0") else reported (codes "1.1")), w);
}

pub simulated-HasClock : HasClock simulated
simulated-HasClock = record {
  sleep_lasts = λ n w. omega arith;
  get_version_lasts = λ w. omega arith;
}
