-- ===== src/Api/Update.antt =====
-- web/src/api/update.ts, `waitForRestart`: polling the daemon's version until it comes back with another
-- one. The clock, the timer and the request are parameters.
pub mod Restart
pub mod Simulated
mod Tests
use cloudflared_manager.Base.{
  ℕ, zero, suc, ◌+◌, ◌/◌, Bool, not, ◌&&◌, Option, none, some, if◌then◌else◌, ltb, or_default,
  or_else, or_empty, Str, str_eq, is_empty,
}

-- The response to a version request.
pub record VersionResp : Type 0 where
  pub daemon : Option Str
  pub version : Option Str

-- `Date.now()`, `sleep(ms)` and the request, which may fail.
pub record Browser (W : Type 0) : Type 0 where
  pub now : W → ℕ
  pub sleep : ℕ → W → W
  pub get_version : W → Option VersionResp × W

pub data Outcome : Type 0 where
  restarted : Str → Outcome
  timed_out : Outcome

-- `resp.data?.daemon || resp.data?.version || ''`
abbrev pub version_of : VersionResp → Str
version_of resp = or_else (or_empty resp.daemon) (or_empty resp.version)

-- The version of a response, if it is there and another one than before.
abbrev pub new_version : Str → Option VersionResp → Option Str
new_version from none = none
new_version from (some resp) =
    let v = version_of resp in if not (is_empty v) && not (str_eq v from) then some v else none

module _ {W : Type 0} (browser : Browser W) where
  open browser use {now, sleep, get_version}

  -- The loop, until `deadline`; nothing is returned where the fuel runs out before.
  pub poll_until : ℕ → Str → ℕ → W → Option Outcome × W
  poll_until zero from deadline w = if ltb (now w) deadline then (none, w) else (some timed_out, w)
  poll_until (suc fuel) from deadline w =
      let (resp, w1) = get_version w in
      let rest = poll_until fuel from deadline (sleep 2500 w1) in
      if ltb (now w) deadline
      then (elim (new_version from resp) [ none ↦ rest | some v ↦ (some (restarted v), w1) ])
      else (some timed_out, w)

  -- A round takes the 2500 ms of its sleep at least, so the fuel is enough.
  unfoldable pub wait_for_restart : Str → Option ℕ → W → Option Outcome × W
  unfolding poll_until
  wait_for_restart from timeout_ms w =
      let timeout = or_default timeout_ms 120000 in
      poll_until (timeout / 2500 + 1) from (now w + timeout) (sleep 3000 w)
