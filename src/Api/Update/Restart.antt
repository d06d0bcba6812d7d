-- ===== src/Api/Update/Restart.antt =====
-- How `waitForRestart` of web/src/api/update.ts ends.
use mathlib.Core.Path.{subst}
use cloudflared_manager.Base.{
  ℕ, zero, suc, ◌+◌, ◌*◌, ◌/◌, ◌≤◌, ◌≡◌, false, not, ◌&&◌, Option, none, some, or_default, Str,
  str_eq, is_empty, ltb, Bool-cases, Option-cases, inl, inr, arith, if_intro,
}
use cloudflared_manager.Api.Update.{
  VersionResp, Browser, Outcome, restarted, timed_out, version_of, new_version, poll_until,
  wait_for_restart,
}

IsNew : Str → Option Str → Type 0
IsNew from none = Unit
IsNew from (some v) = (is_empty v ≡ false) × (str_eq v from ≡ false)

new_version-IsNew : (from : Str) (o : Option VersionResp) → IsNew from (new_version from o)
unfolding IsNew
new_version-IsNew from none = tt
new_version-IsNew from (some resp) =
    if_intro (IsNew from) (not (is_empty (version_of resp)) && not (str_eq (version_of resp) from))
      _ _ (λ h. ground (arith, h)) (λ h. tt)

module _ {W : Type 0} (browser : Browser W) where
  -- Time does not run backwards, and a timer does not fire early.
  pub record HasClock : Type 0 where
    pub sleep_lasts : (n : ℕ) (w : W) → browser.now w + n ≤ browser.now (browser.sleep n w)
    pub get_version_lasts : (w : W) → browser.now w ≤ browser.now (browser.get_version w).1

  -- A version that is none and not the old one, or the deadline passed.
  abbrev pub IsEnd : Str → ℕ → Option Outcome × W → Type 0
  IsEnd from deadline (none, w) = ⊥
  IsEnd from deadline (some (restarted v), w) = (is_empty v ≡ false) × (str_eq v from ≡ false)
  IsEnd from deadline (some timed_out, w) = deadline ≤ browser.now w

  module _ (clock : HasClock) where
    open clock use {sleep_lasts, get_version_lasts}

    poll_until-IsEnd :
        (fuel : ℕ) (from : Str) (deadline : ℕ) (w : W)
        → deadline ≤ browser.now w + 2500 * fuel
        → IsEnd from deadline (poll_until browser fuel from deadline w)
    unfolding poll_until
    poll_until-IsEnd zero from deadline w h = elim (Bool-cases (ltb (browser.now w) deadline)) [
      | inl early ↦ rw early (ground arith)
      | inr late ↦ rw late (ground arith)
    ]
    poll_until-IsEnd (suc fuel) from deadline w h =
        let answer = browser.get_version w in
        elim (Bool-cases (ltb (browser.now w) deadline)) [
          | inl early ↦ elim (Option-cases (new_version from answer.0)) [
            | inl e ↦
                rw (early, e)
                  (poll_until-IsEnd fuel from deadline (browser.sleep 2500 answer.1)
                    (omega (arith, sleep_lasts 2500 answer.1, get_version_lasts w)))
            | inr (v, e) ↦
                rw (early, e)
                  (unfold IsNew in subst (IsNew from) e (new_version-IsNew from answer.0))
          ]
          | inr late ↦ rw late (ground arith)
        ]

    -- `waitForRestart` ends with a version that is not empty and not the old one, or when the timeout has
    -- passed, while the clock does not run backwards and a timer does not fire early.
    pub wait_for_restart-IsEnd :
        (from : Str) (timeout_ms : Option ℕ) (w : W)
        → IsEnd from
            (browser.now w + or_default timeout_ms 120000)
            (wait_for_restart browser from timeout_ms w)
    unfolding wait_for_restart
    wait_for_restart-IsEnd from timeout_ms w =
        let timeout = or_default timeout_ms 120000 in
        poll_until-IsEnd (timeout / 2500 + 1) from (browser.now w + timeout) (browser.sleep 3000 w)
          (omega (arith, sleep_lasts 3000 w))
