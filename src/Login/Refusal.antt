-- ===== src/Login/Refusal.antt =====
-- What a login of web/src/pages/Login.tsx leaves of the session.
use cloudflared_manager.Base.{
  ◌≡◌, refl, ℕ, Bool, false, Option, none, some, List, [], if◌then◌else◌, ◌==◌, Str, codes,
  includes, All, Bool-cases, inl, inr,
}
use cloudflared_manager.Api.Reply.{Reply, done, failed}
use cloudflared_manager.Api.Client.{get_api_token, on_rejected, is_exempt, BrowserSession}
use cloudflared_manager.Api.Client.Session.{
  SessionEvent, outgoing, tokens_of, IsBare, Carries, outgoing-Carries,
}
use cloudflared_manager.Login.{LoginPage, login_step, finished, answered, version_request}

abbrev pub is_accepted : Reply ℕ → Bool
is_accepted (done status) = status == 200
is_accepted (failed e) = false

-- The login with a token, until its answer.
abbrev pub login : Str → Reply ℕ → LoginPage → LoginPage
login token r p = (login_step (answered r) (login_step (finished token) p).0).0

-- The check of the token leaves the session to the page, whatever its status.
exempt_version : (status : Option ℕ) (b : BrowserSession) → on_rejected version_request status b ≡ b
unfolding on_rejected is_exempt includes
exempt_version none b = refl
exempt_version (some status) b = elim (Bool-cases (status == 401)) [
  | inl hit ↦ rw hit refl
  | inr miss ↦ rw miss refl
]

-- A login ends with the token in the store where the check was answered with 200, and with none otherwise;
-- it leaves the address as it is, goes to the dashboard in the first case alone, and is no longer loading.
pub login_lem :
    (token : Str) (r : Reply ℕ) (p : LoginPage)
    → let p1 = login token r p in
      (get_api_token p1.browser ≡ (if is_accepted r then token else []))
      × (p1.browser.href ≡ p.browser.href)
      × (p1.route ≡ (if is_accepted r then some (codes "/dashboard") else p.route))
      × (p1.loading ≡ false)
unfolding login_step
login_lem token (done status) p = elim (Bool-cases (status == 200)) [
  | inl ok ↦ rw ok (refl, refl, refl, refl)
  | inr bad ↦ rw bad (refl, refl, refl, refl)
]
login_lem token (failed e) p = rw exempt_version (refl, refl, refl, refl)

-- After a login that was not accepted, no request carries the refused token: those that are outgoing carry only
-- a token that is set afterwards, where the callers set no credentials of their own.
pub sent_after_refusal :
    (P : Str → Type 0) (token : Str) (r : Reply ℕ) (p : LoginPage) (events : List SessionEvent)
    → is_accepted r ≡ false
    → All IsBare events
    → All P (tokens_of events)
    → All (Carries P) (outgoing events (login token r p).browser)
sent_after_refusal P token r p events bad bare good =
    outgoing-Carries P events (login token r p).browser (inl (rw bad at ((login_lem token r p).0)))
      bare good
