-- ===== src/Api/Client/Session.antt =====
-- web/src/api/client.ts, the session over any sequence of requests, replies and changes of the token.
use cloudflared_manager.Base.{
  ◌⊎◌, ◌≡◌, refl, sym, ap, ◌∙◌, ◌==◌, ℕ, true, false, Option, none, some, List, [], ◌∷◌, ◌++◌, Str,
  codes, is_empty, All, Bool-cases, inl, inr,
}
use cloudflared_manager.Api.Types.{str}
use cloudflared_manager.Api.Json.{lookup, lookup-put_same}
use cloudflared_manager.Api.Client.{
  HttpRequest, BrowserSession, set_api_token, clear_api_token, get_api_token, authorization,
  inject_token, is_exempt, on_rejected,
}

-- What happens to the session: a call, the rejection of one, and the token of a form or none.
pub data SessionEvent : Type 0 where
  call : HttpRequest → SessionEvent
  rejected : HttpRequest → Option ℕ → SessionEvent
  token_set : Str → SessionEvent
  token_cleared : SessionEvent

abbrev pub on_event : SessionEvent → BrowserSession → BrowserSession
on_event (call config) b = b
on_event (rejected config status) b = on_rejected config status b
on_event (token_set token) b = set_api_token token b
on_event token_cleared b = clear_api_token b

-- The requests as they go out, the first one first.
unfoldable pub outgoing : List SessionEvent → BrowserSession → List HttpRequest
outgoing [] b = []
outgoing (call config ∷ events) b = inject_token b config ∷ outgoing events b
outgoing (rejected config status ∷ events) b = outgoing events (on_rejected config status b)
outgoing (token_set token ∷ events) b = outgoing events (set_api_token token b)
outgoing (token_cleared ∷ events) b = outgoing events (clear_api_token b)

-- The tokens that are set in the course of the events.
abbrev pub tokens_of : List SessionEvent → List Str
tokens_of [] = []
tokens_of (call config ∷ events) = tokens_of events
tokens_of (rejected config status ∷ events) = tokens_of events
tokens_of (token_set token ∷ events) = token ∷ tokens_of events
tokens_of (token_cleared ∷ events) = tokens_of events

-- The caller sets no credentials.
abbrev pub IsBare : SessionEvent → Type 0
IsBare (call config) = lookup authorization config.headers ≡ none
IsBare (rejected config status) = Unit
IsBare (token_set token) = Unit
IsBare token_cleared = Unit

-- The request has no credentials, or a token of which `P` holds.
abbrev pub Carries : (Str → Type 0) → HttpRequest → Type 0
Carries P config =
    (lookup authorization config.headers ≡ none)
    ⊎ ((token : Str) × (lookup authorization config.headers ≡ some (str (codes "Bearer " ++ token)))
        × P token)

abbrev pub IsHeld : (Str → Type 0) → BrowserSession → Type 0
IsHeld P b = (get_api_token b ≡ []) ⊎ P (get_api_token b)

module _ (P : Str → Type 0) where
  inject_token-Carries :
      (b : BrowserSession) (config : HttpRequest)
      → IsHeld P b
      → lookup authorization config.headers ≡ none
      → Carries P (inject_token b config)
  unfolding inject_token
  inject_token-Carries b config held bare = elim (Bool-cases (is_empty (get_api_token b))) [
    | inl empty ↦ rw empty (inl bare)
    | inr full ↦ rw full (
        inr (
          get_api_token b,
          lookup-put_same authorization _ config.headers,
          elim held [
            | inl gone ↦ let impossible : true ≡ false = ap is_empty (sym gone) ∙ full in cc
            | inr fine ↦ fine
          ],
        ))
  ]

  on_rejected-IsHeld :
      (config : HttpRequest) (status : Option ℕ) (b : BrowserSession)
      → IsHeld P b
      → IsHeld P (on_rejected config status b)
  unfolding on_rejected
  on_rejected-IsHeld config none b held = held
  on_rejected-IsHeld config (some status) b held = elim (Bool-cases (status == 401)) [
    | inl hit ↦ rw hit (elim (Bool-cases (is_exempt config.url)) [
      | inl spared ↦ rw spared held
      | inr lost ↦ rw lost (inl refl)
    ])
    | inr miss ↦ rw miss held
  ]

  pub outgoing-Carries :
      (events : List SessionEvent) (b : BrowserSession)
      → IsHeld P b
      → All IsBare events
      → All P (tokens_of events)
      → All (Carries P) (outgoing events b)
  unfolding outgoing
  outgoing-Carries [] b held bare good = tt
  outgoing-Carries (call config ∷ events) b held (first, bare) good =
      (inject_token-Carries b config held first, outgoing-Carries events b held bare good)
  outgoing-Carries (rejected config status ∷ events) b held (first, bare) good =
      outgoing-Carries events (on_rejected config status b)
        (on_rejected-IsHeld config status b held) bare good
  outgoing-Carries (token_set token ∷ events) b held (first, bare) (fine, good) =
      outgoing-Carries events (set_api_token token b) (inr fine) bare good
  outgoing-Carries (token_cleared ∷ events) b held (first, bare) good =
      outgoing-Carries events (clear_api_token b) (inl refl) bare good

-- Once a request other than one of the version or the health is answered with 401, the client is at the
-- login, and no later request carries a token that is not set afterwards.
pub sent_after_401 :
    (P : Str → Type 0) (config : HttpRequest) (b : BrowserSession) (events : List SessionEvent)
    → is_exempt config.url ≡ false
    → All IsBare events
    → All P (tokens_of events)
    → ((on_rejected config (some 401) b).href ≡ codes "/login")
      × All (Carries P) (outgoing (rejected config (some 401) ∷ events) b)
unfolding outgoing on_rejected
sent_after_401 P config b events protected bare good = rw protected (
  refl,
  outgoing-Carries P events (record (clear_api_token b) { href = codes "/login" }) (inl refl) bare
      good,
)
