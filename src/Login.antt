-- ===== src/Login.antt =====
-- web/src/pages/Login.tsx: the login, with the session of web/src/api/client.ts that it sets.
pub mod Refusal
mod Tests
use cloudflared_manager.Base.{
  ◌≡◌, ℕ, Bool, true, false, Option, none, some, List, [], ◌∷◌, if◌then◌else◌, ◌==◌, Str, codes,
  is_empty,
}
use cloudflared_manager.Api.Types.{end}
use cloudflared_manager.Api.Reply.{Rejection, Reply, done, failed}
use cloudflared_manager.Api.Client.{
  HttpRequest, http_get, no_body, BrowserSession, get_api_token, set_api_token, on_rejected,
}

pub data LoginNotice : Type 0 where
  authorized refused : LoginNotice

-- `route` is where `navigate` went last.
pub record LoginPage : Type 0 where
  pub browser : BrowserSession
  pub loading : Bool
  pub route : Option Str
  pub notices : List LoginNotice

-- `answered` is the status of the response that the version request got, or its rejection.
pub data LoginSignal : Type 0 where
  mounted : LoginSignal
  finished : Str → LoginSignal
  answered : Reply ℕ → LoginSignal

abbrev pub version_request : HttpRequest
version_request = record {
  method = http_get;
  url = codes "/api/v1/version";
  params = end;
  body = no_body;
  headers = end;
}

abbrev pub to_dashboard : LoginPage → LoginPage
to_dashboard p = record p { route = some (codes "/dashboard") }

-- The `catch` and the `finally` of `onFinish`.
abbrev pub refuse : LoginPage → LoginPage
refuse p = record p {
  browser = set_api_token [] p.browser;
  notices = refused ∷ p.notices;
  loading = false;
}

abbrev pub accept : LoginPage → LoginPage
accept p = to_dashboard (record p { notices = authorized ∷ p.notices; loading = false })

-- A rejection passes the client's interceptor before the page sees it.
unfoldable pub login_step : LoginSignal → LoginPage → LoginPage × List HttpRequest
login_step mounted p = (if is_empty (get_api_token p.browser) then p else to_dashboard p, [])
login_step (finished token) p =
    (record p { loading = true; browser = set_api_token token p.browser }, version_request ∷ [])
login_step (answered (done status)) p = (if status == 200 then accept p else refuse p, [])
login_step (answered (failed e)) p =
    (refuse (record p { browser = on_rejected version_request e.status p.browser }), [])
