-- ===== src/Api/Client.antt =====
-- web/src/api/client.ts: the requests, the stored token, and the two interceptors of the axios client that
-- every request of the web client passes.
pub mod Routes
pub mod Session
pub mod Stream
mod Tests
use cloudflared_manager.Base.{
  ℕ, Bool, true, false, not, ◌&&◌, Option, none, some, List, [], ◌∷◌, ◌++◌, if◌then◌else◌, ◌==◌,
  Str, codes, is_empty, or_empty, includes,
}
use cloudflared_manager.Api.Types.{Value, str, Fields, end}
use cloudflared_manager.Api.Json.{put}

pub data Method : Type 0 where
  http_get http_post http_put http_patch http_delete : Method

pub data Body : Type 0 where
  no_body : Body
  json : Value → Body
  text : Str → Body

-- The configuration that a call hands to axios; `end` are no parameters and no headers.
pub record HttpRequest : Type 0 where
  pub method : Method
  pub url : Str
  pub params : Fields
  pub body : Body
  pub headers : Fields

-- The entry of the local storage under 'cfdmgr_api_token', and `window.location.href`.
pub record BrowserSession : Type 0 where
  pub stored : Option Str
  pub href : Str

abbrev pub get_api_token : BrowserSession → Str
get_api_token b = or_empty b.stored

abbrev pub set_api_token : Str → BrowserSession → BrowserSession
set_api_token token b = record b { stored = some token }

abbrev pub clear_api_token : BrowserSession → BrowserSession
clear_api_token b = record b { stored = none }

abbrev pub authorization : Str
authorization = codes "Authorization"

-- The interceptor of requests.
unfoldable pub inject_token : BrowserSession → HttpRequest → HttpRequest
inject_token b config =
    let token = get_api_token b in
    if is_empty token then config else record config {
      headers = put authorization (str (codes "Bearer " ++ token)) config.headers;
    }

-- A rejection of the version or the health keeps the session.
unfoldable pub is_exempt : Str → Bool
unfolding includes
is_exempt url =
    not
      (not (includes url (codes "/api/v1/version")) && not (includes url (codes "/api/v1/health")))

-- The interceptor of rejections, by the status of the response, if there is one.
unfoldable pub on_rejected : HttpRequest → Option ℕ → BrowserSession → BrowserSession
on_rejected config none b = b
on_rejected config (some status) b =
    if status == 401
    then (if is_exempt config.url then b else record (clear_api_token b) { href = codes "/login" })
    else b
