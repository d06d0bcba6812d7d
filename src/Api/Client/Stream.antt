-- ===== src/Api/Client/Stream.antt =====
-- web/src/api/client.ts, `logStreamUrl`: the address of the live log, whose token and filter go into its query.
use cloudflared_manager.Base.{
  ℕ, Bool, Option, none, some, ◌++◌, if◌then◌else◌, Str, codes, is_empty, or_empty,
}
use cloudflared_manager.Api.Types.{str, Fields, end}
use cloudflared_manager.Api.Json.{put}
use cloudflared_manager.Api.Client.{BrowserSession, get_api_token}
use cloudflared_manager.Api.Client.Routes.{Uri}

pub record LogFilter : Type 0 where
  pub level : Option Str
  pub keyword : Option Str
  pub conn_index : Option ℕ
  pub backlog : Option ℕ

abbrev no_filter : LogFilter
no_filter = record { level = none; keyword = none; conn_index = none; backlog = none }

-- `if (s) params.set(k, s)`
abbrev set_text : Str → Str → Fields → Fields
set_text k s params = if is_empty s then params else put k (str s) params

-- `URLSearchParams.toString` is a parameter.
module _ (uri : Uri) (search : Fields → Str) where
  -- `if (n != null) params.set(k, String(n))`
  abbrev set_number : Str → Option ℕ → Fields → Fields
  set_number k none params = params
  set_number k (some n) params = put k (str (uri.print n)) params

  abbrev filter_or_none : Option LogFilter → LogFilter
  filter_or_none none = no_filter
  filter_or_none (some filter) = filter

  abbrev pub log_stream_params : BrowserSession → Option LogFilter → Fields
  log_stream_params b given_filter =
      let filter = filter_or_none given_filter in
      set_number (codes "backlog") filter.backlog (
        set_number (codes "conn_index") filter.conn_index (
          set_text (codes "keyword") (or_empty filter.keyword) (
            set_text (codes "level") (or_empty filter.level)
              (set_text (codes "token") (get_api_token b) end))))

  -- `secure` tells whether the page came over https, and `host` is where it came from.
  abbrev pub log_stream_url : Bool → Str → BrowserSession → Str → Option LogFilter → Str
  log_stream_url secure host b id filter =
      (if secure then codes "wss:" else codes "ws:")
      ++ (codes "//"
          ++ (host
              ++ (codes "/api/v1/configs/"
                  ++ (uri.encode id
                      ++ (codes "/logs/stream?" ++ search (log_stream_params b filter))))))
