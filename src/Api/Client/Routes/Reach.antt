-- ===== src/Api/Client/Routes/Reach.antt =====
-- Every call of web/src/api/client.ts reaches the route of the daemon that it is meant for.
use cloudflared_manager.Base.{◌≡◌, Option, some, List, Str}
use cloudflared_manager.Api.Client.Routes.{Uri, ApiCall, request_of}
use cloudflared_manager.Api.Client.Routes.Table.{segments, arguments, route_of, identifiers}

module _ (uri : Uri) where
  -- The call's request has the method of its route, and its URL has the parameters of the route.
  abbrev pub Reaches : ApiCall → Type 0
  Reaches call =
      ((request_of uri call).method ≡ (route_of call).0)
      × (arguments (segments (route_of call).1) (segments (request_of uri call).url)
          ≡ some (identifiers uri call))

  abbrev taken : ApiCall → List Str → Option (List Str)
  taken call segs = arguments (segments (route_of call).1) segs
