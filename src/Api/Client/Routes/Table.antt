-- ===== src/Api/Client/Routes/Table.antt =====
-- The routes of internal/api/server.go and internal/api/cf.go that the calls of web/src/api/client.ts are
-- meant for, and how a path is taken apart at them.
use cloudflared_manager.Base.{
  ℕ, Option, none, some, List, [], ◌∷◌, if◌then◌else◌, ◌==◌, Str, codes, str_eq, starts_with,
}
use mathlib.Core.Option
use cloudflared_manager.Api.Client.{Method, http_get, http_post, http_put, http_patch, http_delete}
use cloudflared_manager.Api.Client.Routes.{
  is_delimiter, Uri, ApiCall, configs_list, configs_get, configs_create, configs_update,
  configs_delete, configs_start, configs_stop, configs_reload, configs_duplicate, configs_status,
  binaries_list, binaries_available, binaries_install, binaries_activate, binaries_delete,
  auto_update_get, auto_update_put, auto_update_run, validate, traffic, live, projection,
  accounts_list, account_get, account_create, account_update, account_delete, account_verify,
  account_choices, tunnels_list, tunnel_create, tunnel_get, tunnel_rename, tunnel_delete,
  tunnel_token, tunnel_config_get, tunnel_config_put, connections_list, connections_cleanup,
  zones_list, dns_list, dns_create, dns_update, dns_delete, token_info, binding_get, binding_set,
  binding_delete, hostnames_list, hostname_add, hostname_update, hostname_delete,
}

-- Puts a unit before the first segment.
abbrev pub push : ℕ → List Str → List Str
push c [] = (c ∷ []) ∷ []
push c (s ∷ segs) = (c ∷ s) ∷ segs

-- The segments of a path, which ends before the query and the fragment.
unfoldable pub segments : Str → List Str
segments [] = [] ∷ []
segments (c ∷ s) =
    if c == 47 then [] ∷ segments s else if is_delimiter c then [] ∷ [] else push c (segments s)

-- The values of the parameters of a route, such as {id}, where the route takes the segments.
unfoldable pub arguments : List Str → List Str → Option (List Str)
unfolding starts_with
arguments [] [] = some []
arguments [] (s ∷ segs) = none
arguments (p ∷ parts) [] = none
arguments (p ∷ parts) (s ∷ segs) =
    let more = arguments parts segs in
    if starts_with p (codes "{")
    then Option.map (λ args. s ∷ args) more
    else if str_eq p s
    then more
    else none

-- The method and the pattern of the route.
unfoldable pub route_of : ApiCall → Method × Str
route_of configs_list = (http_get, codes "/api/v1/configs")
route_of (configs_get _) = (http_get, codes "/api/v1/configs/{id}")
route_of (configs_create _) = (http_post, codes "/api/v1/configs")
route_of (configs_update _ _) = (http_put, codes "/api/v1/configs/{id}")
route_of (configs_delete _) = (http_delete, codes "/api/v1/configs/{id}")
route_of (configs_start _) = (http_post, codes "/api/v1/configs/{id}/start")
route_of (configs_stop _) = (http_post, codes "/api/v1/configs/{id}/stop")
route_of (configs_reload _) = (http_post, codes "/api/v1/configs/{id}/reload")
route_of (configs_duplicate _ _) = (http_post, codes "/api/v1/configs/{id}/duplicate")
route_of (configs_status _) = (http_get, codes "/api/v1/configs/{id}/status")
route_of binaries_list = (http_get, codes "/api/v1/binaries")
route_of binaries_available = (http_get, codes "/api/v1/binaries/available")
route_of (binaries_install _) = (http_post, codes "/api/v1/binaries/install")
route_of (binaries_activate _) = (http_post, codes "/api/v1/binaries/{version}/activate")
route_of (binaries_delete _) = (http_delete, codes "/api/v1/binaries/{version}")
route_of auto_update_get = (http_get, codes "/api/v1/binaries/auto-update")
route_of (auto_update_put _) = (http_put, codes "/api/v1/binaries/auto-update")
route_of (auto_update_run _) = (http_post, codes "/api/v1/binaries/auto-update/run")
route_of (validate _) = (http_post, codes "/api/v1/validate")
route_of (traffic _ _) = (http_get, codes "/api/v1/metrics/{id}/traffic")
route_of (live _) = (http_get, codes "/api/v1/configs/{id}/live")
route_of (projection _) = (http_get, codes "/api/v1/configs/{id}/projection")
route_of accounts_list = (http_get, codes "/api/v1/cf/accounts")
route_of (account_get _) = (http_get, codes "/api/v1/cf/accounts/{aid}")
route_of (account_create _) = (http_post, codes "/api/v1/cf/accounts")
route_of (account_update _ _) = (http_patch, codes "/api/v1/cf/accounts/{aid}")
route_of (account_delete _) = (http_delete, codes "/api/v1/cf/accounts/{aid}")
route_of (account_verify _) = (http_post, codes "/api/v1/cf/accounts/{aid}/verify")
route_of (account_choices _) = (http_get, codes "/api/v1/cf/accounts/{aid}/cf-accounts")
route_of (tunnels_list _) = (http_get, codes "/api/v1/cf/accounts/{aid}/tunnels")
route_of (tunnel_create _ _ _) = (http_post, codes "/api/v1/cf/accounts/{aid}/tunnels")
route_of (tunnel_get _ _) = (http_get, codes "/api/v1/cf/accounts/{aid}/tunnels/{tid}")
route_of (tunnel_rename _ _ _) = (http_patch, codes "/api/v1/cf/accounts/{aid}/tunnels/{tid}")
route_of (tunnel_delete _ _) = (http_delete, codes "/api/v1/cf/accounts/{aid}/tunnels/{tid}")
route_of (tunnel_token _ _) = (http_get, codes "/api/v1/cf/accounts/{aid}/tunnels/{tid}/token")
route_of (tunnel_config_get _ _) =
    (http_get, codes "/api/v1/cf/accounts/{aid}/tunnels/{tid}/configurations")
route_of (tunnel_config_put _ _ _) =
    (http_put, codes "/api/v1/cf/accounts/{aid}/tunnels/{tid}/configurations")
route_of (connections_list _ _) =
    (http_get, codes "/api/v1/cf/accounts/{aid}/tunnels/{tid}/connections")
route_of (connections_cleanup _ _ _) =
    (http_delete, codes "/api/v1/cf/accounts/{aid}/tunnels/{tid}/connections")
route_of (zones_list _ _) = (http_get, codes "/api/v1/cf/accounts/{aid}/zones")
route_of (dns_list _ _ _) = (http_get, codes "/api/v1/cf/accounts/{aid}/zones/{zid}/dns_records")
route_of (dns_create _ _ _) = (http_post, codes "/api/v1/cf/accounts/{aid}/zones/{zid}/dns_records")
route_of (dns_update _ _ _ _) =
    (http_put, codes "/api/v1/cf/accounts/{aid}/zones/{zid}/dns_records/{rid}")
route_of (dns_delete _ _ _) =
    (http_delete, codes "/api/v1/cf/accounts/{aid}/zones/{zid}/dns_records/{rid}")
route_of (token_info _) = (http_get, codes "/api/v1/configs/{id}/cf/token-info")
route_of (binding_get _) = (http_get, codes "/api/v1/configs/{id}/cf/binding")
route_of (binding_set _ _) = (http_put, codes "/api/v1/configs/{id}/cf/binding")
route_of (binding_delete _) = (http_delete, codes "/api/v1/configs/{id}/cf/binding")
route_of (hostnames_list _) = (http_get, codes "/api/v1/configs/{id}/cf/public-hostnames")
route_of (hostname_add _ _) = (http_post, codes "/api/v1/configs/{id}/cf/public-hostnames")
route_of (hostname_update _ _ _) =
    (http_put, codes "/api/v1/configs/{id}/cf/public-hostnames/{index}")
route_of (hostname_delete _ _ _) =
    (http_delete, codes "/api/v1/configs/{id}/cf/public-hostnames/{index}")

-- The text of the caller that stands in the URL as it is, if there is one.
unfoldable pub raw_part : ApiCall → Str
raw_part (configs_get id) = id
raw_part (configs_update id _) = id
raw_part (configs_delete id) = id
raw_part (configs_start id) = id
raw_part (configs_stop id) = id
raw_part (configs_reload id) = id
raw_part (configs_duplicate id _) = id
raw_part (configs_status id) = id
raw_part _ = []

module _ (uri : Uri) where
  -- What the parameters of the route are meant to be.
  unfoldable pub identifiers : ApiCall → List Str
  identifiers (configs_get id) = id ∷ []
  identifiers (configs_update id _) = id ∷ []
  identifiers (configs_delete id) = id ∷ []
  identifiers (configs_start id) = id ∷ []
  identifiers (configs_stop id) = id ∷ []
  identifiers (configs_reload id) = id ∷ []
  identifiers (configs_duplicate id _) = id ∷ []
  identifiers (configs_status id) = id ∷ []
  identifiers (binaries_activate version) = uri.encode version ∷ []
  identifiers (binaries_delete version) = uri.encode version ∷ []
  identifiers (traffic id _) = uri.encode id ∷ []
  identifiers (live id) = uri.encode id ∷ []
  identifiers (projection id) = uri.encode id ∷ []
  identifiers (account_get aid) = uri.encode aid ∷ []
  identifiers (account_update aid _) = uri.encode aid ∷ []
  identifiers (account_delete aid) = uri.encode aid ∷ []
  identifiers (account_verify aid) = uri.encode aid ∷ []
  identifiers (account_choices aid) = uri.encode aid ∷ []
  identifiers (tunnels_list aid) = uri.encode aid ∷ []
  identifiers (tunnel_create aid _ _) = uri.encode aid ∷ []
  identifiers (tunnel_get aid tid) = uri.encode aid ∷ uri.encode tid ∷ []
  identifiers (tunnel_rename aid tid _) = uri.encode aid ∷ uri.encode tid ∷ []
  identifiers (tunnel_delete aid tid) = uri.encode aid ∷ uri.encode tid ∷ []
  identifiers (tunnel_token aid tid) = uri.encode aid ∷ uri.encode tid ∷ []
  identifiers (tunnel_config_get aid tid) = uri.encode aid ∷ uri.encode tid ∷ []
  identifiers (tunnel_config_put aid tid _) = uri.encode aid ∷ uri.encode tid ∷ []
  identifiers (connections_list aid tid) = uri.encode aid ∷ uri.encode tid ∷ []
  identifiers (connections_cleanup aid tid _) = uri.encode aid ∷ uri.encode tid ∷ []
  identifiers (zones_list aid _) = uri.encode aid ∷ []
  identifiers (dns_list aid zid _) = uri.encode aid ∷ uri.encode zid ∷ []
  identifiers (dns_create aid zid _) = uri.encode aid ∷ uri.encode zid ∷ []
  identifiers (dns_update aid zid rid _) = uri.encode aid ∷ uri.encode zid ∷ uri.encode rid ∷ []
  identifiers (dns_delete aid zid rid) = uri.encode aid ∷ uri.encode zid ∷ uri.encode rid ∷ []
  identifiers (token_info id) = uri.encode id ∷ []
  identifiers (binding_get id) = uri.encode id ∷ []
  identifiers (binding_set id _) = uri.encode id ∷ []
  identifiers (binding_delete id) = uri.encode id ∷ []
  identifiers (hostnames_list id) = uri.encode id ∷ []
  identifiers (hostname_add id _) = uri.encode id ∷ []
  identifiers (hostname_update id index _) = uri.encode id ∷ uri.print index ∷ []
  identifiers (hostname_delete id index _) = uri.encode id ∷ uri.print index ∷ []
  identifiers _ = []
