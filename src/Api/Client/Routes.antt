-- ===== src/Api/Client/Routes.antt =====
-- web/src/api/client.ts: the requests of `configsApi`, `binariesApi`, `autoUpdateApi`, `validateApi`,
-- `metricsApi`, `instanceApi` and `cfApi`. A payload is the JSON object that the caller builds.

pub mod Table
pub mod Paths
pub mod Prefixes
pub mod Reach
use cloudflared_manager.Base.{
  ◌≡◌, ℕ, Bool, true, false, not, ◌||◌, ◌&&◌, Option, none, some, List, [], ◌∷◌, ◌++◌,
  if◌then◌else◌, ◌==◌, Str, codes, is_empty, or_empty, or_default,
}
use cloudflared_manager.Api.Types.{Value, str, obj, Fields, end, field}
use cloudflared_manager.Api.Client.{
  Method, http_get, http_post, http_put, http_patch, http_delete, Body, no_body, json, text,
  HttpRequest,
}

-- '/', '?' and '#' end a segment of a path.
abbrev pub is_delimiter : ℕ → Bool
is_delimiter c = c == 47 || (c == 63 || c == 35)

abbrev pub is_segment : Str → Bool
is_segment [] = true
is_segment (c ∷ s) = not (is_delimiter c) && is_segment s

-- What a URL is made of by the language: `encodeURIComponent` on a well-formed text, which escapes the
-- three delimiters among others, and the decimal text of an integer.
pub record Uri : Type 0 where
  pub encode : Str → Str
  pub print : ℕ → Str
  pub encode_segment : (s : Str) → is_segment (encode s) ≡ true
  pub print_segment : (n : ℕ) → is_segment (print n) ≡ true

-- The configuration of a call without parameters and headers.
abbrev pub request_to : Method → Str → Body → HttpRequest
request_to method url body = record {
  method = method;
  url = url;
  params = end;
  body = body;
  headers = end;
}

abbrev pub with_params : Fields → HttpRequest → HttpRequest
with_params params config = record config { params = params }

-- `s ? { k: s } : undefined`
abbrev pub given : Str → Str → Fields
given k s = if is_empty s then end else field k (str s) end

-- The calls, with their arguments.
pub data ApiCall : Type 0 where
  configs_list : ApiCall
  configs_get : Str → ApiCall
  configs_create : Fields → ApiCall
  configs_update : Str → Fields → ApiCall
  configs_delete : Str → ApiCall
  configs_start : Str → ApiCall
  configs_stop : Str → ApiCall
  configs_reload : Str → ApiCall
  configs_duplicate : Str → Str → ApiCall
  configs_status : Str → ApiCall
  binaries_list : ApiCall
  binaries_available : ApiCall
  binaries_install : Str → ApiCall
  binaries_activate : Str → ApiCall
  binaries_delete : Str → ApiCall
  auto_update_get : ApiCall
  auto_update_put : Fields → ApiCall
  auto_update_run : Option Fields → ApiCall
  validate : Str → ApiCall
  traffic : Str → Fields → ApiCall
  live : Str → ApiCall
  projection : Str → ApiCall
  accounts_list : ApiCall
  account_get : Str → ApiCall
  account_create : Fields → ApiCall
  account_update : Str → Fields → ApiCall
  account_delete : Str → ApiCall
  account_verify : Str → ApiCall
  account_choices : Str → ApiCall
  tunnels_list : Str → ApiCall
  tunnel_create : Str → Str → Option Str → ApiCall
  tunnel_get : Str → Str → ApiCall
  tunnel_rename : Str → Str → Str → ApiCall
  tunnel_delete : Str → Str → ApiCall
  tunnel_token : Str → Str → ApiCall
  tunnel_config_get : Str → Str → ApiCall
  tunnel_config_put : Str → Str → Fields → ApiCall
  connections_list : Str → Str → ApiCall
  connections_cleanup : Str → Str → Option Str → ApiCall
  zones_list : Str → Option Str → ApiCall
  dns_list : Str → Str → Option Str → ApiCall
  dns_create : Str → Str → Fields → ApiCall
  dns_update : Str → Str → Str → Fields → ApiCall
  dns_delete : Str → Str → Str → ApiCall
  token_info : Str → ApiCall
  binding_get : Str → ApiCall
  binding_set : Str → Fields → ApiCall
  binding_delete : Str → ApiCall
  hostnames_list : Str → ApiCall
  hostname_add : Str → Fields → ApiCall
  hostname_update : Str → ℕ → Fields → ApiCall
  hostname_delete : Str → ℕ → Bool → ApiCall

module _ (uri : Uri) where
  unfoldable pub request_of : ApiCall → HttpRequest
  request_of configs_list = request_to http_get (codes "/api/v1/configs") no_body
  request_of (configs_get id) = request_to http_get (codes "/api/v1/configs/" ++ id) no_body
  request_of (configs_create payload) =
      request_to http_post (codes "/api/v1/configs") (json (obj payload))
  request_of (configs_update id payload) =
      request_to http_put (codes "/api/v1/configs/" ++ id) (json (obj payload))
  request_of (configs_delete id) = request_to http_delete (codes "/api/v1/configs/" ++ id) no_body
  request_of (configs_start id) =
      request_to http_post (codes "/api/v1/configs/" ++ (id ++ codes "/start")) no_body
  request_of (configs_stop id) =
      request_to http_post (codes "/api/v1/configs/" ++ (id ++ codes "/stop")) no_body
  request_of (configs_reload id) =
      request_to http_post (codes "/api/v1/configs/" ++ (id ++ codes "/reload")) no_body
  request_of (configs_duplicate id new_id) =
      request_to http_post (codes "/api/v1/configs/" ++ (id ++ codes "/duplicate"))
        (json (obj (field (codes "new_id") (str new_id) end)))
  request_of (configs_status id) =
      request_to http_get (codes "/api/v1/configs/" ++ (id ++ codes "/status")) no_body
  request_of binaries_list = request_to http_get (codes "/api/v1/binaries") no_body
  request_of binaries_available = request_to http_get (codes "/api/v1/binaries/available") no_body
  request_of (binaries_install version) =
      request_to http_post (codes "/api/v1/binaries/install")
        (json (obj (field (codes "version") (str version) end)))
  request_of (binaries_activate version) =
      request_to http_post (codes "/api/v1/binaries/" ++ (uri.encode version ++ codes "/activate"))
        no_body
  request_of (binaries_delete version) =
      request_to http_delete (codes "/api/v1/binaries/" ++ uri.encode version) no_body
  request_of auto_update_get = request_to http_get (codes "/api/v1/binaries/auto-update") no_body
  request_of (auto_update_put patch) =
      request_to http_put (codes "/api/v1/binaries/auto-update") (json (obj patch))
  request_of (auto_update_run opts) =
      request_to http_post (codes "/api/v1/binaries/auto-update/run")
        (json (obj (or_default opts end)))
  request_of (validate content) =
      record (request_to http_post (codes "/api/v1/validate") (text content)) {
        headers = field (codes "Content-Type") (str (codes "text/plain")) end;
      }
  request_of (traffic id params) = with_params params (
      request_to http_get (codes "/api/v1/metrics/" ++ (uri.encode id ++ codes "/traffic")) no_body)
  request_of (live id) =
      request_to http_get (codes "/api/v1/configs/" ++ (uri.encode id ++ codes "/live")) no_body
  request_of (projection id) =
      request_to http_get (codes "/api/v1/configs/" ++ (uri.encode id ++ codes "/projection"))
        no_body
  request_of accounts_list = request_to http_get (codes "/api/v1/cf/accounts") no_body
  request_of (account_get aid) =
      request_to http_get (codes "/api/v1/cf/accounts/" ++ uri.encode aid) no_body
  request_of (account_create payload) =
      request_to http_post (codes "/api/v1/cf/accounts") (json (obj payload))
  request_of (account_update aid payload) =
      request_to http_patch (codes "/api/v1/cf/accounts/" ++ uri.encode aid) (json (obj payload))
  request_of (account_delete aid) =
      request_to http_delete (codes "/api/v1/cf/accounts/" ++ uri.encode aid) no_body
  request_of (account_verify aid) =
      request_to http_post (codes "/api/v1/cf/accounts/" ++ (uri.encode aid ++ codes "/verify"))
        no_body
  request_of (account_choices aid) =
      request_to http_get (codes "/api/v1/cf/accounts/" ++ (uri.encode aid ++ codes "/cf-accounts"))
        no_body
  request_of (tunnels_list aid) =
      request_to http_get (codes "/api/v1/cf/accounts/" ++ (uri.encode aid ++ codes "/tunnels"))
        no_body
  request_of (tunnel_create aid name config_src) =
      request_to http_post (codes "/api/v1/cf/accounts/" ++ (uri.encode aid ++ codes "/tunnels")) (
        json (
          obj (
            field (codes "name") (str name)
              (field (codes "config_src") (str (or_default config_src (codes "cloudflare"))) end))))
  request_of (tunnel_get aid tid) =
      request_to http_get
        (codes "/api/v1/cf/accounts/" ++ (uri.encode aid ++ (codes "/tunnels/" ++ uri.encode tid)))
        no_body
  request_of (tunnel_rename aid tid name) =
      request_to http_patch
        (codes "/api/v1/cf/accounts/" ++ (uri.encode aid ++ (codes "/tunnels/" ++ uri.encode tid)))
        (json (obj (field (codes "name") (str name) end)))
  request_of (tunnel_delete aid tid) =
      request_to http_delete
        (codes "/api/v1/cf/accounts/" ++ (uri.encode aid ++ (codes "/tunnels/" ++ uri.encode tid)))
        no_body
  request_of (tunnel_token aid tid) =
      request_to http_get
        (codes "/api/v1/cf/accounts/"
          ++ (uri.encode aid ++ (codes "/tunnels/" ++ (uri.encode tid ++ codes "/token"))))
        no_body
  request_of (tunnel_config_get aid tid) =
      request_to http_get
        (codes "/api/v1/cf/accounts/"
          ++ (uri.encode aid ++ (codes "/tunnels/" ++ (uri.encode tid ++ codes "/configurations"))))
        no_body
  request_of (tunnel_config_put aid tid config) =
      request_to http_put
        (codes "/api/v1/cf/accounts/"
          ++ (uri.encode aid ++ (codes "/tunnels/" ++ (uri.encode tid ++ codes "/configurations"))))
        (json (obj (field (codes "config") (obj config) end)))
  request_of (connections_list aid tid) =
      request_to http_get
        (codes "/api/v1/cf/accounts/"
          ++ (uri.encode aid ++ (codes "/tunnels/" ++ (uri.encode tid ++ codes "/connections"))))
        no_body
  request_of (connections_cleanup aid tid client_id) =
      with_params (given (codes "client_id") (or_empty client_id)) (
        request_to http_delete
          (codes "/api/v1/cf/accounts/"
            ++ (uri.encode aid ++ (codes "/tunnels/" ++ (uri.encode tid ++ codes "/connections"))))
          no_body)
  request_of (zones_list aid name) = with_params (given (codes "name") (or_empty name)) (
      request_to http_get (codes "/api/v1/cf/accounts/" ++ (uri.encode aid ++ codes "/zones"))
        no_body)
  request_of (dns_list aid zid name) = with_params (given (codes "name") (or_empty name)) (
      request_to http_get
        (codes "/api/v1/cf/accounts/"
          ++ (uri.encode aid ++ (codes "/zones/" ++ (uri.encode zid ++ codes "/dns_records"))))
        no_body)
  request_of (dns_create aid zid rec) =
      request_to http_post
        (codes "/api/v1/cf/accounts/"
          ++ (uri.encode aid ++ (codes "/zones/" ++ (uri.encode zid ++ codes "/dns_records"))))
        (json (obj rec))
  request_of (dns_update aid zid rid rec) =
      request_to http_put
        (codes "/api/v1/cf/accounts/"
          ++ (uri.encode aid
              ++ (codes "/zones/"
                  ++ (uri.encode zid ++ (codes "/dns_records/" ++ uri.encode rid)))))
        (json (obj rec))
  request_of (dns_delete aid zid rid) =
      request_to http_delete
        (codes "/api/v1/cf/accounts/"
          ++ (uri.encode aid
              ++ (codes "/zones/"
                  ++ (uri.encode zid ++ (codes "/dns_records/" ++ uri.encode rid)))))
        no_body
  request_of (token_info id) =
      request_to http_get (codes "/api/v1/configs/" ++ (uri.encode id ++ codes "/cf/token-info"))
        no_body
  request_of (binding_get id) =
      request_to http_get (codes "/api/v1/configs/" ++ (uri.encode id ++ codes "/cf/binding"))
        no_body
  request_of (binding_set id payload) =
      request_to http_put (codes "/api/v1/configs/" ++ (uri.encode id ++ codes "/cf/binding"))
        (json (obj payload))
  request_of (binding_delete id) =
      request_to http_delete (codes "/api/v1/configs/" ++ (uri.encode id ++ codes "/cf/binding"))
        no_body
  request_of (hostnames_list id) =
      request_to http_get
        (codes "/api/v1/configs/" ++ (uri.encode id ++ codes "/cf/public-hostnames")) no_body
  request_of (hostname_add id payload) =
      request_to http_post
        (codes "/api/v1/configs/" ++ (uri.encode id ++ codes "/cf/public-hostnames"))
        (json (obj payload))
  request_of (hostname_update id index payload) =
      request_to http_put
        (codes "/api/v1/configs/"
          ++ (uri.encode id ++ (codes "/cf/public-hostnames/" ++ uri.print index)))
        (json (obj payload))
  request_of (hostname_delete id index delete_dns) =
      with_params (if delete_dns then field (codes "delete_dns") (str (codes "true")) end else end)
        (request_to http_delete
          (codes "/api/v1/configs/"
            ++ (uri.encode id ++ (codes "/cf/public-hostnames/" ++ uri.print index)))
          no_body)
