-- ===== src/Console/Tests.antt =====
-- The theorems on web/src/pages/CFConsole.tsx at a concrete console.
use cloudflared_manager.Base.{true, false, none, some, List, [], ◌∷◌, Str, codes}
use cloudflared_manager.Api.Types.{Tunnel}
use cloudflared_manager.Console.{Console}

abbrev tunnel : Str → Tunnel
tunnel id = record {
  id = id;
  account_tag = none;
  name = id;
  created_at = none;
  deleted_at = none;
  conns_active_at = none;
  conns_inactive_at = none;
  status = some (codes "healthy");
  tun_type = none;
  config_src = some (codes "cloudflare");
  remote_config = some true;
  connections = none;
}

abbrev console : Console
console = record {
  accounts = [];
  accounts_loading = false;
  aid = [];
  tunnels = [];
  tunnels_loading = false;
  tid = [];
  create_open = false;
  new_name = [];
  creating = false;
  rename_open = false;
  rename_target = none;
  rename_value = [];
  renaming = false;
  collapsed = false;
  notices = [];
}

abbrev tunnels_of_a : List Tunnel
tunnels_of_a = tunnel (codes "ta") ∷ []
