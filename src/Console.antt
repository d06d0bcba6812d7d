-- ===== src/Console.antt =====
-- web/src/pages/CFConsole.tsx: the console of an account's tunnels, its state and its handlers, each cut at its
-- `await`s. What the user does and the replies of the requests enter as signals, in any order.
pub mod Selection
mod Tests
use cloudflared_manager.Base.{
  ℕ, Bool, true, false, not, ◌&&◌, ◌||◌, Option, none, some, List, [], ◌∷◌, ◌++◌, map,
  if◌then◌else◌, or_default, or_empty, Str, codes, str_eq, is_empty, trim,
}
use cloudflared_manager.Api.Types.{AccountView, Tunnel}
use cloudflared_manager.Api.Reply.{err_msg, Reply, done, failed}
use cloudflared_manager.Binding.{usable_accounts}

pub data ConsoleRequest : Type 0 where
  list_accounts : ConsoleRequest
  list_tunnels : Str → ConsoleRequest
  create_tunnel : Str → Str → ConsoleRequest
  rename_tunnel : Str → Str → Str → ConsoleRequest
  delete_tunnel : Str → Str → ConsoleRequest

pub data ConsoleNotice : Type 0 where
  accounts_failed tunnels_failed create_failed rename_failed delete_failed : Str → ConsoleNotice
  name_missing new_name_missing tunnel_created renamed tunnel_deleted : ConsoleNotice

pub record Console : Type 0 where
  pub accounts : List AccountView
  pub accounts_loading : Bool
  pub aid : Str
  pub tunnels : List Tunnel
  pub tunnels_loading : Bool
  pub tid : Str
  pub create_open : Bool
  pub new_name : Str
  pub creating : Bool
  pub rename_open : Bool
  pub rename_target : Option Tunnel
  pub rename_value : Str
  pub renaming : Bool
  pub collapsed : Bool
  pub notices : List ConsoleNotice

pub data ConsoleSignal : Type 0 where
  mount reload_accounts reload_tunnels toggle_list open_create cancel_create create_clicked :
      ConsoleSignal
  rename_clicked cancel_rename : ConsoleSignal
  accounts_listed : Reply (Option (List AccountView)) → ConsoleSignal
  tunnels_listed : Reply (Option (List Tunnel)) → ConsoleSignal
  select_account select_tunnel set_new_name set_rename_value : Str → ConsoleSignal
  create_answered : Str → Reply (Option Str) → ConsoleSignal
  listed_after_create : Option Str → Reply (Option (List Tunnel)) → ConsoleSignal
  open_rename : Tunnel → ConsoleSignal
  rename_answered : Str → Reply Unit → ConsoleSignal
  delete_confirmed : Tunnel → ConsoleSignal
  delete_answered : Str → Str → Str → Reply Unit → ConsoleSignal

abbrev pub mention : ConsoleNotice → Console → Console
mention n p = record p { notices = n ∷ p.notices }

-- `ids.some((id) => id === s)`
abbrev pub includes_id : Str → List Str → Bool
includes_id s [] = false
includes_id s (id ∷ ids) = str_eq id s || includes_id s ids

-- `items[0]?.id || ''`
abbrev pub first_of : List Str → Str
first_of [] = []
first_of (id ∷ ids) = id

-- `prev && items.some((x) => x.id === prev) ? prev : items[0]?.id || ''`
unfoldable pub keep_or_first : Str → List Str → Str
keep_or_first prev ids = if not (is_empty prev) && includes_id prev ids then prev else first_of ids

abbrev pub account_ids : List AccountView → List Str
account_ids = map (λ (a : AccountView). a.id)

abbrev pub tunnel_ids : List Tunnel → List Str
tunnel_ids = map (λ (t : Tunnel). t.id)

abbrev pub load_accounts : Console → Console × List ConsoleRequest
load_accounts p = (record p { accounts_loading = true }, list_accounts ∷ [])

abbrev pub load_tunnels : Str → Console → Console × List ConsoleRequest
load_tunnels aid p =
    if is_empty aid
    then (record p { tunnels = []; tid = [] }, [])
    else (record p { tunnels_loading = true }, list_tunnels aid ∷ [])

-- The effect on the account runs when it changes.
unfoldable pub change_account : Str → Console → Console × List ConsoleRequest
change_account aid p =
    if str_eq aid p.aid then (p, []) else load_tunnels aid (record p { aid = aid })

abbrev pub on_accounts : Reply (Option (List AccountView)) → Console → Console × List ConsoleRequest
on_accounts (failed e) p =
    (mention (accounts_failed (err_msg e)) (record p { accounts_loading = false }), [])
on_accounts (done items) p =
    let usable = usable_accounts (or_default items []) in
    change_account (keep_or_first p.aid (account_ids usable))
      (record p { accounts = or_default items []; accounts_loading = false })

unfoldable pub on_tunnels : Reply (Option (List Tunnel)) → Console → Console
on_tunnels (failed e) p =
    mention (tunnels_failed (err_msg e)) (record p { tunnels = []; tunnels_loading = false })
on_tunnels (done items) p = record p {
  tunnels = or_default items [];
  tid = keep_or_first p.tid (tunnel_ids (or_default items []));
  tunnels_loading = false;
}

abbrev pub handle_create : Console → Console × List ConsoleRequest
handle_create p =
    if is_empty (trim p.new_name)
    then (mention name_missing p, [])
    else (record p { creating = true }, create_tunnel p.aid (trim p.new_name) ∷ [])

-- `if (resp.data?.id) setTid(resp.data.id)`, and the `finally`.
abbrev pub select_new : Option Str → Console → Console
select_new none p = record p { creating = false }
select_new (some id) p =
    if is_empty id then record p { creating = false } else record p { tid = id; creating = false }

-- Without an account there is no list to wait for.
abbrev pub on_created : Str → Reply (Option Str) → Console → Console × List ConsoleRequest
on_created aid (failed e) p =
    (mention (create_failed (err_msg e)) (record p { creating = false }), [])
on_created aid (done id) p =
    let closed = record (mention tunnel_created p) { create_open = false; new_name = [] } in
    if is_empty aid
    then (select_new id (load_tunnels aid closed).0, [])
    else load_tunnels aid closed

abbrev pub rename_target_to : Option Tunnel → Console → Console × List ConsoleRequest
rename_target_to none p = (mention new_name_missing p, [])
rename_target_to (some t) p =
    if is_empty (trim p.rename_value)
    then (mention new_name_missing p, [])
    else (record p { renaming = true }, rename_tunnel p.aid t.id (trim p.rename_value) ∷ [])

abbrev pub on_renamed : Str → Reply Unit → Console → Console × List ConsoleRequest
on_renamed aid (failed e) p =
    (mention (rename_failed (err_msg e)) (record p { renaming = false }), [])
on_renamed aid (done u) p =
    load_tunnels aid
      (record (mention renamed p) { rename_open = false; rename_target = none; renaming = false })

-- `tid` is the tunnel that was selected when the deletion was confirmed.
abbrev pub on_tunnel_deleted :
    Str → Str → Str → Reply Unit → Console → Console × List ConsoleRequest
on_tunnel_deleted aid tid id (failed e) p = (mention (delete_failed (err_msg e)) p, [])
on_tunnel_deleted aid tid id (done u) p =
    let told = mention tunnel_deleted p in
    load_tunnels aid (if str_eq tid id then record told { tid = [] } else told)

unfoldable pub console_step : ConsoleSignal → Console → Console × List ConsoleRequest
console_step mount p =
    let (p1, first) = load_accounts p in
    let (p2, others) = load_tunnels p1.aid p1 in (p2, first ++ others)
console_step reload_accounts p = load_accounts p
console_step reload_tunnels p = load_tunnels p.aid p
console_step (accounts_listed r) p = on_accounts r p
console_step (tunnels_listed r) p = (on_tunnels r p, [])
console_step (select_account aid) p = change_account aid p
console_step (select_tunnel tid) p = (record p { tid = tid }, [])
console_step toggle_list p = (record p { collapsed = not p.collapsed }, [])
console_step open_create p = (record p { new_name = []; create_open = true }, [])
console_step cancel_create p = (record p { create_open = false }, [])
console_step (set_new_name name) p = (record p { new_name = name }, [])
console_step create_clicked p = handle_create p
console_step (create_answered aid r) p = on_created aid r p
console_step (listed_after_create id r) p = (select_new id (on_tunnels r p), [])
console_step (open_rename t) p =
    (record p { rename_target = some t; rename_value = t.name; rename_open = true }, [])
console_step cancel_rename p = (record p { rename_open = false }, [])
console_step (set_rename_value name) p = (record p { rename_value = name }, [])
console_step rename_clicked p = rename_target_to p.rename_target p
console_step (rename_answered aid r) p = on_renamed aid r p
console_step (delete_confirmed t) p = (p, delete_tunnel p.aid t.id ∷ [])
console_step (delete_answered aid tid id r) p = on_tunnel_deleted aid tid id r p

-- The console and all requests behind a sequence of signals, the first request first.
unfoldable pub console_steps : List ConsoleSignal → Console → Console × List ConsoleRequest
unfolding console_step
console_steps [] p = (p, [])
console_steps (s ∷ signals) p =
    let (p1, first) = console_step s p in
    let (p2, others) = console_steps signals p1 in (p2, first ++ others)
