-- ===== src/Updates/Binaries.antt =====
-- web/src/pages/Binaries.tsx: the state of the page and its handlers, each cut at its `await`s.
pub mod Requests
mod Tests
use cloudflared_manager.Base.{
  ◌≡◌, ℕ, Bool, true, false, not, ◌&&◌, ◌||◌, Option, none, some, List, [], ◌∷◌, ◌++◌,
  if◌then◌else◌, ◌==◌, Str, codes, str_eq, is_empty, or_else, or_empty, or_default,
}
use cloudflared_manager.Api.Types.{Value, null, bool, num, str, arr, obj, Fields, end, field}
use cloudflared_manager.Api.Json.{lookup, fields_of}
use cloudflared_manager.Api.Reply.{Rejection, Reply, done, failed}
use cloudflared_manager.Api.Client.Routes.{
  ApiCall, binaries_list, binaries_available, binaries_install, binaries_activate, binaries_delete,
  auto_update_get, auto_update_run,
}
use cloudflared_manager.Updates.Types.{
  BinaryItem, AvailableRelease, AutoUpdateStatus, AutoUpdateView,
}

pub data BinariesNotice : Type 0 where
  binary_updated rolled_back busy no_version : BinariesNotice
  run_started run_failed available_failed installed_ok install_failed activated_ok activate_failed :
      Str → BinariesNotice
  deleted_ok delete_failed : Str → BinariesNotice

pub record BinariesPage : Type 0 where
  pub items : List BinaryItem
  pub loading : Bool
  pub error : Option Str
  pub check_modal_open : Bool
  pub available : List AvailableRelease
  pub check_loading : Bool
  pub selected_ver : Str
  pub installing : Bool
  pub action_loading : Str → Bool
  pub auto_status : Option AutoUpdateStatus
  pub auto_running : Bool
  pub notices : List BinariesNotice

-- A call, or the timer of `loadAutoStatus`.
pub data BinariesRequest : Type 0 where
  api : ApiCall → BinariesRequest
  status_timer : BinariesRequest

-- `update_event` is the payload of an event of type 'binary.update'.
pub data BinariesSignal : Type 0 where
  mounted refresh check_available install_clicked close_modal status_due : BinariesSignal
  listed : Reply (Option (List BinaryItem)) → BinariesSignal
  auto_answered : Reply AutoUpdateView → BinariesSignal
  update_event : Option Value → BinariesSignal
  auto_run : Bool → Str → BinariesSignal
  run_answered : Str → Reply Unit → BinariesSignal
  available_answered : Reply (Option (List AvailableRelease)) → BinariesSignal
  select_version activate_clicked delete_confirmed : Str → BinariesSignal
  installed activated deleted : Str → Reply Unit → BinariesSignal

abbrev pub tell_user : BinariesNotice → BinariesPage → BinariesPage
tell_user n p = record p { notices = n ∷ p.notices }

abbrev pub has_status : ℕ → Rejection → Bool
has_status n e = is_status e.status
  where
    is_status : Option ℕ → Bool
    is_status none = false
    is_status (some s) = s == n

-- The message of the daemon, and of the error itself where there is none.
abbrev pub answer_or_unknown : Rejection → Str
answer_or_unknown e = or_else (or_empty e.answer) (codes "未知错误")

abbrev pub answer_or_text : Rejection → Str
answer_or_text e = or_else (or_empty e.answer) (or_default e.text (codes "undefined"))

-- `loadList`, up to its request.
abbrev pub load_binaries : BinariesPage → BinariesPage × List BinariesRequest
load_binaries p = (record p { loading = true; error = none }, api binaries_list ∷ [])

abbrev pub list_error : Rejection → Str
list_error e =
    if has_status 404 e || has_status 501 e
    then codes "当前版本的后端不支持二进制管理 API，请升级 cfdmgrd。"
    else codes "获取二进制列表失败：" ++ answer_or_unknown e

abbrev pub on_binaries : Reply (Option (List BinaryItem)) → BinariesPage → BinariesPage
on_binaries (done items) p = record p { items = or_default items []; loading = false }
on_binaries (failed e) p = record p { error = some (list_error e); loading = false }

abbrev pub on_auto : Reply AutoUpdateView → BinariesPage → BinariesPage
on_auto (done view) p = record p { auto_status = some view.status }
on_auto (failed e) p = record p { auto_status = none }

-- `(e.data as { phase?: string } | undefined)?.phase === phase`
abbrev pub is_phase : Str → Option Value → Bool
is_phase phase payload = is_text (lookup (codes "phase") (fields_of payload))
  where
    is_text : Option Value → Bool
    is_text (some (str s)) = str_eq s phase
    is_text _ = false

-- The listener of 'binary.update'.
abbrev pub on_update_event : Option Value → BinariesPage → BinariesPage × List BinariesRequest
on_update_event payload p =
    let status = api auto_update_get ∷ [] in
    let listing = record p { loading = true; error = none } in
    let both = api auto_update_get ∷ api binaries_list ∷ [] in
    if is_phase (codes "done") payload
    then (tell_user binary_updated listing, both)
    else if is_phase (codes "rolled_back") payload
    then (tell_user rolled_back listing, both)
    else if is_phase (codes "error") payload
    then (listing, both)
    else (p, status)

-- The options of `handleAutoRun`, `{}` or `{ apply: true }`.
abbrev pub run_options : Bool → Fields
run_options apply = if apply then field (codes "apply") (bool true) end else end

abbrev pub on_run_reply : Str → Reply Unit → BinariesPage → BinariesPage × List BinariesRequest
on_run_reply label (done u) p =
    (record (tell_user (run_started label) p) { auto_running = false }, status_timer ∷ [])
on_run_reply label (failed e) p =
    let n =
      if has_status 409 e
      then busy
      else run_failed (label ++ (codes "失败：" ++ answer_or_unknown e)) in
    (record (tell_user n p) { auto_running = false }, [])

-- `releases[0]?.tag_name || ''`
abbrev pub first_tag : List AvailableRelease → Str
first_tag [] = []
first_tag (r ∷ releases) = r.tag_name

abbrev pub on_available : Reply (Option (List AvailableRelease)) → BinariesPage → BinariesPage
on_available (done items) p = record p {
  available = or_default items [];
  selected_ver = first_tag (or_default items []);
  check_modal_open = true;
  check_loading = false;
}
on_available (failed e) p = record (tell_user (available_failed (answer_or_text e)) p) {
  check_loading = false;
}

abbrev pub mark : Str → Bool → (Str → Bool) → Str → Bool
mark version b flags v = if str_eq version v then b else flags v

-- `handleInstall`, up to its request.
abbrev pub on_install : BinariesPage → BinariesPage × List BinariesRequest
on_install p =
    if is_empty p.selected_ver
    then (tell_user no_version p, [])
    else (record p { installing = true }, api (binaries_install p.selected_ver) ∷ [])

abbrev pub on_installed : Str → Reply Unit → BinariesPage → BinariesPage × List BinariesRequest
on_installed version (done u) p =
    load_binaries
      (record (tell_user (installed_ok version) p) { check_modal_open = false; installing = false })
on_installed version (failed e) p =
    (record (tell_user (install_failed (answer_or_text e)) p) { installing = false }, [])

abbrev pub free : Str → BinariesPage → BinariesPage
free version p = record p { action_loading = mark version false p.action_loading }

abbrev pub on_activated : Str → Reply Unit → BinariesPage → BinariesPage × List BinariesRequest
on_activated version (done u) p = load_binaries (free version (tell_user (activated_ok version) p))
on_activated version (failed e) p =
    (free version (tell_user (activate_failed (answer_or_text e)) p), [])

abbrev pub on_binary_deleted : Str → Reply Unit → BinariesPage → BinariesPage × List BinariesRequest
on_binary_deleted version (done u) p =
    load_binaries (free version (tell_user (deleted_ok version) p))
on_binary_deleted version (failed e) p =
    (free version (tell_user (delete_failed (answer_or_text e)) p), [])

unfoldable pub binaries_step : BinariesSignal → BinariesPage → BinariesPage × List BinariesRequest
binaries_step mounted p =
    (record p { loading = true; error = none }, api binaries_list ∷ api auto_update_get ∷ [])
binaries_step refresh p = load_binaries p
binaries_step (listed r) p = (on_binaries r p, [])
binaries_step (auto_answered r) p = (on_auto r p, [])
binaries_step (update_event payload) p = on_update_event payload p
binaries_step (auto_run apply label) p =
    (record p { auto_running = true }, api (auto_update_run (some (run_options apply))) ∷ [])
binaries_step (run_answered label r) p = on_run_reply label r p
binaries_step status_due p = (p, api auto_update_get ∷ [])
binaries_step check_available p = (record p { check_loading = true }, api binaries_available ∷ [])
binaries_step (available_answered r) p = (on_available r p, [])
binaries_step (select_version v) p = (record p { selected_ver = v }, [])
binaries_step close_modal p = (record p { check_modal_open = false }, [])
binaries_step install_clicked p = on_install p
binaries_step (installed version r) p = on_installed version r p
binaries_step (activate_clicked version) p = (
  record p { action_loading = mark version true p.action_loading },
  api (binaries_activate version) ∷ [],
)
binaries_step (activated version r) p = on_activated version r p
binaries_step (delete_confirmed version) p = (
  record p { action_loading = mark version true p.action_loading },
  api (binaries_delete version) ∷ [],
)
binaries_step (deleted version r) p = on_binary_deleted version r p

unfoldable pub binaries_steps :
    List BinariesSignal → BinariesPage → BinariesPage × List BinariesRequest
unfolding binaries_step
binaries_steps [] p = (p, [])
binaries_steps (s ∷ signals) p =
    let (p1, first) = binaries_step s p in
    let (p2, others) = binaries_steps signals p1 in (p2, first ++ others)

abbrev pub first_page : BinariesPage
first_page = record {
  items = [];
  loading = false;
  error = none;
  check_modal_open = false;
  available = [];
  check_loading = false;
  selected_ver = [];
  installing = false;
  action_loading = λ v. false;
  auto_status = none;
  auto_running = false;
  notices = [];
}
