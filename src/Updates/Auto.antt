-- ===== src/Updates/Auto.antt =====
-- web/src/components/AutoUpdateCard.tsx: the settings of the automatic updates and the state they are in.
pub mod Editing
mod Tests
use cloudflared_manager.Base.{
  ◌≡◌, ℕ, Bool, true, false, not, ◌&&◌, ◌||◌, Option, none, some, List, [], ◌∷◌, ◌++◌,
  if◌then◌else◌, ◌==◌, Str, codes, str_eq, is_empty,
}
use cloudflared_manager.Api.Types.{Number, Value, bool, num, str, Fields, end, field}
use cloudflared_manager.Api.Reply.{Rejection, Reply, done, failed}
use cloudflared_manager.Api.Client.Routes.{
  ApiCall, auto_update_get, auto_update_put, auto_update_run,
}
use cloudflared_manager.Updates.Types.{
  AutoUpdateMode, mode_full, mode_download, mode_notify, AutoUpdateSettings, AutoUpdateStatus,
  AutoUpdateView,
}
use cloudflared_manager.Updates.Binaries.{has_status, answer_or_unknown}

pub data AutoNotice : Type 0 where
  saved save_failed already_running : AutoNotice
  run_started run_failed : Str → AutoNotice

pub record AutoCard : Type 0 where
  pub form : AutoUpdateSettings
  pub status : Option AutoUpdateStatus
  pub loading : Bool
  pub saving : Bool
  pub running : Bool
  pub unavailable : Bool
  pub notices : List AutoNotice

pub data AutoRequest : Type 0 where
  api : ApiCall → AutoRequest
  status_timer : AutoRequest

-- `status_answered` is the answer to a request of the listener or of the timer.
pub data AutoSignal : Type 0 where
  load submit update_event status_due : AutoSignal
  loaded saved_answer status_answered : Reply AutoUpdateView → AutoSignal
  edit_form : AutoUpdateSettings → AutoSignal
  trigger : Fields → Str → AutoSignal
  run_answered : Str → Reply Unit → AutoSignal

abbrev mode_text : AutoUpdateMode → Str
mode_text mode_full = codes "full"
mode_text mode_download = codes "download"
mode_text mode_notify = codes "notify"

-- The values of the form's items, in their order.
abbrev pub form_values : AutoUpdateSettings → Fields
form_values v = field (codes "enabled") (bool v.enabled) (
    field (codes "mode") (str (mode_text v.mode)) (
      field (codes "interval_hours") (num v.interval_hours) (
        field (codes "keep_versions") (num v.keep_versions) (
          field (codes "health_grace_seconds") (num v.health_grace_seconds) (
            field (codes "include_prerelease") (bool v.include_prerelease)
              (field (codes "auto_rollback") (bool v.auto_rollback) end))))))

abbrev pub note : AutoNotice → AutoCard → AutoCard
note n p = record p { notices = n ∷ p.notices }

abbrev pub on_settings : Reply AutoUpdateView → AutoCard → AutoCard
on_settings (done view) p = record p {
  form = view.settings;
  status = some view.status;
  unavailable = false;
  loading = false;
}
on_settings (failed e) p = record p {
  unavailable = if has_status 503 e || has_status 404 e then true else p.unavailable;
  loading = false;
}

abbrev pub on_settings_saved : Reply AutoUpdateView → AutoCard → AutoCard
on_settings_saved (done view) p =
    note saved (record p { form = view.settings; status = some view.status; saving = false })
on_settings_saved (failed e) p = note save_failed (record p { saving = false })

abbrev pub on_status_reply : Reply AutoUpdateView → AutoCard → AutoCard
on_status_reply (done view) p = record p { status = some view.status }
on_status_reply (failed e) p = p

abbrev pub on_trigger_reply : Str → Reply Unit → AutoCard → AutoCard × List AutoRequest
on_trigger_reply label (done u) p =
    (record (note (run_started label) p) { running = false }, status_timer ∷ [])
on_trigger_reply label (failed e) p =
    let n =
      if has_status 409 e
      then already_running
      else run_failed (label ++ (codes "失败：" ++ answer_or_unknown e)) in
    (record (note n p) { running = false }, [])

unfoldable pub auto_step : AutoSignal → AutoCard → AutoCard × List AutoRequest
auto_step load p = (record p { loading = true }, api auto_update_get ∷ [])
auto_step (loaded r) p = (on_settings r p, [])
auto_step (edit_form v) p = (record p { form = v }, [])
auto_step submit p = (record p { saving = true }, api (auto_update_put (form_values p.form)) ∷ [])
auto_step (saved_answer r) p = (on_settings_saved r p, [])
auto_step update_event p = (p, api auto_update_get ∷ [])
auto_step status_due p = (p, api auto_update_get ∷ [])
auto_step (status_answered r) p = (on_status_reply r p, [])
auto_step (trigger opts label) p =
    (record p { running = true }, api (auto_update_run (some opts)) ∷ [])
auto_step (run_answered label r) p = on_trigger_reply label r p

unfoldable pub auto_steps : List AutoSignal → AutoCard → AutoCard × List AutoRequest
unfolding auto_step
auto_steps [] p = (p, [])
auto_steps (s ∷ signals) p =
    let (p1, first) = auto_step s p in
    let (p2, others) = auto_steps signals p1 in (p2, first ++ others)

-- The state and the result of the last update, as `StateTag` words them.
abbrev pub state_label : Str → Str
state_label s =
    if str_eq s (codes "idle")
    then codes "空闲"
    else if str_eq s (codes "checking")
    then codes "检查中"
    else if str_eq s (codes "downloading")
    then codes "下载中"
    else if str_eq s (codes "applying")
    then codes "激活中"
    else if str_eq s (codes "restarting")
    then codes "重启实例中"
    else if str_eq s (codes "rolling_back")
    then codes "回滚中"
    else s

abbrev pub result_label : Str → Str
result_label s =
    if str_eq s (codes "up_to_date")
    then codes "已是最新"
    else if str_eq s (codes "updated")
    then codes "已更新"
    else if str_eq s (codes "downloaded")
    then codes "已下载待应用"
    else if str_eq s (codes "notified")
    then codes "发现新版"
    else if str_eq s (codes "failed")
    then codes "更新失败"
    else if str_eq s (codes "rolled_back")
    then codes "已回滚"
    else if str_eq s (codes "rolled_back_degraded")
    then codes "已回滚（部分实例未恢复）"
    else s

abbrev pub state_tag : AutoUpdateStatus → Str
state_tag status =
    if status.in_progress || not (str_eq status.state (codes "idle"))
    then state_label status.state
    else if not (is_empty status.last_result)
    then result_label status.last_result
    else codes "空闲"
