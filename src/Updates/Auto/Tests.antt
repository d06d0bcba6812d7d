-- ===== src/Updates/Auto/Tests.antt =====
-- A change of the settings while an event refreshes the state.
use cloudflared_manager.Base.{◌≡◌, refl, true, false, none, List, [], ◌∷◌, codes}
use cloudflared_manager.Api.Reply.{done}
use cloudflared_manager.Updates.Types.{
  AutoUpdateSettings, AutoUpdateStatus, AutoUpdateView, mode_full, mode_notify,
}
use cloudflared_manager.Updates.Auto.{
  AutoCard, AutoSignal, load, loaded, edit_form, update_event, status_answered, submit, auto_steps,
  form_values, state_tag,
}
use cloudflared_manager.Updates.Auto.Editing.{edits, puts, submitted, auto_steps-submitted}

abbrev default_settings : AutoUpdateSettings
default_settings = record {
  enabled = true;
  mode = mode_full;
  interval_hours = 0x4038000000000000;
  include_prerelease = false;
  auto_rollback = true;
  keep_versions = 0x4008000000000000;
  health_grace_seconds = 0x4020000000000000;
}

abbrev idle_status : AutoUpdateStatus
idle_status = record {
  state = codes "idle";
  last_result = codes "up_to_date";
  last_error = none;
  last_check_at = none;
  active_version = none;
  latest_known = none;
  pending_version = none;
  in_progress = false;
}

abbrev view : AutoUpdateView
view = record { settings = default_settings; status = idle_status }

abbrev notifying : AutoUpdateSettings
notifying = record default_settings { mode = mode_notify }

abbrev auto_card : AutoCard
auto_card = record {
  form = default_settings;
  status = none;
  loading = false;
  saving = false;
  running = false;
  unavailable = false;
  notices = [];
}

abbrev change : List AutoSignal
change =
    load
    ∷ loaded (done view)
    ∷ edit_form notifying
    ∷ update_event
    ∷ status_answered (done view)
    ∷ submit
    ∷ []

kept_test : submitted change default_settings ≡ form_values notifying ∷ []
kept_test = refl

tag_test : state_tag idle_status ≡ codes "已是最新"
tag_test = refl

auto_steps-submitted_example :
    let out = auto_steps change auto_card in
    (out.0.form ≡ edits change auto_card.form) × (puts out.1 ≡ submitted change auto_card.form)
auto_steps-submitted_example = auto_steps-submitted change auto_card
