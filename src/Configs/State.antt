-- ===== src/Configs/State.antt =====
-- web/src/pages/Configs.tsx: the state of the page, the requests that it makes and what may happen to it.
use cloudflared_manager.Base.{Bool, false, Option, List, [], ◌∷◌, Str}
use cloudflared_manager.Api.Types.{Value, Fields, Snapshot, MgrMeta, ConfigEnvelope}

pub data Command : Type 0 where
  start stop reload : Command

pub data Request : Type 0 where
  list_configs : Str → Request
  get_status : Str → Request
  command : Command → Str → Request
  delete_config : Str → Str → Request
  get_config : Str → Request
  put_config : Str → Fields → MgrMeta → Request
  post_config : Str → Fields → MgrMeta → Request
  duplicate : Str → Str → Request
  reorder : List Str → Request

pub data Notice : Type 0 where
  list_failed order_failed delete_failed deleted load_failed yaml_failed : Notice
  saved created save_failed id_missing duplicated duplicate_failed : Notice
  commanded command_failed : Command → Notice

-- `EditFormValues`
pub record EditForm : Type 0 where
  pub id : Str
  pub name : Str
  pub token : Str
  pub manual_start : Bool

abbrev pub empty_form : EditForm
empty_form = record { id = []; name = []; token = []; manual_start = false }

pub record Page : Type 0 where
  pub configs : List Snapshot
  pub busy : Str → Bool
  pub active : Str
  pub modal_open : Bool
  pub editing : Option Str
  pub yaml_text : Str
  pub saving : Bool
  pub has_token : Bool
  pub dup_open : Bool
  pub dup_source : Str
  pub dup_new : Str
  pub form : EditForm
  pub drag : Option Str
  pub over : Option Str
  pub collapsed : Bool
  pub notices : List Notice

pub data Signal : Type 0 where
  mount poll config_changed open_create cancel save duplicate_clicked cancel_duplicate drag_end
        toggle_list :
      Signal
  state_event : Option Str → Option Value → Signal
  deleted_event : Option Str → Signal
  listed : Str → Option (List Snapshot) → Signal
  status_of : Str → Option Snapshot → Signal
  clicked : Command → Str → Signal
  answered : Command → Str → Bool → Signal
  delete_clicked : Str → Signal
  delete_answered : Str → Str → Bool → Signal
  open_edit : Str → Signal
  loaded : Option ConfigEnvelope → Signal
  edit_form : EditForm → Signal
  edit_yaml : Str → Signal
  save_answered : Option Str → Str → Str → Bool → Signal
  open_duplicate : Str → Signal
  set_dup_new : Str → Signal
  duplicate_answered : Str → Bool → Signal
  set_active : Str → Signal
  drag_start : Str → Signal
  drag_over : Str → Signal
  row_drop : Str → Signal
  reorder_answered : Str → Bool → Signal

abbrev pub notify : Notice → Page → Page
notify n p = record p { notices = n ∷ p.notices }
