-- ===== src/Updates/Types.antt =====
-- web/src/api/types.ts: the binaries of cloudflared and the settings and the state of their updates.
use cloudflared_manager.Base.{Bool, Option, Str}
use cloudflared_manager.Api.Types.{Number}

pub record BinaryItem : Type 0 where
  pub version : Str
  pub path : Str
  pub sha256 : Option Str
  pub source_url : Option Str
  pub mirror : Option Str
  pub downloaded_at : Option Str
  pub size_bytes : Option Number
  pub verified : Option Bool
  pub is_active : Bool

pub record AvailableRelease : Type 0 where
  pub tag_name : Str
  pub published_at : Str
  pub html_url : Str
  pub asset_url : Option Str
  pub sha256 : Option Str

pub data AutoUpdateMode : Type 0 where
  mode_full mode_download mode_notify : AutoUpdateMode

pub record AutoUpdateSettings : Type 0 where
  pub enabled : Bool
  pub mode : AutoUpdateMode
  pub interval_hours : Number
  pub include_prerelease : Bool
  pub auto_rollback : Bool
  pub keep_versions : Number
  pub health_grace_seconds : Number

pub record AutoUpdateStatus : Type 0 where
  pub state : Str
  pub last_result : Str
  pub last_error : Option Str
  pub last_check_at : Option Str
  pub active_version : Option Str
  pub latest_known : Option Str
  pub pending_version : Option Str
  pub in_progress : Bool

pub record AutoUpdateView : Type 0 where
  pub settings : AutoUpdateSettings
  pub status : AutoUpdateStatus
