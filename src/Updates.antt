-- ===== src/Updates.antt =====
-- web/src/api/update.ts and web/src/components/UpdateCard.tsx: what the version check and the start of an
-- update answer, and their requests. The parts of the updates are below.
pub mod Types
pub mod Card
pub mod Binaries
pub mod Auto
mod Tests
use cloudflared_manager.Base.{
  ◌^◌, ◌*◌, Bool, true, false, Option, none, some, List, [], ◌∷◌, if◌then◌else◌, Str, codes,
  is_empty, is_space, strip_front, starts_with, or_empty,
}
use cloudflared_manager.Api.Types.{Number, null, num, Fields, end, field}
use cloudflared_manager.Api.Client.{HttpRequest, http_get, http_post, no_body, json}

pub record VersionCheck : Type 0 where
  pub current : Str
  pub deployment_mode : Str
  pub self_update_enabled : Bool
  pub has_update : Bool
  pub can_self_update : Bool
  pub reason : Str
  pub latest : Option Str
  pub changelog : Option Str
  pub html_url : Option Str
  pub published_at : Option Str
  pub check_error : Option Str

pub record UpdateStart : Type 0 where
  pub status : Str
  pub from : Str
  pub to : Str
  pub message : Str

-- The double 1.
abbrev one_number : Number
one_number = 1023 * 2 ^ 52

abbrev force_params : Bool → Fields
force_params force = if force then field (codes "force") (num one_number) end else end

abbrev pub check_version : Bool → HttpRequest
check_version force = record {
  method = http_get;
  url = codes "/api/v1/version/check";
  params = force_params force;
  body = no_body;
  headers = end;
}

abbrev pub start_update : Bool → HttpRequest
start_update force = record {
  method = http_post;
  url = codes "/api/v1/system/update";
  params = force_params force;
  body = json null;
  headers = end;
}

abbrev pub fetch_update_log : HttpRequest
fetch_update_log = record {
  method = http_get;
  url = codes "/api/v1/system/update/log";
  params = end;
  body = no_body;
  headers = end;
}

-- The text that `fetchUpdateLog` makes of the answer's content.
abbrev pub log_text : Option Str → Str
log_text content = or_empty content

unfoldable pub log_line_color : Str → Str
unfolding strip_front starts_with
log_line_color line =
    let t = strip_front is_space line in
    if starts_with t (codes "[+]")
    then codes "#4ec9b0"
    else if starts_with t (codes "[!]")
    then codes "#dcdcaa"
    else if starts_with t (codes "[x]")
    then codes "#f48771"
    else if starts_with t (codes "[*]")
    then codes "#9cdcfe"
    else codes "#d4d4d4"
