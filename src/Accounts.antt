-- ===== src/Accounts.antt =====
-- web/src/pages/CFAccounts.tsx: the page of the Cloudflare accounts, its form and what is sent for it.
pub mod Page
mod Tests
use cloudflared_manager.Base.{
  Bool, true, false, Option, none, some, if◌then◌else◌, or_empty, Str, codes, str_eq, is_empty,
  trim,
}
use cloudflared_manager.Api.Types.{AccountInput}

-- `AccountFormValues`
pub record AccountForm : Type 0 where
  pub name : Str
  pub auth_type : Str
  pub token : Option Str
  pub email : Option Str
  pub api_key : Option Str
  pub account_id : Option Str

-- `if (s && s.trim()) … = s.trim()`
abbrev pub kept_secret : Option Str → Option Str
kept_secret none = none
kept_secret (some s) =
    if is_empty s then none else if is_empty (trim s) then none else some (trim s)

abbrev pub is_token_auth : AccountForm → Bool
is_token_auth v = str_eq v.auth_type (codes "token")

-- What an edit sends: a secret that is left blank is kept by the daemon, so it is not sent.
unfoldable pub edit_input : AccountForm → AccountInput
edit_input v =
    if is_token_auth v
    then record {
      name = some v.name;
      auth_type = some v.auth_type;
      token = kept_secret v.token;
      email = none;
      api_key = none;
      account_id = some (or_empty v.account_id);
    }
    else record {
      name = some v.name;
      auth_type = some v.auth_type;
      token = none;
      email = some (or_empty v.email);
      api_key = kept_secret v.api_key;
      account_id = some (or_empty v.account_id);
    }

-- What a new account is made of.
unfoldable pub create_input : AccountForm → AccountInput
create_input v =
    if is_token_auth v
    then record {
      name = some v.name;
      auth_type = some v.auth_type;
      token = some (trim (or_empty v.token));
      email = none;
      api_key = none;
      account_id = some (or_empty v.account_id);
    }
    else record {
      name = some v.name;
      auth_type = some v.auth_type;
      token = none;
      email = some (or_empty v.email);
      api_key = some (trim (or_empty v.api_key));
      account_id = some (or_empty v.account_id);
    }

-- `{ account_id: pickValue }`
abbrev pub pick_input : Str → AccountInput
pick_input id = record {
  name = none;
  auth_type = none;
  token = none;
  email = none;
  api_key = none;
  account_id = some id;
}
