-- ===== src/Accounts/Tests.antt =====
-- The theorems on web/src/pages/CFAccounts.tsx at a concrete page.
use cloudflared_manager.Base.{true, false, Option, none, some, List, [], ◌∷◌, All, codes}
use cloudflared_manager.Api.Types.{AccountView, CfAccount, AccountResp}
use cloudflared_manager.Api.Reply.{Reply, failed}
use cloudflared_manager.Accounts.{AccountForm}
use cloudflared_manager.Accounts.Page.{AccountPage, submit, create_form, account_steps, open_edit}
use cloudflared_manager.Accounts.Page.Runs.{SendsClean, account_steps-SendsClean}

abbrev filled_form : AccountForm
filled_form = record create_form { name = codes "work"; token = some (codes " abc ") }

abbrev page : AccountPage
page = record {
  items = [];
  loading = false;
  busy = λ id. false;
  modal_open = true;
  editing = none;
  form = filled_form;
  saving = false;
  pick_open = false;
  pick_accounts = [];
  pick_target = [];
  pick_value = [];
  pick_loading = false;
  notices = [];
}

abbrev view : AccountView
view = record {
  id = codes "x1";
  name = codes "work";
  auth_type = codes "token";
  account_id = [];
  account_name = [];
  email = [];
  has_token = true;
  has_key = false;
  status = codes "active";
  last_verified_at = [];
  created_at = [];
  updated_at = [];
}

abbrev one_account : CfAccount
one_account = record { id = codes "cf1"; name = codes "One"; type_name = none }

abbrev other_account : CfAccount
other_account = record { id = codes "cf2"; name = codes "Two"; type_name = none }

abbrev response : AccountResp
response = record {
  account = view;
  verify = record { ok = true; error = none; accounts = some (one_account ∷ other_account ∷ []) };
}

abbrev lost_list : Reply (Option (List AccountView))
lost_list = failed (record { status = none; answer = none; text = none })

account_steps-SendsClean_example :
    All SendsClean
      (account_steps
        (open_edit view
          ∷ submit (record filled_form { token = some (codes "  ") })
          ∷ submit filled_form
          ∷ [])
        page).1
account_steps-SendsClean_example =
    account_steps-SendsClean
      (open_edit view
        ∷ submit (record filled_form { token = some (codes "  ") })
        ∷ submit filled_form
        ∷ [])
      page
