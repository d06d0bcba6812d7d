-- ===== src/Accounts/Page.antt =====
-- web/src/pages/CFAccounts.tsx: the state of the page and its handlers, each cut at its `await`s.
pub mod Secrets
pub mod Choice
pub mod Runs
use cloudflared_manager.Base.{
  ℕ, Bool, true, false, not, ◌&&◌, Option, none, some, List, [], ◌∷◌, ◌++◌, if◌then◌else◌, ltb,
  length, or_default, or_empty, or_else, Str, codes, str_eq, is_empty,
}
use cloudflared_manager.Api.Types.{AccountView, CfAccount, AccountVerify, AccountResp, AccountInput}
use cloudflared_manager.Api.Reply.{Rejection, err_msg, Reply, done, failed}
use cloudflared_manager.Accounts.{AccountForm, edit_input, create_input, pick_input}

pub data AccountRequest : Type 0 where
  list_accounts : AccountRequest
  create_account : AccountInput → AccountRequest
  update_account : Str → AccountInput → AccountRequest
  verify_account : Str → AccountRequest
  delete_account : Str → AccountRequest

pub data AccountNotice : Type 0 where
  list_failed save_failed pick_failed verify_failed delete_failed unverified : Str → AccountNotice
  several verified pick_missing picked deleted : AccountNotice

pub record AccountPage : Type 0 where
  pub items : List AccountView
  pub loading : Bool
  pub busy : Str → Bool
  pub modal_open : Bool
  pub editing : Option AccountView
  pub form : AccountForm
  pub saving : Bool
  pub pick_open : Bool
  pub pick_accounts : List CfAccount
  pub pick_target : Str
  pub pick_value : Str
  pub pick_loading : Bool
  pub notices : List AccountNotice

-- What is under way while `submit` or `handleVerify` awaits the list: it ends in its `finally`.
pub data Waiting : Type 0 where
  in_submit : Waiting
  in_verify : Str → Waiting

pub data AccountSignal : Type 0 where
  reload open_create cancel confirm_pick cancel_pick : AccountSignal
  listed : Reply (Option (List AccountView)) → AccountSignal
  open_edit : AccountView → AccountSignal
  edit_form submit : AccountForm → AccountSignal
  updated : Str → Reply AccountResp → AccountSignal
  created : Reply AccountResp → AccountSignal
  listed_then : Waiting → Str → AccountResp → Reply (Option (List AccountView)) → AccountSignal
  set_pick : Str → AccountSignal
  pick_answered : Reply AccountResp → AccountSignal
  verify_clicked : AccountView → AccountSignal
  verify_answered : Str → Reply AccountResp → AccountSignal
  delete_confirmed : AccountView → AccountSignal
  delete_answered : Reply Unit → AccountSignal

abbrev pub report : AccountNotice → AccountPage → AccountPage
report n p = record p { notices = n ∷ p.notices }

-- `form.resetFields()` and `setFieldsValue`
abbrev pub create_form : AccountForm
create_form = record {
  name = [];
  auth_type = codes "token";
  token = none;
  email = none;
  api_key = none;
  account_id = none;
}

abbrev pub edit_form_of : AccountView → AccountForm
edit_form_of acc = record {
  name = acc.name;
  auth_type = acc.auth_type;
  token = some [];
  email = some acc.email;
  api_key = some [];
  account_id = some acc.account_id;
}

-- `loadList`, up to its request.
abbrev pub load_list : AccountPage → AccountPage × List AccountRequest
load_list p = (record p { loading = true }, list_accounts ∷ [])

abbrev pub on_list : Reply (Option (List AccountView)) → AccountPage → AccountPage
on_list (failed e) p = report (list_failed (err_msg e)) (record p { loading = false })
on_list (done items) p = record p { items = or_default items []; loading = false }

-- `verify.accounts?.[0]?.id || ''`
abbrev pub first_account : List CfAccount → Str
first_account [] = []
first_account (a ∷ accounts) = a.id

abbrev pub is_choice : AccountResp → Bool
is_choice r = is_empty r.account.account_id && ltb 1 (length (or_default r.verify.accounts []))

abbrev pub handle_verify_result : Str → AccountResp → AccountPage → AccountPage
handle_verify_result id r p =
    if not r.verify.ok
    then report (unverified (or_else (or_empty r.verify.error) (codes "账号信息无效，请重新编辑"))) p
    else if is_choice r
    then report several (record p {
      pick_accounts = or_default r.verify.accounts [];
      pick_target = id;
      pick_value = first_account (or_default r.verify.accounts []);
      pick_open = true;
    })
    else report verified p

abbrev pub mark_busy : Str → Bool → (Str → Bool) → Str → Bool
mark_busy id b busy j = if str_eq id j then b else busy j

abbrev pub finish : Waiting → AccountPage → AccountPage
finish in_submit p = record p { saving = false }
finish (in_verify id) p = record p { busy = mark_busy id false p.busy }

abbrev pub submit_input : Option AccountView → AccountForm → AccountRequest
submit_input none v = create_account (create_input v)
submit_input (some acc) v = update_account acc.id (edit_input v)

-- Behind a save: the form is closed and the list is awaited.
abbrev pub on_account_saved : Reply AccountResp → AccountPage → AccountPage × List AccountRequest
on_account_saved (failed e) p = (report (save_failed (err_msg e)) (record p { saving = false }), [])
on_account_saved (done r) p = load_list (record p { modal_open = false })

abbrev pub on_confirm_pick : AccountPage → AccountPage × List AccountRequest
on_confirm_pick p = if is_empty p.pick_value then (report pick_missing p, []) else (
  record p { pick_loading = true },
  update_account p.pick_target (pick_input p.pick_value) ∷ [],
)

abbrev pub on_pick_answer : Reply AccountResp → AccountPage → AccountPage × List AccountRequest
on_pick_answer (failed e) p =
    (report (pick_failed (err_msg e)) (record p { pick_loading = false }), [])
on_pick_answer (done r) p =
    load_list (report picked (record p { pick_open = false; pick_loading = false }))

abbrev pub on_verify_answer :
    Str → Reply AccountResp → AccountPage → AccountPage × List AccountRequest
on_verify_answer id (failed e) p =
    (finish (in_verify id) (report (verify_failed (err_msg e)) p), [])
on_verify_answer id (done r) p = load_list p

abbrev pub on_delete_answer : Reply Unit → AccountPage → AccountPage × List AccountRequest
on_delete_answer (failed e) p = (report (delete_failed (err_msg e)) p, [])
on_delete_answer (done u) p = load_list (report deleted p)

-- `submit` is a submission whose form passed its validation; `listed_then` is the reply to the list that
-- `submit` or `handleVerify` awaits, with the account and the response that they hold.
unfoldable pub account_step : AccountSignal → AccountPage → AccountPage × List AccountRequest
account_step reload p = load_list p
account_step (listed r) p = (on_list r p, [])
account_step open_create p =
    (record p { editing = none; form = create_form; modal_open = true }, [])
account_step (open_edit acc) p =
    (record p { editing = some acc; form = edit_form_of acc; modal_open = true }, [])
account_step (edit_form v) p = (record p { form = v }, [])
account_step cancel p = (record p { modal_open = false }, [])
account_step (submit v) p = (record p { saving = true }, submit_input p.editing v ∷ [])
account_step (updated id r) p = on_account_saved r p
account_step (created r) p = on_account_saved r p
account_step (listed_then w id resp r) p =
    (finish w (handle_verify_result id resp (on_list r p)), [])
account_step confirm_pick p = on_confirm_pick p
account_step (set_pick id) p = (record p { pick_value = id }, [])
account_step cancel_pick p = (record p { pick_open = false }, [])
account_step (pick_answered r) p = on_pick_answer r p
account_step (verify_clicked acc) p =
    (record p { busy = mark_busy acc.id true p.busy }, verify_account acc.id ∷ [])
account_step (verify_answered id r) p = on_verify_answer id r p
account_step (delete_confirmed acc) p = (p, delete_account acc.id ∷ [])
account_step (delete_answered r) p = on_delete_answer r p

-- The page and all requests behind a sequence of signals, the first request first.
unfoldable pub account_steps : List AccountSignal → AccountPage → AccountPage × List AccountRequest
unfolding account_step
account_steps [] p = (p, [])
account_steps (s ∷ signals) p =
    let (p1, first) = account_step s p in
    let (p2, others) = account_steps signals p1 in (p2, first ++ others)
