-- ===== src/Accounts/Page/Runs.antt =====
-- What web/src/pages/CFAccounts.tsx sends over any sequence of signals.
use cloudflared_manager.Base.{
  ◌≡◌, false, Option, none, some, List, [], ◌∷◌, Str, is_empty, trim, All, All-append, if_intro,
}
use cloudflared_manager.Api.Types.{AccountView}
use cloudflared_manager.Api.Reply.{done, failed}
use cloudflared_manager.Accounts.{AccountForm, edit_input}
use cloudflared_manager.Accounts.Page.{
  AccountPage, AccountRequest, update_account, AccountSignal, reload, open_create, cancel,
  confirm_pick, cancel_pick, listed, open_edit, edit_form, submit, updated, created, listed_then,
  set_pick, pick_answered, verify_clicked, verify_answered, delete_confirmed, delete_answered,
  submit_input, on_confirm_pick, account_step, account_steps,
}
use cloudflared_manager.Accounts.Page.Secrets.{IsSecret, chosen, secrets_of, edit_input_secrets}

-- A secret that is not blank and has no white space around it.
abbrev pub IsClean : Str → Type 0
IsClean s = (is_empty s ≡ false) × (trim s ≡ s)

abbrev pub SendsClean : AccountRequest → Type 0
SendsClean (update_account id input) = All IsClean (secrets_of input)
SendsClean _ = Unit

secrets-IsClean :
    (entered : Option Str) (secrets : List Str)
    → All (IsSecret entered) secrets
    → All IsClean secrets
secrets-IsClean entered [] h = tt
secrets-IsClean entered (s ∷ secrets) ((text, e, t, full, tight), h) =
    ((full, tight), secrets-IsClean entered secrets h)

submit_input-SendsClean :
    (editing : Option AccountView) (v : AccountForm) → SendsClean (submit_input editing v)
submit_input-SendsClean none v = tt
submit_input-SendsClean (some acc) v =
    secrets-IsClean (chosen v) (secrets_of (edit_input v)) (edit_input_secrets v)

on_confirm_pick-SendsClean : (p : AccountPage) → All SendsClean (on_confirm_pick p).1
on_confirm_pick-SendsClean p =
    if_intro (λ (out : AccountPage × List AccountRequest). All SendsClean out.1)
      (is_empty p.pick_value) _ _ (λ e. tt) (λ e. (tt, tt))

account_step-SendsClean :
    (s : AccountSignal) (p : AccountPage) → All SendsClean (account_step s p).1
unfolding account_step
account_step-SendsClean reload p = (tt, tt)
account_step-SendsClean (listed r) p = tt
account_step-SendsClean open_create p = tt
account_step-SendsClean (open_edit acc) p = tt
account_step-SendsClean (edit_form v) p = tt
account_step-SendsClean cancel p = tt
account_step-SendsClean (submit v) p = (submit_input-SendsClean p.editing v, tt)
account_step-SendsClean (updated id (done r)) p = (tt, tt)
account_step-SendsClean (updated id (failed e)) p = tt
account_step-SendsClean (created (done r)) p = (tt, tt)
account_step-SendsClean (created (failed e)) p = tt
account_step-SendsClean (listed_then w id resp r) p = tt
account_step-SendsClean confirm_pick p = on_confirm_pick-SendsClean p
account_step-SendsClean (set_pick id) p = tt
account_step-SendsClean cancel_pick p = tt
account_step-SendsClean (pick_answered (done r)) p = (tt, tt)
account_step-SendsClean (pick_answered (failed e)) p = tt
account_step-SendsClean (verify_clicked acc) p = (tt, tt)
account_step-SendsClean (verify_answered id (done r)) p = (tt, tt)
account_step-SendsClean (verify_answered id (failed e)) p = tt
account_step-SendsClean (delete_confirmed acc) p = (tt, tt)
account_step-SendsClean (delete_answered (done u)) p = (tt, tt)
account_step-SendsClean (delete_answered (failed e)) p = tt

-- Whatever happens on the page, no update of an account sends a blank secret, or one with white space
-- around it: a secret that was left out of the form is never replaced.
pub account_steps-SendsClean :
    (signals : List AccountSignal) (p : AccountPage) → All SendsClean (account_steps signals p).1
unfolding account_steps
account_steps-SendsClean [] p = tt
account_steps-SendsClean (s ∷ signals) p =
    All-append SendsClean (account_step s p).1 _ (account_step-SendsClean s p)
      (account_steps-SendsClean signals (account_step s p).0)
