-- ===== src/Accounts/Page/Choice.antt =====
-- The choice among the Cloudflare accounts of a credential in web/src/pages/CFAccounts.tsx.
use cloudflared_manager.Base.{
  ◌≡◌, refl, true, false, Option, none, some, List, [], ◌∷◌, is_empty, ltb, length, arith,
}
use cloudflared_manager.Api.Types.{AccountView, CfAccount, AccountResp}
use cloudflared_manager.Api.Reply.{Reply, done, failed}
use cloudflared_manager.Accounts.{AccountForm, create_input, pick_input}
use cloudflared_manager.Accounts.Page.{
  list_accounts, create_account, update_account, AccountPage, in_submit, submit, created,
  listed_then, confirm_pick, account_step, account_steps,
}

two_or_more : (a b : CfAccount) (others : List CfAccount) → ltb 1 (length (a ∷ b ∷ others)) ≡ true
two_or_more a b others = ground arith

-- A new account whose verified credential can use several Cloudflare accounts, with none of them
-- chosen, is offered these, the first one preselected, also where the list could not be loaded
-- again; the choice confirmed then binds it to that one, if its id is not empty.
pub created-confirm_pick :
    (p : AccountPage) (v : AccountForm) (resp : AccountResp) (a b : CfAccount)
    (others : List CfAccount) (r : Reply (Option (List AccountView)))
    → p.editing ≡ none
    → resp.verify.ok ≡ true
    → resp.account.account_id ≡ []
    → resp.verify.accounts ≡ some (a ∷ b ∷ others)
    → is_empty a.id ≡ false
    → (let signals =
          submit v ∷ created (done resp) ∷ listed_then in_submit resp.account.id resp r ∷ [] in
        ((account_steps signals p).0.pick_open ≡ true)
        × ((account_steps signals p).0.pick_accounts ≡ a ∷ b ∷ others)
        × ((account_steps signals p).0.saving ≡ false))
      × ((account_steps
            (submit v
              ∷ created (done resp)
              ∷ listed_then in_submit resp.account.id resp r
              ∷ confirm_pick
              ∷ [])
            p).1
          ≡ create_account (create_input v)
            ∷ list_accounts
            ∷ update_account resp.account.id (pick_input a.id)
            ∷ [])
unfolding account_steps account_step
created-confirm_pick p v resp a b others (done items) e ok i several named =
    rw (e, ok, i, several, two_or_more a b others, named) ((refl, refl, refl), refl)
created-confirm_pick p v resp a b others (failed x) e ok i several named =
    rw (e, ok, i, several, two_or_more a b others, named) ((refl, refl, refl), refl)
