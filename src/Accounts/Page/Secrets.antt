-- ===== src/Accounts/Page/Secrets.antt =====
-- The secrets that web/src/pages/CFAccounts.tsx sends.
use cloudflared_manager.Base.{
  ◌≡◌, refl, false, Option, none, some, List, [], ◌∷◌, Str, is_empty, trim, trim_idempotent,
  Option-cases, All, append-nil, if◌then◌else◌, ◌++◌, Bool-cases, inl, inr,
}
use mathlib.Core.Path.{subst}
use cloudflared_manager.Api.Types.{AccountInput}
use cloudflared_manager.Accounts.{AccountForm, kept_secret, is_token_auth, edit_input}

-- A secret that is sent is the trimmed one of the form, and not blank.
abbrev pub IsSecret : Option Str → Str → Type 0
IsSecret entered sent =
    (text : Str) × (entered ≡ some text)
    × (sent ≡ trim text)
    × (is_empty sent ≡ false)
    × (trim sent ≡ sent)

kept_secret_sound :
    (entered : Option Str) (sent : Str) → kept_secret entered ≡ some sent → IsSecret entered sent
kept_secret_sound none sent h = cc
kept_secret_sound (some s) sent h = elim (Bool-cases (is_empty s)) [
  | inl e ↦ let impossible : none ≡ some sent = rw e at h in cc
  | inr e ↦ elim (Bool-cases (is_empty (trim s))) [
    | inl b ↦ let impossible : none ≡ some sent = rw (e, b) at h in cc
    | inr b ↦
        let found : some (trim s) ≡ some sent = rw (e, b) at h in
        let same : trim s ≡ sent = cc in
        subst (IsSecret (some s)) same (s, refl, refl, b, trim_idempotent s)
  ]
]

-- The field of the chosen method.
abbrev pub chosen : AccountForm → Option Str
chosen v = if is_token_auth v then v.token else v.api_key

abbrev present : Option Str → List Str
present none = []
present (some s) = s ∷ []

abbrev pub secrets_of : AccountInput → List Str
secrets_of input = present input.token ++ present input.api_key

kept-All : (entered : Option Str) → All (IsSecret entered) (present (kept_secret entered))
kept-All entered = elim (Option-cases (kept_secret entered)) [
  | inl e ↦ rw e tt
  | inr (s, e) ↦ rw e (kept_secret_sound entered s e, tt)
]

-- An edit sends no secret but the one entered for the chosen method, trimmed and not blank: a field left
-- blank never replaces the stored secret.
pub edit_input_secrets : (v : AccountForm) → All (IsSecret (chosen v)) (secrets_of (edit_input v))
unfolding edit_input
edit_input_secrets v = elim (Bool-cases (is_token_auth v)) [
  | inl e ↦ rw (e, append-nil (present (kept_secret v.token))) (kept-All v.token)
  | inr e ↦ rw e (kept-All v.api_key)
]
