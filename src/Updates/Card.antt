-- ===== src/Updates/Card.antt =====
-- web/src/components/UpdateCard.tsx: the state of the card and its handlers, each cut at its `await`s. The
-- calls of `doUpdate` are numbered; each has its own `polling`.
pub mod Ending
pub mod Polling
use cloudflared_manager.Base.{
  ◌≡◌, ℕ, zero, suc, ◌+◌, Bool, true, false, not, ◌&&◌, Option, none, some, List, [], ◌∷◌, ◌++◌,
  if◌then◌else◌, ◌==◌, Str, codes, is_empty, or_else, or_empty,
}
use cloudflared_manager.Api.Reply.{Rejection, Reply, done, failed}
use cloudflared_manager.Api.Client.{HttpRequest}
use cloudflared_manager.Api.Update.{Outcome, restarted, timed_out}
use cloudflared_manager.Updates.{
  VersionCheck, UpdateStart, check_version, start_update, fetch_update_log,
}

pub data CardPhase : Type 0 where
  loading ready updating updated update_failed : CardPhase

pub data CardNotice : Type 0 where
  found : Option Str → CardNotice
  up_to_date check_failed : CardNotice
  now_at update_error : Str → CardNotice

pub record Card : Type 0 where
  pub info : Option VersionCheck
  pub phase : CardPhase
  pub checking : Bool
  pub progress_text : Str
  pub new_version : Str
  pub update_log : Str
  pub confirming : Option VersionCheck
  pub calls : ℕ
  pub polling : ℕ → Bool
  pub notices : List CardNotice

-- What the handlers await: a request, the restart of the daemon, and a timer of the given call.
pub data CardRequest : Type 0 where
  request : HttpRequest → CardRequest
  poll_log final_log : ℕ → HttpRequest → CardRequest
  starting : ℕ → Str → HttpRequest → CardRequest
  wait_restart : ℕ → Str → CardRequest
  poll_timer : ℕ → CardRequest

-- `log_read` is what `pollLog` read, with `none` where the request failed.
pub data CardSignal : Type 0 where
  check : Bool → CardSignal
  checked : Bool → Reply VersionCheck → CardSignal
  update_clicked update_confirmed update_declined : CardSignal
  update_started : ℕ → Str → Reply UpdateStart → CardSignal
  log_read : ℕ → Option Str → CardSignal
  poll_due : ℕ → CardSignal
  came_back : ℕ → Outcome → CardSignal
  final_read : ℕ → Str → Option Str → CardSignal

abbrev pub say : CardNotice → Card → Card
say n p = record p { notices = n ∷ p.notices }

abbrev pub first_card : Card
first_card = record {
  info = none;
  phase = loading;
  checking = false;
  progress_text = [];
  new_version = [];
  update_log = [];
  confirming = none;
  calls = 0;
  polling = λ k. false;
  notices = [];
}

abbrev pub set_polling : ℕ → Bool → (ℕ → Bool) → ℕ → Bool
set_polling k b polling j = if k == j then b else polling j

abbrev pub check_notice : VersionCheck → CardNotice
check_notice r = if r.has_update then found r.latest else up_to_date

abbrev pub on_checked : Bool → Reply VersionCheck → Card → Card
on_checked force (done r) p =
    let shown = record p { info = some r; phase = ready; checking = false } in
    if force then say (check_notice r) shown else shown
on_checked force (failed e) p = say check_failed (record p { phase = ready; checking = false })

-- `if (log) setUpdateLog(log)`
abbrev pub show_log : Option Str → Card → Card
show_log none p = p
show_log (some log) p = if is_empty log then p else record p { update_log = log }

-- The `catch` of `doUpdate`.
abbrev pub on_failure : ℕ → Str → Card → Card
on_failure k detail p = say (update_error detail) (record p {
  polling = set_polling k false p.polling;
  progress_text = detail;
  phase = update_failed;
})

abbrev pub detail_of : Rejection → Str
detail_of e = or_else (or_empty e.answer) (or_else (or_empty e.text) (codes "更新失败"))

abbrev pub started_text : UpdateStart → Str
started_text r =
    codes "更新已启动（" ++ (r.from ++ (codes " → " ++ (r.to ++ codes "），正在下载并替换二进制，服务即将重启，请勿关闭页面…")))

-- `doUpdate`, up to its request, with the check that it closes over.
abbrev pub do_update : Option VersionCheck → Card → Card × List CardRequest
do_update none p = (p, [])
do_update (some info) p = (
  record p {
    phase = updating;
    update_log = [];
    progress_text = codes "正在启动更新…";
    polling = set_polling p.calls true p.polling;
    calls = suc p.calls;
    confirming = none;
  },
  starting p.calls info.current (start_update false) ∷ [],
)

-- A round of `pollLog`, while the call polls.
abbrev pub poll_round : ℕ → Card → List CardRequest
poll_round k p = if p.polling k then poll_log k fetch_update_log ∷ [] else []

abbrev pub on_started : ℕ → Str → Reply UpdateStart → Card → Card × List CardRequest
on_started k from (failed e) p = (on_failure k (detail_of e) p, [])
on_started k from (done r) p =
    (record p { progress_text = started_text r }, poll_round k p ++ wait_restart k from ∷ [])

abbrev pub on_back : ℕ → Outcome → Card → Card × List CardRequest
on_back k timed_out p = (on_failure k (codes "等待服务重启超时") p, [])
on_back k (restarted v) p =
    (record p { polling = set_polling k false p.polling }, final_log k fetch_update_log ∷ [])

abbrev pub on_final : Str → Option Str → Card → Card
on_final v log p = say (now_at v) (record (show_log log p) { new_version = v; phase = updated })

unfoldable pub card_step : CardSignal → Card → Card × List CardRequest
card_step (check force) p = (record p { checking = true }, request (check_version force) ∷ [])
card_step (checked force r) p = (on_checked force r p, [])
card_step update_clicked p = (record p { confirming = p.info }, [])
card_step update_confirmed p = do_update p.confirming p
card_step update_declined p = (record p { confirming = none }, [])
card_step (update_started k from r) p = on_started k from r p
card_step (log_read k log) p = (if p.polling k then show_log log p else p, poll_timer k ∷ [])
card_step (poll_due k) p = (p, poll_round k p)
card_step (came_back k outcome) p = on_back k outcome p
card_step (final_read k v log) p = (on_final v log p, [])

-- The card and what it awaits behind a sequence of signals.
unfoldable pub card_steps : List CardSignal → Card → Card × List CardRequest
unfolding card_step
card_steps [] p = (p, [])
card_steps (s ∷ signals) p =
    let (p1, first) = card_step s p in
    let (p2, others) = card_steps signals p1 in (p2, first ++ others)
