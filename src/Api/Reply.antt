-- ===== src/Api/Reply.antt =====
-- What a page sees of a request: the response or the rejection, of which `errMsg` of
-- web/src/components/instance/InstanceCFPanel.tsx and web/src/pages/CFAccounts.tsx makes a text.
use cloudflared_manager.Base.{ℕ, Option, Str, codes, or_else, or_empty}

-- What is read of a rejected request: the status of the response, the daemon's message, the error's own.
pub record Rejection : Type 0 where
  pub status : Option ℕ
  pub answer : Option Str
  pub text : Option Str

abbrev pub err_msg : Rejection → Str
err_msg e = or_else (or_empty e.answer) (or_else (or_empty e.text) (codes "未知错误"))

pub data Reply (A : Type 0) : Type 0 where
  done : A → Reply A
  failed : Rejection → Reply A
