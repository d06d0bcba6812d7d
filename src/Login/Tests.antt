-- ===== src/Login/Tests.antt =====
-- A login with a token that the daemon refuses.
use cloudflared_manager.Base.{◌≡◌, refl, false, none, some, [], ◌∷◌, codes, All}
use cloudflared_manager.Api.Types.{end}
use cloudflared_manager.Api.Json.{lookup}
use cloudflared_manager.Api.Reply.{Rejection, failed}
use cloudflared_manager.Api.Client.{HttpRequest, http_get, no_body}
use cloudflared_manager.Api.Client.Session.{call, token_set, outgoing, Carries}
use cloudflared_manager.Login.{LoginPage}
use cloudflared_manager.Login.Refusal.{login, sent_after_refusal}

abbrev login_page : LoginPage
login_page = record {
  browser = record { stored = none; href = codes "/login" };
  loading = false;
  route = none;
  notices = [];
}

abbrev unauthorized : Rejection
unauthorized = record { status = some 401; answer = none; text = none }

abbrev list_call : HttpRequest
list_call = record {
  method = http_get;
  url = codes "/api/v1/configs";
  params = end;
  body = no_body;
  headers = end;
}

sent_after_refusal_example : All (Carries (λ t. t ≡ codes "right")) (
    outgoing
      (call list_call ∷ token_set (codes "right") ∷ call list_call ∷ [])
      (login (codes "wrong") (failed unauthorized) login_page).browser)
unfolding lookup
sent_after_refusal_example =
    sent_after_refusal (λ t. t ≡ codes "right") (codes "wrong") (failed unauthorized) login_page
      (call list_call ∷ token_set (codes "right") ∷ call list_call ∷ []) refl
      (refl, (tt, (refl, tt))) (refl, tt)
