-- ===== src/Api/Client/Tests.antt =====
-- The session and the routes of web/src/api/client.ts, with an encoding of texts that escapes each unit
-- outside the unreserved ASCII characters by its lower byte.
use cloudflared_manager.Base.{
  ◌≡◌, refl, ℕ, zero, suc, ◌+◌, ◌/◌, ◌%◌, Bool, true, false, not, ◌&&◌, ◌||◌, some, List, [], ◌∷◌,
  ◌++◌, if◌then◌else◌, leb, ltb, Str, codes, All, arith, includes, starts_with, if_intro,
}
use cloudflared_manager.Api.Types.{end}
use cloudflared_manager.Api.Client.{
  HttpRequest, http_get, no_body, BrowserSession, is_exempt, on_rejected,
}
use cloudflared_manager.Api.Client.Session.{
  SessionEvent, call, rejected, token_set, Carries, outgoing, sent_after_401,
}
use cloudflared_manager.Api.Client.Routes.{Uri, is_delimiter, is_segment, tunnel_token, request_of}
use cloudflared_manager.Api.Client.Routes.Table.{segments}
use cloudflared_manager.Api.Json.{lookup}

abbrev is_unreserved : ℕ → Bool
is_unreserved c = (leb 48 c && leb c 57) || ((leb 65 c && leb c 90) || (leb 97 c && leb c 122))

abbrev hex : ℕ → ℕ
hex n = if ltb n 10 then 48 + n else 55 + n

abbrev escape : ℕ → Str
escape c = if is_unreserved c then c ∷ [] else 37 ∷ hex (c / 16 % 16) ∷ hex (c % 16) ∷ []

abbrev encode : Str → Str
encode [] = []
encode (c ∷ s) = escape c ++ encode s

is_segment-append :
    (s t : Str) → is_segment s ≡ true → is_segment t ≡ true → is_segment (s ++ t) ≡ true
is_segment-append [] t h k = k
is_segment-append (c ∷ s) t h k = ground (arith, h, is_segment-append s t, k)

hex_segment : (n : ℕ) → not (is_delimiter (hex n)) ≡ true
hex_segment n = ground arith

escape_segment : (c : ℕ) → is_segment (escape c) ≡ true
escape_segment c =
    if_intro (λ s. is_segment s ≡ true) (is_unreserved c) _ _ (λ e. ground (arith, e))
      (λ e. rw (hex_segment (c / 16 % 16), hex_segment (c % 16)) refl)

encode_segment : (s : Str) → is_segment (encode s) ≡ true
encode_segment [] = refl
encode_segment (c ∷ s) =
    is_segment-append (escape c) (encode s) (escape_segment c) (encode_segment s)

abbrev digits : ℕ → ℕ → Str
digits zero n = (48 + n % 10) ∷ []
digits (suc fuel) n =
    let more = digits fuel (n / 10) in
    if ltb n 10 then (48 + n) ∷ [] else more ++ (48 + n % 10) ∷ []

digits_segment : (fuel n : ℕ) → is_segment (digits fuel n) ≡ true
digits_segment zero n = ground arith
digits_segment (suc fuel) n =
    if_intro (λ s. is_segment s ≡ true) (ltb n 10) _ _ (λ e. ground (arith, e))
      (λ e.
        is_segment-append (digits fuel (n / 10)) _ (digits_segment fuel (n / 10)) (ground arith))

abbrev uri : Uri
uri = record {
  encode = encode;
  print = λ n. digits n n;
  encode_segment = encode_segment;
  print_segment = λ n. digits_segment n n;
}

abbrev call_of : Str → HttpRequest
call_of url = record { method = http_get; url = url; params = end; body = no_body; headers = end }

abbrev signed_in : BrowserSession
signed_in = record { stored = some (codes "old"); href = codes "/configs" }

-- An identifier with a slash stays one segment.
slash_test :
    segments (request_of uri (tunnel_token (codes "a/b") (codes "t"))).url
    ≡ []
      ∷ codes "api"
      ∷ codes "v1"
      ∷ codes "cf"
      ∷ codes "accounts"
      ∷ codes "a%2Fb"
      ∷ codes "tunnels"
      ∷ codes "t"
      ∷ codes "token"
      ∷ []
unfolding request_of segments
slash_test = refl

-- The check for an update is spared with the version: its URL has the version's in it.
check_test : is_exempt (codes "/api/v1/version/check") ≡ true
unfolding is_exempt includes starts_with
check_test = refl

abbrev later_events : List SessionEvent
later_events =
    call (call_of (codes "/api/v1/configs"))
    ∷ token_set (codes "new")
    ∷ call (call_of (codes "/api/v1/configs"))
    ∷ []

protected : is_exempt (codes "/api/v1/configs") ≡ false
unfolding is_exempt includes starts_with
protected = refl

sent_after_401_example :
    ((on_rejected (call_of (codes "/api/v1/configs")) (some 401) signed_in).href ≡ codes "/login")
    × All (Carries (λ t. t ≡ codes "new")) (
        outgoing (rejected (call_of (codes "/api/v1/configs")) (some 401) ∷ later_events) signed_in)
unfolding lookup
sent_after_401_example =
    sent_after_401 (λ t. t ≡ codes "new") (call_of (codes "/api/v1/configs")) signed_in later_events
      protected (refl, (tt, (refl, tt))) (refl, tt)
