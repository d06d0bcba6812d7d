-- ===== src/Ingress/Origin/Tests.antt =====
-- The theorems on the originRequest form of web/src/pages/cfIngress.ts at concrete inputs. The engine's
-- numbers are stood for by whole numbers, which every text is read as by its digits.
use cloudflared_manager.Base.{
  ℕ, ◌+◌, ◌-◌, ◌*◌, ◌≡◌, refl, true, some, [], ◌∷◌, if◌then◌else◌, Str, codes, All, trim,
}
use cloudflared_manager.Api.Types.{null, bool, num, str, obj, Fields, end, field}
use cloudflared_manager.Api.Json.{Numbers, lookup, to_text}
use cloudflared_manager.Ingress.Seconds.{is_digit, to_seconds}
use cloudflared_manager.Ingress.Origin.{
  OriginForm, duration_keys, build_origin_request, origin_request_to_form, origin_request_tags,
}
use cloudflared_manager.Ingress.Origin.Durations.{
  IsNumberOption, build_origin_request-IsNumberOption,
}
use cloudflared_manager.Ingress.Origin.RoundTrip.{
  FiniteDurations, build_origin_request-origin_request_to_form,
}

abbrev digits_value : ℕ → Str → ℕ
digits_value n [] = n
digits_value n (c ∷ s) = let m = if is_digit c then 10 * n + (c - b'0') else n in digits_value m s

abbrev pub whole_numbers : Numbers
whole_numbers = record {
  of_text = digits_value 0;
  add = λ m n. m + n;
  mul = λ m n. m * n;
  round = λ n. n;
  print = λ n. codes "n";
  round_idempotent = λ n. refl;
  round_finite = λ n h. h;
}

abbrev pub origin_form : OriginForm
origin_form = record {
  fields = field (codes "connectTimeout") (str (codes "1m30s")) (
      field (codes "httpHostHeader") (str (codes " a.test ")) (
        field (codes "tlsTimeout") (num 10) (
          field (codes "proxyPort") null (
            field (codes "noTLSVerify") (bool true)
              (field (codes "caPool") (str (codes " ")) end)))));
  access_required = some true;
  access_team_name = some (codes " team");
  access_aud_tag = some [];
}

abbrev built : Fields
built = field (codes "httpHostHeader") (str (codes "a.test")) (
    field (codes "connectTimeout") (num 90) (
      field (codes "tlsTimeout") (num 10) (
        field (codes "noTLSVerify") (bool true) (
          field (codes "access")
            (obj (
              field (codes "required") (bool true)
                (field (codes "teamName") (str (codes "team")) end)))
            end))))

build_test : build_origin_request whole_numbers origin_form ≡ some built
unfolding build_origin_request to_seconds to_text trim
build_test = refl

seconds_test : to_seconds whole_numbers (some (str (codes "2h x5m"))) ≡ some 7500
unfolding to_seconds to_text trim
seconds_test = refl

tags_test :
    origin_request_tags whole_numbers (some built)
    ≡ codes "noTLSVerify" ∷ codes "Host: a.test" ∷ codes "connectTimeout=ns" ∷ codes "Access" ∷ []
unfolding origin_request_tags to_text
tags_test = refl

pub origin_form-FiniteDurations : FiniteDurations whole_numbers origin_form
unfolding to_seconds to_text lookup trim
origin_form-FiniteDurations = (refl, (refl, (tt, (tt, tt))))

build_origin_request-origin_request_to_form_example :
    build_origin_request whole_numbers
      (origin_request_to_form whole_numbers (build_origin_request whole_numbers origin_form))
    ≡ build_origin_request whole_numbers origin_form
build_origin_request-origin_request_to_form_example =
    build_origin_request-origin_request_to_form whole_numbers origin_form
      origin_form-FiniteDurations

build_origin_request-IsNumberOption_example :
    All (λ k. IsNumberOption (lookup k built)) duration_keys
build_origin_request-IsNumberOption_example =
    build_origin_request-IsNumberOption whole_numbers origin_form built build_test
