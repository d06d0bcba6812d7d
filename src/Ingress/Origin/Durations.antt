-- ===== src/Ingress/Origin/Durations.antt =====
-- The durations that `buildOriginRequest` of web/src/pages/cfIngress.ts sends.
use mathlib.Core.Path.{subst}
use cloudflared_manager.Base.{◌≡◌, refl, sym, ◌∙◌, Option, none, some, Str, codes, All}
use cloudflared_manager.Api.Types.{Number, Value, num, OriginRequest}
use cloudflared_manager.Api.Json.{Numbers, lookup}
use cloudflared_manager.Ingress.Seconds.{to_seconds}
use cloudflared_manager.Ingress.Origin.{
  OriginForm, duration_keys, rounded, duration_field, collect_fields, build_origin_request,
}
use cloudflared_manager.Ingress.Origin.Assembly.{
  first, build_origin_request-some_request, some_request-some,
}
use cloudflared_manager.Ingress.Origin.RoundTrip.{request_value, lookup-collect_fields}

-- Nothing, or a number.
abbrev pub IsNumberOption : Option Value → Type 0
IsNumberOption none = Unit
IsNumberOption (some (num n)) = Unit
IsNumberOption (some x) = ⊥

module _ (numbers : Numbers) (v : OriginForm) where
  rounded-IsNumberOption : (o : Option Number) → IsNumberOption (first (rounded numbers o) none)
  rounded-IsNumberOption none = tt
  rounded-IsNumberOption (some n) = tt

  duration_number :
      (k : Str)
      → request_value numbers v k ≡ first (duration_field numbers (lookup k v.fields)) none
      → IsNumberOption (lookup k (collect_fields numbers v))
  duration_number k e =
      subst IsNumberOption (sym (lookup-collect_fields numbers v k ∙ e))
        (rounded-IsNumberOption (to_seconds numbers (lookup k v.fields)))

  -- A duration of a built request is absent or a number, whatever the form has under its key.
  pub build_origin_request-IsNumberOption :
      (out : OriginRequest)
      → build_origin_request numbers v ≡ some out
      → All (λ k. IsNumberOption (lookup k out)) duration_keys
  build_origin_request-IsNumberOption out h =
      let same =
        some_request-some (collect_fields numbers v) out
          (sym (build_origin_request-some_request numbers v) ∙ h) in
      subst (λ o. All (λ k. IsNumberOption (lookup k o)) duration_keys) same
        (
          duration_number (codes "connectTimeout") refl,
          (
            duration_number (codes "tlsTimeout") refl,
            (
              duration_number (codes "tcpKeepAlive") refl,
              (duration_number (codes "keepAliveTimeout") refl, tt),
            ),
          ),
        )
