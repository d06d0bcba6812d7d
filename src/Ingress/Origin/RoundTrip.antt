-- ===== src/Ingress/Origin/RoundTrip.antt =====
-- `buildOriginRequest` and `originRequestToForm` of web/src/pages/cfIngress.ts against one another.
use cloudflared_manager.Base.{
  ◌≡◌, refl, sym, ap, ◌∙◌, Option, none, some, ◌++◌, if◌then◌else◌, Str, codes, str_eq, All,
}
use cloudflared_manager.Api.Types.{Value}
use cloudflared_manager.Api.Json.{Numbers, lookup, present, fields_of}
use cloudflared_manager.Ingress.Seconds.{to_seconds}
use cloudflared_manager.Ingress.Origin.{
  OriginForm, string_keys, duration_keys, number_keys, bool_keys, number_field, bool_field,
  team_text, aud_items, required_flag, build_access, some_object, string_field, duration_field,
  collect_fields, build_origin_request, seconds_value, text_of, flag_of, texts_of,
  origin_request_to_form,
}
use cloudflared_manager.Ingress.Origin.Assembly.{
  mem, first, first-none, lookup-write_field, lookup-copy_keys, collect_fields_cong, some_request,
  to_form-some_request, build_origin_request-some_request,
}
use cloudflared_manager.Ingress.Origin.Fixpoints.{
  IsFiniteOption, number_field_again, bool_field_again, required_flag_again, string_field_again,
  duration_text_again, team_text_again, aud_items_again, fields_of-some_object,
}

module _ (numbers : Numbers) (v : OriginForm) where
  -- What the request holds under a key, by the lists that name it.
  abbrev pub request_value : Str → Option Value
  request_value k =
      let x = lookup k v.fields in
      let strings = if mem k string_keys then first (string_field numbers x) none else none in
      let durations =
        if mem k duration_keys then first (duration_field numbers x) strings else strings in
      let counts = if mem k number_keys then first (number_field x) durations else durations in
      let flags = if mem k bool_keys then first (bool_field x) counts else counts in
      if str_eq (codes "access") k then first (some_object (build_access v)) flags else flags

  pub lookup-collect_fields : (k : Str) → lookup k (collect_fields numbers v) ≡ request_value k
  unfolding collect_fields lookup
  lookup-collect_fields k =
      rw
        (lookup-write_field, lookup-copy_keys, lookup-copy_keys, lookup-copy_keys, lookup-copy_keys)

  -- The form that the request is shown in.
  abbrev shown_form : OriginForm
  shown_form = origin_request_to_form numbers (some (collect_fields numbers v))

  abbrev shown_value : Str → Option Value
  shown_value k =
      let y = request_value k in
      let kept =
        if mem k (string_keys ++ (number_keys ++ bool_keys))
        then first (present y) none
        else none in
      if mem k duration_keys then first (seconds_value (to_seconds numbers y)) kept else kept

  lookup-shown_form : (k : Str) → lookup k shown_form.fields ≡ shown_value k
  unfolding origin_request_to_form lookup
  lookup-shown_form k = rw (lookup-copy_keys, lookup-copy_keys, lookup-collect_fields k)

  abbrev IsPickedAgain : (Option Value → Option Value) → Str → Type 0
  IsPickedAgain pick k = pick (lookup k v.fields) ≡ pick (lookup k shown_form.fields)

  string_same :
      (k : Str)
      → shown_value k ≡ first (present (first (string_field numbers (lookup k v.fields)) none)) none
      → IsPickedAgain (string_field numbers) k
  string_same k e = sym (
      ap (string_field numbers) (lookup-shown_form k ∙ e ∙ first-none _ ∙ ap present (first-none _))
      ∙ string_field_again numbers (lookup k v.fields))

  strings_same : All (IsPickedAgain (string_field numbers)) string_keys
  strings_same = (
    string_same (codes "httpHostHeader") refl,
    (
      string_same (codes "originServerName") refl,
      (
        string_same (codes "caPool") refl,
        (string_same (codes "proxyType") refl, (string_same (codes "proxyAddress") refl, tt)),
      ),
    ),
  )

  number_same :
      (k : Str)
      → shown_value k ≡ first (present (first (number_field (lookup k v.fields)) none)) none
      → IsPickedAgain number_field k
  number_same k e = sym (
      ap number_field (lookup-shown_form k ∙ e ∙ first-none _ ∙ ap present (first-none _))
      ∙ number_field_again (lookup k v.fields))

  bool_same :
      (k : Str)
      → shown_value k ≡ first (present (first (bool_field (lookup k v.fields)) none)) none
      → IsPickedAgain bool_field k
  bool_same k e = sym (
      ap bool_field (lookup-shown_form k ∙ e ∙ first-none _ ∙ ap present (first-none _))
      ∙ bool_field_again (lookup k v.fields))

  duration_same :
      (k : Str)
      → shown_value k
        ≡ first
            (seconds_value
              (to_seconds numbers (first (duration_field numbers (lookup k v.fields)) none)))
            none
      → IsFiniteOption (to_seconds numbers (lookup k v.fields))
      → IsPickedAgain (duration_field numbers) k
  duration_same k e finite = sym (
      ap (duration_field numbers) (
        lookup-shown_form k
        ∙ e
        ∙ first-none _
        ∙ ap (λ y. seconds_value (to_seconds numbers y)) (first-none _))
      ∙ duration_text_again numbers (to_seconds numbers (lookup k v.fields)) finite)

  -- No duration of the form overflows a double.
  abbrev pub FiniteDurations : Type 0
  FiniteDurations = All (λ k. IsFiniteOption (to_seconds numbers (lookup k v.fields))) duration_keys

  numbers_same : All (IsPickedAgain number_field) number_keys
  numbers_same =
      (number_same (codes "keepAliveConnections") refl, (number_same (codes "proxyPort") refl, tt))

  bools_same : All (IsPickedAgain bool_field) bool_keys
  bools_same = (
    bool_same (codes "noHappyEyeballs") refl,
    (
      bool_same (codes "noTLSVerify") refl,
      (bool_same (codes "disableChunkedEncoding") refl, (bool_same (codes "http2Origin") refl, tt)),
    ),
  )

  durations_same : FiniteDurations → All (IsPickedAgain (duration_field numbers)) duration_keys
  durations_same (connect, (tls, (keep, (idle, _)))) = (
    duration_same (codes "connectTimeout") refl connect,
    (
      duration_same (codes "tlsTimeout") refl tls,
      (
        duration_same (codes "tcpKeepAlive") refl keep,
        (duration_same (codes "keepAliveTimeout") refl idle, tt),
      ),
    ),
  )

  abbrev access_value : Str → Option Value
  access_value k =
      let required =
        if str_eq (codes "required") k
        then first (required_flag v.access_required) none
        else none in
      let team =
        if str_eq (codes "teamName") k
        then first (team_text v.access_team_name) required
        else required in
      if str_eq (codes "audTag") k then first (aud_items v.access_aud_tag) team else team

  lookup-build_access : (k : Str) → lookup k (build_access v) ≡ access_value k
  unfolding build_access lookup
  lookup-build_access k = rw (lookup-write_field, lookup-write_field, lookup-write_field)

  shown_access : fields_of (lookup (codes "access") (collect_fields numbers v)) ≡ build_access v
  shown_access =
      ap fields_of (lookup-collect_fields (codes "access") ∙ first-none _)
      ∙ fields_of-some_object (build_access v)

  shown_access_value :
      (k : Str)
      → lookup k (fields_of (lookup (codes "access") (collect_fields numbers v))) ≡ access_value k
  shown_access_value k = ap (lookup k) shown_access ∙ lookup-build_access k

  abbrev shown_in_access : Str → Option Value
  shown_in_access k = lookup k (fields_of (lookup (codes "access") (collect_fields numbers v)))

  aud_same :
      aud_items (texts_of numbers (shown_in_access (codes "audTag"))) ≡ aud_items v.access_aud_tag
  aud_same =
      ap (λ y. aud_items (texts_of numbers y)) (shown_access_value (codes "audTag") ∙ first-none _)
      ∙ aud_items_again numbers v.access_aud_tag

  team_same :
      team_text (text_of numbers (shown_in_access (codes "teamName")))
      ≡ team_text v.access_team_name
  team_same =
      ap (λ y. team_text (text_of numbers y)) (shown_access_value (codes "teamName") ∙ first-none _)
      ∙ team_text_again numbers v.access_team_name

  required_same :
      required_flag (flag_of (shown_in_access (codes "required"))) ≡ required_flag v.access_required
  required_same =
      ap (λ y. required_flag (flag_of y)) (shown_access_value (codes "required") ∙ first-none _)
      ∙ required_flag_again v.access_required

  access_same : build_access shown_form ≡ build_access v
  unfolding build_access origin_request_to_form
  access_same = rw (aud_same, team_same, required_same)

  collect_fields-shown_form :
      FiniteDurations → collect_fields numbers v ≡ collect_fields numbers shown_form
  collect_fields-shown_form finite =
      collect_fields_cong numbers v shown_form access_same strings_same (durations_same finite)
        numbers_same bools_same

  -- The request built of a form comes back as it is when it is shown in the form and built again, if no
  -- duration of the form is infinite.
  pub build_origin_request-origin_request_to_form :
      FiniteDurations
      → build_origin_request numbers
          (origin_request_to_form numbers (build_origin_request numbers v))
        ≡ build_origin_request numbers v
  build_origin_request-origin_request_to_form finite =
      ap (λ o. build_origin_request numbers (origin_request_to_form numbers o))
        (build_origin_request-some_request numbers v)
      ∙ ap (build_origin_request numbers) (to_form-some_request numbers (collect_fields numbers v))
      ∙ build_origin_request-some_request numbers shown_form
      ∙ ap some_request (sym (collect_fields-shown_form finite))
      ∙ sym (build_origin_request-some_request numbers v)
