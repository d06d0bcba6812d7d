-- ===== src/Ingress/Origin.antt =====
-- web/src/pages/cfIngress.ts: the connection parameters of a rule (`originRequest`) against the flat
-- values of the form. The fields that the loops over the key lists go through are an object; the three
-- `access_*` fields, which the form and `originRequestToForm` only ever set to their declared types, are
-- typed.
pub mod Assembly
pub mod Durations
pub mod Fixpoints
pub mod RoundTrip
pub mod Tests
use cloudflared_manager.Base.{
  ℕ, Bool, true, false, not, ◌&&◌, ◌||◌, Option, none, some, List, [], ◌∷◌, ◌++◌, if◌then◌else◌,
  leb, ◌==◌, or_default, Str, codes, str_eq, is_empty, trim, drop, starts_with,
}
use cloudflared_manager.Api.Types.{
  Number, Value, null, bool, num, str, arr, obj, Fields, end, field, OriginRequest,
}
use cloudflared_manager.Ingress.Seconds.{to_seconds}
use cloudflared_manager.Api.Json.{
  Numbers, is_finite, is_nan, lookup, put, has_fields, truthy, present, str_items, fields_of,
  to_text, item_texts,
}

pub record OriginForm : Type 0 where
  pub fields : Fields
  pub access_required : Option Bool
  pub access_team_name : Option Str
  pub access_aud_tag : Option (List Str)

abbrev pub string_keys : List Str
string_keys =
    codes "httpHostHeader"
    ∷ codes "originServerName"
    ∷ codes "caPool"
    ∷ codes "proxyType"
    ∷ codes "proxyAddress"
    ∷ []

abbrev pub duration_keys : List Str
duration_keys =
    codes "connectTimeout"
    ∷ codes "tlsTimeout"
    ∷ codes "tcpKeepAlive"
    ∷ codes "keepAliveTimeout"
    ∷ []

abbrev pub number_keys : List Str
number_keys = codes "keepAliveConnections" ∷ codes "proxyPort" ∷ []

abbrev pub bool_keys : List Str
bool_keys =
    codes "noHappyEyeballs"
    ∷ codes "noTLSVerify"
    ∷ codes "disableChunkedEncoding"
    ∷ codes "http2Origin"
    ∷ []

-- What one round of a loop makes of a value under a key.
abbrev pub write_field : Str → Option Value → Fields → Fields
write_field k none out = out
write_field k (some x) out = put k x out

-- `for (const k of keys) { … out[k] = … }`, with what is made of `v[k]`.
pub copy_keys : (Option Value → Option Value) → List Str → Fields → Fields → Fields
copy_keys pick [] v out = out
copy_keys pick (k ∷ keys) v out = copy_keys pick keys v (write_field k (pick (lookup k v)) out)

abbrev pub some_text : Str → Option Value
some_text s = if is_empty s then none else some (str s)

abbrev pub number_field : Option Value → Option Value
number_field none = none
number_field (some null) = none
number_field (some (num n)) = if is_nan n then none else some (num n)
number_field (some v) = some v

abbrev pub bool_field : Option Value → Option Value
bool_field o = if truthy o then some (bool true) else none

-- The access sub-object of the form.
abbrev pub team_text : Option Str → Option Value
team_text none = none
team_text (some s) = some_text (trim s)

abbrev pub aud_items : Option (List Str) → Option Value
aud_items none = none
aud_items (some []) = none
aud_items (some (t ∷ ts)) = some (arr (str_items (t ∷ ts)))

abbrev pub required_flag : Option Bool → Option Value
required_flag (some true) = some (bool true)
required_flag _ = none

pub build_access : OriginForm → Fields
build_access v = write_field (codes "audTag") (aud_items v.access_aud_tag) (
    write_field (codes "teamName") (team_text v.access_team_name)
      (write_field (codes "required") (required_flag v.access_required) end))

abbrev pub some_object : Fields → Option Value
some_object o = if has_fields o then some (obj o) else none

abbrev pub seconds_value : Option Number → Option Value
seconds_value none = none
seconds_value (some n) = some (num n)

-- `!!x` of a field that is there.
abbrev pub flag_of : Option Value → Option Bool
flag_of none = none
flag_of (some null) = none
flag_of (some v) = some (truthy (some v))

module _ (numbers : Numbers) where
  abbrev pub string_field : Option Value → Option Value
  string_field none = none
  string_field (some null) = none
  string_field (some v) = some_text (trim (to_text numbers v))

  abbrev pub rounded : Option Number → Option Value
  rounded none = none
  rounded (some n) = some (num (numbers.round n))

  abbrev pub duration_field : Option Value → Option Value
  duration_field o = rounded (to_seconds numbers o)

  -- The fields that `buildOriginRequest` collects.
  pub collect_fields : OriginForm → Fields
  unfolding copy_keys build_access put lookup
  collect_fields v = write_field (codes "access") (some_object (build_access v)) (
      copy_keys bool_field bool_keys v.fields (
        copy_keys number_field number_keys v.fields (
          copy_keys duration_field duration_keys v.fields
            (copy_keys string_field string_keys v.fields end))))

  unfoldable pub build_origin_request : OriginForm → Option OriginRequest
  unfolding collect_fields
  build_origin_request v = let out = collect_fields v in if has_fields out then some out else none

  -- `String(access.teamName)`, if there is one.
  abbrev pub text_of : Option Value → Option Str
  text_of none = none
  text_of (some null) = none
  text_of (some v) = some (to_text numbers v)

  abbrev pub texts_of : Option Value → Option (List Str)
  texts_of (some (arr xs)) = some (item_texts numbers xs)
  texts_of _ = none

  unfoldable pub origin_request_to_form : Option OriginRequest → OriginForm
  unfolding copy_keys put lookup
  origin_request_to_form origin =
      let o = or_default origin end in
      let access = fields_of (lookup (codes "access") o) in
      record {
        fields =
            copy_keys (λ v. seconds_value (to_seconds numbers v)) duration_keys o
              (copy_keys present (string_keys ++ (number_keys ++ bool_keys)) o end);
        access_required = flag_of (lookup (codes "required") access);
        access_team_name = text_of (lookup (codes "teamName") access);
        access_aud_tag = texts_of (lookup (codes "audTag") access);
      }

  abbrev pub tag_if : Bool → Str → List Str → List Str
  tag_if b tag tags = if b then tags ++ tag ∷ [] else tags

  -- `${o.k}` of a field that is there.
  abbrev pub shown : Option Value → Str
  shown none = codes "undefined"
  shown (some v) = to_text numbers v

  unfoldable pub origin_request_tags : Option OriginRequest → List Str
  unfolding lookup
  origin_request_tags origin =
      let o = or_default origin end in
      let read = λ (k : Str). lookup k o in
      let access = fields_of (read (codes "access")) in
      tag_if (truthy (lookup (codes "required") access)) (codes "Access") (
        tag_if (truthy (read (codes "connectTimeout")))
          (codes "connectTimeout=" ++ (shown (read (codes "connectTimeout")) ++ codes "s"))
          (tag_if (truthy (read (codes "originServerName")))
            (codes "SNI: " ++ shown (read (codes "originServerName")))
            (tag_if (truthy (read (codes "httpHostHeader")))
              (codes "Host: " ++ shown (read (codes "httpHostHeader")))
              (tag_if (truthy (read (codes "disableChunkedEncoding")))
                (codes "disableChunkedEncoding")
                (tag_if (truthy (read (codes "noHappyEyeballs"))) (codes "noHappyEyeballs") (
                  tag_if (truthy (read (codes "http2Origin"))) (codes "http2Origin")
                    (tag_if (truthy (read (codes "noTLSVerify"))) (codes "noTLSVerify") [])))))))
