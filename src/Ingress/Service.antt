-- ===== src/Ingress/Service.antt =====
-- web/src/pages/cfIngress.ts: a service string such as "http://localhost:8080", and its two parts in
-- the form, a type and a target.
pub mod RoundTrip
use cloudflared_manager.Base.{
  ℕ, ◌≡◌, refl, Bool, true, false, ◌&&◌, ◌||◌, Option, none, some, List, [], ◌∷◌, ◌++◌, length,
  drop, find, if◌then◌else◌, or_else, Str, codes, trim, starts_with, ends_with, ◌==◌,
}

-- The `value` column of SERVICE_TYPES.
pub data ServiceType : Type 0 where
  http https tcp ssh rdp unix smb http_status : ServiceType

-- A row of SERVICE_TYPES; the label is text for the user.
pub record ServiceDef : Type 0 where
  pub value : ServiceType
  pub scheme : Str

abbrev pub service_types : List ServiceDef
service_types =
    record { value = http; scheme = codes "http://" }
    ∷ record { value = https; scheme = codes "https://" }
    ∷ record { value = tcp; scheme = codes "tcp://" }
    ∷ record { value = ssh; scheme = codes "ssh://" }
    ∷ record { value = rdp; scheme = codes "rdp://" }
    ∷ record { value = unix; scheme = codes "unix:" }
    ∷ record { value = smb; scheme = codes "smb://" }
    ∷ record { value = http_status; scheme = codes "http_status:" }
    ∷ []

-- `t.value === type`, by the place in the table.
abbrev pub rank : ServiceType → ℕ
rank http = 0
rank https = 1
rank tcp = 2
rank ssh = 3
rank rdp = 4
rank unix = 5
rank smb = 6
rank http_status = 7

pub record Service : Type 0 where
  pub type_name : ServiceType
  pub target : Str

-- The test of the loop over SERVICE_TYPES in `parseService`.
abbrev pub has_scheme : Str → ServiceDef → Bool
has_scheme s t = ends_with t.scheme (codes "//") && starts_with s t.scheme

-- The loop over SERVICE_TYPES in `parseService`: the first row whose scheme ends in "//" and begins
-- the text.
pub matching_def : Str → Option ServiceDef
matching_def s = find (has_scheme s) service_types

-- What follows the loop: the found row's type and the rest of the text, or the text for `http`.
abbrev pub read_scheme : Option ServiceDef → Str → Service
read_scheme none s = record { type_name = http; target = s }
read_scheme (some t) s = record { type_name = t.value; target = drop (length t.scheme) s }

-- The body of `parseService` behind `const s = (service || '').trim()`.
pub parse_trimmed : Str → Service
parse_trimmed s =
    if starts_with s (codes "http_status:")
    then record { type_name = http_status; target = drop (length (codes "http_status:")) s }
    else if starts_with s (codes "unix:")
    then record { type_name = unix; target = drop (length (codes "unix:")) s }
    else read_scheme (matching_def s) s

unfoldable pub parse_service : Str → Service
unfolding parse_trimmed matching_def starts_with ends_with
parse_service service = parse_trimmed (trim service)

-- `def?.scheme ?? 'http://'`
abbrev pub scheme_of : ServiceType → Str
scheme_of type_name = elim (find (λ t. rank t.value == rank type_name) service_types) [
  | none ↦ codes "http://"
  | some t ↦ t.scheme
]

unfoldable pub build_service : ServiceType → Str → Str
build_service http_status target = codes "http_status:" ++ trim (or_else target (codes "404"))
build_service unix target = codes "unix:" ++ trim target
build_service type_name target = scheme_of type_name ++ trim target
