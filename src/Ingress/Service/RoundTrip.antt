-- ===== src/Ingress/Service/RoundTrip.antt =====
-- `parseService` and `buildService` of web/src/pages/cfIngress.ts against one another.
use mathlib.Core.Bool.{and-eq-true_iff}
use cloudflared_manager.Base.{
  All, starts_with_sound, ◌⊎◌, inl, inr, Bool-cases, find, find_sound, find-none, ◌≡◌, refl, sym,
  ap, ◌∙◌, true, false, Option, none, some, ◌++◌, length, drop, or_else, Str, codes, trim,
  starts_with, ends_with, is_space, Tight, Tight-append, trim-Tight, trim_of_Tight,
  drop-length-append,
}
use cloudflared_manager.Ingress.Service.{
  ServiceType, http, http_status, Service, parse_service, parse_trimmed, matching_def, read_scheme,
  has_scheme, service_types, ServiceDef, build_service, scheme_of,
}

-- The target that a built service string carries.
abbrev pub shown_target : ServiceType → Str → Str
shown_target http_status target = trim (or_else target (codes "404"))
shown_target _ target = trim target

build_service-scheme :
    (type_name : ServiceType) (target : Str)
    → build_service type_name target ≡ scheme_of type_name ++ shown_target type_name target
unfolding build_service
build_service-scheme http target = refl
build_service-scheme _ target = refl

scheme-Tight : (type_name : ServiceType) → Tight is_space (scheme_of type_name)
scheme-Tight http = (refl, refl)
scheme-Tight _ = (refl, refl)

trim-scheme :
    (type_name : ServiceType) (target : Str)
    → trim (scheme_of type_name ++ trim target) ≡ scheme_of type_name ++ trim target
trim-scheme type_name target = trim_of_Tight _ (
    Tight-append is_space (scheme_of type_name) (trim target) (scheme-Tight type_name)
      (trim-Tight target))

-- A trimmed text behind the scheme of a type is read as that type and that text.
parse_service-scheme :
    (type_name : ServiceType) (target : Str)
    → parse_service (scheme_of type_name ++ trim target)
      ≡ record { type_name = type_name; target = trim target }
unfolding parse_service
parse_service-scheme http target = ap parse_trimmed (trim-scheme http target)
parse_service-scheme type_name target = ap parse_trimmed (trim-scheme type_name target)

-- A built service string is parsed to the type that it was built from, and to the trimmed target,
-- where an empty target of `http_status` stands for 404.
pub parse_service-build_service :
    (type_name : ServiceType) (target : Str)
    → parse_service (build_service type_name target)
      ≡ record { type_name = type_name; target = shown_target type_name target }
parse_service-build_service http_status target =
    ap parse_service (build_service-scheme http_status target)
    ∙ parse_service-scheme http_status (or_else target (codes "404"))
parse_service-build_service http target =
    ap parse_service (build_service-scheme http target) ∙ parse_service-scheme http target
parse_service-build_service _ target =
    ap parse_service (build_service-scheme _ target) ∙ parse_service-scheme _ target

-- No scheme of the table begins the text.
abbrev pub HasNoScheme : Str → Type 0
HasNoScheme s = All (λ t. starts_with s t.scheme ≡ false) service_types

drop-scheme : (s scheme : Str) → starts_with s scheme ≡ true → s ≡ scheme ++ drop (length scheme) s
drop-scheme s scheme h =
    let (r, e) = starts_with_sound s scheme h in
    rw e (ap (λ t. scheme ++ t) (sym (drop-length-append scheme r)))

-- What `parse_trimmed` returns is a reading of the text.
IsReading : Str → Service → Type 0
IsReading s p =
    (s ≡ scheme_of p.type_name ++ p.target)
    ⊎ ((p ≡ record { type_name = http; target = s }) × HasNoScheme s)

rows : All (λ t. scheme_of t.value ≡ t.scheme) service_types
rows = (refl, (refl, (refl, (refl, (refl, (refl, (refl, (refl, tt))))))))

found-IsReading :
    (s : Str) (t : ServiceDef)
    → (has_scheme s t ≡ true) × (scheme_of t.value ≡ t.scheme)
    → IsReading s (record { type_name = t.value; target = drop (length t.scheme) s })
unfolding IsReading
found-IsReading s t (h, e) =
    inl
      (rw e (drop-scheme s t.scheme ((and-eq-true_iff (ends_with t.scheme (codes "//")) _).0 h).1))

missed-HasNoScheme :
    (s : Str)
    → starts_with s (codes "http_status:") ≡ false
    → starts_with s (codes "unix:") ≡ false
    → All (λ t. has_scheme s t ≡ false) service_types
    → HasNoScheme s
unfolding ends_with starts_with
missed-HasNoScheme s h u (a, (b, (c, (d, (e, (_, (g, _))))))) =
    (a, (b, (c, (d, (e, (u, (g, (h, tt))))))))

read_scheme-IsReading :
    (s : Str)
    → starts_with s (codes "http_status:") ≡ false
    → starts_with s (codes "unix:") ≡ false
    → IsReading s (read_scheme (matching_def s) s)
unfolding matching_def
read_scheme-IsReading s h u = go (find (has_scheme s) service_types) refl
  where
    go :
        (o : Option ServiceDef)
        → find (has_scheme s) service_types ≡ o
        → IsReading s (read_scheme o s)
    go none e =
        unfold IsReading in
        inr (refl, missed-HasNoScheme s h u (find-none (has_scheme s) service_types e))
    go (some t) e =
        found-IsReading s t
          (find_sound (has_scheme s) (λ t. scheme_of t.value ≡ t.scheme) service_types t e rows)

parse_trimmed-IsReading : (s : Str) → IsReading s (parse_trimmed s)
unfolding parse_trimmed
parse_trimmed-IsReading s = elim (Bool-cases (starts_with s (codes "http_status:"))) [
  | inl h ↦ rw h (unfold IsReading in inl (drop-scheme s (codes "http_status:") h))
  | inr h ↦ elim (Bool-cases (starts_with s (codes "unix:"))) [
    | inl u ↦ rw (h, u) (unfold IsReading in inl (drop-scheme s (codes "unix:") u))
    | inr u ↦ rw (h, u) (read_scheme-IsReading s h u)
  ]
]

-- Whatever the text, either its trimmed form is the scheme of the type read and the target read, or
-- it is read as an `http` target as a whole, and then no scheme of the table begins it.
pub parse_service_sound :
    (service : Str)
    → (trim service ≡ scheme_of (parse_service service).type_name ++ (parse_service service).target)
      ⊎ ((parse_service service ≡ record { type_name = http; target = trim service })
          × HasNoScheme (trim service))
unfolding parse_service IsReading
parse_service_sound service = parse_trimmed-IsReading (trim service)
