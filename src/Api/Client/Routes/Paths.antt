-- ===== src/Api/Client/Routes/Paths.antt =====
-- How the paths that web/src/api/client.ts writes as templates fall into segments.
use cloudflared_manager.Base.{
  ◌≡◌, refl, sym, ap, ◌∙◌, ℕ, Bool, true, not, ◌||◌, ◌&&◌, List, [], ◌∷◌, ◌++◌, arith, ◌==◌, Str,
}
use mathlib.Core.Bool.{and-eq-true_iff}
use cloudflared_manager.Api.Client.Routes.{is_delimiter, is_segment}
use cloudflared_manager.Api.Client.Routes.Table.{push, segments}

-- A text with no '?' and no '#'.
abbrev pub is_clear : Str → Bool
is_clear [] = true
is_clear (c ∷ s) = (c == 47 || not (is_delimiter c)) && is_clear s

abbrev pub prepend : Str → List Str → List Str
prepend s [] = s ∷ []
prepend s (t ∷ segs) = (s ++ t) ∷ segs

-- The last segment of the first path goes on with the first one of the second.
abbrev pub glue : List Str → List Str → List Str
glue [] more = more
glue (s ∷ []) more = prepend s more
glue (s ∷ t ∷ segs) more = s ∷ glue (t ∷ segs) more

abbrev IsSome : List Str → Type 0
IsSome [] = ⊥
IsSome (s ∷ segs) = Unit

push-IsSome : (c : ℕ) (segs : List Str) → IsSome (push c segs)
push-IsSome c [] = tt
push-IsSome c (s ∷ segs) = tt

segments-IsSome : (s : Str) → IsSome (segments s)
unfolding segments
segments-IsSome [] = tt
segments-IsSome (c ∷ s) = ground (arith, push-IsSome c (segments s))

glue-push : (c : ℕ) (xs more : List Str) → IsSome xs → glue (push c xs) more ≡ push c (glue xs more)
glue-push c [] more h = absurd h
glue-push c (x ∷ []) [] h = refl
glue-push c (x ∷ []) (y ∷ more) h = refl
glue-push c (x ∷ x1 ∷ xs) more h = refl

glue_nothing : (more : List Str) → IsSome more → glue ([] ∷ []) more ≡ more
glue_nothing [] h = absurd h
glue_nothing (s ∷ more) h = refl

glue-cons :
    (s : Str) (segs more : List Str) → IsSome segs → glue (s ∷ segs) more ≡ s ∷ glue segs more
glue-cons s [] more h = absurd h
glue-cons s (t ∷ segs) more h = refl

segments-append :
    (s t : Str) → is_clear s ≡ true → segments (s ++ t) ≡ glue (segments s) (segments t)
unfolding segments
segments-append [] t h = sym (glue_nothing (segments t) (segments-IsSome t))
segments-append (c ∷ s) t h =
    let both = (and-eq-true_iff (c == 47 || not (is_delimiter c)) (is_clear s)).0 h in
    let rest = segments-append s t both.1 in
    ground (
      arith,
      rest,
      both.0,
      glue-cons [] (segments s) (segments t) (segments-IsSome s),
      glue-push c (segments s) (segments t) (segments-IsSome s),
    )

segments_of_segment : (s : Str) → is_segment s ≡ true → segments s ≡ s ∷ []
unfolding segments
segments_of_segment [] h = refl
segments_of_segment (c ∷ s) h =
    let both = (and-eq-true_iff (not (is_delimiter c)) (is_segment s)).0 h in
    ground (arith, both.0, segments_of_segment s both.1)

segments-next : (s t : Str) → is_segment s ≡ true → segments (s ++ 47 ∷ t) ≡ s ∷ segments t
unfolding segments
segments-next [] t h = refl
segments-next (c ∷ s) t h =
    let both = (and-eq-true_iff (not (is_delimiter c)) (is_segment s)).0 h in
    ground (arith, both.0, segments-next s t both.1)

-- A parameter at the end of a path, and one that another segment stands behind.
pub at_end :
    (lit s : Str)
    → is_clear lit ≡ true
    → is_segment s ≡ true
    → segments (lit ++ s) ≡ glue (segments lit) (s ∷ [])
at_end lit s clear h =
    segments-append lit s clear ∙ ap (glue (segments lit)) (segments_of_segment s h)

pub before :
    (lit s t : Str)
    → is_clear lit ≡ true
    → is_segment s ≡ true
    → segments (lit ++ (s ++ 47 ∷ t)) ≡ glue (segments lit) (s ∷ segments t)
before lit s t clear h =
    segments-append lit (s ++ 47 ∷ t) clear ∙ ap (glue (segments lit)) (segments-next s t h)
