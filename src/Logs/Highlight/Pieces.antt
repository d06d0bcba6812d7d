-- ===== src/Logs/Highlight/Pieces.antt =====
-- What `highlight` of web/src/components/instance/InstanceLogPanel.tsx makes of a text.
use mathlib.Core.Path.{subst, ap₂}
use mathlib.Core.Option
use cloudflared_manager.Base.{
  ℕ, zero, suc, ◌+◌, ◌≤◌, ◌<◌, ◌≡◌, refl, sym, ap, ◌∙◌, true, false, none, some, List, [], ◌∷◌,
  ◌++◌, map, append_assoc, append-nil, length, length-append, length-drop, drop-length-append, take,
  drop, ltb, Str, is_empty, starts_with, starts_with_sound, Casing, Bool-cases, Option-cases, inl,
  inr, arith, All, All-append, IsAscii, lower_unit, take-length-append,
}
use cloudflared_manager.Logs.Highlight.{
  Piece, plain, hit, offset_of, gap, tail_piece, pieces_from, highlight,
}

abbrev pub piece_text : Piece → Str
piece_text (plain s) = s
piece_text (hit s) = s

abbrev pub pieces_text : List Piece → Str
pieces_text [] = []
pieces_text (p ∷ ps) = piece_text p ++ pieces_text ps

pieces_text-append :
    (ps qs : List Piece) → pieces_text (ps ++ qs) ≡ pieces_text ps ++ pieces_text qs
pieces_text-append [] qs = refl
pieces_text-append (p ∷ ps) qs =
    ap (λ t. piece_text p ++ t) (pieces_text-append ps qs)
    ∙ sym (append_assoc (piece_text p) (pieces_text ps) (pieces_text qs))

drop_nil : (n : ℕ) → drop {A = ℕ} n [] ≡ []
drop_nil zero = refl
drop_nil (suc n) = refl

drop-add : (i n : ℕ) (s : Str) → drop (i + n) s ≡ drop n (drop i s)
drop-add zero n s = ap (λ m. drop m s) (omega arith)
drop-add (suc i) n [] = drop_nil (suc i + n) ∙ sym (drop_nil n)
drop-add (suc i) n (c ∷ s) =
    let e : suc i + n ≡ suc (i + n) = omega arith in ap (λ m. drop m (c ∷ s)) e ∙ drop-add i n s

take-append-drop : (n : ℕ) (s : Str) → take n s ++ drop n s ≡ s
take-append-drop zero s = refl
take-append-drop (suc n) [] = refl
take-append-drop (suc n) (c ∷ s) = ap (λ t. c ∷ t) (take-append-drop n s)

drop_all : (i : ℕ) (s : Str) → ltb i (length s) ≡ false → drop i s ≡ []
drop_all zero [] h = refl
drop_all zero (c ∷ s) h = ground arith
drop_all (suc i) [] h = refl
drop_all (suc i) (c ∷ s) h = drop_all i s (ground arith)

tail_piece_text : (i : ℕ) (text : Str) → pieces_text (tail_piece i text) ≡ drop i text
tail_piece_text i text = elim (Bool-cases (ltb i (length text))) [
  | inl e ↦ rw e (append-nil (drop i text))
  | inr e ↦ rw e (sym (drop_all i text e))
]

gap_text : (i d : ℕ) (text : Str) → pieces_text (gap i d text) ≡ take d (drop i text)
gap_text i zero text = refl
gap_text i (suc d) text =
    let e : ltb 0 (suc d) ≡ true = ground arith in rw e (append-nil (take (suc d) (drop i text)))

pieces_from_text :
    (fuel : ℕ) (text lower k : Str) (i : ℕ)
    → pieces_text (pieces_from fuel text lower k i) ≡ drop i text
unfolding pieces_from
pieces_from_text zero text lower k i = tail_piece_text i text
pieces_from_text (suc fuel) text lower k i = elim (Option-cases (offset_of k (drop i lower))) [
  | inl e ↦ rw (e, pieces_from) (tail_piece_text i text)
  | inr (d, e) ↦
      rw (e, pieces_from)
        (pieces_text-append (gap i d text) _
          ∙ ap₂ (λ s t. s ++ (take (length k) (drop (i + d) text) ++ t)) (gap_text i d text)
              (pieces_from_text fuel text lower k (i + d + length k)
                ∙ drop-add (i + d) (length k) text)
          ∙ ap (λ t. take d (drop i text) ++ t)
              (take-append-drop (length k) (drop (i + d) text) ∙ drop-add i d text)
          ∙ take-append-drop d (drop i text))
]

-- The pieces are the text: nothing is lost, added or moved, whatever `toLowerCase` does.
pub highlight_text :
    (casing : Casing) (text kw : Str) → pieces_text (highlight casing text kw) ≡ text
unfolding highlight
highlight_text casing text kw = elim (Bool-cases (is_empty kw)) [
  | inl e ↦ rw e (append-nil text)
  | inr e ↦
      rw e
        (pieces_from_text (length (casing.lower text)) text (casing.lower text) (casing.lower kw) 0)
]

-- An occurrence that is found stands there.
offset_of_sound : (k s : Str) (d : ℕ) → offset_of k s ≡ some d → (r : Str) × (drop d s ≡ k ++ r)
unfolding offset_of
offset_of_sound k [] d h = cc
offset_of_sound k (c ∷ s) d h = elim (Bool-cases (starts_with (c ∷ s) k)) [
  | inl e ↦
      let here : some 0 ≡ some d = rw e at h in
      let same : 0 ≡ d = cc in
      subst (λ m. (r : Str) × (drop m (c ∷ s) ≡ k ++ r)) same (starts_with_sound (c ∷ s) k e)
  | inr e ↦
      let later : Option.map suc (offset_of k s) ≡ some d = rw e at h in
      elim (Option-cases (offset_of k s)) [
        | inl missed ↦ let impossible : none ≡ some d = rw missed at later in cc
        | inr (b, found) ↦
            let next : some (suc b) ≡ some d = rw found at later in
            let same : suc b ≡ d = cc in
            subst (λ m. (r : Str) × (drop m (c ∷ s) ≡ k ++ r)) same (offset_of_sound k s b found)
      ]
]

-- A marked piece is the keyword, but for upper and lower case.
abbrev pub IsHit : Casing → Str → Piece → Type 0
IsHit casing kw (plain s) = Unit
IsHit casing kw (hit s) = casing.lower s ≡ casing.lower kw

map-drop : (f : ℕ → ℕ) (n : ℕ) (s : Str) → map f (drop n s) ≡ drop n (map f s)
map-drop f zero s = refl
map-drop f (suc n) [] = refl
map-drop f (suc n) (c ∷ s) = map-drop f n s

map-take : (f : ℕ → ℕ) (n : ℕ) (s : Str) → map f (take n s) ≡ take n (map f s)
map-take f zero s = refl
map-take f (suc n) [] = refl
map-take f (suc n) (c ∷ s) = ap (λ t. f c ∷ t) (map-take f n s)

drop-IsAscii : (n : ℕ) (s : Str) → IsAscii s → IsAscii (drop n s)
drop-IsAscii zero s h = h
drop-IsAscii (suc n) [] h = h
drop-IsAscii (suc n) (c ∷ s) (k, h) = drop-IsAscii n s h

take-IsAscii : (n : ℕ) (s : Str) → IsAscii s → IsAscii (take n s)
take-IsAscii zero s h = tt
take-IsAscii (suc n) [] h = tt
take-IsAscii (suc n) (c ∷ s) (k, h) = (k, take-IsAscii n s h)

module _ (casing : Casing) (text kw : Str) (ascii : IsAscii text) where
  open casing use {lower, lower_ascii}

  found-IsHit :
      (i d : ℕ)
      → offset_of (lower kw) (drop i (lower text)) ≡ some d
      → IsHit casing kw (hit (take (length (lower kw)) (drop (i + d) text)))
  found-IsHit i d found =
      let (r, e) = offset_of_sound (lower kw) (drop i (lower text)) d found in
      let n = length (lower kw) in
      lower_ascii (take n (drop (i + d) text))
        (take-IsAscii n (drop (i + d) text) (drop-IsAscii (i + d) text ascii))
      ∙ map-take lower_unit n (drop (i + d) text)
      ∙ ap (take n) (
          map-drop lower_unit (i + d) text
          ∙ ap (drop (i + d)) (sym (lower_ascii text ascii))
          ∙ drop-add i d (lower text)
          ∙ e)
      ∙ take-length-append (lower kw) r

  gap-All : (i d : ℕ) → All (IsHit casing kw) (gap i d text)
  gap-All i d = elim (Bool-cases (ltb 0 d)) [ inl e ↦ rw e (tt, tt) | inr e ↦ rw e tt ]

  tail_piece-All : (i : ℕ) → All (IsHit casing kw) (tail_piece i text)
  tail_piece-All i = elim (Bool-cases (ltb i (length text))) [
    | inl e ↦ rw e (tt, tt)
    | inr e ↦ rw e tt
  ]

  pieces_from-All :
      (fuel i : ℕ) → All (IsHit casing kw) (pieces_from fuel text (lower text) (lower kw) i)
  unfolding pieces_from
  pieces_from-All zero i = tail_piece-All i
  pieces_from-All (suc fuel) i = elim (Option-cases (offset_of (lower kw) (drop i (lower text)))) [
    | inl e ↦ rw (e, pieces_from) (tail_piece-All i)
    | inr (d, e) ↦
        rw (e, pieces_from)
          (All-append _ (gap i d text) _ (gap-All i d)
            (found-IsHit i d e, pieces_from-All fuel (i + d + length (lower kw))))
  ]

  -- In ASCII text every marked piece is the keyword, but for upper and lower case.
  pub highlight-IsHit : All (IsHit casing kw) (highlight casing text kw)
  unfolding highlight
  highlight-IsHit = elim (Bool-cases (is_empty kw)) [
    | inl e ↦ rw e (tt, tt)
    | inr e ↦ rw e (pieces_from-All (length (lower text)) 0)
  ]

-- Behind an occurrence less of the text is left.
after_found :
    (k lower : Str) (i d : ℕ)
    → offset_of k (drop i lower) ≡ some d
    → length (drop (i + d + length k) lower) + length k ≤ length (drop i lower)
after_found k lower i d found =
    let (r, e) = offset_of_sound k (drop i lower) d found in
    let rest : drop (i + d + length k) lower ≡ r =
      drop-add (i + d) (length k) lower
      ∙ ap (drop (length k)) (drop-add i d lower ∙ e)
      ∙ drop-length-append k r in
    omega (arith, ap length rest, ap length e, length-append k r, length-drop d (drop i lower))

-- Any fuel of at least the length of the rest cuts it into the same pieces.
pub pieces_from_enough :
    (n m : ℕ) (text lower k : Str) (i : ℕ)
    → 0 < length k
    → length (drop i lower) ≤ n
    → length (drop i lower) ≤ m
    → pieces_from n text lower k i ≡ pieces_from m text lower k i
unfolding pieces_from
pieces_from_enough zero zero text lower k i h a b = refl
pieces_from_enough zero (suc m) text lower k i h a b =
    elim (Option-cases (offset_of k (drop i lower))) [
      | inl e ↦ rw (e, pieces_from)
      | inr (d, e) ↦ absurd (omega (arith, after_found k lower i d e))
    ]
pieces_from_enough (suc n) zero text lower k i h a b =
    elim (Option-cases (offset_of k (drop i lower))) [
      | inl e ↦ rw (e, pieces_from)
      | inr (d, e) ↦ absurd (omega (arith, after_found k lower i d e))
    ]
pieces_from_enough (suc n) (suc m) text lower k i h a b =
    elim (Option-cases (offset_of k (drop i lower))) [
      | inl e ↦ rw (e, pieces_from)
      | inr (d, e) ↦
          rw (e, pieces_from)
            (ap (λ ps. gap i d text ++ hit (take (length k) (drop (i + d) text)) ∷ ps)
              (pieces_from_enough n m text lower k (i + d + length k) h
                (omega (arith, after_found k lower i d e))
                (omega (arith, after_found k lower i d e))))
    ]
