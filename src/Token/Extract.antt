-- ===== src/Token/Extract.antt =====
-- `extractCloudflaredToken` of web/src/utils/cfToken.ts on pasted text.
use cloudflared_manager.Base.{
  ℕ, ◌≡◌, refl, sym, ap, ◌∙◌, Bool, true, false, not, ◌&&◌, ◌||◌, none, some, [], ◌∷◌, ◌++◌, drop,
  All, if◌then◌else◌, arith, Str, is_empty, trim, starts_with, includes, Bool-cases, Option-cases,
  inl, inr, ◌⊎◌,
}
use cloudflared_manager.Token.{
  is_token_unit, take_while, token_head, match_here, match_token, extract_cloudflared_token,
}

-- A bare token: "eyJ" and at least one more unit of the alphabet.
pub record IsToken (t : Str) : Type 0 where
  pub run : Str
  pub shape : t ≡ token_head ++ run
  pub full : is_empty run ≡ false
  pub alphabet : All (λ c. is_token_unit c ≡ true) run

-- Nothing follows, or what follows is no part of a token.
abbrev pub Ends : Str → Type 0
Ends [] = Unit
Ends (c ∷ s) = is_token_unit c ≡ false

take_while-append :
    (run post : Str)
    → All (λ c. is_token_unit c ≡ true) run
    → Ends post
    → take_while is_token_unit (run ++ post) ≡ run
unfolding take_while
take_while-append [] [] h e = refl
take_while-append [] (c ∷ s) h e = rw e
take_while-append (c ∷ run) post (k, h) e = rw (k, take_while-append run post h e)

take_while-All : (s : Str) → All (λ c. is_token_unit c ≡ true) (take_while is_token_unit s)
unfolding take_while
take_while-All [] = tt
take_while-All (c ∷ s) = elim (Bool-cases (is_token_unit c)) [
  | inl e ↦ rw e (e, take_while-All s)
  | inr e ↦ rw e tt
]

match_here_at_token :
    (run post : Str)
    → is_empty run ≡ false
    → All (λ c. is_token_unit c ≡ true) run
    → Ends post
    → match_here (token_head ++ (run ++ post)) ≡ some (token_head ++ run)
unfolding match_here
match_here_at_token run post full h e = rw (take_while-append run post h e, full)

-- The units of "eyJ" overlap nothing, so a match never begins in front of the token.
match_here_before :
    (c : ℕ) (pre rest : Str)
    → starts_with (c ∷ pre) token_head ≡ false
    → match_here (c ∷ (pre ++ (token_head ++ rest))) ≡ none
unfolding match_here
match_here_before c [] rest h = ground arith
match_here_before c (d ∷ []) rest h = ground arith
match_here_before c (d ∷ f ∷ pre) rest h = rw h

or-eq-false : (a b : Bool) → (a || b) ≡ false → (a ≡ false) × (b ≡ false)
or-eq-false a b h = ground arith

match_token_at :
    (pre run post : Str)
    → includes pre token_head ≡ false
    → is_empty run ≡ false
    → All (λ c. is_token_unit c ≡ true) run
    → Ends post
    → match_token (pre ++ (token_head ++ (run ++ post))) ≡ some (token_head ++ run)
unfolding match_token includes
match_token_at [] run post clear full h e = rw (match_here_at_token run post full h e, match_token)
match_token_at (c ∷ pre) run post clear full h e =
    let (here, later) =
      or-eq-false (starts_with (c ∷ pre) token_head) (includes pre token_head) clear in
    rw (match_here_before c pre (run ++ post) here, match_token)
      (match_token_at pre run post later full h e)

-- A text in which something matches is not empty.
nonempty : (s m : Str) → match_token s ≡ some m → (if is_empty s then [] else m) ≡ m
unfolding match_token
nonempty [] m e = cc
nonempty (c ∷ s) m e = refl

-- A token in pasted text is found whole and alone: the text before it does not hold "eyJ", and what
-- follows it is nothing or begins outside the token alphabet.
pub extract_cloudflared_token-append :
    (pre token post : Str)
    → includes pre token_head ≡ false
    → IsToken token
    → Ends post
    → extract_cloudflared_token (pre ++ (token ++ post)) ≡ token
unfolding extract_cloudflared_token
extract_cloudflared_token-append pre token post clear t e =
    let whole : pre ++ (token ++ post) ≡ pre ++ (token_head ++ (t.run ++ post)) =
      ap (λ x. pre ++ (x ++ post)) t.shape in
    let found : match_token (pre ++ (token ++ post)) ≡ some token =
      ap match_token whole
      ∙ match_token_at pre t.run post clear t.full t.alphabet e
      ∙ ap some (sym t.shape) in
    rw found (nonempty (pre ++ (token ++ post)) token found)

match_here_sound : (s m : Str) → match_here s ≡ some m → IsToken m
unfolding match_here
match_here_sound s m e =
    elim (Bool-cases
      (starts_with s token_head && not (is_empty (take_while is_token_unit (drop 3 s))))) [
        | inl hit ↦
            let found : some (token_head ++ take_while is_token_unit (drop 3 s)) ≡ some m =
              rw hit at e in
            record {
              run = take_while is_token_unit (drop 3 s);
              shape = cc;
              full = ground arith;
              alphabet = take_while-All (drop 3 s);
            }
        | inr miss ↦ let impossible : none ≡ some m = rw miss at e in cc
      ]

match_token_sound : (s m : Str) → match_token s ≡ some m → IsToken m
unfolding match_token
match_token_sound [] m e = cc
match_token_sound (c ∷ s) m e = elim (Option-cases (match_here (c ∷ s))) [
  | inl missed ↦ match_token_sound s m (rw (missed, match_token) at e)
  | inr (x, hit) ↦
      let found : some x ≡ some m = rw (hit, match_token) at e in
      let same : x ≡ m = cc in match_here_sound (c ∷ s) m (hit ∙ ap some same)
]

-- The result is a bare token, or the text holds no match and comes back trimmed.
pub extract_cloudflared_token_sound :
    (input : Str)
    → IsToken (extract_cloudflared_token input)
      ⊎ ((match_token input ≡ none) × (extract_cloudflared_token input ≡ trim input))
unfolding extract_cloudflared_token
extract_cloudflared_token_sound [] = inr (unfold match_token in refl, unfold trim in refl)
extract_cloudflared_token_sound (c ∷ s) = elim (Option-cases (match_token (c ∷ s))) [
  | inl missed ↦ rw missed (inr (refl, refl))
  | inr (m, hit) ↦ rw hit (inl (match_token_sound (c ∷ s) m hit))
]
