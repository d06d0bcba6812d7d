-- ===== src/Monitor/Window.antt =====
-- The windows of the last samples or events, in web/src/pages/System.tsx and web/src/pages/Dashboard.tsx.
use mathlib.Core.List.{append_assoc}
use cloudflared_manager.Base.{
  ◌≡◌, refl, sym, ap, ◌∙◌, ℕ, zero, suc, ◌+◌, ◌-◌, ◌≤◌, ◌<◌, true, false, List, [], ◌∷◌, ◌++◌,
  if◌then◌else◌, leb, length, drop, length-append, append-nil, Bool-cases, inl, inr, arith,
}

module _ {ℓ} {A : Type ℓ} where
  -- `prev.length >= keep ? prev.slice(prev.length - keep + 1) : prev.slice()`, and `push`.
  unfoldable pub pushed : ℕ → A → List A → List A
  pushed keep x prev =
      (if leb keep (length prev) then drop (length prev - keep + 1) prev else prev) ++ x ∷ []

  -- The window behind a sequence of samples, the oldest one first.
  abbrev pub pushes : ℕ → List A → List A → List A
  pushes keep [] window = window
  pushes keep (x ∷ xs) window = pushes keep xs (pushed keep x window)

  -- The last items of a list.
  abbrev pub last_of : ℕ → List A → List A
  last_of keep xs = drop (length xs - keep) xs

  drop_none : (xs : List A) (n : ℕ) → n ≡ 0 → drop n xs ≡ xs
  drop_none xs n e = rw e refl

  drop_next : (n : ℕ) (xs : List A) → drop 1 (drop n xs) ≡ drop (suc n) xs
  drop_next zero xs = refl
  drop_next (suc n) [] = refl
  drop_next (suc n) (x ∷ xs) = drop_next n xs

  drop-append : (n : ℕ) (xs ys : List A) → n ≤ length xs → drop n (xs ++ ys) ≡ drop n xs ++ ys
  drop-append zero xs ys h = refl
  drop-append (suc n) [] ys h = absurd (omega (arith, h))
  drop-append (suc n) (x ∷ xs) ys h = drop-append n xs ys (omega (arith, h))

  length-drop_exact : (n : ℕ) (xs : List A) → length (drop n xs) ≡ length xs - n
  length-drop_exact zero xs = omega arith
  length-drop_exact (suc n) [] = omega arith
  length-drop_exact (suc n) (x ∷ xs) = omega (arith, length-drop_exact n xs)

  pushed-last_of :
      (keep : ℕ) (x : A) (xs : List A)
      → 0 < keep
      → pushed keep x (last_of keep xs) ≡ last_of keep (xs ++ x ∷ [])
  unfolding pushed
  pushed-last_of keep x xs h =
      let w = last_of keep xs in
      let size : length w ≡ length xs - (length xs - keep) =
        length-drop_exact (length xs - keep) xs in
      let grown : length (xs ++ x ∷ []) ≡ length xs + 1 = length-append xs (x ∷ []) in
      elim (Bool-cases (leb keep (length xs))) [
        | inl full ↦
            let enough : leb keep (length w) ≡ true = ground (arith, full, size) in
            let first : length w - keep + 1 ≡ 1 = ground (arith, full, size) in
            let next : length (xs ++ x ∷ []) - keep ≡ suc (length xs - keep) =
              ground (arith, full, grown) in
            let fits : suc (length xs - keep) ≤ length xs = ground (arith, full, h) in
            rw enough (
              ap (λ n. drop n w ++ x ∷ []) first
              ∙ ap (λ ys. ys ++ x ∷ []) (drop_next (length xs - keep) xs)
              ∙ sym (drop-append (suc (length xs - keep)) xs (x ∷ []) fits)
              ∙ ap (λ n. drop n (xs ++ x ∷ [])) (sym next))
        | inr room ↦
            let whole : w ≡ xs = drop_none xs (length xs - keep) (ground (arith, room)) in
            let small : leb keep (length w) ≡ false = ground (arith, room, size) in
            let none_dropped : length (xs ++ x ∷ []) - keep ≡ 0 = ground (arith, room, grown) in
            rw small (
              ap (λ ys. ys ++ x ∷ []) whole
              ∙ sym (drop_none (xs ++ x ∷ []) (length (xs ++ x ∷ []) - keep) none_dropped))
      ]

  pub pushes-last_of :
      (keep : ℕ) (seen xs : List A)
      → 0 < keep
      → pushes keep xs (last_of keep seen) ≡ last_of keep (seen ++ xs)
  pushes-last_of keep seen [] h = rw append-nil refl
  pushes-last_of keep seen (x ∷ xs) h = rw (pushed-last_of keep x seen h) (
      pushes-last_of keep (seen ++ x ∷ []) xs h ∙ ap (last_of keep) (append_assoc seen (x ∷ []) xs))
