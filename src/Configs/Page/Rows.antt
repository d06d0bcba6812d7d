-- ===== src/Configs/Page/Rows.antt =====
-- The list of web/src/pages/Configs.tsx: its rows when they are dragged and when their status is polled.
use mathlib.Core.Path.{subst}
use mathlib.Core.Option
use mathlib.Core.List.Perm
use mathlib.Core.List.{Perm, perm_middle}
use cloudflared_manager.Base.{
  ℕ, zero, suc, ◌≡◌, refl, ap, ◌∙◌, Bool, true, Option, none, some, List, [], ◌∷◌, ◌++◌, length,
  take, drop, remove, get_elem?, find_index, ◌≤◌, ◌<◌, Str, str_eq, str_eq_iff, Bool-cases,
  Option-cases, inl, inr, arith,
}
use cloudflared_manager.Api.Types.{Snapshot}
use cloudflared_manager.Configs.{Yaml, merge, update_at, place_of, moved_between, reordered}
use cloudflared_manager.Configs.State.{Page, status_of}
use cloudflared_manager.Configs.Page.{handle}

module _ {ℓ} {A : Type ℓ} where
  take-append-drop : (n : ℕ) (xs : List A) → take n xs ++ drop n xs ≡ xs
  take-append-drop zero xs = refl
  take-append-drop (suc n) [] = refl
  take-append-drop (suc n) (x ∷ xs) = ap (λ t. x ∷ t) (take-append-drop n xs)

  insert-perm : (n : ℕ) (x : A) (xs : List A) → Perm (take n xs ++ x ∷ drop n xs) (x ∷ xs)
  insert-perm n x xs =
      subst (λ l. Perm (take n xs ++ x ∷ drop n xs) (x ∷ l)) (take-append-drop n xs)
        (perm_middle (take n xs) (drop n xs))

  remove-perm : (xs : List A) (i : ℕ) (x : A) → get_elem? xs i ≡ some x → Perm (x ∷ remove xs i) xs
  remove-perm [] i x h = cc
  remove-perm (y ∷ xs) zero x h =
      let e : y ≡ x = cc in subst (λ z. Perm (z ∷ xs) (y ∷ xs)) e (Perm.refl (y ∷ xs))
  remove-perm (y ∷ xs) (suc i) x h =
      Perm.trans (Perm.swap y x (remove xs i)) (Perm.cons y (remove-perm xs i x h))

  pub get_elem?-insert :
      (n : ℕ) (x : A) (xs : List A)
      → n ≤ length xs
      → get_elem? (take n xs ++ x ∷ drop n xs) n ≡ some x
  get_elem?-insert zero x xs h = refl
  get_elem?-insert (suc n) x [] h = elim h [ ]
  get_elem?-insert (suc n) x (y ∷ xs) h = get_elem?-insert n x xs (omega arith)

  pub length-remove : (xs : List A) (i : ℕ) → length xs ≤ suc (length (remove xs i))
  length-remove [] i = omega arith
  length-remove (x ∷ xs) zero = omega arith
  length-remove (x ∷ xs) (suc i) = omega (arith, length-remove xs i)

  -- What `findIndex` finds stands there and passes the test.
  find_index_sound :
      (p : A → Bool) (xs : List A) (i : ℕ)
      → find_index p xs ≡ some i
      → (x : A) × (get_elem? xs i ≡ some x) × (p x ≡ true)
  find_index_sound p [] i h = cc
  find_index_sound p (x ∷ xs) i h = elim (Bool-cases (p x)) [
    | inl hit ↦
        let here : some 0 ≡ some i = rw hit at h in
        let same : 0 ≡ i = cc in
        subst (λ j. (y : A) × (get_elem? (x ∷ xs) j ≡ some y) × (p y ≡ true)) same (x, refl, hit)
    | inr miss ↦
        let later : Option.map suc (find_index p xs) ≡ some i = rw miss at h in
        elim (Option-cases (find_index p xs)) [
          | inl missed ↦ let impossible : none ≡ some i = rw missed at later in cc
          | inr (j, found) ↦
              let next : some (suc j) ≡ some i = rw found at later in
              let same : suc j ≡ i = cc in
              subst (λ j. (y : A) × (get_elem? (x ∷ xs) j ≡ some y) × (p y ≡ true)) same
                (find_index_sound p xs j found)
        ]
  ]

  get_elem?-lt : (xs : List A) (i : ℕ) (x : A) → get_elem? xs i ≡ some x → i < length xs
  get_elem?-lt [] i x h = cc
  get_elem?-lt (y ∷ xs) zero x h = omega arith
  get_elem?-lt (y ∷ xs) (suc i) x h = omega (arith, get_elem?-lt xs i x h)

-- A drop puts the dragged instance where the target stood, and keeps all instances.
pub reordered_lem :
    (src target : Str) (cs next : List Snapshot)
    → reordered src target cs ≡ some next
    → Perm next cs
      × ((to : ℕ) × (moved : Snapshot) × (place_of target cs ≡ some to)
          × (moved.id ≡ src)
          × (get_elem? next to ≡ some moved))
unfolding reordered
reordered_lem src target cs next h = go (place_of src cs) (place_of target cs) refl refl h
  where
    go :
        (a b : Option ℕ)
        → place_of src cs ≡ a
        → place_of target cs ≡ b
        → moved_between a b cs ≡ some next
        → Perm next cs
          × ((to : ℕ) × (moved : Snapshot) × (place_of target cs ≡ some to)
              × (moved.id ≡ src)
              × (get_elem? next to ≡ some moved))
    go none b ea eb k = cc
    go (some from) none ea eb k = cc
    go (some from) (some to) ea eb k =
        let (moved, there, hit) = find_index_sound (λ (c : Snapshot). str_eq c.id src) cs from ea in
        let (aim, stands, _) = find_index_sound (λ (c : Snapshot). str_eq c.id target) cs to eb in
        let left = remove cs from in
        let result : some (take to left ++ moved ∷ drop to left) ≡ some next = rw there at k in
        let same : take to left ++ moved ∷ drop to left ≡ next = cc in
        let fits : to ≤ length left =
          omega (arith, get_elem?-lt cs to aim stands, length-remove cs from) in
        (
          subst (λ l. Perm l cs) same
              (Perm.trans (insert-perm to moved left) (remove-perm cs from moved there)),
          (
            to,
            moved,
            eb,
            (str_eq_iff moved.id src).0 hit,
            subst (λ l. get_elem? l to ≡ some moved) same (get_elem?-insert to moved left fits),
          ),
        )

get_elem?-update_at :
    (id : Str) (f : Snapshot → Snapshot) (cs : List Snapshot) (i : ℕ) (c : Snapshot)
    → get_elem? cs i ≡ some c
    → c.id ≡ id
    → get_elem? (update_at id f cs) i ≡ some (f c)
get_elem?-update_at id f [] i c h e = cc
get_elem?-update_at id f (x ∷ cs) zero c h e =
    let same : x ≡ c = cc in
    let test : str_eq x.id id ≡ true =
      (str_eq_iff x.id id).1 (ap (λ (s : Snapshot). s.id) same ∙ e) in
    rw test (ap (λ s. some (f s)) same)
get_elem?-update_at id f (x ∷ cs) (suc i) c h e = get_elem?-update_at id f cs i c h e

-- A polled status without an error or a process leaves the row that it is for with its own state, but with
-- the error and the process that the row had.
pub status_keeps_old :
    (yaml : Yaml) (p : Page) (i : ℕ) (c snap : Snapshot)
    → get_elem? p.configs i ≡ some c
    → snap.last_error ≡ none
    → snap.pid ≡ none
    → (row : Snapshot) × (get_elem? (handle yaml (status_of c.id (some snap)) p).0.configs i
        ≡ some row)
      × (row.state ≡ snap.state)
      × (row.last_error ≡ c.last_error)
      × (row.pid ≡ c.pid)
unfolding handle
status_keeps_old yaml p i c snap h e q = (
  merge c snap,
  get_elem?-update_at c.id (λ c. merge c snap) p.configs i c h refl,
  refl,
  rw e,
  rw q,
)
