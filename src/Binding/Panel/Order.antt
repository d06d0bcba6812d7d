-- ===== src/Binding/Panel/Order.antt =====
-- The reordering of web/src/components/instance/InstanceCFPanel.tsx: what a dragged row does to the tunnel's
-- rules.
use mathlib.Core.Path.{subst}
use cloudflared_manager.Base.{
  ℕ, zero, suc, ◌+◌, ◌≤◌, ◌<◌, ◌≡◌, refl, sym, ap, ◌∙◌, false, ◌==◌, Option, none, some, List, [],
  ◌∷◌, ◌++◌, map, append_assoc, append-nil, filter, length, length-append, get_elem?,
  get_elem?-length-append, remove, take, drop, or_empty, Str, is_empty, All, Option-cases, inl, inr,
  arith,
}
use cloudflared_manager.Api.Types.{PublicHostname, Binding, TunnelConfig, IngressRule}
use cloudflared_manager.Api.Json.{Numbers}
use cloudflared_manager.Ingress.Rules.{ingress_of, reorder_hostnames}
use cloudflared_manager.Ingress.Rules.Layout.{IsEditable, catch_all_of}
use cloudflared_manager.Ingress.Rules.Listing.{is_host, hosts_of}
use cloudflared_manager.Ingress.Rules.Edits.{IsEdit, reorder_hostnames-IsEdit}
use cloudflared_manager.Api.Reply.{done}
use cloudflared_manager.Configs.Page.Rows.{get_elem?-insert, length-remove}
use cloudflared_manager.Binding.{get_config, put_config, CfPanel, spliced, rules_at, ordered_config}
use cloudflared_manager.Binding.Panel.{row_drop, order_config, step}

-- The new order of a list that has an item at `from`.
abbrev insert_moved : {A : Type 0} → ℕ → Option A → List A → List A → List A
insert_moved to none left xs = xs
insert_moved to (some moved) left xs = take to left ++ moved ∷ drop to left

abbrev move_item : {A : Type 0} → ℕ → ℕ → List A → List A
move_item from to xs = insert_moved to (get_elem? xs from) (remove xs from) xs

-- `order` is `xs` with the item at `from` moved to `to`: it stands there, and the others stay as they are.
abbrev pub IsMoved : {A : Type 0} → ℕ → ℕ → List A → List A → Type 0
IsMoved from to xs order =
    (get_elem? order to ≡ get_elem? xs from) × (remove order to ≡ remove xs from)

module _ {A : Type 0} where
  get_elem?-of_lt : (xs : List A) (i : ℕ) → i < length xs → (x : A) × (get_elem? xs i ≡ some x)
  get_elem?-of_lt [] i h = absurd (omega (arith, h))
  get_elem?-of_lt (x ∷ xs) zero h = (x, refl)
  get_elem?-of_lt (x ∷ xs) (suc i) h = get_elem?-of_lt xs i (omega (arith, h))

  remove-insert :
      (n : ℕ) (x : A) (xs : List A) → n ≤ length xs → remove (take n xs ++ x ∷ drop n xs) n ≡ xs
  remove-insert zero x xs h = refl
  remove-insert (suc n) x [] h = absurd (omega (arith, h))
  remove-insert (suc n) x (y ∷ xs) h = ap (λ t. y ∷ t) (remove-insert n x xs (omega (arith, h)))

  move_item-IsMoved :
      (from to : ℕ) (xs : List A)
      → from < length xs
      → to < length xs
      → IsMoved from to xs (move_item from to xs)
  move_item-IsMoved from to xs h k =
      let (x, there) = get_elem?-of_lt xs from h in
      let fits : to ≤ length (remove xs from) = omega (arith, k, length-remove xs from) in
      rw there
        (get_elem?-insert to x (remove xs from) fits, remove-insert to x (remove xs from) fits)

  spliced-move_item :
      (from to : ℕ) (xs : List A)
      → from < length xs
      → spliced from to xs ≡ some (move_item from to xs)
  spliced-move_item from to xs h = let (x, there) = get_elem?-of_lt xs from h in rw there refl

-- The items with their places, the first at `n`.
abbrev pub numbered : {A : Type 0} → ℕ → List A → List (A × ℕ)
numbered n [] = []
numbered n (x ∷ xs) = (x, n) ∷ numbered (n + 1) xs

-- The rows are the daemon's listing of the rules: one row for each, in order.
abbrev pub IsListing : List IngressRule → List PublicHostname → Type 0
IsListing rules rows =
    map (λ (h : PublicHostname). h.index) rows
    ≡ map (λ (e : IngressRule × ℕ). e.1) (numbered 0 rules)

module _ {A B : Type 0} (g : A → B) where
  get_elem?-map :
      (xs : List A) (i : ℕ) (x : A) → get_elem? xs i ≡ some x → get_elem? (map g xs) i ≡ some (g x)
  get_elem?-map [] i x h = cc
  get_elem?-map (y ∷ xs) zero x h = let e : y ≡ x = cc in ap (λ z. some (g z)) e
  get_elem?-map (y ∷ xs) (suc i) x h = get_elem?-map xs i x h

  get_elem?-map-none : (xs : List A) (i : ℕ) → get_elem? xs i ≡ none → get_elem? (map g xs) i ≡ none
  get_elem?-map-none [] i h = refl
  get_elem?-map-none (y ∷ xs) zero h = cc
  get_elem?-map-none (y ∷ xs) (suc i) h = get_elem?-map-none xs i h

  remove-map : (xs : List A) (i : ℕ) → remove (map g xs) i ≡ map g (remove xs i)
  remove-map [] i = refl
  remove-map (y ∷ xs) zero = refl
  remove-map (y ∷ xs) (suc i) = ap (λ t. g y ∷ t) (remove-map xs i)

  insert-map :
      (n : ℕ) (x : A) (xs : List A)
      → take n (map g xs) ++ g x ∷ drop n (map g xs) ≡ map g (take n xs ++ x ∷ drop n xs)
  insert-map zero x xs = refl
  insert-map (suc n) x [] = refl
  insert-map (suc n) x (y ∷ xs) = ap (λ t. g y ∷ t) (insert-map n x xs)

  move_item-map :
      (from to : ℕ) (xs : List A) → move_item from to (map g xs) ≡ map g (move_item from to xs)
  move_item-map from to xs = elim (Option-cases (get_elem? xs from)) [
    | inl e ↦ rw (e, get_elem?-map-none xs from e)
    | inr (x, e) ↦
        rw (e, get_elem?-map xs from x e, remove-map xs from, insert-map to x (remove xs from))
  ]

module _ {A : Type 0} (P : A → Type 0) where
  get_elem?-All : (xs : List A) (i : ℕ) (x : A) → All P xs → get_elem? xs i ≡ some x → P x
  get_elem?-All [] i x h e = cc
  get_elem?-All (y ∷ xs) zero x (k, h) e = let same : y ≡ x = cc in subst P same k
  get_elem?-All (y ∷ xs) (suc i) x (k, h) e = get_elem?-All xs i x h e

  remove-All : (xs : List A) (i : ℕ) → All P xs → All P (remove xs i)
  remove-All [] i h = tt
  remove-All (y ∷ xs) zero (k, h) = h
  remove-All (y ∷ xs) (suc i) (k, h) = (k, remove-All xs i h)

  insert-All : (n : ℕ) (x : A) (xs : List A) → P x → All P xs → All P (take n xs ++ x ∷ drop n xs)
  insert-All zero x xs k h = (k, h)
  insert-All (suc n) x [] k h = (k, tt)
  insert-All (suc n) x (y ∷ xs) k (j, h) = (j, insert-All n x xs k h)

  insert_moved-All :
      (to : ℕ) (moved : Option A) (left xs : List A)
      → ((x : A) → moved ≡ some x → P x)
      → All P left
      → All P xs
      → All P (insert_moved to moved left xs)
  insert_moved-All to none left xs k h g = g
  insert_moved-All to (some x) left xs k h g = insert-All to x left (k x refl) h

  move_item-All : (from to : ℕ) (xs : List A) → All P xs → All P (move_item from to xs)
  move_item-All from to xs h =
      insert_moved-All to (get_elem? xs from) (remove xs from) xs
        (λ x e. get_elem?-All xs from x h e) (remove-All xs from h) h

abbrev IsAt : List IngressRule → IngressRule × ℕ → Type 0
IsAt rules e = get_elem? rules e.1 ≡ some e.0

rules_at_found :
    (rules : List IngressRule) (es : List (IngressRule × ℕ))
    → All (IsAt rules) es
    → rules_at rules (map (λ (e : IngressRule × ℕ). e.1) es) ≡ map (λ (e : IngressRule × ℕ). e.0) es
unfolding rules_at
rules_at_found rules [] h = refl
rules_at_found rules ((r, i) ∷ es) (e, h) = rw e (ap (λ t. r ∷ t) (rules_at_found rules es h))

numbered_rules :
    (n : ℕ) (rules : List IngressRule)
    → map (λ (e : IngressRule × ℕ). e.0) (numbered n rules) ≡ rules
numbered_rules n [] = refl
numbered_rules n (r ∷ rules) = ap (λ t. r ∷ t) (numbered_rules (n + 1) rules)

numbered-IsAt :
    (pre seen unseen : List IngressRule) (n : ℕ)
    → length pre ≡ n
    → All (IsAt (pre ++ (seen ++ unseen))) (numbered n seen)
numbered-IsAt pre [] unseen n e = tt
numbered-IsAt pre (r ∷ seen) unseen n e =
    let moved : length (pre ++ r ∷ []) ≡ n + 1 = omega (arith, length-append pre (r ∷ [])) in
    (
      rw (← e) (get_elem?-length-append pre (seen ++ unseen) r),
      rw (append_assoc pre (r ∷ []) (seen ++ unseen)) at
          (numbered-IsAt (pre ++ r ∷ []) seen unseen (n + 1) moved),
    )

-- The rules found at the moved places are the moved rules, whatever else the tunnel has behind them.
rules_at-move_item :
    (seen unseen : List IngressRule) (rows : List PublicHostname) (from to : ℕ)
    → IsListing seen rows
    → rules_at (seen ++ unseen) (map (λ (h : PublicHostname). h.index) (move_item from to rows))
      ≡ move_item from to seen
rules_at-move_item seen unseen rows from to l =
    let es = numbered 0 seen in
    let places : map (λ (h : PublicHostname). h.index) (move_item from to rows)
        ≡ map (λ (e : IngressRule × ℕ). e.1) (move_item from to es) =
      sym (move_item-map (λ (h : PublicHostname). h.index) from to rows)
      ∙ ap (move_item from to) l
      ∙ move_item-map (λ (e : IngressRule × ℕ). e.1) from to es in
    ap (rules_at (seen ++ unseen)) places
    ∙ rules_at_found (seen ++ unseen) (move_item from to es)
        (move_item-All (IsAt (seen ++ unseen)) from to es (numbered-IsAt [] seen unseen 0 refl))
    ∙ sym (move_item-map (λ (e : IngressRule × ℕ). e.0) from to es)
    ∙ ap (move_item from to) (numbered_rules 0 seen)

length-numbered : {A : Type 0} (n : ℕ) (xs : List A) → length (numbered n xs) ≡ length xs
length-numbered n [] = refl
length-numbered n (x ∷ xs) = omega (arith, length-numbered (n + 1) xs)

length-map_places : {A B : Type 0} (f : A → B) (xs : List A) → length (map f xs) ≡ length xs
length-map_places f [] = refl
length-map_places f (x ∷ xs) = omega (arith, length-map_places f xs)

-- There are as many rows as rules.
listing_length :
    (rules : List IngressRule) (rows : List PublicHostname)
    → IsListing rules rows
    → length rows ≡ length rules
listing_length rules rows l =
    sym (length-map_places (λ (h : PublicHostname). h.index) rows)
    ∙ ap length l
    ∙ length-map_places (λ (e : IngressRule × ℕ). e.1) (numbered 0 rules)
    ∙ length-numbered 0 rules

module _ (numbers : Numbers) (p : CfPanel) (b : Binding) (from to : ℕ) where
  abbrev aid : Str
  aid = or_empty b.account_id

  abbrev tid : Str
  tid = or_empty b.tunnel_id

  -- A drop of the row `from` on the row `to` asks for the configuration, and when that is `config`, for the
  -- saving of `next`.
  abbrev pub Saves : Option TunnelConfig → TunnelConfig → Type 0
  Saves config next =
      (order : Option (List PublicHostname)) × ((step numbers (row_drop to) p).1
        ≡ get_config (or_empty b.account_id) (or_empty b.tunnel_id) order ∷ [])
      × ((q : CfPanel)
          → (step numbers
              (order_config q.id (or_empty b.account_id) (or_empty b.tunnel_id) order (done config))
              q).1
            ≡ put_config (or_empty b.account_id) (or_empty b.tunnel_id) next ∷ [])

  drop-put :
      p.drag ≡ some from
      → (from == to) ≡ false
      → p.binding ≡ some b
      → is_empty aid ≡ false
      → is_empty tid ≡ false
      → from < length p.hostnames
      → (config : Option TunnelConfig)
      → Saves config (ordered_config config (move_item from to p.hostnames))
  unfolding step
  drop-put d n bound a t h config = (
    some (move_item from to p.hostnames),
    rw (d, bound, n, a, t, spliced-move_item from to p.hostnames h) refl,
    λ q. refl,
  )

  -- While the rows are the tunnel's rules in order, dropping a row on another saves the rules with that
  -- one moved there, but for the catch-all, which stays last, or is added; nothing else of the configuration
  -- changes. The binding has an account and a tunnel, and both rows are there.
  pub row_drop-IsEdit :
      p.drag ≡ some from
      → (from == to) ≡ false
      → p.binding ≡ some b
      → is_empty (or_empty b.account_id) ≡ false
      → is_empty (or_empty b.tunnel_id) ≡ false
      → from < length p.hostnames
      → to < length p.hostnames
      → (config : Option TunnelConfig) (e : IsEditable config)
      → IsListing (ingress_of config) p.hostnames
      → (next : TunnelConfig) × (order : List IngressRule) × Saves config next
        × IsMoved from to (ingress_of config) order
        × IsEdit config next (filter is_host order) (catch_all_of e.tail)
  unfolding ordered_config
  row_drop-IsEdit d n bound a t h k config e l =
      let order = move_item from to p.hostnames in
      let rules = rules_at (ingress_of config) (map (λ (h : PublicHostname). h.index) order) in
      let same : rules ≡ move_item from to (ingress_of config) =
        subst
          (λ xs.
            rules_at xs (map (λ (h : PublicHostname). h.index) order)
            ≡ move_item from to (ingress_of config))
          (append-nil (ingress_of config))
          (rules_at-move_item (ingress_of config) [] p.hostnames from to l) in
      let sized = listing_length (ingress_of config) p.hostnames l in
      (
        ordered_config config order,
        move_item from to (ingress_of config),
        drop-put d n bound a t h config,
        move_item-IsMoved from to (ingress_of config) (omega (arith, h, sized))
            (omega (arith, k, sized)),
        subst
            (λ rs.
              IsEdit config (reorder_hostnames config rules) (filter is_host rs)
                (catch_all_of e.tail))
            same (reorder_hostnames-IsEdit config e rules),
      )

  -- Rules that the tunnel has behind those listed, as when somebody has added hostnames since, are lost by a
  -- drop: the saved configuration shows the listed ones alone.
  row_drop_forgets :
      p.drag ≡ some from
      → (from == to) ≡ false
      → p.binding ≡ some b
      → is_empty (or_empty b.account_id) ≡ false
      → is_empty (or_empty b.tunnel_id) ≡ false
      → from < length p.hostnames
      → (seen unseen : List IngressRule) (config : Option TunnelConfig) (e : IsEditable config)
      → ingress_of config ≡ seen ++ unseen
      → IsListing seen p.hostnames
      → (next : TunnelConfig) × Saves config next
        × (hosts_of (some next) ≡ filter is_host (move_item from to seen))
  unfolding ordered_config
  row_drop_forgets d n bound a t h seen unseen config e split l =
      let order = move_item from to p.hostnames in
      let places = map (λ (h : PublicHostname). h.index) order in
      let same : rules_at (ingress_of config) places ≡ move_item from to seen =
        ap (λ xs. rules_at xs places) split
        ∙ rules_at-move_item seen unseen p.hostnames from to l in
      (
        ordered_config config order,
        drop-put d n bound a t h config,
        (reorder_hostnames-IsEdit config e (rules_at (ingress_of config) places)).shown
            ∙ ap (filter is_host) same,
      )
