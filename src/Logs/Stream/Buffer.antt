-- ===== src/Logs/Stream/Buffer.antt =====
-- The lines that the panel of web/src/components/instance/InstanceLogPanel.tsx keeps.
use mathlib.Core.Path.{subst}
use cloudflared_manager.Base.{
  ℕ, zero, suc, ◌-◌, ◌≤◌, ◌<◌, ◌≡◌, refl, sym, ap, ◌∙◌, Bool, true, false, not, List, [], ◌∷◌, ◌++◌,
  append-nil, length, drop, ltb, leb, filter, Bool-cases, if_intro, if_false, inl, inr, arith, All,
  All-append,
}
use cloudflared_manager.Logs.{LogEntry}
use cloudflared_manager.Logs.Stream.{
  max_buffer, Panel, initial, new_lines, cap_lines, merge_lines, receive, connect, clean_up,
  subscribe, Signal, mount, change_level, change_id, unmount, open_event, message, close_event,
  timeout, scrolled, jump, clear, toggle_pause, set_keyword, set_wrap, set_show_ts, handle, run,
}

abbrev pub Ascending : List LogEntry → Type 0
Ascending [] = Unit
Ascending (e ∷ es) = All (λ (f : LogEntry). e.seq < f.seq) es × Ascending es

abbrev pub IsUpTo : ℕ → LogEntry → Type 0
IsUpTo last e = e.seq ≤ last

-- The lines stand in the order of their numbers, none twice, none is newer than the last number seen,
-- there are at most as many as the buffer holds, and while the panel follows, none is counted as new.
pub record IsSound (p : Panel) : Type 0 where
  pub ascending : Ascending p.entries
  pub seen : All (IsUpTo p.last_seq) p.entries
  pub capped : length p.entries ≤ max_buffer
  pub counted : p.follow ≡ true → p.new_count ≡ 0

IsUpTo-mono : (m n : ℕ) (es : List LogEntry) → m ≤ n → All (IsUpTo m) es → All (IsUpTo n) es
IsUpTo-mono m n [] h k = tt
IsUpTo-mono m n (e ∷ es) h (k, ks) = (omega arith, IsUpTo-mono m n es h ks)

later_mono :
    (m n : ℕ) (es : List LogEntry)
    → m ≤ n
    → All (λ (f : LogEntry). n < f.seq) es
    → All (λ (f : LogEntry). m < f.seq) es
later_mono m n [] h k = tt
later_mono m n (e ∷ es) h (k, ks) = (omega arith, later_mono m n es h ks)

-- What the loop over a frame finds.
record IsFresh (last : ℕ) (found : ℕ × List LogEntry) : Type 0 where
  grows : last ≤ found.0
  later : All (λ (f : LogEntry). last < f.seq) found.1
  seen : All (IsUpTo found.0) found.1
  ascending : Ascending found.1

new_lines-IsFresh : (last : ℕ) (es : List LogEntry) → IsFresh last (new_lines last es)
unfolding new_lines
new_lines-IsFresh last [] = record { grows = omega arith; later = tt; seen = tt; ascending = tt }
new_lines-IsFresh last (e ∷ es) = elim (Bool-cases (leb e.seq last)) [
  | inl old ↦ rw old (new_lines-IsFresh last es)
  | inr fresh ↦
      let newer : last < e.seq = ground arith in
      let rest = new_lines-IsFresh e.seq es in
      rw fresh (record {
        grows = omega (arith, rest.grows);
        later = (newer, later_mono last e.seq (new_lines e.seq es).1 (omega arith) rest.later);
        seen = (rest.grows, rest.seen);
        ascending = (rest.later, rest.ascending);
      })
]

append-Ascending :
    (last : ℕ) (es fs : List LogEntry)
    → Ascending es
    → All (IsUpTo last) es
    → All (λ (f : LogEntry). last < f.seq) fs
    → Ascending fs
    → Ascending (es ++ fs)
append-Ascending last [] fs a s l b = b
append-Ascending last (e ∷ es) fs (first, a) (se, s) l b =
    (All-append _ es fs first (later_mono e.seq last fs se l), append-Ascending last es fs a s l b)

drop-Ascending : (n : ℕ) (es : List LogEntry) → Ascending es → Ascending (drop n es)
drop-Ascending zero es h = h
drop-Ascending (suc n) [] h = h
drop-Ascending (suc n) (e ∷ es) (k, h) = drop-Ascending n es h

drop-All {ℓ κ} : {A : Type ℓ} (P : A → Type κ) (n : ℕ) (xs : List A) → All P xs → All P (drop n xs)
drop-All P zero xs h = h
drop-All P (suc n) [] h = h
drop-All P (suc n) (x ∷ xs) (k, h) = drop-All P n xs h

length-drop_lem {ℓ} : {A : Type ℓ} (n : ℕ) (xs : List A) → length (drop n xs) ≡ length xs - n
length-drop_lem zero xs = omega arith
length-drop_lem (suc n) [] = omega arith
length-drop_lem (suc n) (x ∷ xs) = omega (arith, length-drop_lem n xs)

-- The last lines that the buffer has room for.
abbrev pub last_lines : List LogEntry → List LogEntry
last_lines es = drop (length es - max_buffer) es

cap_lines_lem : (es : List LogEntry) → cap_lines es ≡ last_lines es
cap_lines_lem es = elim (Bool-cases (ltb max_buffer (length es))) [
  | inl over ↦ rw over
  | inr within ↦
      let none_over : length es - max_buffer ≡ 0 = ground arith in
      rw within (ap (λ n. drop n es) (sym none_over))
]

merge_lines-IsSound :
    (found : ℕ × List LogEntry) (p : Panel)
    → IsFresh p.last_seq found
    → IsSound p
    → IsSound (merge_lines found p)
unfolding merge_lines
merge_lines-IsSound (newest, []) p f s = record {
  ascending = s.ascending;
  seen = IsUpTo-mono p.last_seq newest p.entries f.grows s.seen;
  capped = s.capped;
  counted = s.counted;
}
merge_lines-IsSound (newest, e ∷ fresh) p f s =
    let all = p.entries ++ e ∷ fresh in
    let over = length all - max_buffer in
    rw (cap_lines_lem all) (record {
      ascending = drop-Ascending over all (
          append-Ascending p.last_seq p.entries (e ∷ fresh) s.ascending s.seen f.later f.ascending);
      seen = drop-All (IsUpTo newest) over all (
          All-append (IsUpTo newest) p.entries (e ∷ fresh)
            (IsUpTo-mono p.last_seq newest p.entries f.grows s.seen) f.seen);
      capped = omega (arith, length-drop_lem over all);
      counted = λ following. rw following (s.counted following);
    })

receive-IsSound : (frame : List LogEntry) (p : Panel) → IsSound p → IsSound (receive frame p)
unfolding receive
receive-IsSound frame p s =
    if_intro IsSound p.paused p (merge_lines (new_lines p.last_seq frame) p) (λ paused. s)
      (λ running.
        merge_lines-IsSound (new_lines p.last_seq frame) p (new_lines-IsFresh p.last_seq frame) s)

-- Only the lines, the follow mode, the count and the last number matter.
same-IsSound :
    {p q : Panel}
    → q.entries ≡ p.entries
    → q.last_seq ≡ p.last_seq
    → q.follow ≡ p.follow
    → q.new_count ≡ p.new_count
    → IsSound p
    → IsSound q
same-IsSound a b c d s = record {
  ascending = subst Ascending (sym a) s.ascending;
  seen = rw (a, b) s.seen;
  capped = rw a s.capped;
  counted = λ h. d ∙ s.counted (sym c ∙ h);
}

connect-IsSound : (made : Bool) (p : Panel) → IsSound p → IsSound (connect made p)
unfolding connect
connect-IsSound true p s = same-IsSound refl refl refl refl s
connect-IsSound false p s = same-IsSound refl refl refl refl s

subscribe-IsSound : (made : Bool) (p : Panel) → IsSound (subscribe made p)
subscribe-IsSound made p =
    connect-IsSound made _
      (record { ascending = tt; seen = tt; capped = omega arith; counted = λ h. refl })

handle-IsSound : (s : Signal) (p : Panel) → IsSound p → IsSound (handle s p)
unfolding handle
handle-IsSound (mount made) p h = subscribe-IsSound made p
handle-IsSound (change_level level made) p h =
    subscribe-IsSound made (clean_up (record p { level = level }))
handle-IsSound (change_id made) p h = subscribe-IsSound made (clean_up p)
handle-IsSound unmount p h = same-IsSound refl refl refl refl h
handle-IsSound open_event p h = same-IsSound refl refl refl refl h
handle-IsSound (message frame) p h = receive-IsSound frame p h
handle-IsSound (close_event t) p h = same-IsSound refl refl refl refl h
handle-IsSound (timeout made) p h =
    connect-IsSound made (record p { retry = false }) (same-IsSound refl refl refl refl h)
handle-IsSound (scrolled true) p h =
    if_intro IsSound (not p.follow) (record p { follow = true; new_count = 0 }) p
      (λ away. record {
        ascending = h.ascending;
        seen = h.seen;
        capped = h.capped;
        counted = λ k. refl;
      })
      (λ bottom. h)
handle-IsSound (scrolled false) p h =
    if_intro IsSound p.follow (record p { follow = false }) p
      (λ bottom. record {
        ascending = h.ascending;
        seen = h.seen;
        capped = h.capped;
        counted = λ k. cc;
      })
      (λ up. h)
handle-IsSound jump p h = record {
  ascending = h.ascending;
  seen = h.seen;
  capped = h.capped;
  counted = λ k. refl;
}
handle-IsSound clear p h = record {
  ascending = tt;
  seen = tt;
  capped = omega arith;
  counted = λ k. refl;
}
handle-IsSound toggle_pause p h = same-IsSound refl refl refl refl h
handle-IsSound (set_keyword keyword) p h = same-IsSound refl refl refl refl h
handle-IsSound (set_wrap wrap) p h = same-IsSound refl refl refl refl h
handle-IsSound (set_show_ts show_ts) p h = same-IsSound refl refl refl refl h

run-IsSound_from : (signals : List Signal) (p : Panel) → IsSound p → IsSound (run signals p)
unfolding run
run-IsSound_from [] p h = h
run-IsSound_from (s ∷ signals) p h = run-IsSound_from signals (handle s p) (handle-IsSound s p h)

-- Whatever the daemon sends and the user does, the lines shown are in order and within the buffer.
pub run-IsSound-initial : (signals : List Signal) → IsSound (run signals initial)
run-IsSound-initial signals =
    run-IsSound_from signals initial
      (record { ascending = tt; seen = tt; capped = omega arith; counted = λ h. refl })

unseen : ℕ → LogEntry → Bool
unseen last e = ltb last e.seq

filter-unseen :
    (last : ℕ) (es : List LogEntry)
    → All (λ (f : LogEntry). last < f.seq) es
    → filter (unseen last) es ≡ es
unfolding unseen
filter-unseen last [] h = refl
filter-unseen last (e ∷ es) (k, h) = ground (arith, filter-unseen last es h)

new_lines-filter :
    (last : ℕ) (es : List LogEntry) → Ascending es → (new_lines last es).1 ≡ filter (unseen last) es
unfolding new_lines unseen
new_lines-filter last [] h = refl
new_lines-filter last (e ∷ es) (k, h) = elim (Bool-cases (leb e.seq last)) [
  | inl old ↦
      let test : ltb last e.seq ≡ false = ground arith in
      rw (old, test) (new_lines-filter last es h)
  | inr fresh ↦
      let newer : last < e.seq = ground arith in
      let test : ltb last e.seq ≡ true = ground arith in
      rw (fresh, test)
        (ap (λ fs. e ∷ fs)
          (new_lines-filter e.seq es h
            ∙ filter-unseen e.seq es k
            ∙ sym (filter-unseen last es (later_mono last e.seq es (omega (arith, newer)) k))))
]

merged_lines :
    (found : ℕ × List LogEntry) (p : Panel)
    → length p.entries ≤ max_buffer
    → (merge_lines found p).entries ≡ last_lines (p.entries ++ found.1)
unfolding merge_lines
merged_lines (newest, []) p h =
    let none_over : length p.entries - max_buffer ≡ 0 = omega arith in
    rw (append-nil p.entries, none_over)
merged_lines (newest, e ∷ fresh) p h = cap_lines_lem (p.entries ++ e ∷ fresh)

-- A frame in order, received while the panel is not paused, adds the lines that were not seen yet, and the
-- panel keeps the last ones that the buffer has room for.
pub receive_lem :
    (frame : List LogEntry) (p : Panel)
    → IsSound p
    → Ascending frame
    → p.paused ≡ false
    → (receive frame p).entries
      ≡ last_lines (p.entries ++ filter (λ (e : LogEntry). ltb p.last_seq e.seq) frame)
unfolding receive unseen
receive_lem frame p s a running =
    ap (λ (q : Panel). q.entries) (if_false p (merge_lines (new_lines p.last_seq frame) p) running)
    ∙ merged_lines (new_lines p.last_seq frame) p s.capped
    ∙ ap (λ fs. last_lines (p.entries ++ fs)) (new_lines-filter p.last_seq frame a)
