-- ===== src/Events/Connection/Invariant.antt =====
-- What every handler of web/src/events/EventStreamContext.tsx keeps, whatever the order of the signals.
use cloudflared_manager.Base.{
  ℕ, ◌+◌, ◌≤◌, ◌<◌, ◌≡◌, refl, ◌∙◌, Bool, true, false, not, Option, none, some, List, [], ◌∷◌,
  filter, ltb, ◌==◌, All, arith, Bool-cases, inl, inr, if_intro,
}
use cloudflared_manager.Events.Types.{BusEvent, ConnState, idle, failed}
use cloudflared_manager.Events.Connection.{
  Socket, Conn, Signal, open_event, message, error_event, close_event, timeout, storage, mount,
  unmount, backoff_base_ms, backoff_max_ms, schedule_reconnect, connect, close_socket, receive,
  handle, run, initial, is_some,
}
use cloudflared_manager.Events.Connection.Backoff.{backoff_lem}

-- A socket has a number already given out, and resumes behind an event that was received.
abbrev pub AllMade : ℕ → ℕ → List Socket → Type 0
AllMade next seq = All (λ (s : Socket). (s.id < next) × (s.since ≤ seq))

abbrev pub InRange : Option ℕ → Type 0
InRange none = Unit
InRange (some delay) = (backoff_base_ms ≤ delay) × (delay ≤ backoff_max_ms)

abbrev pub GivenOut : ℕ → Option ℕ → Type 0
GivenOut next none = Unit
GivenOut next (some id) = id < next

pub record IsSound (c : Conn) : Type 0 where
  pub same_seq : c.last_seq ≡ c.seq
  pub quiet : c.stopped ≡ true → c.timer ≡ none
  pub delay : InRange c.timer
  pub made : AllMade c.next c.seq c.sockets
  pub current : GivenOut c.next c.ws

AllMade-mono :
    (n m s t : ℕ) (sockets : List Socket)
    → n ≤ m
    → s ≤ t
    → AllMade n s sockets
    → AllMade m t sockets
AllMade-mono n m s t [] h k a = tt
AllMade-mono n m s t (x ∷ xs) h k ((p, q), a) =
    ((omega arith, omega arith), AllMade-mono n m s t xs h k a)

AllMade-filter :
    (n s : ℕ) (p : Socket → Bool) (sockets : List Socket)
    → AllMade n s sockets
    → AllMade n s (filter p sockets)
AllMade-filter n s p [] a = tt
AllMade-filter n s p (x ∷ xs) (k, a) = elim (Bool-cases (p x)) [
  | inl e ↦ rw e (k, AllMade-filter n s p xs a)
  | inr e ↦ rw e (AllMade-filter n s p xs a)
]

AllMade-close :
    (n s : ℕ) (ws : Option ℕ) (sockets : List Socket)
    → AllMade n s sockets
    → AllMade n s (close_socket ws sockets)
AllMade-close n s none sockets a = a
AllMade-close n s (some id) [] a = tt
AllMade-close n s (some id) (x ∷ xs) (k, a) = elim (Bool-cases (x.id == id)) [
  | inl e ↦ rw e (k, AllMade-close n s (some id) xs a)
  | inr e ↦ rw e (k, AllMade-close n s (some id) xs a)
]

schedule_reconnect-IsSound : (c : Conn) → IsSound c → IsSound (schedule_reconnect c)
unfolding schedule_reconnect
schedule_reconnect-IsSound c s =
    if_intro IsSound c.stopped c _ (λ _. s)
      (λ running.
        if_intro IsSound (is_some c.timer) c _ (λ _. s)
          (λ _. record {
            same_seq = s.same_seq;
            quiet = λ halted. cc;
            delay = ((backoff_lem c.retries).2, (backoff_lem c.retries).3);
            made = s.made;
            current = s.current;
          }))

-- The phase is shown to the user and read by nobody.
with_phase : (c : Conn) (phase : ConnState) → IsSound c → IsSound (record c { phase = phase })
with_phase c phase s = record {
  same_seq = s.same_seq;
  quiet = s.quiet;
  delay = s.delay;
  made = s.made;
  current = s.current;
}

receive-IsSound : (e : BusEvent) (c : Conn) → IsSound c → IsSound (receive e c)
receive-IsSound e c s =
    if_intro IsSound (ltb c.seq e.seq) _ _
      (λ newer. record {
        same_seq = refl;
        quiet = s.quiet;
        delay = s.delay;
        made = AllMade-mono c.next c.next c.seq e.seq c.sockets (omega arith) (ground arith) s.made;
        current = s.current;
      })
      (λ older. record {
        same_seq = s.same_seq;
        quiet = s.quiet;
        delay = s.delay;
        made = s.made;
        current = s.current;
      })

connect-IsSound : (made : Bool) (c : Conn) → IsSound c → IsSound (connect made c)
unfolding connect
connect-IsSound made c s =
    if_intro IsSound c.stopped c _ (λ _. s)
      (λ running.
        if_intro IsSound (not c.token) _ _ (λ _. with_phase c idle s)
          (λ _.
            if_intro IsSound made _ _
              (λ _. record {
                same_seq = s.same_seq;
                quiet = s.quiet;
                delay = s.delay;
                made = (
                  (omega arith, omega arith),
                  AllMade-mono c.next (c.next + 1) c.seq c.seq c.sockets (omega arith) (omega arith)
                      s.made,
                );
                current = omega arith;
              })
              (λ _.
                schedule_reconnect-IsSound (record c { phase = failed }) (with_phase c failed s))))

pub handle-IsSound : (signal : Signal) (c : Conn) → IsSound c → IsSound (handle signal c)
unfolding handle
handle-IsSound open_event c s = record {
  same_seq = s.same_seq;
  quiet = s.quiet;
  delay = s.delay;
  made = s.made;
  current = s.current;
}
handle-IsSound (message none) c s = s
handle-IsSound (message (some e)) c s = receive-IsSound e c s
handle-IsSound error_event c s = with_phase c failed s
handle-IsSound (close_event id) c s = schedule_reconnect-IsSound _ (record {
  same_seq = s.same_seq;
  quiet = s.quiet;
  delay = s.delay;
  made = AllMade-filter c.next c.seq (λ x. not (x.id == id)) c.sockets s.made;
  current = tt;
})
handle-IsSound (timeout made) c s =
    connect-IsSound made (record c { timer = none })
      (record {
        same_seq = s.same_seq;
        quiet = λ _. refl;
        delay = tt;
        made = s.made;
        current = s.current;
      })
handle-IsSound (storage token made) c s = connect-IsSound made _ (record {
  same_seq = s.same_seq;
  quiet = s.quiet;
  delay = s.delay;
  made = AllMade-close c.next c.seq c.ws c.sockets s.made;
  current = s.current;
})
handle-IsSound (mount made) c s =
    connect-IsSound made (record c { stopped = false })
      (record {
        same_seq = s.same_seq;
        quiet = λ (halted : false ≡ true). cc;
        delay = s.delay;
        made = s.made;
        current = s.current;
      })
handle-IsSound unmount c s = record {
  same_seq = s.same_seq;
  quiet = λ _. refl;
  delay = tt;
  made = AllMade-close c.next c.seq c.ws c.sockets s.made;
  current = tt;
}

initial-IsSound : (token : Bool) → IsSound (initial token)
initial-IsSound token = record {
  same_seq = refl;
  quiet = λ _. refl;
  delay = tt;
  made = tt;
  current = tt;
}

run-IsSound_from : (signals : List Signal) (c : Conn) → IsSound c → IsSound (run signals c)
unfolding run
run-IsSound_from [] c s = s
run-IsSound_from (x ∷ signals) c s = run-IsSound_from signals (handle x c) (handle-IsSound x c s)

-- Whatever happens, in whatever order, from the first rendering on: the sequence number shown is the
-- one that a reconnect resumes from, nothing is pending while unmounted, a pending delay lies between
-- the base and the maximum, and every socket resumes no later than the last event received.
pub run-IsSound : (signals : List Signal) (token : Bool) → IsSound (run signals (initial token))
run-IsSound signals token = run-IsSound_from signals (initial token) (initial-IsSound token)

stopped_and_running : {b : Bool} → b ≡ true → b ≡ false → ⊥
stopped_and_running h k = cc

-- The connection is unmounted: no reconnect is pending, and nothing but mounting again can make one.
abbrev pub IsQuiet : Conn → Type 0
IsQuiet c = (c.stopped ≡ true) × (c.timer ≡ none)

abbrev pub NoMount : Signal → Type 0
NoMount (mount made) = ⊥
NoMount _ = Unit

handle-IsQuiet :
    (signal : Signal) (c : Conn)
    → NoMount signal
    → IsQuiet c
    → IsQuiet (handle signal c) × ((handle signal c).next ≡ c.next)
unfolding handle
handle-IsQuiet open_event c m q = ((q.0, q.1), refl)
handle-IsQuiet (message none) c m q = (q, refl)
handle-IsQuiet (message (some e)) c m q =
    if_intro (λ d. IsQuiet d × (d.next ≡ c.next)) (ltb c.seq e.seq) _ _ (λ _. ((q.0, q.1), refl))
      (λ _. ((q.0, q.1), refl))
handle-IsQuiet error_event c m q = ((q.0, q.1), refl)
handle-IsQuiet (close_event id) c m q =
    if_intro (λ d. IsQuiet d × (d.next ≡ c.next)) c.stopped _ _ (λ _. ((q.0, q.1), refl))
      (λ running. absurd (stopped_and_running q.0 running))
handle-IsQuiet (timeout made) c m q =
    if_intro (λ d. IsQuiet d × (d.next ≡ c.next)) c.stopped _ _ (λ _. ((q.0, refl), refl))
      (λ running. absurd (stopped_and_running q.0 running))
handle-IsQuiet (storage token made) c m q =
    if_intro (λ d. IsQuiet d × (d.next ≡ c.next)) c.stopped _ _ (λ _. ((q.0, q.1), refl))
      (λ running. absurd (stopped_and_running q.0 running))
handle-IsQuiet (mount made) c m q = absurd m
handle-IsQuiet unmount c m q = ((refl, refl), refl)

-- Once unmounted, no sequence of signals without a mounting leaves a reconnect pending or makes a
-- socket.
pub run-IsQuiet :
    (signals : List Signal) (c : Conn)
    → All NoMount signals
    → IsQuiet c
    → IsQuiet (run signals c) × ((run signals c).next ≡ c.next)
unfolding run
run-IsQuiet [] c m q = (q, refl)
run-IsQuiet (x ∷ signals) c (m, ms) q =
    let (step, same) = handle-IsQuiet x c m q in
    let (rest, kept) = run-IsQuiet signals (handle x c) ms step in (rest, kept ∙ same)

receive-seq : (e : BusEvent) (c : Conn) → e.seq ≤ (receive e c).seq
receive-seq e c = ground arith

connect-seq : (made : Bool) (c : Conn) → (connect made c).seq ≡ c.seq
unfolding connect schedule_reconnect
connect-seq made c = ground arith

schedule_reconnect-seq : (c : Conn) → (schedule_reconnect c).seq ≡ c.seq
unfolding schedule_reconnect
schedule_reconnect-seq c = ground arith

handle-seq : (signal : Signal) (c : Conn) → c.seq ≤ (handle signal c).seq
unfolding handle
handle-seq (message none) c = omega arith
handle-seq (message (some e)) c = ground arith
handle-seq open_event c = omega arith
handle-seq error_event c = omega arith
handle-seq unmount c = omega arith
handle-seq (close_event id) c = ground arith
handle-seq (timeout made) c = omega (arith, connect-seq made (record c { timer = none }))
handle-seq (storage token made) c = omega (
  arith,
  connect-seq made (record c { token = token; retries = 0; sockets = close_socket c.ws c.sockets }),
)
handle-seq (mount made) c = omega (arith, connect-seq made (record c { stopped = false }))

-- The sequence number to resume from never falls, whatever the order of the frames, and a frame's
-- number is never above it once the frame was handled.
pub run-seq_mono :
    (signals : List Signal) (e : BusEvent) (c : Conn)
    → (c.seq ≤ (run signals c).seq) × (e.seq ≤ (run (message (some e) ∷ signals) c).seq)
unfolding run
run-seq_mono signals e c = (run_mono signals c, received)
  where
    run_mono : (signals : List Signal) (c : Conn) → c.seq ≤ (run signals c).seq
    run_mono [] c = omega arith
    run_mono (x ∷ signals) c = omega (arith, handle-seq x c, run_mono signals (handle x c))

    received : e.seq ≤ (run signals (handle (message (some e)) c)).seq
    received = omega (arith, receive-seq e c, run_mono signals (receive e c))
