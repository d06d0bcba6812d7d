-- ===== src/Logs/Tests.antt =====
-- The theorems on the log panel of web/src/components/instance/InstanceLogPanel.tsx at concrete inputs.
use cloudflared_manager.Base.{
  ℕ, ◌≡◌, refl, true, false, some, List, [], ◌∷◌, ◌++◌, ltb, filter, Str, codes, ascii_casing, trim,
  includes, arith, starts_with,
}
use cloudflared_manager.Logs.{LogEntry, level_class, download}
use cloudflared_manager.Logs.Highlight.{plain, hit, highlight}
use cloudflared_manager.Logs.Stream.{
  opened, Socket, Panel, initial, mount, open_event, message, scrolled, receive, run,
}
use cloudflared_manager.Logs.Stream.Buffer.{IsSound, last_lines, run-IsSound-initial, receive_lem}

abbrev log_line : ℕ → Str → LogEntry
log_line seq text = record {
  seq = seq;
  time = codes "10:00";
  level = codes "info";
  message = text;
  raw = [];
  source = codes "daemon";
}

abbrev sample : Str
sample = codes "Error: no error"

highlight_test :
    highlight ascii_casing sample (codes "ERROR")
    ≡ hit (codes "Error") ∷ plain (codes ": no ") ∷ hit (codes "error") ∷ []
unfolding highlight starts_with
highlight_test = refl

download_test :
    download ascii_casing
      (codes " Lost ")
      (log_line 1 (codes "up") ∷ log_line 2 (codes "lost it") ∷ [])
    ≡ codes "10:00 info lost it"
unfolding download trim includes
download_test = refl

class_test : level_class (codes "warn") ≡ codes "lv-warn"
class_test = refl

first_lines : List LogEntry
first_lines = log_line 1 (codes "a") ∷ log_line 2 (codes "b") ∷ []

run-IsSound-initial_example : IsSound (
    run
      (mount true
        ∷ open_event
        ∷ message (log_line 1 (codes "a") ∷ log_line 1 (codes "a") ∷ [])
        ∷ scrolled false
        ∷ message (log_line 3 (codes "c") ∷ [])
        ∷ [])
      initial)
run-IsSound-initial_example = run-IsSound-initial (
    mount true
    ∷ open_event
    ∷ message (log_line 1 (codes "a") ∷ log_line 1 (codes "a") ∷ [])
    ∷ scrolled false
    ∷ message (log_line 3 (codes "c") ∷ [])
    ∷ [])

abbrev started : Panel
started = record initial {
  entries = log_line 1 (codes "a") ∷ [];
  last_seq = 1;
  mounted = true;
  phase = opened;
  ws = some 0;
  effect = 1;
  next = 1;
}

started-IsSound : IsSound started
started-IsSound = record {
  ascending = (tt, tt);
  seen = (omega arith, tt);
  capped = omega arith;
  counted = λ h. refl;
}

receive_lem_example :
    (receive (log_line 1 (codes "a") ∷ log_line 2 (codes "b") ∷ []) started).entries
    ≡ last_lines (
        started.entries
        ++ filter
            (λ (e : LogEntry). ltb started.last_seq e.seq)
            (log_line 1 (codes "a") ∷ log_line 2 (codes "b") ∷ []))
receive_lem_example =
    receive_lem (log_line 1 (codes "a") ∷ log_line 2 (codes "b") ∷ []) started started-IsSound
      (omega arith) refl

abbrev own_socket : Socket
own_socket = record { id = 0; effect = 1; closing = false }
