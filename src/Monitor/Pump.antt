-- ===== src/Monitor/Pump.antt =====
-- web/src/pages/System.tsx: the polling of the host, its rates and its history, and the rates that
-- web/src/pages/Dashboard.tsx computes from the same answers.
pub mod History
use cloudflared_manager.Base.{
  ℕ, zero, suc, ◌+◌, ◌-◌, Bool, true, false, Option, none, some, List, [], ◌∷◌, if◌then◌else◌, ltb,
  leb, or_default,
}
use cloudflared_manager.Api.Types.{Number, Fields}
use cloudflared_manager.Api.Reply.{Rejection, Reply, done, failed}
use cloudflared_manager.Monitor.Window.{pushed}

-- The counters of an interface, where the answer has them.
pub record Interface : Type 0 where
  pub bytes_recv : Option ℕ
  pub bytes_sent : Option ℕ

-- What the polling reads of the answer; the page shows the rest.
pub record SystemInfo : Type 0 where
  pub cpu_usage : Option Number
  pub memory_used : Option Number
  pub network : Option (List Interface)
  pub shown : Fields

-- The counters at a time, in milliseconds.
pub record NetSample : Type 0 where
  pub ts : ℕ
  pub rx : ℕ
  pub tx : ℕ

pub record HistoryPoint : Type 0 where
  pub t : ℕ
  pub cpu : Number
  pub mem : Number
  pub rx : Number
  pub tx : Number

pub record SystemPage : Type 0 where
  pub loading : Bool
  pub info : Option SystemInfo
  pub history : List HistoryPoint
  pub prev_net : Option NetSample
  pub stopped : Bool

-- An answer, with the time at which it came.
pub data SystemSignal : Type 0 where
  answered : ℕ → Reply SystemInfo → SystemSignal
  unmounted : SystemSignal

-- `reduce` over the interfaces.
abbrev pub sum_of : (Interface → Option ℕ) → List Interface → ℕ
sum_of count [] = 0
sum_of count (n ∷ network) = or_default (count n) 0 + sum_of count network

abbrev pub sample_of : ℕ → SystemInfo → NetSample
sample_of now data_ = record {
  ts = now;
  rx = sum_of (λ n. n.bytes_recv) (or_default data_.network []);
  tx = sum_of (λ n. n.bytes_sent) (or_default data_.network []);
}

abbrev pub keep_history : ℕ
keep_history = 60

-- The quotient of a count of bytes by a number of milliseconds as a rate per second.
module _ (per_second : ℕ → ℕ → Number) where
  -- `Math.max(0, (sum - prev) / dt)` where `dt` is positive
  abbrev pub rate : ℕ → ℕ → ℕ → Number
  rate before now dt = if leb before now then per_second (now - before) dt else 0

  -- The rates since the last sample; there are none where the clock did not go on.
  abbrev pub rates : Option NetSample → NetSample → Option (Number × Number)
  rates none now = none
  rates (some prev) now =
      if ltb prev.ts now.ts
      then some (rate prev.rx now.rx (now.ts - prev.ts), rate prev.tx now.tx (now.ts - prev.ts))
      else none

  abbrev pub point_of : Option NetSample → ℕ → SystemInfo → HistoryPoint
  point_of prev now data_ =
      let r = or_default (rates prev (sample_of now data_)) (0, 0) in
      record {
        t = now;
        cpu = or_default data_.cpu_usage 0;
        mem = or_default data_.memory_used 0;
        rx = r.0;
        tx = r.1;
      }

  abbrev pub on_info : ℕ → SystemInfo → SystemPage → SystemPage
  on_info now data_ p = record p {
    info = some data_;
    prev_net = some (sample_of now data_);
    history = pushed keep_history (point_of p.prev_net now data_) p.history;
    loading = false;
  }

  -- A round of `pump` behind its request: nothing is set once the page has stopped.
  abbrev pub on_answer : ℕ → Reply SystemInfo → SystemPage → SystemPage
  on_answer now (failed e) p = record p { loading = false }
  on_answer now (done data_) p = on_info now data_ p

  unfoldable pub system_step : SystemSignal → SystemPage → SystemPage
  system_step unmounted p = record p { stopped = true }
  system_step (answered now r) p = if p.stopped then p else on_answer now r p

  unfoldable pub system_steps : List SystemSignal → SystemPage → SystemPage
  unfolding system_step
  system_steps [] p = p
  system_steps (s ∷ signals) p = system_steps signals (system_step s p)

abbrev pub blank_page : SystemPage
blank_page = record { loading = true; info = none; history = []; prev_net = none; stopped = false }
