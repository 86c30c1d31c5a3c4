-- ===== src/Store/Watcher/Scripted.antt =====
-- src/store/watcher.rs, `test_support`: a clock that the source advances, and a script of what the
-- source reports. The closures are those of the program's tests: a count of the triggers, and a stop
-- at a given count.
use ripindex.Common.{ℕ, ◌+◌, ◌%◌, ◌^◌, List, [], ◌∷◌, leb}
use ripindex.Store.Watcher.{RecvOutcome, timeout, World}

pub record Script : Type 0 where
  pub time : ℕ
  pub script : List (ℕ × RecvOutcome)
  pub count : ℕ

unfoldable pub advance : ℕ → Script → Script
advance ms w = record w { time = (w.time + ms) % 2 ^ 64 }

unfoldable pub pop : ℕ → List (ℕ × RecvOutcome) → Script → RecvOutcome × Script
unfolding advance
pop timeout_ms [] w = (timeout, advance timeout_ms w)
pop timeout_ms ((ms, outcome) ∷ rest) w = (outcome, advance ms (record w { script = rest }))

unfoldable pub fire : Script → Script
fire w = record w { count = w.count + 1 }

unfoldable pub scripted : ℕ → World Script
unfolding pop fire
scripted stop_after = record {
  recv = λ ms w. pop ms w.script w;
  now_ms = λ w. w.time;
  should_stop = λ w. (leb stop_after w.count, w);
  on_trigger = fire;
}

unfoldable pub begin : List (ℕ × RecvOutcome) → Script
begin script = record { time = 0; script = script; count = 0 }
