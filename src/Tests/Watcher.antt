-- ===== src/Tests/Watcher.antt =====
-- src/store/watcher.rs, on short scripts.
use ripindex.Common.{◌≡◌, refl, arith, Bool, true, false, some, List, [], ◌∷◌, ℕ}
use ripindex.Store.Watcher.{
  RecvOutcome, hint, timeout, default_config, absorbed, absorb, after, trigger, received,
  unless_stopped, rounds, run,
}
use ripindex.Store.Watcher.Scripted.{Script, pop, fire, scripted, begin, advance}
use ripindex.Store.Watcher.Answers.{watched, run-IsAnswered}
use ripindex.Store.Watcher.Ends.{run-Returns}
use ripindex.Store.Watcher.Starves.{run-steady}

abbrev burst : List (ℕ × RecvOutcome)
burst = (0, hint) ∷ (10, hint) ∷ (500, timeout) ∷ []

abbrev after_burst : Script × Bool
after_burst = (record { time = 510; script = []; count = 2 }, false)

run-IsAnswered_example : after_burst.1 ≡ false
unfolding run rounds unless_stopped received absorb absorbed after trigger pop fire scripted begin
    advance
run-IsAnswered_example =
    run-IsAnswered (scripted 2) default_config 6 (begin burst) true after_burst refl

run-Returns_example :
    (v : Script × Bool) × (run (watched (scripted 2)) default_config 6 (begin burst, false)
      ≡ some v)
    × (v.1 ≡ false)
run-Returns_example = run-Returns default_config 2 burst

run-steady_example :
    run (scripted 2) default_config 4 (begin ((400, hint) ∷ (400, hint) ∷ []))
    ≡ some (record { time = 1300; script = []; count = 2 })
run-steady_example = run-steady default_config 400 1 (omega arith)
