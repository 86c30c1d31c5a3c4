-- ===== src/Store/Watcher/Answers.antt =====
-- src/store/watcher.rs, `run`: the hints that it receives and the triggers that answer them.
use ripindex.Common.{ℕ, zero, suc, ◌-◌, ◌≡◌, refl, Bool, true, false, Option, none, some}
use mathlib.Core.Path.{subst}
use ripindex.Store.Watcher.{
  RecvOutcome, hint, overflow, timeout, closed, WatchConfig, World, absorb, after, trigger,
  received, unless_stopped, rounds, run,
}

abbrev pub noted : RecvOutcome → Bool → Bool
noted hint b = true
noted overflow b = true
noted timeout b = b
noted closed b = b

-- A world that remembers whether a hint was received that no trigger has followed.
abbrev pub watched {ℓ} : {W : Type ℓ} → World W → World (W × Bool)
watched world = record {
  recv = λ ms w. let r = world.recv ms w.0 in (r.0, (r.1, noted r.0 w.1));
  now_ms = λ w. world.now_ms w.0;
  should_stop = λ w. let r = world.should_stop w.0 in (r.0, (r.1, w.1));
  on_trigger = λ w. (world.on_trigger w.0, false);
}

module _ {ℓ} {W : Type ℓ} (world : World W) (cfg : WatchConfig) where
  abbrev IsAnswered : Option (W × Bool) → Type 0
  IsAnswered none = Unit
  IsAnswered (some v) = v.1 ≡ false

  after-IsAnswered :
      (again : W × Bool → Option (W × Bool)) (o : Option (W × Bool))
      → ((w : W × Bool) → IsAnswered (again w))
      → IsAnswered (after (watched world) cfg again o)
  unfolding after
  after-IsAnswered again none h = tt
  after-IsAnswered again (some w) h = h w

  received-IsAnswered :
      (fuel : ℕ) (again : ℕ → W × Bool → Option (W × Bool))
      → ((last : ℕ) (w : W) → IsAnswered (again last (w, false)))
      → (outcome : RecvOutcome) (w : W)
      → IsAnswered (received (watched world) cfg fuel again (outcome, (w, noted outcome false)))
  unfolding received trigger
  received-IsAnswered fuel again h closed w = refl
  received-IsAnswered fuel again h timeout w =
      h (world.now_ms (world.on_trigger w)) (world.on_trigger w)
  received-IsAnswered fuel again h hint w =
      after-IsAnswered (trigger (watched world) cfg again)
        (absorb (watched world) cfg fuel (w, true))
        (λ v. h (world.now_ms (world.on_trigger v.0)) (world.on_trigger v.0))
  received-IsAnswered fuel again h overflow w =
      after-IsAnswered (trigger (watched world) cfg again)
        (absorb (watched world) cfg fuel (w, true))
        (λ v. h (world.now_ms (world.on_trigger v.0)) (world.on_trigger v.0))

  unless_stopped-IsAnswered :
      (fuel : ℕ) (again : ℕ → W × Bool → Option (W × Bool))
      → ((last : ℕ) (w : W) → IsAnswered (again last (w, false)))
      → (last : ℕ) (stop : Bool) (w : W)
      → IsAnswered (unless_stopped (watched world) cfg fuel again last (stop, (w, false)))
  unfolding unless_stopped
  unless_stopped-IsAnswered fuel again h last true w = refl
  unless_stopped-IsAnswered fuel again h last false w =
      let r = world.recv (cfg.periodic_reconcile_ms - (world.now_ms w - last)) w in
      received-IsAnswered fuel again h r.0 r.1

  rounds-IsAnswered :
      (fuel last : ℕ) (w : W) → IsAnswered (rounds (watched world) cfg fuel last (w, false))
  unfolding rounds
  rounds-IsAnswered zero last w = tt
  rounds-IsAnswered (suc fuel) last w =
      let r = world.should_stop w in
      unless_stopped-IsAnswered fuel (rounds (watched world) cfg fuel)
        (λ l v. rounds-IsAnswered fuel l v) last r.0 r.1

  -- Whatever the source, the clock and the stop flag do: when `run` returns, every hint and every
  -- overflow that it received has been followed by a trigger.
  pub run-IsAnswered :
      (fuel : ℕ) (w : W) (pending : Bool) (v : W × Bool)
      → run (watched world) cfg fuel (w, pending) ≡ some v
      → v.1 ≡ false
  unfolding run trigger
  run-IsAnswered fuel w pending v e =
      subst IsAnswered e
        (rounds-IsAnswered fuel (world.now_ms (world.on_trigger w)) (world.on_trigger w))
