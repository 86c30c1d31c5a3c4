-- ===== src/Store/Watcher.antt =====
-- src/store/watcher.rs: the schedule of `run`, over a source of hints, a clock, a stop flag and a
-- reconcile that a world stands for; and `test_support`, the world of a script.
pub mod Scripted
pub mod Answers
pub mod Ends
pub mod Starves
use ripindex.Common.{ℕ, zero, suc, ◌+◌, ◌-◌, ◌*◌, Bool, true, false, Option, none, some}

pub data RecvOutcome : Type 0 where
  hint overflow timeout closed : RecvOutcome

pub record WatchConfig : Type 0 where
  pub debounce_ms : ℕ
  pub periodic_reconcile_ms : ℕ

abbrev pub default_config : WatchConfig
default_config = record { debounce_ms = 500; periodic_reconcile_ms = 10 * 60 * 1000 }

-- `EventSource::recv`, `Clock::now_ms` and the two closures of `run`, on a shared state.
pub record World {ℓ} (W : Type ℓ) : Type ℓ where
  pub recv : ℕ → W → RecvOutcome × W
  pub now_ms : W → ℕ
  pub should_stop : W → Bool × W
  pub on_trigger : W → W

module _ {ℓ} {W : Type ℓ} (world : World W) (cfg : WatchConfig) where
  -- The inner loop: `again` goes on with less fuel.
  unfoldable pub absorbed : (W → Option W) → RecvOutcome × W → Option W
  absorbed again (hint, w) = again w
  absorbed again (overflow, w) = again w
  absorbed again (timeout, w) = some w
  absorbed again (closed, w) = some w

  unfoldable pub absorb : ℕ → W → Option W
  unfolding absorbed
  absorb zero w = none
  absorb (suc fuel) w = absorbed (absorb fuel) (world.recv cfg.debounce_ms w)

  unfoldable pub after : (W → Option W) → Option W → Option W
  after again none = none
  after again (some w) = again w

  -- `on_trigger(); last_trigger = clock.now_ms()`
  unfoldable pub trigger : (ℕ → W → Option W) → W → Option W
  trigger again w = let w1 = world.on_trigger w in again (world.now_ms w1) w1

  unfoldable pub received : ℕ → (ℕ → W → Option W) → RecvOutcome × W → Option W
  unfolding absorb after trigger
  received fuel again (closed, w) = some w
  received fuel again (timeout, w) = trigger again w
  received fuel again (hint, w) = after (trigger again) (absorb fuel w)
  received fuel again (overflow, w) = after (trigger again) (absorb fuel w)

  unfoldable pub unless_stopped : ℕ → (ℕ → W → Option W) → ℕ → Bool × W → Option W
  unfolding received
  unless_stopped fuel again last_trigger (true, w) = some w
  unless_stopped fuel again last_trigger (false, w) =
      let elapsed = world.now_ms w - last_trigger in
      received fuel again (world.recv (cfg.periodic_reconcile_ms - elapsed) w)

  -- The outer loop: `none` is out of fuel.
  unfoldable pub rounds : ℕ → ℕ → W → Option W
  unfolding unless_stopped
  rounds zero last_trigger w = none
  rounds (suc fuel) last_trigger w =
      unless_stopped fuel (rounds fuel) last_trigger (world.should_stop w)

  unfoldable pub run : ℕ → W → Option W
  unfolding trigger rounds
  run fuel w = trigger (rounds fuel) w
