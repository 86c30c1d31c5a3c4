-- ===== src/Store/Watcher/Starves.antt =====
-- src/store/watcher.rs, `run`, on hints that keep coming before the source has been quiet.
use ripindex.Common.{
  arith, ℕ, zero, suc, ◌+◌, ◌*◌, ◌%◌, ◌^◌, ◌<◌, ◌≡◌, ap, ◌∙◌, some, List, [], replicate,
}
use native.Mathlib.Nat.{suc-mul}
use ripindex.Store.Watcher.{
  RecvOutcome, hint, WatchConfig, absorbed, absorb, after, trigger, received, unless_stopped,
  rounds, run,
}
use ripindex.Store.Watcher.Scripted.{pop, fire, scripted, begin, advance}

module _ (cfg : WatchConfig) (d : ℕ) where
  abbrev pub steady : ℕ → List (ℕ × RecvOutcome)
  steady n = replicate n (d, hint)

  absorb-steady :
      (n f t c : ℕ)
      → n < f
      → t + n * d + cfg.debounce_ms < 2 ^ 64
      → absorb (scripted 2) cfg f (record { time = t; script = steady n; count = c })
        ≡ some (record { time = t + n * d + cfg.debounce_ms; script = []; count = c })
  unfolding absorb absorbed scripted pop advance
  absorb-steady n zero t c l b = absurd (omega arith)
  absorb-steady zero (suc f) t c l b =
      let e : (t + cfg.debounce_ms) % 2 ^ 64 ≡ t + 0 * d + cfg.debounce_ms = omega arith in
      ap (λ k. some (record { time = k; script = []; count = c })) e
  absorb-steady (suc n) (suc f) t c l b =
      let m = suc-mul n d in
      let e : (t + d) % 2 ^ 64 ≡ t + d = omega (arith, m) in
      let g : t + d + n * d + cfg.debounce_ms ≡ t + suc n * d + cfg.debounce_ms =
        omega (arith, m) in
      rw e (
        absorb-steady n f (t + d) c (omega arith) (omega (arith, m))
        ∙ ap (λ k. some (record { time = k; script = []; count = c })) g)

  -- While hints keep coming, however many and however long that takes, `run` triggers once at the
  -- start and then only when the source has been quiet for the debounce window: the period for
  -- reconciles does not bound the time between the two.
  pub run-steady :
      (n : ℕ)
      → suc n * d + cfg.debounce_ms < 2 ^ 64
      → run (scripted 2) cfg (suc (suc (suc n))) (begin (steady (suc n)))
        ≡ some (record { time = suc n * d + cfg.debounce_ms; script = []; count = 2 })
  unfolding run trigger begin fire scripted rounds unless_stopped received pop advance after
  run-steady n b =
      let m = suc-mul n d in
      let e : (0 + d) % 2 ^ 64 ≡ d = omega (arith, m) in
      let g : d + n * d + cfg.debounce_ms ≡ suc n * d + cfg.debounce_ms = omega (arith, m) in
      rw e (
        rw (absorb-steady n (suc (suc n)) d 1 (omega arith) (omega (arith, m)))
          (ap (λ k. some (record { time = k; script = []; count = 2 })) g))
