-- ===== src/Store/Watcher/Ends.antt =====
-- src/store/watcher.rs, `run` over a script: it returns, and answers the script's hints.
use ripindex.Common.{
  arith, ℕ, zero, suc, ◌+◌, ◌-◌, ◌≤◌, ◌<◌, ◌≡◌, refl, ap, Bool, true, false, Option, some, List, [],
  ◌∷◌, length, leb, Bool-cases, inl, inr,
}
use ripindex.Store.Watcher.{
  RecvOutcome, hint, overflow, timeout, closed, WatchConfig, World, absorbed, absorb, after,
  trigger, received, unless_stopped, rounds, run,
}
use ripindex.Store.Watcher.Scripted.{Script, pop, fire, scripted, begin, advance}
use ripindex.Store.Watcher.Answers.{watched, noted, run-IsAnswered}

module _ (cfg : WatchConfig) (stop_after : ℕ) where
  abbrev pub the_world : World (Script × Bool)
  the_world = watched (scripted stop_after)

  abbrev Absorbs : Script → Option (Script × Bool) → Type 0
  Absorbs w o =
      (v : Script × Bool) × (o ≡ some v)
      × (length v.0.script ≤ length w.script)
      × (v.0.count ≡ w.count)

  absorbed-Absorbs :
      (f : ℕ) (w : Script) (b : Bool)
      → length w.script ≤ f
      → ((u : Script) (c : Bool) → length u.script < f → Absorbs u (absorb the_world cfg f (u, c)))
      → (s : List (ℕ × RecvOutcome)) → w.script ≡ s
      → Absorbs w (
          let r = pop cfg.debounce_ms s w in
          absorbed the_world cfg (absorb the_world cfg f) (r.0, (r.1, noted r.0 b)))
  unfolding absorbed pop advance
  absorbed-Absorbs f w b l again [] e = ((advance cfg.debounce_ms w, b), refl, omega arith, refl)
  absorbed-Absorbs f w b l again ((ms, hint) ∷ s) e =
      let u = advance ms (record w { script = s }) in
      let k : length w.script ≡ suc (length s) = ap length e in
      let a = again u true (omega arith) in (a.0, a.1, omega (arith, a.2), a.3)
  absorbed-Absorbs f w b l again ((ms, overflow) ∷ s) e =
      let u = advance ms (record w { script = s }) in
      let k : length w.script ≡ suc (length s) = ap length e in
      let a = again u true (omega arith) in (a.0, a.1, omega (arith, a.2), a.3)
  absorbed-Absorbs f w b l again ((ms, timeout) ∷ s) e =
      let k : length w.script ≡ suc (length s) = ap length e in
      ((advance ms (record w { script = s }), b), refl, omega arith, refl)
  absorbed-Absorbs f w b l again ((ms, closed) ∷ s) e =
      let k : length w.script ≡ suc (length s) = ap length e in
      ((advance ms (record w { script = s }), b), refl, omega arith, refl)

  absorb-Absorbs :
      (f : ℕ) (w : Script) (b : Bool)
      → length w.script < f
      → Absorbs w (absorb the_world cfg f (w, b))
  unfolding absorb scripted
  absorb-Absorbs zero w b l = absurd (omega arith)
  absorb-Absorbs (suc f) w b l =
      absorbed-Absorbs f w b (omega arith) (λ u c k. absorb-Absorbs f u c k) w.script refl

  abbrev Returns : Option (Script × Bool) → Type 0
  Returns o = (v : Script × Bool) × (o ≡ some v)

  received-Returns :
      (f : ℕ) (w : Script) (ms : ℕ)
      → length w.script + (stop_after - w.count) ≤ f
      → w.count < stop_after
      → ((last : ℕ) (u : Script)
          → length u.script + (stop_after - u.count) < f
          → Returns (rounds the_world cfg f last (u, false)))
      → (s : List (ℕ × RecvOutcome)) → w.script ≡ s
      → Returns (
          let r = pop ms s w in
          received the_world cfg f (rounds the_world cfg f) (r.0, (r.1, noted r.0 false)))
  unfolding received pop advance trigger scripted fire after
  received-Returns f w ms l c again [] e =
      let u = fire (advance ms w) in again u.time u (omega arith)
  received-Returns f w ms l c again ((d, timeout) ∷ s) e =
      let k : length w.script ≡ suc (length s) = ap length e in
      let u = fire (advance d (record w { script = s })) in again u.time u (omega arith)
  received-Returns f w ms l c again ((d, closed) ∷ s) e =
      ((advance d (record w { script = s }), false), refl)
  received-Returns f w ms l c again ((d, hint) ∷ s) e =
      let k : length w.script ≡ suc (length s) = ap length e in
      let a = absorb-Absorbs f (advance d (record w { script = s })) true (omega arith) in
      let u = fire (a.0.0) in rw (a.1) (again u.time u (omega (arith, a.2, a.3)))
  received-Returns f w ms l c again ((d, overflow) ∷ s) e =
      let k : length w.script ≡ suc (length s) = ap length e in
      let a = absorb-Absorbs f (advance d (record w { script = s })) true (omega arith) in
      let u = fire (a.0.0) in rw (a.1) (again u.time u (omega (arith, a.2, a.3)))

  rounds-Returns :
      (f last : ℕ) (w : Script)
      → length w.script + (stop_after - w.count) < f
      → Returns (rounds the_world cfg f last (w, false))
  unfolding rounds unless_stopped scripted
  rounds-Returns zero last w l = absurd (omega arith)
  rounds-Returns (suc f) last w l = elim (Bool-cases (leb stop_after w.count)) [
    | inl e ↦ rw e ((w, false), refl)
    | inr e ↦ rw e (
        received-Returns f w (cfg.periodic_reconcile_ms - (w.time - last)) (omega arith) (below e)
          (λ l u k. rounds-Returns f l u k) w.script refl)
  ]
    where
      below : leb stop_after w.count ≡ false → w.count < stop_after
      below e = ground arith

  -- Over any script of what the source reports, after which it stays silent, and with any number of
  -- triggers to stop at, `run` returns, on fuel of the two numbers together and one more, and every
  -- hint that it received has been followed by a trigger.
  pub run-Returns :
      (script : List (ℕ × RecvOutcome))
      → (v : Script × Bool) × (run the_world cfg
            (length script + stop_after + 1)
            (begin script, false)
          ≡ some v)
        × (v.1 ≡ false)
  unfolding run trigger begin fire scripted
  run-Returns script =
      let w = fire (begin script) in
      let r = rounds-Returns (length script + stop_after + 1) w.time w (omega arith) in
      (
        r.0,
        r.1,
        run-IsAnswered (scripted stop_after) cfg (length script + stop_after + 1) (begin script)
            false r.0 r.1,
      )
