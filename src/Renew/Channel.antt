-- ===== src/Renew/Channel.antt =====
-- How the renewal's loop ends, and when its channel stops it.
use kube_csr.Base.{
  ◌≡◌, refl, Bool, true, false, not, List, [], ◌∷◌, Error, Result, ok, err, panic, waits, continue,
  pure, if◌then◌else◌,
}
use kube_csr.Env.{Env}
use kube_csr.Operation.{Process, Schedule, Run}
use kube_csr.Renew.{
  Renew, Event, signal, renewed, tick, process_renew, run_renew_command, after_tick, renew_loop,
}

-- The events hold one that ends the loop.
pub data Stops (exits : Bool) : List Event → Type 0 where
  by_signal : (events : List Event) → Stops exits (signal ∷ events)
  by_exit : (events : List Event) → exits ≡ true → Stops exits (renewed ∷ events)
  later : (e : Event) {events : List Event} → Stops exits events → Stops exits (e ∷ events)

module _ (E : Env) where
  -- Where a second renewal succeeds while the first is still in the channel, the loop waits for
  -- ever, whatever comes after: no signal ends it, since its send to the full channel does not end.
  pub renew_loop-waits :
      (r : Renew E) (a b : Schedule) (events : List Event) (p : Process E)
      → let (first, p') = process_renew E r a p in
        let (second, p'') = process_renew E r b p' in
        first ≡ ok true
        → second ≡ ok true
        → renew_loop E r (tick a ∷ tick b ∷ events) false p ≡ (waits, p'')
  unfolding renew_loop after_tick
  renew_loop-waits r a b events p first second = rw (first, second) refl

  -- An error that is returned is one of the renew command.
  pub IsCommand : Renew E → Error E.Failure → Type 0
  IsCommand r e = (p : Process E) × ((run_renew_command E r p).0 ≡ err e)

  -- What a run of the loop may return.
  Explained : Renew E → List Event → Result E.Failure (Unit {0}) → Type 0
  Explained r events (ok _) = Stops r.conf.exit_on_renew events
  Explained r events (err e) = IsCommand r e
  Explained r events panic = Unit {0}
  Explained r events waits = Unit {0}

  Explained-later :
      (r : Renew E) (e : Event) (events : List Event) (result : Result E.Failure (Unit {0}))
      → Explained r events result
      → Explained r (e ∷ events) result
  unfolding Explained
  Explained-later r e events (ok _) h = later e h
  Explained-later r e events (err f) h = h
  Explained-later r e events panic h = tt
  Explained-later r e events waits h = tt

  after_tick-Explained :
      (r : Renew E) (events : List Event) (result : Result E.Failure Bool) (pending : Bool)
      (more : Bool → Run E (Unit {0})) (p : Process E)
      → ((b : Bool) (q : Process E) → Explained r events (more b q).0)
      → Explained r events (after_tick E result pending more p).0
  unfolding after_tick Explained
  after_tick-Explained r events (ok false) pending more p h = h pending p
  after_tick-Explained r events (ok true) true more p h = tt
  after_tick-Explained r events (ok true) false more p h = h true p
  after_tick-Explained r events (err e) pending more p h = h pending _
  after_tick-Explained r events panic pending more p h = tt
  after_tick-Explained r events waits pending more p h = tt

  after_renewed-Explained :
      (r : Renew E) (events : List Event) (exits : Bool) (more : Run E (Unit {0})) (q : Process E)
      → r.conf.exit_on_renew ≡ exits
      → Explained r events (more q).0
      → Explained r (renewed ∷ events) ((if not exits then more else pure tt) q).0
  unfolding Explained
  after_renewed-Explained r events true more q e h = by_exit events e
  after_renewed-Explained r events false more q e h = Explained-later r renewed events _ h

  after_command-Explained :
      (r : Renew E) (events : List Event) (p : Process E) (result : Result E.Failure (Unit {0}))
      (more : Run E (Unit {0})) (q : Process E)
      → (run_renew_command E r p).0 ≡ result
      → Explained r events (more q).0
      → Explained r
          (renewed ∷ events)
          (continue result (λ _. if not r.conf.exit_on_renew then more else pure tt) q).0
  unfolding Explained IsCommand
  after_command-Explained r events p (ok _) more q e h =
      after_renewed-Explained r events r.conf.exit_on_renew more q refl h
  after_command-Explained r events p (err f) more q e h = (p, e)
  after_command-Explained r events p panic more q e h = tt
  after_command-Explained r events p waits more q e h = tt

  renew_loop-Explained :
      (r : Renew E) (events : List Event) (pending : Bool) (p : Process E)
      → Explained r events (renew_loop E r events pending p).0
  unfolding renew_loop Explained
  renew_loop-Explained r [] pending p = tt
  renew_loop-Explained r (signal ∷ events) pending p = by_signal events
  renew_loop-Explained r (renewed ∷ events) false p =
      Explained-later r renewed events _ (renew_loop-Explained r events false p)
  renew_loop-Explained r (renewed ∷ events) true p =
      after_command-Explained r events p _ (renew_loop E r events false) _ refl
        (renew_loop-Explained r events false _)
  renew_loop-Explained r (tick schedule ∷ events) pending p =
      let (result, p') = process_renew E r schedule p in
      Explained-later r (tick schedule) events _ (
        after_tick-Explained r events result pending (renew_loop E r events) p'
          (renew_loop-Explained r events))

  Explained-ok :
      (r : Renew E) (events : List Event) (result : Result E.Failure (Unit {0}))
      → Explained r events result
      → (result ≡ ok tt → Stops r.conf.exit_on_renew events)
        × ((e : Error E.Failure) → result ≡ err e → IsCommand r e)
  unfolding Explained
  Explained-ok r events (ok _) h = (λ _. h, λ e p. cc)
  Explained-ok r events (err f) h = (λ p. cc, λ e p. let same : f ≡ e = cc in rw (← same) h)
  Explained-ok r events panic h = (λ p. cc, λ e p. cc)
  Explained-ok r events waits h = (λ p. cc, λ e p. cc)

  -- Where the loop returns without an error, a signal has come, or a renewal while the process is to
  -- exit on one.
  pub renew_loop-Stops :
      (r : Renew E) (events : List Event) (pending : Bool) (p : Process E)
      → (renew_loop E r events pending p).0 ≡ ok tt
      → Stops r.conf.exit_on_renew events
  renew_loop-Stops r events pending p =
      (Explained-ok r events _ (renew_loop-Explained r events pending p)).0

  -- An error that the loop returns is one that the renew command gives; a renewal that fails does not
  -- end the loop.
  pub renew_loop-IsCommand :
      (r : Renew E) (events : List Event) (pending : Bool) (p : Process E) (e : Error E.Failure)
      → (renew_loop E r events pending p).0 ≡ err e
      → IsCommand r e
  renew_loop-IsCommand r events pending p e =
      (Explained-ok r events _ (renew_loop-Explained r events pending p)).1 e
