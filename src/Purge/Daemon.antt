-- ===== src/Purge/Daemon.antt =====
-- How the garbage collector's loop ends.
use kube_csr.Base.{◌≡◌, ◌≢◌, List, [], ◌∷◌, Error, Result, ok, err, panic, waits, ◌>>◌}
use kube_csr.Env.{Env, World, Eff}
use kube_csr.Purge.{Config, Event, signal, tick, garbage_collect, count_error, garbage_collect_loop}

-- The events hold a signal, behind ticks.
pub data Signalled : List Event → Type 0 where
  now : (events : List Event) → Signalled (signal ∷ events)
  later : {events : List Event} → Signalled events → Signalled (tick ∷ events)

module _ (E : Env) where
  -- Without errors, and without success but by a signal.
  Endless : List Event → Result E.Failure (Unit {0}) → Type 0
  Endless events result =
      (result ≡ ok tt → Signalled events) × ((e : Error E.Failure) → result ≢ err e)

  count_error-Endless :
      (result : Result E.Failure (Unit {0})) (events : List Event) (more : Eff E (Unit {0}))
      (w : World E)
      → ((v : World E) → Endless events (more v).0)
      → Endless (tick ∷ events) ((count_error E result >> more) w).0
  unfolding Endless count_error
  count_error-Endless (ok _) events more w h = (λ p. later ((h w).0 p), (h w).1)
  count_error-Endless (err e) events more w h = (λ p. later ((h _).0 p), (h _).1)
  count_error-Endless panic events more w h = (λ p. cc, λ e p. cc)
  count_error-Endless waits events more w h = (λ p. cc, λ e p. cc)

  garbage_collect_loop-Endless :
      (conf : Config E) (events : List Event) (w : World E)
      → Endless events (garbage_collect_loop E conf events w).0
  unfolding garbage_collect_loop Endless
  garbage_collect_loop-Endless conf [] w = (λ p. cc, λ e p. cc)
  garbage_collect_loop-Endless conf (signal ∷ events) w = (λ p. now events, λ e p. cc)
  garbage_collect_loop-Endless conf (tick ∷ events) w =
      let (result, w') = garbage_collect E conf w in
      count_error-Endless result events (garbage_collect_loop E conf events) w'
        (garbage_collect_loop-Endless conf events)

  -- The loop never returns an error, whatever its collections meet.
  pub garbage_collect_loop-goes_on :
      (conf : Config E) (events : List Event) (w : World E) (e : Error E.Failure)
      → (garbage_collect_loop E conf events w).0 ≢ err e
  unfolding Endless
  garbage_collect_loop-goes_on conf events w e = (garbage_collect_loop-Endless conf events w).1 e

  -- Where the loop returns, a signal has come.
  pub garbage_collect_loop-Signalled :
      (conf : Config E) (events : List Event) (w : World E)
      → (garbage_collect_loop E conf events w).0 ≡ ok tt
      → Signalled events
  unfolding Endless
  garbage_collect_loop-Signalled conf events w = (garbage_collect_loop-Endless conf events w).0
