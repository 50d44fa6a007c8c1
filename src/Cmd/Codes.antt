-- ===== src/Cmd/Codes.antt =====
-- What the exit codes of the commands say.
use kube_csr.Base.{
  if_holds, ℕ, String, ◌≡◌, refl, ◌∙◌, not, List, arith, Result, ok, err, panic, waits, pure,
}
use kube_csr.Env.{Env, World, Eff}
use kube_csr.Settings.{Settings}
use kube_csr.Purge
use kube_csr.Purge.{Purge, new_purge}
use kube_csr.Operation.{Operation, Schedule}
use kube_csr.Renew
use kube_csr.Cmd.{new_garbage_collector, new_renew}
use kube_csr.Cmd.Builds.{new_garbage_collector-Stays, new_renew-Stays}
use kube_csr.Cmd.Rules.{Passes, new_operation-rule}
use kube_csr.Cmd.Commands.{
  settle, or_exit, collects_nothing, collecting, collect_garbage, asks_nothing, new_operation,
  execute, issue,
}

module _ (E : Env) where
  -- The exit code 1 comes with an unchanged kube-apiserver.
  IsSpotless : Eff E ℕ → World E → Type 0
  IsSpotless m w = (m w).0 ≡ ok 1 → (m w).1.cluster ≡ w.cluster

  settle-IsSpotless :
      {A : Type 0} (code : ℕ) (result : Result E.Failure A) (more : A → Eff E ℕ) (w v : World E)
      → v.cluster ≡ w.cluster
      → ((a : A) → result ≡ ok a → IsSpotless (more a) v)
      → (settle E code result more v).0 ≡ ok 1
      → (settle E code result more v).1.cluster ≡ w.cluster
  unfolding settle IsSpotless
  settle-IsSpotless code (ok a) more w v same h one = h a refl one ∙ same
  settle-IsSpotless code (err e) more w v same h one = same
  settle-IsSpotless code panic more w v same h one = cc
  settle-IsSpotless code waits more w v same h one = cc

  IsSpotless-Passes : Passes E IsSpotless
  unfolding IsSpotless
  IsSpotless-Passes A m more stays h w =
      settle-IsSpotless 1 (m w).0 more w (m w).1 (stays w) (λ a e. h a (w, e) (m w).1)

  settle-last :
      {A : Type 0} (result : Result E.Failure A) (w v : World E)
      → (settle E 2 result (λ _. pure 0) v).0 ≡ ok 1
      → (settle E 2 result (λ _. pure 0) v).1.cluster ≡ w.cluster
  unfolding settle
  settle-last (ok a) w v = ground arith
  settle-last (err e) w v = ground arith
  settle-last panic w v = ground arith
  settle-last waits w v = ground arith

  -- The last part, which ends with another code.
  last-IsSpotless :
      {A : Type 0} (m : Eff E A) (w : World E) → IsSpotless (or_exit E 2 m (λ _. pure 0)) w
  unfolding IsSpotless
  last-IsSpotless m w = settle-last (m w).0 w (m w).1

  none-IsSpotless : (w : World E) → IsSpotless (pure 1) w
  unfolding IsSpotless
  none-IsSpotless w one = refl

  module _ (s : Settings) where
    execute-IsSpotless :
        (schedule : Schedule) (events : List Renew.Event) (o : Operation E) (w : World E)
        → IsSpotless (execute E s schedule events o) w
    unfolding execute
    execute-IsSpotless schedule events o w =
        if_holds (λ m. IsSpotless m w) (not (s.get_bool "renew")) _ _ (last-IsSpotless _ w)
          (IsSpotless-Passes _ (new_renew E s o) _ (new_renew-Stays E s o)
            (λ r _ v. last-IsSpotless _ v) w)

    -- Where the command that issues certificates ends with the exit code 1, whatever its settings are,
    -- the kube-apiserver is in the state in which it was.
    pub issue-IsSpotless :
        (common_name : String) (schedule : Schedule) (events : List Renew.Event) (w : World E)
        → (issue E s common_name schedule events w).0 ≡ ok 1
        → (issue E s common_name schedule events w).1.cluster ≡ w.cluster
    unfolding issue IsSpotless
    issue-IsSpotless common_name schedule events w =
        if_holds (λ m. IsSpotless m w) (asks_nothing E s) (pure 1)
          (new_operation E s common_name (execute E s schedule events)) (none-IsSpotless w)
          (new_operation-rule E IsSpotless IsSpotless-Passes s common_name
            (execute E s schedule events) (λ o _ v. execute-IsSpotless schedule events o v) w)

    abbrev finish : List Purge.Event → Purge E → Eff E ℕ
    finish events gc = or_exit E 2 (collecting E s events gc) (λ _. pure 0)

    -- Where the command that collects garbage ends with the exit code 1, whatever its settings are, the
    -- kube-apiserver is in the state in which it was.
    pub collect_garbage-IsSpotless :
        (events : List Purge.Event) (w : World E)
        → (collect_garbage E s events w).0 ≡ ok 1
        → (collect_garbage E s events w).1.cluster ≡ w.cluster
    unfolding collect_garbage IsSpotless
    collect_garbage-IsSpotless events w =
        if_holds (λ m. IsSpotless m w) (collects_nothing E s) (pure 1)
          (or_exit E 1 (new_garbage_collector E s) (finish events)) (none-IsSpotless w)
          (IsSpotless-Passes _ (new_garbage_collector E s) (finish events)
            (new_garbage_collector-Stays E s)
            (λ gc _ v. last-IsSpotless (collecting E s events gc) v) w)
