-- ===== src/Cmd/Lives.antt =====
-- What the two commands do to the requests.
use kube_csr.Base.{
  if_holds, ℕ, String, ◌≡◌, refl, ap, some, List, arith, Result, ok, err, panic, waits, Bool-cases,
  inl, inr, bind-ok, pure,
}
use kube_csr.Base.Int.{eqb_ℤ, pos}
use kube_csr.Env.{Env, World, Eff}
use kube_csr.Env.Laws.{ClusterLaws}
use kube_csr.Kubeclient.{new_kube_client}
use kube_csr.Settings.{Settings}
use kube_csr.Purge
use kube_csr.Purge.{Purge, new_purge, garbage_collect, garbage_collect_daemon}
use kube_csr.Cmd.{collector_config, new_garbage_collector}
use kube_csr.Cmd.Builds.{new_garbage_collector-Stays}
use kube_csr.Cmd.Rules.{Passes}
use kube_csr.Cmd.Commands.{settle, or_exit, collects_nothing, collecting, collect_garbage}
use kube_csr.Lifecycle.{Action, Reach, here, Reach-trans, Reach-of_eq}
use kube_csr.Lifecycle.Parts.{Moves}
use kube_csr.Lifecycle.Loops.{garbage_collect-Moves}
use kube_csr.Lifecycle.Collections.{Deleting, collector_config-Leaves, garbage_collect_daemon-Moves}

module _ (E : Env) (K : ClusterLaws E) (May : Action → String → Type 0) where
  open K use {stored}

  settle-Moves :
      {A : Type 0} (code : ℕ) (result : Result E.Failure A) (more : A → Eff E ℕ) (w v : World E)
      → Reach May (stored w.cluster) (stored v.cluster)
      → ((a : A) → result ≡ ok a → Moves E K May (more a) v)
      → Reach May (stored w.cluster) (stored (settle E code result more v).1.cluster)
  unfolding settle
  settle-Moves code (ok a) more w v first h = Reach-trans first (h a refl)
  settle-Moves code (err e) more w v first h = first
  settle-Moves code panic more w v first h = first
  settle-Moves code waits more w v first h = first

  pub Moves-Passes : Passes E (Moves E K May)
  Moves-Passes A m more stays h w =
      settle-Moves 1 (m w).0 more w (m w).1 (Reach-of_eq (ap stored (stays w)))
        (λ a e. h a (w, e) (m w).1)

  pub last-Moves :
      {A : Type 0} (m : Eff E A) (w : World E)
      → Moves E K May m w
      → Moves E K May (or_exit E 2 m (λ _. pure 0)) w
  last-Moves m w moved = settle-Moves 2 (m w).0 (λ _. pure 0) w (m w).1 moved (λ a e. here)

module _ (E : Env) (K : ClusterLaws E) (s : Settings) where
  open K use {stored}

  new_purge-conf :
      (path : String) (conf : Purge.Config E) (w : World E) {gc : Purge E}
      → (new_purge E path (some conf) w).0 ≡ ok gc
      → gc.conf ≡ conf
  unfolding new_purge
  new_purge-conf path conf w done = elim (Bool-cases (eqb_ℤ conf.polling_period (pos 0))) [
    | inl zero ↦ ground arith
    | inr set ↦
        let (k, _, rest, _) = bind-ok (new_kube_client E path) _ w (rw set at done) in
        let (_, _, same, _) =
          bind-ok (Purge.register_metrics E) _ (new_kube_client E path w).1 rest in
        ground arith
  ]

  collecting-Moves :
      (events : List Purge.Event) (gc : Purge E) (w : World E)
      → gc.conf ≡ collector_config E s
      → Moves E K Deleting (collecting E s events gc) w
  collecting-Moves events gc w same = rw same (
      if_holds (λ m. Moves E K Deleting m w) (s.get_bool "daemon")
        (garbage_collect_daemon E (collector_config E s) events)
        (garbage_collect E (collector_config E s)) (garbage_collect_daemon-Moves E K s events w)
        (garbage_collect-Moves E K Deleting (λ n. refl) (collector_config E s) w
          (collector_config-Leaves E s)))

  -- Whatever it is asked to collect, once or as a daemon, and however it ends, the command that
  -- collects garbage does nothing to the requests but to delete some that are stored.
  pub collect_garbage-Reach :
      (events : List Purge.Event) (w : World E)
      → Reach Deleting (stored w.cluster) (stored (collect_garbage E s events w).1.cluster)
  unfolding collect_garbage new_garbage_collector
  collect_garbage-Reach events w =
      let finish : Purge E → Eff E ℕ = λ gc. or_exit E 2 (collecting E s events gc) (λ _. pure 0) in
      if_holds (λ m. Moves E K Deleting m w) (collects_nothing E s) (pure 1)
        (or_exit E 1 (new_garbage_collector E s) finish) here
        (Moves-Passes E K Deleting _ (new_garbage_collector E s) finish
          (new_garbage_collector-Stays E s)
          (λ gc built v. last-Moves E K Deleting (collecting E s events gc) v (
            collecting-Moves events gc v (
              new_purge-conf (s.get_string "kubeconfig-path") (collector_config E s) built.0
                built.1)))
          w)
