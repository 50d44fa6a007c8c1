-- ===== src/Lifecycle/Collections.antt =====
-- What the command that collects garbage does to the requests.
use kube_csr.Base.{
  String, ◌≡◌, refl, Bool, true, false, Option, none, some, List, [], ◌∷◌, ◌++◌, arith, All,
  Option-cases, Reply-cases, inl, inr, Reply, fine, failed,
}
use kube_csr.Api.{register_api, pprof_bind_default}
use kube_csr.Env.{Env, World, Block, Condition, Time, Duration, start_ticker}
use kube_csr.Env.Laws.{ClusterLaws}
use kube_csr.Fetch.{annotation_date, text_at}
use kube_csr.Purge
use kube_csr.Purge.{
  Verdict, is_past, is_block_expired, is_certificate_expired, is_before_limit, is_first_denied,
  is_condition_denied, is_fetched_at, is_map_fetched, is_annotation_fetched, garbage_collect,
  garbage_collect_loop, garbage_collect_daemon,
}
use kube_csr.Settings.{Settings}
use kube_csr.Cmd.{chosen, collector_config}
use kube_csr.Lifecycle.{Action, deletion}
use kube_csr.Lifecycle.Parts.{
  register_api-cluster, start_ticker-cluster, Moves, bind-Moves, Moves-of_cluster,
}
use kube_csr.Lifecycle.Loops.{Leaves, garbage_collect_loop-Moves}

-- Nothing but deletions.
abbrev pub Deleting : Action → String → Type 0
Deleting action name = action ≡ deletion

module _ (E : Env) where
  is_past-cluster :
      (t : Time) (grace : Duration) (w : World E) → (is_past E t grace w).1.cluster ≡ w.cluster
  unfolding is_past
  is_past-cluster t grace w = ground arith

  is_before_limit-cluster :
      (t : Time) (grace : Duration) (w : World E)
      → (is_before_limit E t grace w).1.cluster ≡ w.cluster
  unfolding is_before_limit
  is_before_limit-cluster t grace w = refl

  is_block_expired-cluster :
      (block : Option Block) (grace : Duration) (w : World E)
      → (is_block_expired E block grace w).1.cluster ≡ w.cluster
  unfolding is_block_expired
  is_block_expired-cluster none grace w = refl
  is_block_expired-cluster (some b) grace w = elim (Reply-cases (E.parse_certificate b.bytes)) [
    | inl (t, e) ↦ ground (arith, is_past-cluster t grace w)
    | inr (f, e) ↦ ground arith
  ]

  pub is_certificate_expired-Leaves : Leaves E (is_certificate_expired E)
  unfolding is_certificate_expired
  is_certificate_expired-Leaves c grace w = elim (Option-cases c.certificate) [
    | inl absent ↦ rw absent refl
    | inr (b, e) ↦ rw e (ground (arith, is_block_expired-cluster (E.pem_decode b).0 grace w))
  ]

  is_first_denied-cluster :
      (conditions : List Condition) (grace : Duration) (w : World E)
      → (is_first_denied E conditions grace w).1.cluster ≡ w.cluster
  unfolding is_first_denied
  is_first_denied-cluster [] grace w = refl
  is_first_denied-cluster (c ∷ conditions) grace w =
      ground (arith, is_before_limit-cluster c.last_update_time grace w)

  pub is_condition_denied-Leaves : Leaves E (is_condition_denied E)
  unfolding is_condition_denied
  is_condition_denied-Leaves c grace w = is_first_denied-cluster c.conditions grace w

  is_fetched_at-cluster :
      (reply : Reply E.Failure Time) (grace : Duration) (w : World E)
      → (is_fetched_at E reply grace w).1.cluster ≡ w.cluster
  unfolding is_fetched_at
  is_fetched_at-cluster (fine t) grace w = is_before_limit-cluster t grace w
  is_fetched_at-cluster (failed f) grace w = refl

  is_map_fetched-cluster :
      (annotations : List (String × String)) (grace : Duration) (w : World E)
      → (is_map_fetched E annotations grace w).1.cluster ≡ w.cluster
  unfolding is_map_fetched
  is_map_fetched-cluster annotations grace w =
      ground
        (arith, is_fetched_at-cluster (E.parse_time (text_at annotation_date annotations)) grace w)

  pub is_annotation_fetched-Leaves : Leaves E (is_annotation_fetched E)
  unfolding is_annotation_fetched
  is_annotation_fetched-Leaves c grace w = elim (Option-cases c.annotations) [
    | inl absent ↦ rw absent refl
    | inr (a, e) ↦ rw e (is_map_fetched-cluster a grace w)
  ]

  All-chosen :
      (asked : Bool) (fn : Verdict E) (fns : List (Verdict E))
      → Leaves E fn
      → All (Leaves E) fns
      → All (Leaves E) (chosen E asked fn ++ fns)
  All-chosen true fn fns h hs = (h, hs)
  All-chosen false fn fns h hs = hs

  pub collector_config-Leaves : (s : Settings) → All (Leaves E) (collector_config E s).should_gc
  unfolding collector_config Purge.new_purge_config
  collector_config-Leaves s =
      All-chosen (s.get_bool "denied") (is_condition_denied E) _ is_condition_denied-Leaves (
        All-chosen (s.get_bool "fetched") (is_annotation_fetched E) _ is_annotation_fetched-Leaves
          (chosen-last (s.get_bool "expired")))
    where
      chosen-last : (asked : Bool) → All (Leaves E) (chosen E asked (is_certificate_expired E))
      chosen-last true = (is_certificate_expired-Leaves, tt)
      chosen-last false = tt

module _ (E : Env) (K : ClusterLaws E) (s : Settings) where
  open K use {stored}

  pub garbage_collect_daemon-Moves :
      (events : List Purge.Event) (w : World E)
      → Moves E K Deleting (garbage_collect_daemon E (collector_config E s) events) w
  unfolding garbage_collect_daemon
  garbage_collect_daemon-Moves events w =
      let conf = collector_config E s in
      let api = register_api E conf.prometheus_bind pprof_bind_default in
      bind-Moves E K Deleting api _ w
        (Moves-of_cluster E K Deleting api w
          (register_api-cluster E conf.prometheus_bind pprof_bind_default w))
        (λ _ _.
          let ticker = start_ticker E conf.polling_period in
          bind-Moves E K Deleting ticker (λ _. garbage_collect_loop E conf events) (api w).1
            (Moves-of_cluster E K Deleting ticker (api w).1
              (start_ticker-cluster E conf.polling_period _))
            (λ _ _.
              garbage_collect_loop-Moves E K Deleting (λ n. refl) conf events _
                (collector_config-Leaves E s)))
