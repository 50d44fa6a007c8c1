-- ===== src/Cmd/Builds.antt =====
-- What the commands build leaves the kube-apiserver alone.
use kube_csr.Base.{
  if_holds, String, ◌≡◌, refl, Bool, true, false, Option, none, some, List, [], ◌∷◌, arith, pure,
  call, bind-keeps, Option-cases, inl, inr, ◌>>=◌,
}
use kube_csr.Env.{Env, World, Eff, on_host, on_disk}
use kube_csr.Kubeclient.{
  KubeClient, build_in_cluster_config, build_flags_config, connect, connect_built, build,
  new_kube_client,
}
use kube_csr.Settings.{Settings}
use kube_csr.Query
use kube_csr.Query.{Query, detect_namespace, new_query}
use kube_csr.Submit
use kube_csr.Submit.{Submit, new_submitter}
use kube_csr.Approve.{new_approval}
use kube_csr.Fetch
use kube_csr.Fetch.{Fetch, new_fetcher}
use kube_csr.Purge
use kube_csr.Purge.{Purge, new_purge}
use kube_csr.Operation.{Operation}
use kube_csr.Renew
use kube_csr.Renew.{Renew, missing_paths, report, check_paths, new_renewer_with, new_renewer}
use kube_csr.Cmd.{
  csr_name, new_csr_config, new_submit_client, new_approve_client, new_fetch_client,
  new_delete_client, new_garbage_collector, new_service_query, new_renew,
}
use kube_csr.Cmd.Commands.{optionally}

-- An action that leaves the kube-apiserver alone, wherever it starts.
abbrev pub Stays : (E : Env) {A : Type 0} → Eff E A → Type 0
Stays E m = (w : World E) → (m w).1.cluster ≡ w.cluster

module _ (E : Env) where
  pub bind-Stays :
      {A B : Type 0} (m : Eff E A) (f : A → Eff E B)
      → Stays E m
      → ((a : A) → Stays E (f a))
      → Stays E (m >>= f)
  bind-Stays m f h k w =
      let at : World E → E.Cluster = λ v. v.cluster in bind-keeps at m f w (h w) k

  connect_built-Stays : (k : KubeClient E) → Stays E (connect_built E k)
  unfolding connect_built connect
  connect_built-Stays k w = elim (Option-cases k.rest_config) [
    | inl absent ↦ rw absent refl
    | inr (c, e) ↦ rw e (ground arith)
  ]

  build-Stays : (k : KubeClient E) → Stays E (build E k)
  unfolding build build_in_cluster_config build_flags_config
  build-Stays k =
      bind-Stays _ (connect_built E)
        (if_holds (Stays E) _ (build_in_cluster_config E k) (build_flags_config E k)
          (λ w. ground arith) (λ w. ground arith))
        connect_built-Stays

  new_kube_client-Stays : (path : String) → Stays E (new_kube_client E path)
  unfolding new_kube_client
  new_kube_client-Stays path = build-Stays _

  new_submitter-Stays : (path : String) (conf : Submit.Config) → Stays E (new_submitter E path conf)
  unfolding new_submitter
  new_submitter-Stays path conf w = ground (arith, new_kube_client-Stays path w)

  new_approval-Stays : (path : String) → Stays E (new_approval E path)
  unfolding new_approval
  new_approval-Stays path w = ground (arith, new_kube_client-Stays path w)

  new_fetcher-Stays : (path : String) (conf : Fetch.Config) → Stays E (new_fetcher E path conf)
  unfolding new_fetcher
  new_fetcher-Stays path conf w = ground (arith, new_kube_client-Stays path w)

  new_query-Stays :
      (path : String) (services : List String) (conf : Query.Config)
      → Stays E (new_query E path services conf)
  unfolding new_query detect_namespace
  new_query-Stays path services conf w = ground (arith, new_kube_client-Stays path w)

  register_metrics-Stays : Stays E (Purge.register_metrics E)
  unfolding Purge.register_metrics
  register_metrics-Stays w = ground arith

  new_purge-Stays :
      (path : String) (conf : Option (Purge.Config E)) → Stays E (new_purge E path conf)
  unfolding new_purge
  new_purge-Stays path none w = refl
  new_purge-Stays path (some conf) w =
      ground
        (arith, new_kube_client-Stays path w, register_metrics-Stays (new_kube_client E path w).1)

  missing_paths-Stays : (paths : List String) → Stays E (missing_paths E paths)
  unfolding missing_paths
  missing_paths-Stays [] w = refl
  missing_paths-Stays (p ∷ paths) w =
      ground (arith, missing_paths-Stays paths (on_disk E (E.stat p) w).1)

  report-Stays : (errs : List String) → Stays E (report E errs)
  report-Stays [] w = refl
  report-Stays (e ∷ errs) w = refl

  renew_metrics-Stays : Stays E (Renew.register_metrics E)
  unfolding Renew.register_metrics
  renew_metrics-Stays w = ground arith

  check_paths-Stays : (paths : List String) → Stays E (check_paths E paths)
  unfolding check_paths
  check_paths-Stays paths =
      bind-Stays (missing_paths E paths) (report E) (missing_paths-Stays paths) report-Stays

  new_renewer_with-Stays :
      (path : String) (conf : Renew.Config E) (f : Option (Fetch E))
      → Stays E (new_renewer_with E path conf f)
  unfolding new_renewer_with
  new_renewer_with-Stays path conf none w = refl
  new_renewer_with-Stays path conf (some f) w =
      let at : World E → E.Cluster = λ v. v.cluster in
      bind-keeps at (check_paths E _) _ w (check_paths-Stays _ w) (λ _ v.
        bind-keeps at (new_kube_client E path) _ v (new_kube_client-Stays path v) (λ _ u.
          bind-keeps at (Renew.register_metrics E) _ u (renew_metrics-Stays u) (λ _ t. refl)))

  new_renewer-Stays : (path : String) (conf : Renew.Config E) → Stays E (new_renewer E path conf)
  unfolding new_renewer
  new_renewer-Stays path conf w =
      ground (arith, new_renewer_with-Stays path conf conf.operation.fetch w)

  module _ (s : Settings) where
    pub csr_name-Stays : (common_name : String) → Stays E (csr_name E s common_name)
    unfolding csr_name
    csr_name-Stays common_name w = ground arith

    pub new_csr_config-Stays :
        (common_name name : String) → Stays E (new_csr_config E s common_name name)
    unfolding new_csr_config
    new_csr_config-Stays common_name name w = ground arith

    pub optionally-Stays :
        {A : Type 0} (asked : Bool) (m : Eff E A) → Stays E m → Stays E (optionally E asked m)
    optionally-Stays true m h w = bind-Stays m (λ a. pure (some a)) h (λ a v. refl) w
    optionally-Stays false m h w = refl

    pub new_submit_client-Stays : Stays E (new_submit_client E s)
    unfolding new_submit_client
    new_submit_client-Stays = new_submitter-Stays _ _

    pub new_approve_client-Stays : Stays E (new_approve_client E s)
    unfolding new_approve_client
    new_approve_client-Stays = new_approval-Stays _

    pub new_fetch_client-Stays : Stays E (new_fetch_client E s)
    unfolding new_fetch_client
    new_fetch_client-Stays w =
        let at : World E → E.Cluster = λ v. v.cluster in
        bind-keeps at (call (on_host E E.working_directory)) _ w refl
          (λ wd v. new_fetcher-Stays _ _ v)

    pub new_delete_client-Stays : Stays E (new_delete_client E s)
    unfolding new_delete_client
    new_delete_client-Stays = new_purge-Stays _ _

    pub new_garbage_collector-Stays : Stays E (new_garbage_collector E s)
    unfolding new_garbage_collector
    new_garbage_collector-Stays = new_purge-Stays _ _

    pub new_service_query-Stays :
        (services : List String) → Stays E (new_service_query E s services)
    unfolding new_service_query
    new_service_query-Stays services = new_query-Stays _ _ _

    pub new_renew-Stays : (o : Operation E) → Stays E (new_renew E s o)
    unfolding new_renew
    new_renew-Stays o = new_renewer-Stays _ _
