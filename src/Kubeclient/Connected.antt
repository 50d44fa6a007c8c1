-- ===== src/Kubeclient/Connected.antt =====
-- What a client that has been built holds.
use kube_csr.Base.{
  String, ◌≡◌, none, some, arith, str_eq, fine, ok, bind-ok, returned-ok, call, if◌then◌else◌,
  Bool-cases, Reply-cases, inl, inr,
}
use kube_csr.Env.{Env, World, computed}
use kube_csr.Kubeclient.{
  KubeClient, client_timeout, build_in_cluster_config, build_flags_config, connect, connect_built,
  build, new_kube_client,
}

module _ (E : Env) where
  -- Where the configuration comes from.
  Loaded : String → E.RestConfig → Type 0
  Loaded path config =
      (host : E.Host) × ((if str_eq path ""
          then E.in_cluster_config host
          else E.config_from_flags "" path host).0
        ≡ fine config)

  -- The configuration of the path, with the timeout, and the two clients made of it.
  pub Connected : String → KubeClient E → Type 0
  Connected path k =
      (config : E.RestConfig) × Loaded path config
      × (k.rest_config ≡ some (E.with_timeout client_timeout config))
      × (set : E.ClientSet) × (cert : E.CertClient) × (E.new_client_set
            (E.with_timeout client_timeout config)
          ≡ fine set)
      × (k.client_set ≡ some set)
      × (E.new_cert_client (E.with_timeout client_timeout config) ≡ fine cert)
      × (k.cert_client ≡ some cert)

  abbrev empty : String → KubeClient E
  empty path = record {
    kube_config_path = path;
    client_set = none;
    cert_client = none;
    rest_config = none;
  }

  connect-ok :
      (k : KubeClient E) (config : E.RestConfig) (w : World E) {k' : KubeClient E}
      → (connect E k config w).0 ≡ ok k'
      → let config' = E.with_timeout client_timeout config in
        (k'.rest_config ≡ some config')
        × (set : E.ClientSet) × (cert : E.CertClient) × (E.new_client_set config' ≡ fine set)
        × (k'.client_set ≡ some set)
        × (E.new_cert_client config' ≡ fine cert)
        × (k'.cert_client ≡ some cert)
  unfolding connect
  connect-ok k config w done =
      let config' = E.with_timeout client_timeout config in
      let (set, made, rest, _) = bind-ok (call (computed E (E.new_client_set config'))) _ w done in
      let (cert, made', last, _) =
        bind-ok (call (computed E (E.new_cert_client config'))) _ w rest in
      (ground arith, set, cert, returned-ok _ made, ground arith, returned-ok _ made', ground arith)

  build-ok :
      (path : String) (w : World E) {k : KubeClient E}
      → (new_kube_client E path w).0 ≡ ok k
      → (config : E.RestConfig) × Loaded path config
        × (v : World E) × (old : KubeClient E) × ((connect E old config v).0 ≡ ok k)
  unfolding new_kube_client build build_in_cluster_config build_flags_config connect_built Loaded
  build-ok path w {k} done = elim (Bool-cases (str_eq path "")) [
    | inl inside ↦ elim (Reply-cases (E.in_cluster_config w.host).0) [
      | inl (config, e) ↦ (
        config,
        (w.host, rw inside e),
        record w { host = (E.in_cluster_config w.host).1 },
        record (empty path) { rest_config = some config },
        ground arith,
      )
      | inr (f, e) ↦ absurd (ground arith)
    ]
    | inr outside ↦ elim (Reply-cases (E.config_from_flags "" path w.host).0) [
      | inl (config, e) ↦ (
        config,
        (w.host, rw outside e),
        record w { host = (E.config_from_flags "" path w.host).1 },
        record (empty path) { rest_config = some config },
        ground arith,
      )
      | inr (f, e) ↦ absurd (ground arith)
    ]
  ]

  -- A client that has been built holds the configuration of its path, that of the cluster where the
  -- path is empty, with the timeout of ten seconds, and both clients made of that configuration.
  pub new_kube_client-Connected :
      (path : String) (w : World E) {k : KubeClient E}
      → (new_kube_client E path w).0 ≡ ok k
      → Connected path k
  unfolding Connected
  new_kube_client-Connected path w done =
      let (config, loaded, v, old, connected) = build-ok path w done in
      let (rest, set, cert, made, client_set, made', cert_client) =
        connect-ok old config v connected in
      (config, loaded, rest, set, cert, made, client_set, made', cert_client)
