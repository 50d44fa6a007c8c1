-- ===== src/Kubeclient.antt =====
-- pkg/utils/kubeclient/kubeclient.go
pub mod Connected
use kube_csr.Base.{String, Option, none, some, str_eq, pure, call, crash, ◌>>=◌, if◌then◌else◌}
use kube_csr.Base.Int.{ℤ, pos}
use kube_csr.Env.{Env, Eff, on_host, computed}

pub record KubeClient (E : Env) : Type 0 where
  pub kube_config_path : String
  pub client_set : Option E.ClientSet
  pub cert_client : Option E.CertClient
  pub rest_config : Option E.RestConfig

abbrev pub client_timeout : ℤ
client_timeout = pos 10_000_000_000

module _ (E : Env) where
  unfoldable pub build_in_cluster_config : KubeClient E → Eff E (KubeClient E)
  build_in_cluster_config k = do
    config ← call (on_host E E.in_cluster_config)
    pure (record k { rest_config = some config })

  unfoldable pub build_flags_config : KubeClient E → Eff E (KubeClient E)
  build_flags_config k = do
    config ← call (on_host E (E.config_from_flags "" k.kube_config_path))
    pure (record k { rest_config = some config })

  -- The clients, from the configuration with its timeout set.
  unfoldable pub connect : KubeClient E → E.RestConfig → Eff E (KubeClient E)
  connect k config = do
    let config' = E.with_timeout client_timeout config
    client_set ← call (computed E (E.new_client_set config'))
    cert_client ← call (computed E (E.new_cert_client config'))
    pure (record k {
      rest_config = some config';
      client_set = some client_set;
      cert_client = some cert_client;
    })

  unfoldable pub connect_built : KubeClient E → Eff E (KubeClient E)
  connect_built k = elim k.rest_config [ none ↦ crash | some c ↦ connect k c ]

  unfoldable pub build : KubeClient E → Eff E (KubeClient E)
  build k = do
    k' ← (if str_eq k.kube_config_path "" then build_in_cluster_config k else build_flags_config k)
    connect_built k'

  unfoldable pub new_kube_client : String → Eff E (KubeClient E)
  new_kube_client path = build (record {
    kube_config_path = path;
    client_set = none;
    cert_client = none;
    rest_config = none;
  })
