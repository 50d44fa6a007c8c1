-- ===== src/Tests/Clients.antt =====
-- An example of building the clients.
use kube_csr.Base.{refl, []}
use kube_csr.Env.Memory.{memory}
use kube_csr.Kubeclient.{build, build_in_cluster_config, connect, connect_built, new_kube_client}
use kube_csr.Kubeclient.Connected.{Connected, new_kube_client-Connected}
use kube_csr.Tests.{kube_client, world_with}

new_kube_client-Connected_example : Connected memory "" kube_client
unfolding new_kube_client build build_in_cluster_config connect_built connect
new_kube_client-Connected_example = new_kube_client-Connected memory "" (world_with []) refl
