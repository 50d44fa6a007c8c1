-- ===== src/Tests/Querying.antt =====
-- Examples of querying services.
use kube_csr.Base.{String, ◌≡◌, ◌≢◌, false, [], ◌∷◌, arith, fine, waits}
use kube_csr.Base.Int.{pos}
use kube_csr.Env.{ServiceSpec}
use kube_csr.Env.Memory.{memory, api_service, get_service, Cluster}
use kube_csr.Query.{Query, tick, timeout, to_query, get_subject_alternative_names}
use kube_csr.Query.Names.{Answers}
use kube_csr.Query.Polling.{
  by_timeout, later, Names, to_query-Names, get_subject_alternative_names-returns,
}
use kube_csr.Tests.{kube_client, world_with}

always :
    (ns svc : String) (k : Cluster) {s : ServiceSpec}
    → (get_service ns svc k).0 ≡ fine s
    → s ≡ api_service
unfolding get_service
always ns svc k e = ground arith

-- The one service of the environment always answers alike.
abbrev answers : Answers memory
answers = record { spec = λ ns svc. api_service; given = always }

abbrev asking : Query memory
asking = record {
  conf = record { polling_interval = pos 1; polling_timeout = pos 10 };
  kube_client = kube_client;
  services = record { ns = "default"; svc = "api"; done = false } ∷ [];
}

get_subject_alternative_names-returns_example :
    (get_subject_alternative_names memory (tick ∷ timeout ∷ []) asking (world_with [])).result
    ≢ waits
get_subject_alternative_names-returns_example =
    get_subject_alternative_names-returns memory asking (world_with []) (later (by_timeout []))

to_query-Names_example : Names "default" "kube-system/dns" (to_query "default" "kube-system/dns")
to_query-Names_example = to_query-Names "default" "kube-system/dns"
