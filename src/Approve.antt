-- ===== src/Approve.antt =====
-- pkg/operation/approve/approve.go
pub mod Conditions
use kube_csr.Base.{String, List, [], ◌∷◌, ◌++◌, pure, call, ◌>>=◌, ◌>>◌}
use kube_csr.Base.Int.{negsuc}
use kube_csr.Env.{Env, Eff, Csr, Condition, on_cluster}
use kube_csr.Kubeclient.{KubeClient, new_kube_client}

pub record Approval (E : Env) : Type 0 where
  pub kube_client : KubeClient E

abbrev pub certificate_approved : String
certificate_approved = "Approved"

-- `LastUpdateTime` is left at its zero value, the first of January of the year 1.
abbrev pub approval_condition : Condition
approval_condition = record {
  kind = certificate_approved;
  reason = "kubeCSRApprove";
  message = "This CSR was approved by kubeClient-csr";
  last_update_time = negsuc 62_135_596_799_999_999_999;
}

module _ (E : Env) where
  unfoldable pub new_approval : String → Eff E (Approval E)
  new_approval path = do k ← new_kube_client E path; pure (record { kube_client = k })

  unfoldable pub get_csr : String → Eff E Csr
  get_csr csr_name = call (on_cluster E (E.get csr_name))

  unfoldable pub approve_csr : Csr → Eff E (Unit {0})
  approve_csr r = do
    call (
        on_cluster E
          (E.update_approval (record r { conditions = r.conditions ++ (approval_condition ∷ []) })))
    pure tt

  unfoldable pub get_and_approve_csr : String → Eff E (Unit {0})
  get_and_approve_csr csr_name = do r ← get_csr csr_name; approve_csr r
