-- ===== src/Submit.antt =====
-- pkg/operation/submit/submit.go
pub mod Replace
use kube_csr.Base.{
  String, Bool, not, Option, none, List, [], ◌∷◌, Reply, fine, failed, failure, pure, throw, call,
  observe, ◌>>=◌, ◌>>◌, if◌then◌else◌,
}
use kube_csr.Env.{Env, Eff, Bytes, Csr, on_disk, on_cluster}
use kube_csr.Kubeclient.{KubeClient, new_kube_client}
use kube_csr.Generate

pub record Config : Type 0 where
  pub override : Bool

pub record Submit (E : Env) : Type 0 where
  pub conf : Config
  pub kube_client : KubeClient E

-- The object that is sent to the kube-apiserver.
abbrev pub kube_csr_of : String → Bytes → Csr
kube_csr_of name csr_bytes = record {
  name = name;
  uid = "";
  annotations = none;
  request = csr_bytes;
  groups = "system:authenticated" ∷ [];
  usages = "digital signature" ∷ "key encipherment" ∷ "server auth" ∷ "client auth" ∷ [];
  conditions = [];
  certificate = none;
}

module _ (E : Env) where
  unfoldable pub new_submitter : String → Config → Eff E (Submit E)
  new_submitter path conf = do
    k ← new_kube_client E path
    pure (record { conf = conf; kube_client = k })

  -- What follows the first `Create`: an existing request is replaced if that is allowed.
  unfoldable pub after_create : Config → Csr → Reply E.Failure Csr → Eff E Csr
  after_create conf c (fine r) = pure r
  after_create conf c (failed f) =
      let replace : Eff E Csr =
        call (on_cluster E (E.delete c.name)) >> call (on_cluster E (E.create c)) in
      if not (E.is_already_exists f)
      then throw (failure f)
      else if not conf.override
      then throw (failure f)
      else replace

  unfoldable pub send : Config → Csr → Eff E Csr
  unfolding after_create
  send conf c = do first ← observe (on_cluster E (E.create c)); after_create conf c first

  unfoldable pub submit : Submit E → Generate.Config → Eff E Csr
  submit s csr = do
    csr_bytes ← call (on_disk E (E.read_file csr.csr_path))
    send s.conf (kube_csr_of csr.name csr_bytes)
