-- ===== src/Tests.antt =====
-- Concrete inputs for the examples, over the environment in memory.
mod Requests
mod Files
mod Fetching
mod Querying
mod Purging
mod Renewing
mod Clients
mod Issuing
mod Flags
mod Scripts
use kube_csr.Base.{ℕ, String, Bool, true, false, Option, none, some, List, [], ◌∷◌, codes}
use kube_csr.Base.Int.{ℤ, pos}
use kube_csr.Env.{World, Bytes, Csr, ServiceSpec}
use kube_csr.Env.Memory.{memory, idle_world}
use kube_csr.Generate
use kube_csr.Kubeclient.{KubeClient}
use kube_csr.Submit.{Submit, kube_csr_of}
use kube_csr.Approve.{Approval}
use kube_csr.Fetch
use kube_csr.Operation.{Generator, shared, Operation}

abbrev pub kube_client : KubeClient memory
kube_client = record {
  kube_config_path = "";
  client_set = some "";
  cert_client = some "";
  rest_config = some "";
}

-- A request for a name given twice, another name and an address.
abbrev pub web : Generate.Config
web = record {
  name = "web";
  override = false;
  common_name = "cn";
  hosts = "web" ∷ "10.0.0.1" ∷ "api" ∷ "web" ∷ [];
  load_private_key = false;
  rsa_bits = pos 2048;
  private_key_path = "web.key";
  private_key_permission = 384;
  csr_path = "web.csr";
  csr_permission = 384;
}

abbrev pub submitter : Bool → Submit memory
submitter override = record { conf = record { override = override }; kube_client = kube_client }

abbrev pub approver : Approval memory
approver = record { kube_client = kube_client }

abbrev pub issue : Operation memory
issue = record {
  source_config = web;
  query = none;
  generate = some shared;
  submit = none;
  approve = none;
  fetch = none;
  purge = none;
  approved = true;
}

-- A world with the given requests.
abbrev pub world_with : List (String × Csr) → World memory
world_with requests = record idle_world { cluster = record { requests = requests } }

abbrev pub stored_web : Csr
stored_web = kube_csr_of "web" (1 ∷ 2 ∷ [])

-- The request "web" is stored, and so is a file at the CSR's path.
abbrev pub busy : World memory
busy = record (world_with (("web", stored_web) ∷ ("old", kube_csr_of "old" []) ∷ [])) {
  disk = ("web.csr", 5 ∷ 6 ∷ []) ∷ [];
}
