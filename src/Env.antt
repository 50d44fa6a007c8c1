-- ===== src/Env.antt =====
-- What the program meets and does not implement: the kube-apiserver behind client-go, the file
-- system, clock, random source and shell of the host, the crypto packages. An `Env` gives each call
-- as a function; nothing is assumed of them here. `World` is the state of all of them.
pub mod Laws
pub mod Memory
use kube_csr.Base.{
  ℕ, String, List, ◌∷◌, [], ◌++◌, Option, Bool, ok, Reply, Go, pure, crash, if◌then◌else◌,
}
use kube_csr.Base.Int.{ℤ, pos, leb_ℤ}

abbrev pub Bytes : Type 0
Bytes = List ℕ

-- Nanoseconds: an instant since the Unix epoch, and a `time.Duration`.
abbrev pub Time : Type 0
Time = ℤ

abbrev pub Duration : Type 0
Duration = ℤ

-- certificates/v1beta1, the fields that the program reads or writes. A nil map or slice is `none`.
pub record Condition : Type 0 where
  pub kind : String
  pub reason : String
  pub message : String
  pub last_update_time : Time

pub record Csr : Type 0 where
  pub name : String
  pub uid : String
  pub annotations : Option (List (String × String))
  pub request : Bytes
  pub groups : List String
  pub usages : List String
  pub conditions : List Condition
  pub certificate : Option Bytes

-- core/v1 ServiceSpec
pub record ServiceSpec : Type 0 where
  pub cluster_ip : String
  pub external_ips : List String
  pub load_balancer_ip : String
  pub external_name : String

-- encoding/pem, and the fields of crypto/x509 that the program uses.
pub record Block : Type 0 where
  pub kind : String
  pub bytes : Bytes

pub record Template (Ip : Type 0) : Type 0 where
  pub common_name : String
  pub dns_names : List String
  pub ip_addresses : List Ip

pub record Env : Type 1 where
  pub Failure : Type 0
  pub failure_text : Failure → String
  pub is_already_exists : Failure → Bool
  pub is_not_found : Failure → Bool
  -- the kube-apiserver
  pub Cluster : Type 0
  pub create : Csr → Cluster → Reply Failure Csr × Cluster
  pub get : String → Cluster → Reply Failure Csr × Cluster
  pub update : Csr → Cluster → Reply Failure Csr × Cluster
  pub update_approval : Csr → Cluster → Reply Failure Csr × Cluster
  pub list : Cluster → Reply Failure (List Csr) × Cluster
  pub delete : String → Cluster → Reply Failure (Unit {0}) × Cluster
  pub get_service : String → String → Cluster → Reply Failure ServiceSpec × Cluster
  -- the file system; `write` is a buffered write with the flush that ends it
  pub Disk : Type 0
  pub Handle : Type 0
  pub stat : String → Disk → Reply Failure (Unit {0}) × Disk
  pub read_file : String → Disk → Reply Failure Bytes × Disk
  pub open_trunc : String → ℕ → Disk → Reply Failure Handle × Disk
  pub write : Handle → Bytes → Disk → Reply Failure (Unit {0}) × Disk
  pub close : Handle → Disk → Disk
  -- the clock, the random source and the shell
  pub Host : Type 0
  pub now : Host → Time × Host
  pub new_uuid : Host → String × Host
  pub run_command : String → Host → Reply Failure (Unit {0}) × Host
  pub hostname : Host → Reply Failure String × Host
  pub working_directory : Host → Reply Failure String × Host
  -- os.Getenv
  pub environment : String → Host → String × Host
  -- the prometheus registry
  pub Registry : Type 0
  pub register : String → Registry → Reply Failure (Unit {0}) × Registry
  -- client-go: configurations and the clients made from them
  pub RestConfig : Type 0
  pub ClientSet : Type 0
  pub CertClient : Type 0
  pub in_cluster_config : Host → Reply Failure RestConfig × Host
  pub config_from_flags : String → String → Host → Reply Failure RestConfig × Host
  pub with_timeout : Duration → RestConfig → RestConfig
  pub new_client_set : RestConfig → Reply Failure ClientSet
  pub new_cert_client : RestConfig → Reply Failure CertClient
  -- sort.Slice, which leaves open how it orders what its comparison does not
  pub sort_slice : (A : Type 0) → (A → A → Bool) → List A → List A
  -- net, crypto/rsa, crypto/x509, encoding/pem, time
  pub Ip : Type 0
  pub parse_ip : String → Option Ip
  pub ip_text : Ip → String
  pub Key : Type 0
  pub generate_key : ℤ → Host → Reply Failure Key × Host
  pub parse_private_key : Bytes → Reply Failure Key
  pub marshal_private_key : Key → Bytes
  pub create_request : Template Ip → Key → Host → Reply Failure Bytes × Host
  -- the field NotAfter of the parsed certificate
  pub parse_certificate : Bytes → Reply Failure Time
  pub pem_decode : Bytes → Option Block × Bytes
  pub pem_encode : Block → Bytes
  -- the layout 2006-01-02T15:04:05Z
  pub format_time : Time → String
  pub parse_time : String → Reply Failure Time
  -- the texts that `fmt` prints: of a duration, of a condition, and a quoted text
  pub duration_text : Duration → String
  pub condition_text : Condition → String
  pub quote : String → String
  -- path.Join of two elements
  pub join_path : String → String → String
  -- the text of bytes
  pub text_of : Bytes → String

-- A call on a prometheus collector, which is named by its metric.
pub data Metric : Type 0 where
  inc : String → Metric
  set_gauge : String → ℤ → Metric
  sample : String → ℤ → Metric

-- An HTTP server that has been started: its address, and the handler of each of its routes.
pub record Server : Type 0 where
  pub address : String
  pub routes : List (String × String)
  pub write_timeout : Duration
  pub read_timeout : Duration

pub record World (E : Env) : Type 0 where
  pub cluster : E.Cluster
  pub disk : E.Disk
  pub host : E.Host
  pub registry : E.Registry
  -- the calls on collectors so far, the oldest first
  pub metrics : List Metric
  -- the servers started so far, the oldest first
  pub servers : List Server

module _ (E : Env) where
  abbrev pub Eff : Type 0 → Type 0
  Eff A = Go (World E) E.Failure A

  abbrev pub on_cluster :
      {A : Type 0}
      → (E.Cluster → Reply E.Failure A × E.Cluster)
      → World E
      → Reply E.Failure A × World E
  on_cluster op w = ((op w.cluster).0, record w { cluster = (op w.cluster).1 })

  abbrev pub on_disk :
      {A : Type 0} → (E.Disk → Reply E.Failure A × E.Disk) → World E → Reply E.Failure A × World E
  on_disk op w = ((op w.disk).0, record w { disk = (op w.disk).1 })

  abbrev pub on_host :
      {A : Type 0} → (E.Host → Reply E.Failure A × E.Host) → World E → Reply E.Failure A × World E
  on_host op w = ((op w.host).0, record w { host = (op w.host).1 })

  abbrev pub on_registry :
      {A : Type 0}
      → (E.Registry → Reply E.Failure A × E.Registry)
      → World E
      → Reply E.Failure A × World E
  on_registry op w = ((op w.registry).0, record w { registry = (op w.registry).1 })

  -- A call that depends on nothing but its arguments.
  abbrev pub computed : {A : Type 0} → Reply E.Failure A → World E → Reply E.Failure A × World E
  computed r w = (r, w)

  -- A call that cannot fail.
  abbrev pub read_host : {A : Type 0} → (E.Host → A × E.Host) → Eff A
  read_host op w = (ok (op w.host).0, record w { host = (op w.host).1 })

  abbrev pub emit : Metric → Eff (Unit {0})
  emit m w = (ok tt, record w { metrics = w.metrics ++ (m ∷ []) })

  abbrev pub start_server : Server → Eff (Unit {0})
  start_server s w = (ok tt, record w { servers = w.servers ++ (s ∷ []) })

  -- time.NewTicker panics at an interval that is not positive.
  abbrev pub start_ticker : Duration → Eff (Unit {0})
  start_ticker d = if leb_ℤ d (pos 0) then crash else pure tt
