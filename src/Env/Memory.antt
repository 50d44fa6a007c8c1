-- ===== src/Env/Memory.antt =====
-- An environment that runs: requests and files in association lists, toy cryptography, a
-- clock that moves on at each reading, and one command that fails. The examples run over it.
pub mod Lawful
use kube_csr.Base.{
  suc, ◌<>◌, ℕ, String, Bool, true, false, Option, none, some, List, [], ◌∷◌, ◌++◌, str_eq, Reply,
  fine, failed, lookup, insert, remove, codes, if◌then◌else◌,
}
use kube_csr.Base.Int.{ℤ, pos}
use kube_csr.Env.{Env, World, Bytes, Block, Csr, ServiceSpec}

pub data Failure : Type 0 where
  exists missing denied : Failure

pub record Cluster : Type 0 where
  pub requests : List (String × Csr)

abbrev pub Disk : Type 0
Disk = List (String × Bytes)

abbrev pub values {ℓ} : {V : Type ℓ} → List (String × V) → List V
values [] = []
values ((k, v) ∷ m) = v ∷ values m

abbrev pub put_request : Csr → Cluster → Cluster
put_request c k = record k { requests = insert c.name c k.requests }

-- A request is stored as it was sent.
unfoldable pub create : Csr → Cluster → Reply Failure Csr × Cluster
create c k = elim (lookup c.name k.requests) [
  | none ↦
      let r : Csr = record c { conditions = []; certificate = none } in (fine r, put_request r k)
  | some _ ↦ (failed exists, k)
]

unfoldable pub get : String → Cluster → Reply Failure Csr × Cluster
get n k = elim (lookup n k.requests) [
  | none ↦ (failed missing, k)
  | some r ↦ (fine (record r { name = n }), k)
]

-- An approval stores the conditions that it is sent.
unfoldable pub approve : Csr → Cluster → Reply Failure Csr × Cluster
approve c k = elim (lookup c.name k.requests) [
  | none ↦ (failed missing, k)
  | some _ ↦ (fine c, put_request c k)
]

-- An update changes the annotations alone.
unfoldable pub update : Csr → Cluster → Reply Failure Csr × Cluster
update c k = elim (lookup c.name k.requests) [
  | none ↦ (failed missing, k)
  | some old ↦
      let r : Csr = record old { name = c.name; annotations = c.annotations } in
      (fine r, put_request r k)
]

unfoldable pub delete : String → Cluster → Reply Failure (Unit {0}) × Cluster
delete n k = elim (lookup n k.requests) [
  | none ↦ (failed missing, k)
  | some _ ↦ (fine tt, record k { requests = remove n k.requests })
]

-- There is one service.
abbrev pub api_service : ServiceSpec
api_service = record {
  cluster_ip = "10.0.0.1";
  external_ips = [];
  load_balancer_ip = "";
  external_name = "api.local";
}

unfoldable pub get_service : String → String → Cluster → Reply Failure ServiceSpec × Cluster
get_service ns svc k = if str_eq svc "api" then (fine api_service, k) else (failed missing, k)

unfoldable pub stat : String → Disk → Reply Failure (Unit {0}) × Disk
stat p d = elim (lookup p d) [ none ↦ (failed missing, d) | some _ ↦ (fine tt, d) ]

unfoldable pub read_file : String → Disk → Reply Failure Bytes × Disk
read_file p d = elim (lookup p d) [ none ↦ (failed missing, d) | some b ↦ (fine b, d) ]

unfoldable pub write : String → Bytes → Disk → Reply Failure (Unit {0}) × Disk
write p b d = elim (lookup p d) [
  | none ↦ (failed missing, d)
  | some old ↦ (fine tt, insert p (old ++ b) d)
]

abbrev is_exists : Failure → Bool
is_exists exists = true
is_exists _ = false

abbrev is_missing : Failure → Bool
is_missing missing = true
is_missing _ = false

-- A key is its bytes, there are two addresses, a certificate is the end of its life, and there is
-- one date.
abbrev as_address : String → Option String
as_address s = if str_eq s "10.0.0.1" then some s else if str_eq s "10.0.0.2" then some s else none

abbrev certificate_end : Bytes → Reply Failure ℤ
certificate_end [] = failed denied
certificate_end (n ∷ _) = fine (pos n)

-- There is a block unless there are no bytes, and it takes them all.
abbrev decode : Bytes → Option Block × Bytes
decode [] = (none, [])
decode (n ∷ b) = (some (record { kind = "PEM"; bytes = n ∷ b }), [])

abbrev date_of : String → Reply Failure ℤ
date_of s = if str_eq s "noon" then fine (pos 12) else failed denied

abbrev pub memory : Env
memory = record {
  Failure = Failure;
  failure_text = λ f. "failure";
  is_already_exists = is_exists;
  is_not_found = is_missing;
  Cluster = Cluster;
  create = create;
  get = get;
  update = update;
  update_approval = approve;
  list = λ k. (fine (values k.requests), k);
  delete = delete;
  get_service = get_service;
  Disk = Disk;
  Handle = String;
  stat = stat;
  read_file = read_file;
  open_trunc = λ p perm d. (fine p, insert p [] d);
  write = write;
  close = λ h d. d;
  Host = ℕ;
  now = λ t. (pos t, suc t);
  new_uuid = λ t. ("0a1b2c3d-4e5f-6071", t);
  run_command = λ s t. (if str_eq s "false" then failed denied else fine tt, t);
  hostname = λ t. (fine "node", t);
  working_directory = λ t. (fine "/work", t);
  environment = λ name t. ("user", t);
  Registry = List String;
  register = λ m r. (fine tt, m ∷ r);
  RestConfig = String;
  ClientSet = String;
  CertClient = String;
  in_cluster_config = λ t. (fine "", t);
  config_from_flags = λ url path t. (fine path, t);
  with_timeout = λ d c. c;
  new_client_set = λ c. fine c;
  new_cert_client = λ c. fine c;
  sort_slice = λ A less l. l;
  Ip = String;
  parse_ip = as_address;
  ip_text = λ s. s;
  Key = Bytes;
  generate_key = λ bits t. (fine (7 ∷ []), t);
  parse_private_key = λ b. fine b;
  marshal_private_key = λ b. b;
  create_request = λ tpl k t. (fine (codes tpl.common_name), t);
  parse_certificate = certificate_end;
  pem_decode = decode;
  pem_encode = λ b. b.bytes;
  format_time = λ t. "noon";
  parse_time = date_of;
  duration_text = λ d. "a while";
  condition_text = λ c. c.reason;
  quote = λ s. s;
  join_path = λ a b. a <> "/" <> b;
  text_of = λ b. "text";
}

-- A world over this environment, with no request and no file.
abbrev pub idle_world : World memory
idle_world = record {
  cluster = record { requests = [] };
  disk = [];
  host = 100;
  registry = [];
  metrics = [];
  servers = [];
}
