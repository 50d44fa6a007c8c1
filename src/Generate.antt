-- ===== src/Generate.antt =====
-- pkg/operation/generate/generate.go
pub mod Hosts
pub mod Files
pub mod Reference
use kube_csr.Base.{
  ℕ, String, ◌<>◌, Bool, true, false, not, ◌&&◌, ◌||◌, Option, none, some, List, [], ◌∷◌, ◌++◌,
  str_eq, has, fine, failed, errorf, pure, throw, call, ◌>>=◌, ◌>>◌, if◌then◌else◌,
}
use kube_csr.Base.Int.{ℤ}
use kube_csr.Env.{Env, Eff, Bytes, Block, Template, on_disk, on_host, computed}
use kube_csr.Pemio.{write_pem}
use kube_csr.Sort.{sort_strings, text_less}

pub record Config : Type 0 where
  pub name : String
  pub override : Bool
  pub common_name : String
  pub hosts : List String
  pub load_private_key : Bool
  pub rsa_bits : ℤ
  pub private_key_path : String
  pub private_key_permission : ℕ
  pub csr_path : String
  pub csr_permission : ℕ

abbrev pub rsa_private_key_type : String
rsa_private_key_type = "RSA PRIVATE KEY"

abbrev pub csr_type : String
csr_type = "CERTIFICATE REQUEST"

-- The loop of `categorizeHosts`, with the hosts seen so far.
module _ (E : Env) where
  unfoldable pub split_hosts :
      List String → List String → List String → List E.Ip → List String × List E.Ip
  split_hosts [] seen dns ips = (dns, ips)
  split_hosts (h ∷ hosts) seen dns ips =
      let known = split_hosts hosts seen dns ips in
      let address = λ (ip : E.Ip). split_hosts hosts (h ∷ seen) dns (ips ++ (ip ∷ [])) in
      let named = split_hosts hosts (h ∷ seen) (dns ++ (h ∷ [])) ips in
      if has h seen then known else elim (E.parse_ip h) [ some ip ↦ address ip | none ↦ named ]

  -- The comparison that the code sorts addresses by compares an address with itself.
  unfoldable pub ip_less : E.Ip → E.Ip → Bool
  ip_less a b = text_less (E.ip_text a) (E.ip_text a)

  unfoldable pub categorize_hosts : Config → List String × List E.Ip
  categorize_hosts conf =
      let (dns, ips) = split_hosts conf.hosts [] [] [] in
      (sort_strings dns, E.sort_slice E.Ip ip_less ips)

  unfoldable pub decoded_key : Config → Option Block → Eff E E.Key
  decoded_key conf none = throw (errorf ("cannot decode private key " <> conf.private_key_path))
  decoded_key conf (some p) = call (computed E (E.parse_private_key p.bytes))

  -- The branch that reads the private key from its file.
  unfoldable pub load_key : Config → Eff E E.Key
  load_key conf = do
    b ← call (on_disk E (E.read_file conf.private_key_path))
    decoded_key conf (E.pem_decode b).0

  unfoldable pub private_key : Config → Eff E E.Key
  private_key conf =
      if conf.load_private_key
      then load_key conf
      else call (on_host E (E.generate_key conf.rsa_bits))

  -- The private key's bytes and those of the request.
  unfoldable pub generate_crypto_data : Config → Eff E (Bytes × Bytes)
  generate_crypto_data conf = do
    key ← private_key conf
    (if str_eq conf.common_name "" then throw (errorf "empty CommonName") else pure tt)
    let (dns, ips) = categorize_hosts conf
    let template : Template E.Ip = record {
      common_name = conf.common_name;
      dns_names = dns;
      ip_addresses = ips;
    }
    csr ← call (on_host E (E.create_request template key))
    pure (E.marshal_private_key key, csr)

  -- A loaded private key is not written again.
  unfoldable pub write_key : Config → Bytes → Eff E (Unit {0})
  write_key conf key =
      if conf.load_private_key
      then pure tt
      else write_pem E key rsa_private_key_type conf.private_key_path conf.private_key_permission
          conf.override

  unfoldable pub generate : Config → Eff E (Unit {0})
  generate conf = do
    (key, csr) ← generate_crypto_data conf
    write_pem E csr csr_type conf.csr_path conf.csr_permission conf.override
    write_key conf key
