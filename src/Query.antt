-- ===== src/Query.antt =====
-- pkg/operation/query/query.go
pub mod Names
pub mod Polling
use kube_csr.Base.{
  ℕ, suc, ◌+◌, String, ◌<>◌, Bool, true, false, not, ◌&&◌, Option, none, some, List, [], ◌∷◌, ◌++◌,
  str_eq, ◌==◌, length, Reply, fine, failed, Result, ok, err, panic, waits, errorf, failure, pure,
  map, throw, call, observe, ◌>>=◌, ◌>>◌, if◌then◌else◌,
}
use Prim.Native.Char.{code}
use Prim.Native.String
use mathlib.Core.Option
use kube_csr.Base.Int.{pos, eqb_ℤ, leb_ℤ}
use kube_csr.Env.{Env, World, Eff, Bytes, Duration, ServiceSpec, on_cluster, on_disk}
use kube_csr.Kubeclient.{KubeClient, new_kube_client}

pub record Config : Type 0 where
  pub polling_interval : Duration
  pub polling_timeout : Duration

pub record ServiceToQuery : Type 0 where
  pub ns : String
  pub svc : String
  -- the service has been queried
  pub done : Bool

pub record Query (E : Env) : Type 0 where
  pub conf : Config
  pub kube_client : KubeClient E
  pub services : List ServiceToQuery

pub data Event : Type 0 where
  tick timeout : Event

-- The names that one service gives, in the order of the four tests.
unfoldable pub sans_of : ServiceSpec → List String
sans_of s =
    (if str_eq s.cluster_ip "" then [] else s.cluster_ip ∷ [])
    ++ (s.external_ips
        ++ ((if str_eq s.load_balancer_ip "" then [] else s.load_balancer_ip ∷ [])
            ++ (if str_eq s.external_name "" then [] else s.external_name ∷ [])))

-- The counts after a pass: the services to do and those done.
unfoldable pub tally : List ServiceToQuery → ℕ × ℕ
tally [] = (0, 0)
tally (s ∷ ss) =
    let (todo, done) = tally ss in if s.done then (todo, done + 1) else (todo + 1, done)

abbrev default_namespace : String
default_namespace = "default"

abbrev namespace_path : String
namespace_path = "/var/run/secrets/kubernetes.io/serviceaccount/namespace"

-- The text in front of the first byte and the text behind it, or `none` if the byte is not there:
-- elt[:i] and elt[i+1:] for i = strings.IndexByte(elt, byte).
unfoldable pub cut : ℕ → String → Option (String × String)
cut byte String.[] = none
cut byte (String.◌∷◌ c s) =
    let rest = cut byte s in
    if code c == byte
    then some ("", s)
    else Option.map (λ (front, back). (String.◌∷◌ c front, back)) rest

unfoldable pub from_parts : String → String → Option (String × String) → ServiceToQuery
from_parts current_namespace elt (some (ns, svc)) = record { ns = ns; svc = svc; done = false }
from_parts current_namespace elt none = record { ns = current_namespace; svc = elt; done = false }

-- An element of the list of services, in the given namespace if it names none.
unfoldable pub to_query : String → String → ServiceToQuery
unfolding from_parts
to_query current_namespace elt = from_parts current_namespace elt (cut b'/' elt)

-- What a call leaves: its result, the services with their flags, and the world.
pub record Round (E : Env) (A : Type 0) : Type 0 where
  pub result : Result E.Failure A
  pub services : List ServiceToQuery
  pub world : World E

-- string(b), or the default if the file cannot be read.
abbrev namespace_of : (E : Env) → Reply E.Failure Bytes → String
namespace_of E (fine b) = E.text_of b
namespace_of E (failed f) = default_namespace

module _ (E : Env) where
  -- The body of the loop over the services, after the call of the kube-apiserver.
  unfoldable pub after_get :
      ServiceToQuery
      → List String
      → Reply E.Failure ServiceSpec
      → Result E.Failure (List String) × ServiceToQuery
  after_get s sans (fine spec) = (ok (sans ++ sans_of spec), record s { done = true })
  after_get s sans (failed f) =
      if not (E.is_not_found f) then (err (failure f), s) else (ok sans, s)

  unfoldable pub query_service :
      ServiceToQuery
      → List String
      → World E
      → Result E.Failure (List String) × ServiceToQuery × World E
  query_service s sans w =
      let (reply, w') = on_cluster E (E.get_service s.ns s.svc) w in
      let (result, s') = after_get s sans reply in
      if s.done then (ok sans, s, w) else (result, s', w')

  -- What the loop does after one service: an error leaves the services behind it as they are.
  unfoldable pub pass_on :
      Result E.Failure (List String)
      → ServiceToQuery
      → List ServiceToQuery
      → World E
      → (List String → Round E (List String))
      → Round E (List String)
  pass_on (ok sans) s ss w more =
      let rest = more sans in
      record { result = rest.result; services = s ∷ rest.services; world = rest.world }
  pass_on (err e) s ss w more = record { result = err e; services = s ∷ ss; world = w }
  pass_on panic s ss w more = record { result = panic; services = s ∷ ss; world = w }
  pass_on waits s ss w more = record { result = waits; services = s ∷ ss; world = w }

  -- One pass over the services.
  unfoldable pub query_services :
      List ServiceToQuery → List String → World E → Round E (List String)
  query_services [] sans w = record { result = ok sans; services = []; world = w }
  query_services (s ∷ ss) sans w =
      let (result, s', w') = query_service s sans w in
      pass_on result s' ss w' (λ sans'. query_services ss sans' w')

  -- The test after a pass: all is done, or the loop goes on.
  unfoldable pub is_complete : List ServiceToQuery → Bool
  is_complete ss = let (todo, done) = tally ss in todo == 0 && done == length ss

  -- What the loop does after a pass: it returns what is complete, and an error.
  unfoldable pub after_pass :
      Result E.Failure (List String)
      → Round E (List String)
      → (List String → Round E (List String))
      → Round E (List String)
  after_pass (ok sans) pass more = if is_complete pass.services then pass else more sans
  after_pass (err e) pass more = pass
  after_pass panic pass more = pass
  after_pass waits pass more = pass

  -- GetKubernetesServicesSubjectAlternativeNames
  unfoldable pub poll :
      Config → List Event → List ServiceToQuery → List String → World E → Round E (List String)
  poll conf [] ss sans w = record { result = waits; services = ss; world = w }
  poll conf (timeout ∷ events) ss sans w = record {
    result = err (
        errorf (
          "timeout of "
          <> E.duration_text conf.polling_timeout
          <> " reached when trying to query kube-services"));
    services = ss;
    world = w;
  }
  poll conf (tick ∷ events) ss sans w =
      let pass = query_services ss sans w in
      after_pass pass.result pass (λ sans'. poll conf events pass.services sans' pass.world)

  unfoldable pub get_subject_alternative_names :
      List Event → Query E → World E → Round E (List String)
  get_subject_alternative_names events q w =
      let polled = poll q.conf events q.services [] w in
      if leb_ℤ q.conf.polling_interval (pos 0)
      then record { result = panic; services = q.services; world = w }
      else polled

  -- The namespace of the service account, if the client runs in the cluster and can read it.
  unfoldable pub detect_namespace : String → Eff E String
  detect_namespace path =
      if not (str_eq path "")
      then pure default_namespace
      else do b ← observe (on_disk E (E.read_file namespace_path)); pure (namespace_of E b)

  unfoldable pub new_query : String → List String → Config → Eff E (Query E)
  unfolding detect_namespace
  new_query path svc_to_query conf =
      if eqb_ℤ conf.polling_interval (pos 0)
      then throw
          (errorf ("invalid value for PollingInterval: " <> E.duration_text conf.polling_interval))
      else if eqb_ℤ conf.polling_timeout (pos 0)
      then throw
          (errorf ("invalid value for PollingTimeout: " <> E.duration_text conf.polling_timeout))
      else do
        k ← new_kube_client E path
        current_namespace ← detect_namespace path
        pure (record {
          conf = conf;
          kube_client = k;
          services = map (to_query current_namespace) svc_to_query;
        })
