-- ===== src/Operation.antt =====
-- pkg/operation/operation.go
pub mod Approving
use kube_csr.Base.{
  String, Bool, true, false, not, Option, none, some, List, ◌++◌, Result, ok, Go, pure, ◌>>=◌, ◌>>◌,
  if◌then◌else◌,
}
use kube_csr.Env.{Env, World, Eff, Csr}
use kube_csr.Generate
use kube_csr.Query
use kube_csr.Query.{Query, get_subject_alternative_names}
use kube_csr.Submit
use kube_csr.Submit.{Submit}
use kube_csr.Approve.{Approval, approve_csr, get_and_approve_csr}
use kube_csr.Fetch
use kube_csr.Fetch.{Fetch}
use kube_csr.Purge
use kube_csr.Purge.{Purge}

-- The pointer that a generator keeps: to the operation's own configuration, or to another.
pub data Generator : Type 0 where
  shared : Generator
  own : Generate.Config → Generator

-- `SourceConfig`, the parts that are set, and whether the request has been approved.
pub record Operation (E : Env) : Type 0 where
  pub source_config : Generate.Config
  pub query : Option (Query E)
  pub generate : Option Generator
  pub submit : Option (Submit E)
  pub approve : Option (Approval E)
  pub fetch : Option (Fetch E)
  pub purge : Option (Purge E)
  pub approved : Bool

-- The operation with the world around it.
pub record Process (E : Env) : Type 0 where
  pub world : World E
  pub operation : Operation E

-- What the two polling loops receive during a run.
pub record Schedule : Type 0 where
  pub query : List Query.Event
  pub fetch : List Fetch.Event

abbrev pub config_of : Generator → Generate.Config → Generate.Config
config_of shared source = source
config_of (own conf) source = conf

module _ (E : Env) where
  abbrev pub Run : Type 0 → Type 0
  Run A = Go (Process E) E.Failure A

  abbrev pub within : {A : Type 0} → Eff E A → Run A
  within m p = ((m p.world).0, record p { world = (m p.world).1 })

  abbrev pub gets : {A : Type 0} → (Operation E → A) → Run A
  gets f p = (ok (f p.operation), p)

  abbrev pub modify : (Operation E → Operation E) → Run (Unit {0})
  modify f p = (ok tt, record p { operation = f p.operation })

  -- The names that the services give are appended to the hosts.
  abbrev pub add_hosts : List String → Operation E → Operation E
  add_hosts sans o = record o {
    source_config = record o.source_config { hosts = o.source_config.hosts ++ sans };
  }

  -- The services keep the flags that the query has set.
  abbrev pub asking : List Query.Event → Query E → Run (List String)
  asking events q p =
      let round = get_subject_alternative_names E events q p.world in
      (
        round.result,
        record p {
          world = round.world;
          operation = record p.operation { query = some (record q { services = round.services }) };
        },
      )

  unfoldable pub run_query : List Query.Event → Option (Query E) → Run (Unit {0})
  run_query events none = pure tt
  run_query events (some q) = do sans ← asking events q; modify (add_hosts sans)

  unfoldable pub run_generate : Option Generator → Run (Unit {0})
  run_generate none = pure tt
  run_generate (some g) = do
    source ← gets (λ o. o.source_config)
    within (Generate.generate E (config_of g source))

  abbrev pub approve_submitted : Option (Approval E) → Csr → Run (Unit {0})
  approve_submitted none r = pure tt
  approve_submitted (some a) r = do
    within (approve_csr E r)
    modify (λ o. record o { approved = true })

  -- The method `submit`.
  unfoldable pub run_submit : Option (Submit E) → Option (Approval E) → Run (Unit {0})
  run_submit none approval = pure tt
  run_submit (some s) approval = do
    source ← gets (λ o. o.source_config)
    r ← within (Submit.submit E s source)
    approve_submitted approval r

  unfoldable pub run_approve : Option (Approval E) → Run (Unit {0})
  run_approve none = pure tt
  run_approve (some a) = do
    o ← gets (λ o. o)
    if o.approved then pure tt else within (get_and_approve_csr E o.source_config.name)

  unfoldable pub run_fetch : List Fetch.Event → Option (Fetch E) → Run (Unit {0})
  run_fetch events none = pure tt
  run_fetch events (some f) = do
    o ← gets (λ o. o)
    within (Fetch.fetch E f.conf o.source_config.name events)

  unfoldable pub run_purge : Option (Purge E) → Run (Unit {0})
  run_purge none = pure tt
  run_purge (some p) = do o ← gets (λ o. o); within (Purge.delete E o.source_config.name)

  -- Run
  unfoldable pub run : Schedule → Run (Unit {0})
  run schedule = do
    modify (λ o. record o { approved = false })
    o ← gets (λ o. o)
    run_query schedule.query o.query
    run_generate o.generate
    run_submit o.submit o.approve
    run_approve o.approve
    run_fetch schedule.fetch o.fetch
    run_purge o.purge
