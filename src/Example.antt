-- ===== src/Example.antt =====
-- examples/issue.go
use kube_csr.Base.{
  String, some, [], ◌∷◌, true, false, Result, ok, err, panic, waits, pure, crash, wait, ◌>>=◌,
}
use kube_csr.Base.Int.{pos}
use kube_csr.Env.{Env, Eff, Duration, read_host}
use kube_csr.Generate
use kube_csr.Query.{new_query}
use kube_csr.Submit.{new_submitter}
use kube_csr.Approve.{new_approval}
use kube_csr.Fetch.{new_fetcher}
use kube_csr.Purge.{new_purge}
use kube_csr.Operation.{Operation, Schedule, shared, run}
use kube_csr.Cmd.Commands.{operating}

abbrev pub foo : Generate.Config
foo = record {
  name = "foo";
  override = true;
  common_name = "example";
  hosts = "example.com" ∷ "192.168.1.1" ∷ [];
  load_private_key = false;
  rsa_bits = pos 2048;
  private_key_path = "/tmp/foo.private_key";
  private_key_permission = 384;
  csr_path = "/tmp/foo.csr";
  csr_permission = 384;
}

abbrev one_second : Duration
one_second = pos 1_000_000_000

abbrev ten_seconds : Duration
ten_seconds = pos 10_000_000_000

module _ (E : Env) where
  -- `if err != nil { panic(err) }`
  unfoldable pub must : {A : Type 0} → Result E.Failure A → Eff E A
  must (ok a) = pure a
  must (err e) = crash
  must panic = crash
  must waits = wait

  abbrev pub checked : {A : Type 0} → Eff E A → Eff E A
  checked m w = must (m w).0 (m w).1

  abbrev pub user_config : Eff E String
  user_config = do
    user ← read_host E (E.environment "USER")
    pure (E.join_path (E.join_path "/home" user) ".kube/config")

  unfoldable pub example_operation : Eff E (Operation E)
  example_operation = do
    path ← user_config
    querier ← checked (
        new_query E path ("kubernetes" ∷ [])
          (record { polling_interval = one_second; polling_timeout = ten_seconds }))
    submitter ← checked (new_submitter E path (record { override = true }))
    approval ← checked (new_approval E path)
    fetcher ← checked (
        new_fetcher E path (record {
          override = false;
          polling_interval = one_second;
          polling_timeout = ten_seconds;
          certificate_path = "/tmp/foo.certificate";
          certificate_permission = 384;
          annotate = false;
        }))
    purger ← checked (
        new_purge E path (
          some (record {
            should_gc = [];
            grace_period = pos 0;
            polling_period = one_second;
            prometheus_bind = "";
          })))
    pure (record {
      source_config = foo;
      query = some querier;
      generate = some shared;
      submit = some submitter;
      approve = some approval;
      fetch = some fetcher;
      purge = some purger;
      approved = false;
    })

  unfoldable pub main : Schedule → Eff E (Unit {0})
  main schedule = do o ← example_operation; checked (operating E o (run E schedule))
