-- ===== src/Tests/Requests.antt =====
-- Examples of submitting, approving and running.
use kube_csr.Base.{
  remove, String, lookup, ◌≡◌, ◌≢◌, refl, true, false, some, [], ◌∷◌, ◌++◌, str_eq, ok,
  if◌then◌else◌,
}
use kube_csr.Env.{Csr}
use kube_csr.Env.Memory.{memory, create, get, approve, delete, stat, read_file, write}
use kube_csr.Env.Memory.Lawful.{stored_lem, disk_laws, cluster_laws}
use kube_csr.Generate.{generate, generate_crypto_data, private_key, write_key}
use kube_csr.Pemio.{write_pem, save}
use kube_csr.Submit.{submit, send, after_create, kube_csr_of}
use kube_csr.Submit.Replace.{submit-stores, submit-no_override, submit-others}
use kube_csr.Approve.{approval_condition, approve_csr, get_csr, get_and_approve_csr}
use kube_csr.Approve.Conditions.{get_and_approve_csr-stores}
use kube_csr.Operation.{
  run, run_query, run_generate, run_submit, run_approve, run_fetch, run_purge, Process, Schedule,
}
use kube_csr.Lifecycle.{Reach}
use kube_csr.Lifecycle.Advances.{OnlyTo}
use kube_csr.Lifecycle.Runs.{run-Reach}
use kube_csr.Operation.Approving.{run-approves, submitting, IsApproved}
use kube_csr.Tests.{web, submitter, approver, issue, busy, world_with, stored_web}

abbrev replaced : Csr
replaced = kube_csr_of "web" (5 ∷ 6 ∷ [])

submit-stores_example :
    (replaced.name ≡ "web")
    × (disk_laws.contents busy.disk "web.csr" ≡ some replaced.request)
    × (replaced.conditions ≡ [])
    × ((n : String)
        → cluster_laws.stored (submit memory (submitter true) web busy).1.cluster n
          ≡ (if str_eq "web" n then some replaced else cluster_laws.stored busy.cluster n))
unfolding submit send after_create create delete read_file lookup remove
submit-stores_example =
    submit-stores memory cluster_laws disk_laws (submitter true) web busy {r = replaced} refl

submit-no_override_example :
    ((r : Csr) → (submit memory (submitter false) web busy).0 ≢ ok r)
    × (cluster_laws.stored (submit memory (submitter false) web busy).1.cluster
        ≡ cluster_laws.stored busy.cluster)
unfolding lookup
submit-no_override_example =
    submit-no_override memory cluster_laws (submitter false) web busy {old = stored_web} refl
      (stored_lem busy.cluster "web")

submit-others_example :
    cluster_laws.stored (submit memory (submitter true) web busy).1.cluster "old"
    ≡ cluster_laws.stored busy.cluster "old"
submit-others_example = submit-others memory cluster_laws (submitter true) web busy "old" refl

get_and_approve_csr-stores_example :
    (old : Csr) × (new : Csr) × (cluster_laws.stored busy.cluster "web" ≡ some old)
    × (new.request ≡ old.request)
    × (new.conditions ≡ old.conditions ++ (approval_condition ∷ []))
    × ((n : String)
        → cluster_laws.stored (get_and_approve_csr memory "web" busy).1.cluster n
          ≡ (if str_eq "web" n then some new else cluster_laws.stored busy.cluster n))
unfolding get_and_approve_csr get_csr approve_csr get approve lookup remove
get_and_approve_csr-stores_example = get_and_approve_csr-stores memory cluster_laws "web" busy refl

run-approves_example :
    IsApproved memory cluster_laws disk_laws "web" "web.csr"
      (world_with [])
      (run memory
        (record { query = []; fetch = [] })
        (record {
          world = world_with [];
          operation = submitting memory issue (submitter false) approver;
        })).1.world
unfolding run run_query run_generate run_submit run_approve run_fetch run_purge generate
    generate_crypto_data private_key write_key write_pem save submit send after_create approve_csr
    create approve stat write read_file lookup remove
run-approves_example =
    run-approves memory cluster_laws disk_laws (record { query = []; fetch = [] }) issue
      (world_with []) (submitter false) approver refl

abbrev unattended : Schedule
unattended = record { query = []; fetch = [] }

-- A run that replaces the request "web" and approves it.
abbrev replacing : Process memory
replacing = record { world = busy; operation = submitting memory issue (submitter true) approver }

run-Reach_example :
    Reach
      (OnlyTo (λ n. n ≡ "web"))
      (cluster_laws.stored busy.cluster)
      (cluster_laws.stored (run memory unattended replacing).1.world.cluster)
run-Reach_example = run-Reach memory cluster_laws disk_laws unattended replacing
