-- ===== src/Tests/Issuing.antt =====
-- Examples of the two commands.
use kube_csr.Base.{ap, some, lookup, remove, String, ◌≡◌, panic, refl, List, [], ◌∷◌, ok, has}
use kube_csr.Base.Int.{pos}
use kube_csr.Env.Memory.{create, approve, read_file, memory}
use kube_csr.Env.Memory.Lawful.{cluster_laws, disk_laws}
use kube_csr.Kubeclient.{build, build_in_cluster_config, connect, connect_built, new_kube_client}
use kube_csr.Fetch
use kube_csr.Purge
use kube_csr.Purge.{new_purge}
use kube_csr.Operation.{Schedule}
use kube_csr.Settings.{Settings}
use kube_csr.Cmd.{
  absolute_path, is_abs, csr_name, new_csr_config, new_submit_client, new_fetch_client,
  new_approve_client, new_delete_client, new_garbage_collector, collector_config,
}
use kube_csr.Approve.{new_approval}
use kube_csr.Submit.{new_submitter}
use kube_csr.Fetch.{new_fetcher}
use kube_csr.Cmd.Commands.{execute, collect_garbage, new_operation, settle}
use kube_csr.Cmd.Commands
use kube_csr.Cmd.Codes.{issue-IsSpotless, collect_garbage-IsSpotless}
use kube_csr.Cmd.Deletions.{ending, status, preparations, issue_panics}
use kube_csr.Main.{exit_status}
use kube_csr.Cmd.Lives.{collect_garbage-Reach}
use kube_csr.Cmd.Issued.{IsIssued, issue-Reach}
use kube_csr.Lifecycle.{Reach}
use kube_csr.Lifecycle.Advances.{OnlyTo}
use kube_csr.Lifecycle.Collections.{Deleting}
use kube_csr.Cmd.Approved.{AsksApproval, HasApproved, issue-HasApproved}
use kube_csr.Submit.{submit, send, after_create}
use kube_csr.Approve.{approve_csr}
use kube_csr.Operation.{run, run_query, run_generate, run_submit, run_approve, run_fetch, run_purge}
use kube_csr.Env.{World}
use kube_csr.Tests.{busy}

-- The settings where the given flags are set, and the durations are one second.
abbrev flags : List String → Settings
flags asked = record {
  get_bool = λ key. has key asked;
  get_string = λ key. "";
  get_int = λ key. pos 384;
  get_duration = λ key. pos 1_000_000_000;
  get_strings = λ key. [];
}

abbrev pub idle : Schedule
idle = record { query = []; fetch = Fetch.tick ∷ Fetch.timeout ∷ [] }

issue-Reach_example :
    Reach
      (OnlyTo (IsIssued memory (flags ("submit" ∷ "override" ∷ [])) "cn"))
      (cluster_laws.stored busy.cluster)
      (cluster_laws.stored
        (Commands.issue memory (flags ("submit" ∷ "override" ∷ [])) "cn" idle [] busy).1.cluster)
issue-Reach_example =
    issue-Reach memory cluster_laws disk_laws (flags ("submit" ∷ "override" ∷ [])) "cn" idle [] busy

collect_garbage-Reach_example : Reach Deleting (cluster_laws.stored busy.cluster) (
    cluster_laws.stored
      (collect_garbage memory
        (flags ("denied" ∷ "daemon" ∷ []))
        (Purge.tick ∷ Purge.signal ∷ [])
        busy).1.cluster)
collect_garbage-Reach_example =
    collect_garbage-Reach memory cluster_laws (flags ("denied" ∷ "daemon" ∷ []))
      (Purge.tick ∷ Purge.signal ∷ []) busy

-- An interval of zero, which the fetcher refuses after the client that submits has been built.
abbrev refused : Settings
refused = record (flags ("submit" ∷ "fetch" ∷ "delete" ∷ [])) { get_duration = λ key. pos 0 }

issue-refused : (Commands.issue memory refused "cn" idle [] busy).0 ≡ ok 1
unfolding Commands.issue has new_operation settle csr_name new_csr_config new_submit_client
    new_submitter new_fetch_client new_fetcher new_kube_client build build_in_cluster_config
    connect_built connect
issue-refused = refl

issue-IsSpotless_example :
    (Commands.issue memory refused "cn" idle [] busy).1.cluster ≡ busy.cluster
issue-IsSpotless_example = issue-IsSpotless memory refused "cn" idle [] busy issue-refused

-- A period of zero, which the garbage collector refuses.
abbrev refused_collection : Settings
refused_collection = record (flags ("denied" ∷ [])) { get_duration = λ key. pos 0 }

collect_garbage-refused : (collect_garbage memory refused_collection [] busy).0 ≡ ok 1
unfolding collect_garbage has settle new_garbage_collector new_purge collector_config
collect_garbage-refused = refl

collect_garbage-IsSpotless_example :
    (collect_garbage memory refused_collection [] busy).1.cluster ≡ busy.cluster
collect_garbage-IsSpotless_example =
    collect_garbage-IsSpotless memory refused_collection [] busy collect_garbage-refused

-- Settings that no part refuses, with a deletion at the end.
abbrev deleting : Settings
deleting = flags ("generate" ∷ "submit" ∷ "approve" ∷ "delete" ∷ [])

issue-deleting : (Commands.issue memory deleting "cn" idle [] busy).0 ≡ panic
unfolding Commands.issue has new_operation settle csr_name new_csr_config new_submit_client
    new_submitter new_approve_client new_approval new_delete_client new_purge new_kube_client build
    build_in_cluster_config connect_built connect
issue-deleting = refl

issue_panics_example :
    let (result, w') = Commands.issue memory deleting "cn" idle [] busy in
    let (prepared, v) = preparations memory deleting "cn" busy in
    (result ≡ ending prepared)
    × (exit_status result ≡ status prepared)
    × (w' ≡ v)
    × (w'.cluster ≡ busy.cluster)
unfolding has
issue_panics_example = issue_panics memory deleting "cn" idle [] busy refl

-- The status of that process, and of one that cannot build its parts.
issue_panics-status :
    (exit_status (Commands.issue memory deleting "cn" idle [] busy).0 ≡ some 2)
    × (exit_status (Commands.issue memory refused "cn" idle [] busy).0 ≡ some 1)
unfolding exit_status
issue_panics-status = (ap exit_status issue-deleting, ap exit_status issue-refused)

-- The settings that submit and approve what the file of the request holds.
abbrev approving : Settings
approving = flags ("submit" ∷ "approve" ∷ [])

abbrev prepared : World memory
prepared = record busy { disk = ("/work/", 5 ∷ 6 ∷ []) ∷ [] }

approving-AsksApproval : AsksApproval approving
unfolding has
approving-AsksApproval = record {
  query = refl;
  submit = refl;
  approve = refl;
  fetch = refl;
  purge = refl;
  renew = refl;
}

issue-approving : (Commands.issue memory approving "cn" idle [] prepared).0 ≡ ok 0
unfolding Commands.issue has new_operation settle csr_name new_csr_config absolute_path is_abs
    new_submit_client new_submitter new_approve_client new_approval new_kube_client build
    build_in_cluster_config connect_built connect execute run run_query run_generate run_submit
    run_approve run_fetch run_purge submit send after_create approve_csr create approve read_file
    lookup remove
issue-approving = refl

issue-HasApproved_example :
    HasApproved memory cluster_laws disk_laws approving "cn" prepared
      (Commands.issue memory approving "cn" idle [] prepared).1
issue-HasApproved_example =
    issue-HasApproved memory cluster_laws disk_laws approving "cn" approving-AsksApproval idle []
      prepared issue-approving
