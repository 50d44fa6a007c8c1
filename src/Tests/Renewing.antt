-- ===== src/Tests/Renewing.antt =====
-- Examples of renewing.
use kube_csr.Env.Memory.Lawful.{cluster_laws, disk_laws}
use kube_csr.Lifecycle.Advances.{IsKept}
use kube_csr.Lifecycle.Renewals.{IsNameOf, renew-IsKept}
use kube_csr.Base.{
  remove, String, ◌≡◌, ◌↔◌, refl, true, false, none, some, [], ◌∷◌, arith, failure, ok, waits,
  lookup,
}
use kube_csr.Base.Int.{pos, ◌+ℤ◌, ◌-ℤ◌, ◌≤ℤ◌, neg, wrap64}
use kube_csr.Env.Memory.{memory, denied, get, stat, write, read_file}
use kube_csr.Fetch
use kube_csr.Fetch.{
  await_certificate, Fetch, fetch, await_certificate, on_request, deliver, update_annotations,
}
use kube_csr.Pemio.{write_file, save}
use kube_csr.Operation.{
  run, run_query, run_generate, run_submit, run_approve, run_fetch, run_purge, Process, Schedule,
}
use kube_csr.Renew.{
  Renew, renewed, signal, tick, after_tick, should_renew, should_renew_with, read_end, sub_time,
  renew_now, choose_name, prefix, is_due, renew_loop, process_renew, renew, run_renew_command,
}
use kube_csr.Renew.Channel.{
  Stops, IsCommand, renew_loop-waits, renew_loop-Stops, renew_loop-IsCommand,
}
use kube_csr.Renew.Threshold.{is_due_iff}
use kube_csr.Tests.{kube_client, issue, stored_web, world_with}

is_due_iff_example :
    ((is_due memory (pos 120) (pos 30) (world_with [])).0 ≡ ok true)
    ↔ (pos 120 ≤ℤ pos 100 +ℤ pos 30)
unfolding ◌-ℤ◌ ◌+ℤ◌ neg
is_due_iff_example =
    is_due_iff memory (pos 120) (pos 30) (world_with [])
      (record { below = omega arith; above = omega arith })
      (record { below = omega arith; above = omega arith })

abbrev fetcher : Fetch memory
fetcher = record {
  conf = record {
    override = true;
    polling_interval = pos 1;
    polling_timeout = pos 10;
    certificate_path = "web.crt";
    certificate_permission = 384;
    annotate = false;
  };
  kube_client = kube_client;
}

-- A renewal that only fetches the certificate, which is due, again.
abbrev renewer : String → Renew memory
renewer command = record {
  conf = record {
    operation = record issue { generate = none; fetch = some fetcher };
    renew_threshold = pos 30;
    renew_command = command;
    exit_on_renew = false;
    generate_new_csr = true;
    prometheus_bind = "";
    check_interval = pos 60;
  };
  csr_basename = "web";
  kube_client = kube_client;
}

abbrev fetching : Process memory
fetching = record {
  world =
      record (world_with
        (("web-0a1b2c3d-4e5f", record stored_web { certificate = some (9 ∷ []) }) ∷ [])) {
          disk = ("web.crt", 9 ∷ []) ∷ [];
        };
  operation = record issue { generate = none; fetch = some fetcher };
}

abbrev once : Schedule
once = record { query = []; fetch = Fetch.tick ∷ [] }

abbrev after_one : Process memory
after_one = (process_renew memory (renewer "") once fetching).1

is_renewed : (process_renew memory (renewer "") once fetching).0 ≡ ok true
unfolding process_renew should_renew should_renew_with read_end is_due sub_time renew_now
    choose_name prefix run run_query run_generate run_submit run_approve run_fetch run_purge fetch
    await_certificate on_request deliver update_annotations write_file save get stat write read_file
    lookup remove wrap64 ◌-ℤ◌ ◌+ℤ◌ neg
is_renewed = refl

is_renewed_again : (process_renew memory (renewer "") once after_one).0 ≡ ok true
unfolding process_renew should_renew should_renew_with read_end is_due sub_time renew_now
    choose_name prefix run run_query run_generate run_submit run_approve run_fetch run_purge fetch
    await_certificate on_request deliver update_annotations write_file save get stat write read_file
    lookup remove wrap64 ◌-ℤ◌ ◌+ℤ◌ neg
is_renewed_again = refl

renew_loop-waits_example :
    renew_loop memory (renewer "") (tick once ∷ tick once ∷ signal ∷ []) false fetching
    ≡ (waits, (process_renew memory (renewer "") once after_one).1)
renew_loop-waits_example =
    renew_loop-waits memory (renewer "") once once (signal ∷ []) fetching is_renewed
      is_renewed_again

renew_loop-Stops_example : Stops false (tick once ∷ signal ∷ [])
unfolding renew_loop after_tick process_renew should_renew should_renew_with read_end is_due
    sub_time renew_now choose_name prefix run run_query run_generate run_submit run_approve
    run_fetch run_purge fetch await_certificate on_request deliver update_annotations write_file
    save get stat write read_file lookup remove wrap64 ◌-ℤ◌ ◌+ℤ◌ neg
renew_loop-Stops_example =
    renew_loop-Stops memory (renewer "") (tick once ∷ signal ∷ []) false fetching refl

renew_loop-IsCommand_example : IsCommand memory (renewer "false") (failure denied)
unfolding renew_loop run_renew_command
renew_loop-IsCommand_example =
    renew_loop-IsCommand memory (renewer "false") (renewed ∷ []) true fetching (failure denied) refl

abbrev starting : Process memory
starting = record fetching {
  operation = record fetching.operation {
    source_config = record fetching.operation.source_config { name = "web" };
  };
}

renew-IsKept_example :
    let after =
      (renew memory (renewer "") once (tick once ∷ renewed ∷ signal ∷ []) starting).1.operation in
    IsKept starting.operation after × IsNameOf (renewer "") after.source_config.name
renew-IsKept_example =
    renew-IsKept memory cluster_laws disk_laws (renewer "") once (tick once ∷ renewed ∷ signal ∷ [])
      starting refl
