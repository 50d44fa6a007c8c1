-- ===== src/Tests/Purging.antt =====
-- Examples of collecting requests.
use kube_csr.Base.{
  remove, String, ◌≡◌, ◌≢◌, ◌↔◌, ◌≤◌, refl, Bool, true, none, some, List, [], ◌∷◌, ◌++◌, arith,
  length, All, fine, ok, err, errorf, if◌then◌else◌, lookup, has,
}
use kube_csr.Base.Int.{pos, ◌+ℤ◌, ◌-ℤ◌, ◌≤ℤ◌, wrap64, neg}
use kube_csr.Env.{World, Csr, Metric, set_gauge}
use kube_csr.Env.Memory.{memory, delete}
use kube_csr.Env.Memory.Lawful.{cluster_laws, clock_laws}
use kube_csr.Fetch.{certificate_denied}
use kube_csr.Fetch.Annotations.{fetched_at}
use kube_csr.Purge
use kube_csr.Purge.{
  Config, Verdict, new_purge_config, csr_gauge, grace_limit, is_past, is_block_expired,
  is_certificate_expired, is_before_limit, is_first_denied, is_condition_denied,
  is_annotation_fetched, purge_if, purge_item, purge_items, measure, collect_listed,
  garbage_collect, count_error, garbage_collect_loop, signal, tick,
}
use kube_csr.Purge.Verdicts.{
  DeniedBefore, is_condition_denied_iff, is_annotation_fetched_iff, is_certificate_expired_iff,
}
use kube_csr.Purge.Answers.{Rows, hits, collected, total_hits}
use kube_csr.Purge.Collect.{garbage_collect-collects}
use kube_csr.Purge.Twice.{IsDueTwice, garbage_collect-double}
use kube_csr.Lifecycle.Collections.{is_condition_denied-Leaves}
use kube_csr.Cmd.{collector_config}
use kube_csr.Settings.{Settings}
use kube_csr.Purge.Days.{shown, duration_format, duration_format-shown}
use kube_csr.Purge.Daemon.{Signalled, garbage_collect_loop-goes_on, garbage_collect_loop-Signalled}
use kube_csr.Tests.{stored_web, world_with}

-- A request that was denied at 50 and whose certificate ended at 9.
abbrev spent : Csr
spent = record stored_web {
  conditions =
      record {
        kind = certificate_denied;
        reason = "policy";
        message = "no";
        last_update_time = pos 50;
      }
      ∷ [];
  certificate = some (9 ∷ []);
}

abbrev requests : World memory
requests = world_with (("web", spent) ∷ ("new", record stored_web { name = "new" }) ∷ [])

-- At 100 with a grace period of 10: the limit is 90.
is_condition_denied_iff_example :
    ((is_condition_denied memory spent (pos 10) requests).0 ≡ ok true)
    ↔ DeniedBefore spent.conditions 10 (pos 100)
is_condition_denied_iff_example = is_condition_denied_iff memory spent 10 requests (omega arith)

is_certificate_expired_iff_example :
    ((is_certificate_expired memory spent (pos 10) requests).0 ≡ ok true)
    ↔ ((pos 9 ≤ℤ pos 100) × (pos 9 +ℤ pos 10 ≤ℤ pos 100))
is_certificate_expired_iff_example =
    is_certificate_expired_iff memory spent (9 ∷ []) (record { kind = "PEM"; bytes = 9 ∷ [] })
      (pos 9) 10 requests (omega arith) refl refl refl

abbrev fetched : Csr
fetched = record stored_web { annotations = some (fetched_at "noon" ("noon" ∷ [])) }

is_annotation_fetched_iff_example :
    ((is_annotation_fetched memory fetched (pos 10) requests).0 ≡ ok true)
    ↔ (pos 12 +ℤ pos 10 ≤ℤ pos 100)
is_annotation_fetched_iff_example =
    is_annotation_fetched_iff memory fetched "noon" ("noon" ∷ []) (pos 12) 10 requests (omega arith)
      (omega arith) refl refl refl

abbrev collecting : List (Verdict memory) → Config memory
collecting fns = record {
  should_gc = fns;
  grace_period = pos 10;
  polling_period = pos 60;
  prometheus_bind = "";
}

abbrev by_denial : Config memory
by_denial = collecting (is_condition_denied memory ∷ [])

abbrev collected_requests : World memory
collected_requests = (garbage_collect memory by_denial requests).1

garbage_collect-collects_example :
    let listed : World memory = record requests {
      host = 101;
      cluster = (memory.list requests.cluster).1;
    } in
    (items : List Csr) × (rows : List (List Bool)) × (purged : World memory) × ((memory.list
        requests.cluster).0
      ≡ fine items)
    × Rows memory (pos 10) by_denial.should_gc items listed rows purged
    × All (λ bs. hits bs ≤ 1) rows
    × ((j : String)
        → cluster_laws.stored collected_requests.cluster j
          ≡ (if collected items rows j then none else cluster_laws.stored requests.cluster j))
    × (before : List Metric) × (collected_requests.metrics
        ≡ before ++ (set_gauge csr_gauge (pos (length items) -ℤ pos (total_hits rows)) ∷ []))
unfolding garbage_collect collect_listed purge_items purge_item purge_if measure is_condition_denied
    is_first_denied is_before_limit Purge.delete delete remove lookup wrap64 neg ◌+ℤ◌
garbage_collect-collects_example =
    garbage_collect-collects memory cluster_laws by_denial requests
      (is_condition_denied-Leaves memory, tt) refl

-- A request that was denied at 50 and fetched last at 12.
abbrev denied_and_fetched : Csr
denied_and_fetched = record spent { annotations = some (fetched_at "noon" []) }

abbrev twice : World memory
twice = world_with (
    ("new", record stored_web { name = "new" })
    ∷ ("web", denied_and_fetched)
    ∷ ("web2", spent)
    ∷ [])

abbrev collecting_both : Settings
collecting_both = record {
  get_bool = λ key. has key ("denied" ∷ "fetched" ∷ []);
  get_string = λ key. "";
  get_int = λ key. pos 0;
  get_duration = λ key. pos 10;
  get_strings = λ key. [];
}

twice-IsDueTwice : IsDueTwice memory denied_and_fetched 10 (pos 100)
unfolding ◌+ℤ◌
twice-IsDueTwice = record {
  denied = (refl, omega arith);
  first = "noon";
  times = [];
  few = omega arith;
  annotated = refl;
  dated = refl;
  last = pos 12;
  parsed = refl;
  over = omega arith;
}

garbage_collect-double_example :
    (garbage_collect memory (collector_config memory collecting_both) twice).0 ≢ ok tt
unfolding has
garbage_collect-double_example =
    garbage_collect-double memory cluster_laws clock_laws (pos 100) 10 denied_and_fetched
      collecting_both twice (record stored_web { name = "new" } ∷ []) (spent ∷ []) refl refl refl
      (omega arith) twice-IsDueTwice (omega arith) refl

garbage_collect_loop-goes_on_example :
    (garbage_collect_loop memory by_denial (tick ∷ signal ∷ []) requests).0
    ≢ err (errorf "not found")
garbage_collect_loop-goes_on_example =
    garbage_collect_loop-goes_on memory by_denial (tick ∷ signal ∷ []) requests (errorf "not found")

garbage_collect_loop-Signalled_example : Signalled (tick ∷ signal ∷ [])
unfolding garbage_collect_loop count_error garbage_collect collect_listed purge_items purge_item
    purge_if measure is_condition_denied is_first_denied is_before_limit Purge.delete delete remove
    lookup wrap64 neg ◌+ℤ◌
garbage_collect_loop-Signalled_example =
    garbage_collect_loop-Signalled memory by_denial (tick ∷ signal ∷ []) requests refl

-- A day and two seconds.
duration_format-shown_example :
    (duration_format memory (pos 86_402_000_000_000) ≡ some (shown memory 1 (pos 2_000_000_000)))
    × (duration_format memory (neg (pos 86_402_000_000_000))
        ≡ some (shown memory 1 (pos 2_000_000_000)))
duration_format-shown_example = duration_format-shown memory 86_402_000_000_000 (omega arith)
