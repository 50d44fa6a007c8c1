-- ===== src/Tests/Fetching.antt =====
-- Examples of fetching a certificate.
use kube_csr.Base.{
  remove, ◌≡◌, ◌≢◌, refl, true, false, some, [], ◌∷◌, arith, err, waits, errorf, lookup,
}
use kube_csr.Base.Int.{pos}
use kube_csr.Env.{World, Csr, Condition}
use kube_csr.Env.Memory.{memory, get, stat, write}
use kube_csr.Env.Memory.Lawful.{disk_laws}
use kube_csr.Pemio.{write_file, save}
use kube_csr.Strconv.{atoi}
use kube_csr.Fetch
use kube_csr.Fetch.{
  await_certificate, annotation_count, annotation_date, certificate_denied, text_at, find_denied,
  denial, tick, timeout, fetch, on_request, on_pending, deliver, update_annotations,
}
use kube_csr.Fetch.Annotations.{fetched_at, last_of, fetched_at-count}
use kube_csr.Fetch.Polling.{
  by_timeout, later, IsDelivered, fetch-returns, fetch-denied, fetch-IsDelivered,
}
use kube_csr.Approve.{approval_condition}
use kube_csr.Tests.{stored_web, world_with}

abbrev polling : Fetch.Config
polling = record {
  override = false;
  polling_interval = pos 1;
  polling_timeout = pos 10;
  certificate_path = "web.crt";
  certificate_permission = 384;
  annotate = false;
}

-- A request with a certificate, one that is denied, and one that nobody has looked at.
abbrev issued : World memory
issued = world_with (("web", record stored_web { certificate = some (9 ∷ []) }) ∷ [])

abbrev denied_condition : Condition
denied_condition = record {
  kind = certificate_denied;
  reason = "policy";
  message = "no";
  last_update_time = pos 50;
}

-- It was approved before, and denied once more after.
abbrev denied_web : Csr
denied_web = record stored_web {
  conditions =
      approval_condition ∷ denied_condition ∷ record denied_condition { reason = "again" } ∷ [];
}

abbrev denied : World memory
denied = world_with (("web", denied_web) ∷ [])

fetch-IsDelivered_example :
    IsDelivered memory disk_laws "web" "web.crt" (fetch memory polling "web" (tick ∷ []) issued).1
unfolding fetch await_certificate on_request deliver update_annotations write_file save get stat
    write lookup remove
fetch-IsDelivered_example = fetch-IsDelivered memory disk_laws polling "web" (tick ∷ []) issued refl

fetch-denied_example :
    ((fetch memory polling "web" (tick ∷ tick ∷ []) denied).0
      ≡ err (errorf (denial memory denied_web denied_condition)))
    × ((fetch memory polling "web" (tick ∷ tick ∷ []) denied).1 ≡ denied)
unfolding get lookup
fetch-denied_example =
    fetch-denied memory polling "web" (tick ∷ []) denied {r = denied_web} denied_condition
      (approval_condition ∷ []) (record denied_condition { reason = "again" } ∷ []) refl refl refl
      refl (refl, tt) refl

fetch-returns_example : (fetch memory polling "web" (tick ∷ timeout ∷ []) (world_with [])).0 ≢ waits
fetch-returns_example = fetch-returns memory polling "web" (world_with []) (later (by_timeout []))

fetched_at-count_example :
    (atoi (text_at annotation_count (fetched_at "a" ("c" ∷ "b" ∷ []))) ≡ (pos 3, true))
    × (text_at annotation_date (fetched_at "a" ("c" ∷ "b" ∷ [])) ≡ last_of "a" ("c" ∷ "b" ∷ []))
fetched_at-count_example = fetched_at-count "a" ("c" ∷ "b" ∷ []) (omega arith)
