-- ===== src/Lifecycle/Loops.antt =====
-- The two loops that poll and the garbage collector move the requests by steps of their life.
use kube_csr.Base.{
  String, ◌≡◌, Bool, true, false, Option, none, some, List, [], ◌∷◌, ◌++◌, All, length, ℕ, Result,
  ok, err, panic, waits, Bool-cases, inl, inr, call, pure, ◌>>◌,
}
use kube_csr.Base.Int.{pos, leb_ℤ}
use kube_csr.Env.{Env, World, Eff, Csr, Bytes, Condition, Duration, on_cluster, read_host, inc}
use kube_csr.Env.Laws.{ClusterLaws}
use kube_csr.Pemio.Writes.{write_file-cluster}
use kube_csr.Pemio.{write_file}
use kube_csr.Fetch
use kube_csr.Fetch.{
  annotations_after, find_denied, update_annotations, deliver, on_pending, on_request,
  await_certificate, fetch, tick, timeout, signal,
}
use kube_csr.Purge
use kube_csr.Purge.{
  Verdict, delete, purge_if, purge_item, purge_items, measure, collect_listed, garbage_collect,
  count_error, garbage_collect_loop, delete_error_counter,
}
use kube_csr.Lifecycle.{Action, deletion, annotation, here, Reach-trans}
use kube_csr.Lifecycle.Calls.{update-Reach, get-Reach, list-Reach}
use kube_csr.Lifecycle.Parts.{Moves, bind-Moves, Moves-of_cluster, get-stored, delete-Moves}

-- A verdict leaves the kube-apiserver alone.
abbrev pub Leaves : (E : Env) → Verdict E → Type 0
Leaves E fn = (c : Csr) (grace : Duration) (w : World E) → (fn c grace w).1.cluster ≡ w.cluster

module _ (E : Env) (K : ClusterLaws E) (May : Action → String → Type 0) where
  open K use {stored}

  update_annotations-Moves :
      (conf : Fetch.Config) (r : Csr) (w : World E)
      → May annotation r.name
      → stored w.cluster r.name ≡ some r
      → Moves E K May (update_annotations E conf r) w
  unfolding update_annotations
  update_annotations-Moves conf r w may there = elim (Bool-cases conf.annotate) [
    | inr skipped ↦ rw skipped here
    | inl asked ↦
        let now = E.format_time (E.now w.host).0 in
        let sent = record r { annotations = some (annotations_after now r.annotations) } in
        rw asked (
          bind-Moves E K May (call (on_cluster E (E.update sent))) (λ _. pure tt)
            (read_host E E.now w).1 (update-Reach E K May r now w.cluster may there) (λ _ _. here))
  ]

  deliver-Moves :
      (conf : Fetch.Config) (r : Csr) (b : Bytes) (w : World E)
      → May annotation r.name
      → stored w.cluster r.name ≡ some r
      → Moves E K May (deliver E conf r b) w
  unfolding deliver
  deliver-Moves conf r b w may there =
      let write = write_file E b conf.certificate_path conf.certificate_permission conf.override in
      bind-Moves E K May (update_annotations E conf r) (λ _. write) w
        (update_annotations-Moves conf r w may there)
        (λ _ _.
          let v = (update_annotations E conf r w).1 in
          Moves-of_cluster E K May write v (
            write_file-cluster E b conf.certificate_path conf.certificate_permission conf.override
              v))

  on_pending-Moves :
      (r : Csr) (found : Option Condition) (more : Eff E (Unit {0})) (w : World E)
      → Moves E K May more w
      → Moves E K May (on_pending E r found more) w
  unfolding on_pending
  on_pending-Moves r (some c) more w h = here
  on_pending-Moves r none more w h = h

  on_request-Moves :
      (conf : Fetch.Config) (r : Csr) (b : Option Bytes) (more : Eff E (Unit {0})) (w : World E)
      → May annotation r.name
      → stored w.cluster r.name ≡ some r
      → Moves E K May more w
      → Moves E K May (on_request E conf r b more) w
  unfolding on_request
  on_request-Moves conf r (some b) more w may there h = deliver-Moves conf r b w may there
  on_request-Moves conf r none more w may there h = on_pending-Moves r _ more w h

  await_certificate-Moves :
      (conf : Fetch.Config) (name : String) (events : List Fetch.Event) (w : World E)
      → May annotation name
      → Moves E K May (await_certificate E conf name events) w
  unfolding await_certificate
  await_certificate-Moves conf name [] w may = here
  await_certificate-Moves conf name (signal s ∷ events) w may = here
  await_certificate-Moves conf name (timeout ∷ events) w may = here
  await_certificate-Moves conf name (tick ∷ events) w may =
      bind-Moves E K May (call (on_cluster E (E.get name)))
        (λ r. on_request E conf r r.certificate (await_certificate E conf name events)) w
        (get-Reach E K May name w.cluster)
        (λ r got.
          let (named, there) = get-stored E K May name w got in
          on_request-Moves conf r r.certificate (await_certificate E conf name events) _
            (rw named may) there (await_certificate-Moves conf name events _ may))

  pub fetch-Moves :
      (conf : Fetch.Config) (name : String) (events : List Fetch.Event) (w : World E)
      → May annotation name
      → Moves E K May (fetch E conf name events) w
  unfolding fetch
  fetch-Moves conf name events w may = elim (Bool-cases (leb_ℤ conf.polling_interval (pos 0))) [
    | inl bad ↦ rw bad here
    | inr good ↦ rw good (await_certificate-Moves conf name events w may)
  ]

  module _ (may : (name : String) → May deletion name) where
    purge_if-Moves :
        (b : Bool) (name : String) (purged : ℕ) (w : World E)
        → Moves E K May (purge_if E b name purged) w
    unfolding purge_if
    purge_if-Moves false name purged w = here
    purge_if-Moves true name purged w =
        bind-Moves E K May (delete E name) _ w (delete-Moves E K May name w (may name))
          (λ _ _. here)

    purge_item-Moves :
        (fns : List (Verdict E)) (grace : Duration) (c : Csr) (purged : ℕ) (w : World E)
        → All (Leaves E) fns
        → Moves E K May (purge_item E fns grace c purged) w
    unfolding purge_item
    purge_item-Moves [] grace c purged w leave = here
    purge_item-Moves (fn ∷ fns) grace c purged w leave =
        bind-Moves E K May (fn c grace) _ w
          (Moves-of_cluster E K May (fn c grace) w (leave.0 c grace w))
          (λ verdict _.
            bind-Moves E K May (purge_if E verdict c.name purged) (purge_item E fns grace c)
              (fn c grace w).1 (purge_if-Moves verdict c.name purged _)
              (λ n _. purge_item-Moves fns grace c n _ leave.1))

    purge_items-Moves :
        (fns : List (Verdict E)) (grace : Duration) (items : List Csr) (purged : ℕ) (w : World E)
        → All (Leaves E) fns
        → Moves E K May (purge_items E fns grace items purged) w
    unfolding purge_items
    purge_items-Moves fns grace [] purged w leave = here
    purge_items-Moves fns grace (c ∷ items) purged w leave =
        bind-Moves E K May (purge_item E fns grace c purged) (purge_items E fns grace items) w
          (purge_item-Moves fns grace c purged w leave)
          (λ n _. purge_items-Moves fns grace items n _ leave)

    pub garbage_collect-Moves :
        (conf : Purge.Config E) (w : World E)
        → All (Leaves E) conf.should_gc
        → Moves E K May (garbage_collect E conf) w
    unfolding garbage_collect collect_listed measure
    garbage_collect-Moves conf w leave =
        let v = (read_host E E.now w).1 in
        bind-Moves E K May (call (on_cluster E E.list)) (collect_listed E conf (E.now w.host).0) v
          (list-Reach E K May w.cluster)
          (λ items _.
            bind-Moves E K May (purge_items E conf.should_gc conf.grace_period items 0)
              (measure E (E.now w.host).0 (length items)) (on_cluster E E.list v).1
              (purge_items-Moves conf.should_gc conf.grace_period items 0 _ leave) (λ _ _. here))

    -- A failed collection is counted, and the loop goes on in the same store.
    counted-Moves :
        (result : Result E.Failure (Unit {0})) (more : Eff E (Unit {0})) (w : World E)
        → ((v : World E) → Moves E K May more v)
        → Moves E K May (count_error E result >> more) w
    unfolding count_error
    counted-Moves (ok u) more w h = h w
    counted-Moves (err e) more w h =
        h (record w { metrics = w.metrics ++ (inc delete_error_counter ∷ []) })
    counted-Moves panic more w h = here
    counted-Moves waits more w h = here

    pub garbage_collect_loop-Moves :
        (conf : Purge.Config E) (events : List Purge.Event) (w : World E)
        → All (Leaves E) conf.should_gc
        → Moves E K May (garbage_collect_loop E conf events) w
    unfolding garbage_collect_loop
    garbage_collect_loop-Moves conf [] w leave = here
    garbage_collect_loop-Moves conf (Purge.signal ∷ events) w leave = here
    garbage_collect_loop-Moves conf (Purge.tick ∷ events) w leave =
        let (result, v) = garbage_collect E conf w in
        Reach-trans (garbage_collect-Moves conf w leave) (
          counted-Moves result (garbage_collect_loop E conf events) v
            (λ u. garbage_collect_loop-Moves conf events u leave))
