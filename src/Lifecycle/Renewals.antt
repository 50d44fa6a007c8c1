-- ===== src/Lifecycle/Renewals.antt =====
-- A renewal moves the requests of its names by steps of their life, and keeps its configuration.
use kube_csr.Base.{
  if_holds, String, ◌<>◌, ◌≡◌, refl, Bool, true, false, not, List, [], ◌∷◌, Result, ok, err, panic,
  waits, Option, none, some, pure, ◌>>=◌, if◌then◌else◌, call, bind-keeps,
}
use kube_csr.Api.{register_api, pprof_bind_default}
use kube_csr.Env.{
  Env, World, Eff, Duration, Block, Time, inc, emit, read_host, on_disk, on_host, start_ticker,
}
use kube_csr.Env.Laws.{DiskLaws, ClusterLaws}
use kube_csr.Fetch.{Fetch}
use kube_csr.Operation.{Process, Schedule, Run, within, modify, run}
use kube_csr.Renew.{
  Renew, Event, signal, renewed, tick, prefix, should_renew, should_renew_with, read_end, is_due,
  rename, choose_name, renew_now, process_renew, run_renew_command, after_tick, renew_loop, renew,
}
use kube_csr.Lifecycle.{Reach, here}
use kube_csr.Lifecycle.Parts.{register_api-cluster, start_ticker-cluster, Moves-of_cluster}
use kube_csr.Lifecycle.Advances.{
  IsKept, OnlyTo, Advances-trans, Does, bind-Does, within-Does, pure-Does, changed-IsKept,
}
use kube_csr.Lifecycle.Runs.{run-Does}

-- The names that a renewal uses: its base name, and new ones if it may make them.
pub data IsNameOf {E : Env} (r : Renew E) : String → Type 0 where
  base : IsNameOf r r.csr_basename
  new :
      (uuid : String)
      → r.conf.generate_new_csr ≡ true
      → IsNameOf r (r.csr_basename <> "-" <> prefix 13 uuid)

module _ (E : Env) (K : ClusterLaws E) (D : DiskLaws E) (r : Renew E) where
  open K use {stored}

  abbrev Part : {A : Type 0} → Run E A → Type 0
  Part m = (p : Process E) → Does E K (IsNameOf r) m p

  -- A part that leaves the operation and the kube-apiserver alone.
  aside :
      {A : Type 0} (m : Eff E A) → ((w : World E) → (m w).1.cluster ≡ w.cluster) → Part (within E m)
  aside m same p =
      within-Does E K (IsNameOf r) m p
        (λ _. Moves-of_cluster E K (OnlyTo (IsNameOf r)) m p.world (same p.world))

  read_end-cluster :
      (path : String) (block : Option Block) (w : World E)
      → (read_end E path block w).1.cluster ≡ w.cluster
  unfolding read_end
  read_end-cluster path none w = refl
  read_end-cluster path (some b) w = refl

  is_due-cluster :
      (t : Time) (threshold : Duration) (w : World E)
      → (is_due E t threshold w).1.cluster ≡ w.cluster
  unfolding is_due
  is_due-cluster t threshold w = refl

  should_renew_with-cluster :
      (threshold : Duration) (f : Option (Fetch E)) (w : World E)
      → (should_renew_with E threshold f w).1.cluster ≡ w.cluster
  unfolding should_renew_with
  should_renew_with-cluster threshold none w = refl
  should_renew_with-cluster threshold (some f) w =
      let at : World E → E.Cluster = λ v. v.cluster in
      bind-keeps at (call (on_disk E (E.read_file f.conf.certificate_path))) _ w refl (λ b v.
        bind-keeps at (read_end E f.conf.certificate_path (E.pem_decode b).0) _ v
          (read_end-cluster f.conf.certificate_path (E.pem_decode b).0 v)
          (λ t u. is_due-cluster t threshold u))

  should_renew-Does : Part (should_renew E r)
  unfolding should_renew
  should_renew-Does p =
      let f = p.operation.fetch in
      aside (should_renew_with E r.conf.renew_threshold f)
        (should_renew_with-cluster r.conf.renew_threshold f) p

  choose_name-Does : Part (choose_name E r)
  unfolding choose_name
  choose_name-Does p = choose r.conf.generate_new_csr refl
    where
      renaming : Run E (Unit {0})
      renaming = do
        uuid ← within E (read_host E E.new_uuid)
        modify E (rename E (r.csr_basename <> "-" <> prefix 13 uuid))

      choose :
          (b : Bool)
          → r.conf.generate_new_csr ≡ b
          → Does E K (IsNameOf r) (if not b then pure tt else renaming) p
      choose false kept = pure-Does E K (IsNameOf r) tt p
      choose true asked =
          let o = p.operation in
          let uuid = (E.new_uuid p.world.host).0 in
          record {
            kept =
                changed-IsKept E K (IsNameOf r) o (r.csr_basename <> "-" <> prefix 13 uuid)
                  o.source_config.hosts o.query o.approved;
            name = λ _. new uuid asked;
            moves = λ _. here;
          }

  renew_now-Does : (schedule : Schedule) → Part (renew_now E r schedule)
  unfolding renew_now
  renew_now-Does schedule p =
      bind-Does E K (IsNameOf r) (choose_name E r) _ p (choose_name-Does p) (λ _ _.
        bind-Does E K (IsNameOf r) (run E schedule) _ _ (run-Does E K (IsNameOf r) D schedule _)
          (λ _ _. aside (emit E (inc "total_renew")) (λ w. refl) _))

  process_renew-Does : (schedule : Schedule) → Part (process_renew E r schedule)
  unfolding process_renew
  process_renew-Does schedule p =
      bind-Does E K (IsNameOf r) (should_renew E r) _ p (should_renew-Does p) (λ due _.
        if_holds (λ m. Does E K (IsNameOf r) m (should_renew E r p).1) (not due) (pure false)
          (renew_now E r schedule) (pure-Does E K (IsNameOf r) false _) (renew_now-Does schedule _))

  run_renew_command-Does : Part (run_renew_command E r)
  unfolding run_renew_command
  run_renew_command-Does p =
      let command = within E (call (on_host E (E.run_command r.conf.renew_command))) in
      if_holds (λ m. Does E K (IsNameOf r) m p) _ (pure tt) command
        (pure-Does E K (IsNameOf r) tt p)
        (aside (call (on_host E (E.run_command r.conf.renew_command))) (λ w. refl) p)

  after_tick-Does :
      (result : Result E.Failure Bool) (pending : Bool) (more : Bool → Run E (Unit {0}))
      → ((pending : Bool) → Part (more pending))
      → Part (after_tick E result pending more)
  unfolding after_tick
  after_tick-Does (ok false) pending more h p = h pending p
  after_tick-Does (ok true) true more h p = pure-Does E K (IsNameOf r) tt p
  after_tick-Does (ok true) false more h p = h true p
  after_tick-Does (err e) pending more h p =
      bind-Does E K (IsNameOf r) (within E (emit E (inc "total_renew_errors"))) (λ _. more pending)
        p (aside (emit E (inc "total_renew_errors")) (λ w. refl) p) (λ _ _. h pending _)
  after_tick-Does panic pending more h p = pure-Does E K (IsNameOf r) tt p
  after_tick-Does waits pending more h p = pure-Does E K (IsNameOf r) tt p

  renew_loop-Does : (events : List Event) (pending : Bool) → Part (renew_loop E r events pending)
  unfolding renew_loop
  renew_loop-Does [] pending p = pure-Does E K (IsNameOf r) tt p
  renew_loop-Does (signal ∷ events) pending p = pure-Does E K (IsNameOf r) tt p
  renew_loop-Does (renewed ∷ events) false p = renew_loop-Does events false p
  renew_loop-Does (renewed ∷ events) true p =
      bind-Does E K (IsNameOf r) (run_renew_command E r) _ p (run_renew_command-Does p) (λ _ _.
        if_holds (λ m. Does E K (IsNameOf r) m (run_renew_command E r p).1)
          (not r.conf.exit_on_renew) (renew_loop E r events false) (pure tt)
          (renew_loop-Does events false _) (pure-Does E K (IsNameOf r) tt _))
  renew_loop-Does (tick schedule ∷ events) pending p =
      let (result, q) = process_renew E r schedule p in
      Advances-trans E K (IsNameOf r) p q _ (process_renew-Does schedule p)
        (after_tick-Does result pending (renew_loop E r events) (renew_loop-Does events) q)

  renew-Does : (first : Schedule) (events : List Event) → Part (renew E r first events)
  unfolding renew
  renew-Does first events p =
      let bind = r.conf.prometheus_bind in
      bind-Does E K (IsNameOf r) (within E (register_api E bind pprof_bind_default)) _ p
        (aside (register_api E bind pprof_bind_default)
          (register_api-cluster E bind pprof_bind_default) p)
        (λ _ _.
          bind-Does E K (IsNameOf r) (process_renew E r first) _ _ (process_renew-Does first _)
            (λ renewed_first _.
              bind-Does E K (IsNameOf r) (within E (start_ticker E r.conf.check_interval)) _ _
                (aside (start_ticker E r.conf.check_interval)
                  (start_ticker-cluster E r.conf.check_interval) _)
                (λ _ _. renew_loop-Does events renewed_first _)))

  module _ (first : Schedule) (events : List Event) (p : Process E) where
    -- Whatever the renewal meets and however it ends, the operation that it started with the base name
    -- has kept all of its configuration but the hosts and the name, with the parts to generate, submit,
    -- approve, fetch and delete; its name is the base name or, where new names may be made, the base
    -- name with the first bytes of an identifier.
    pub renew-IsKept :
        p.operation.source_config.name ≡ r.csr_basename
        → let after = (renew E r first events p).1.operation in
          IsKept p.operation after × IsNameOf r after.source_config.name
    renew-IsKept named =
        let does = renew-Does first events p in (does.kept, does.name (rw named base))

    -- A renewal that starts with the base name moves no request but those of its names, and those by
    -- steps of their life only.
    pub renew-Reach :
        p.operation.source_config.name ≡ r.csr_basename
        → Reach
            (OnlyTo (IsNameOf r))
            (stored p.world.cluster)
            (stored (renew E r first events p).1.world.cluster)
    renew-Reach named = (renew-Does first events p).moves (rw named base)
