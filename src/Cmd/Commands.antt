-- ===== src/Cmd/Commands.antt =====
-- cmd/cmd.go: what the two commands run, and the exit codes that they leave.
use kube_csr.Base.{
  ℕ, String, Bool, false, not, ◌&&◌, ◌||◌, Option, none, some, List, Result, ok, err, panic, waits,
  pure, crash, wait, ◌>>=◌, if◌then◌else◌,
}
use kube_csr.Env.{Env, Eff}
use kube_csr.Settings.{Settings}
use kube_csr.Purge
use kube_csr.Purge.{Purge, garbage_collect, garbage_collect_daemon}
use kube_csr.Operation.{Operation, Schedule, Run, shared, run}
use kube_csr.Renew
use kube_csr.Renew.{renew}
use kube_csr.Cmd.{
  is_empty, csr_name, new_csr_config, new_submit_client, new_approve_client, new_fetch_client,
  new_delete_client, new_garbage_collector, new_service_query, new_renew,
}

module _ (E : Env) where
  -- `if err != nil { exitCode = code; return }`, and what follows it
  unfoldable pub settle : {A : Type 0} → ℕ → Result E.Failure A → (A → Eff E ℕ) → Eff E ℕ
  settle code (ok a) more = more a
  settle code (err e) more = pure code
  settle code panic more = crash
  settle code waits more = wait

  abbrev pub or_exit : {A : Type 0} → ℕ → Eff E A → (A → Eff E ℕ) → Eff E ℕ
  or_exit code m more w = settle code (m w).0 more (m w).1

  abbrev pub collects_nothing : Settings → Bool
  collects_nothing s =
      not (s.get_bool "denied") && (not (s.get_bool "fetched") && not (s.get_bool "expired"))

  abbrev pub collecting : Settings → List Purge.Event → Purge E → Eff E (Unit {0})
  collecting s events gc =
      if s.get_bool "daemon"
      then garbage_collect_daemon E gc.conf events
      else garbage_collect E gc.conf

  -- The `Run` of the command that collects garbage: its exit code.
  unfoldable pub collect_garbage : Settings → List Purge.Event → Eff E ℕ
  collect_garbage s events =
      if collects_nothing s
      then pure 1
      else or_exit 1 (new_garbage_collector E s)
          λ gc. or_exit 2 (collecting s events gc) λ _. pure 0

  -- A part that stays nil where it is not asked for.
  abbrev pub optionally : {A : Type 0} → Bool → Eff E A → Eff E (Option A)
  optionally asked m = if asked then (do a ← m; pure (some a)) else pure none

  -- An operation's own run, seen from the world around it.
  abbrev pub operating : {A : Type 0} → Operation E → Run E A → Eff E A
  operating o m w = let (result, p) = m (record { world = w; operation = o }) in (result, p.world)

  abbrev pub asks_nothing : Settings → Bool
  asks_nothing s =
      not (s.get_bool "generate")
      && (not (s.get_bool "renew")
          && (not (s.get_bool "submit")
              && (not (s.get_bool "approve")
                  && (not (s.get_bool "fetch") && not (s.get_bool "delete")))))

  -- The operation that `issue` builds.
  unfoldable pub new_operation : Settings → String → (Operation E → Eff E ℕ) → Eff E ℕ
  new_operation s common_name more =
      let svc_to_query = s.get_strings "query-svc" in
      or_exit 1 (csr_name E s common_name) λ name.
        or_exit 1 (new_csr_config E s common_name name) λ config.
          or_exit 1 (optionally (not (is_empty svc_to_query)) (new_service_query E s svc_to_query))
            λ querier.
              or_exit 1
                (optionally (s.get_bool "submit" || s.get_bool "renew") (new_submit_client E s))
                λ submitter.
                  or_exit 1 (optionally (s.get_bool "approve") (new_approve_client E s)) λ approval.
                    or_exit 1
                      (optionally (s.get_bool "fetch" || s.get_bool "renew") (new_fetch_client E s))
                      λ fetcher.
                        or_exit 1 (optionally (s.get_bool "delete") (new_delete_client E s))
                          λ purger. more (record {
                            source_config = config;
                            query = querier;
                            generate = if s.get_bool "generate" then some shared else none;
                            submit = submitter;
                            approve = approval;
                            fetch = fetcher;
                            purge = purger;
                            approved = false;
                          })

  -- What `issue` does with the operation: one run, or the renewal.
  unfoldable pub execute : Settings → Schedule → List Renew.Event → Operation E → Eff E ℕ
  execute s schedule events o =
      if not (s.get_bool "renew")
      then (or_exit 2 (operating o (run E schedule)) λ _. pure 0)
      else or_exit 1 (new_renew E s o)
          λ r. or_exit 2 (operating r.conf.operation (renew E r schedule events)) λ _. pure 0

  -- The `Run` of the command that issues certificates: its exit code.
  unfoldable pub issue : Settings → String → Schedule → List Renew.Event → Eff E ℕ
  issue s common_name schedule events =
      if asks_nothing s then pure 1 else new_operation s common_name (execute s schedule events)
