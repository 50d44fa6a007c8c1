-- ===== src/Cmd/Deletions.antt =====
-- How the command that issues certificates ends when it is asked to delete a request.
use kube_csr.Base.{
  ℕ, String, ◌≡◌, refl, true, false, not, ◌||◌, Option, none, some, List, arith, Result, ok, err,
  panic, waits, pure, ◌>>=◌, ◌>>◌,
}
use kube_csr.Env.{Env, World, Eff}
use kube_csr.Settings.{Settings}
use kube_csr.Main.{exit_status}
use kube_csr.Purge.{Purge, new_purge}
use kube_csr.Query.{Query}
use kube_csr.Submit.{Submit}
use kube_csr.Approve.{Approval}
use kube_csr.Fetch.{Fetch}
use kube_csr.Operation.{Operation, Schedule}
use kube_csr.Renew
use kube_csr.Cmd.{
  is_empty, csr_name, new_csr_config, new_submit_client, new_approve_client, new_fetch_client,
  new_delete_client, new_service_query,
}
use kube_csr.Cmd.Builds.{
  Stays, bind-Stays, csr_name-Stays, new_csr_config-Stays, optionally-Stays,
  new_submit_client-Stays, new_approve_client-Stays, new_fetch_client-Stays,
  new_service_query-Stays,
}
use kube_csr.Cmd.Commands.{settle, or_exit, optionally, asks_nothing, new_operation, execute, issue}

-- The end of a command whose preparations have ended so: it panics after them.
abbrev pub ending : {F : Type 0} → Result F (Unit {0}) → Result F ℕ
ending (ok _) = panic
ending (err e) = ok 1
ending panic = panic
ending waits = waits

-- The status of its process.
abbrev pub status : {F : Type 0} → Result F (Unit {0}) → Option ℕ
status (ok _) = some 2
status (err e) = some 1
status panic = some 2
status waits = none

exit_status-ending : {F : Type 0} (r : Result F (Unit {0})) → exit_status (ending r) ≡ status r
unfolding exit_status
exit_status-ending (ok _) = refl
exit_status-ending (err e) = refl
exit_status-ending panic = refl
exit_status-ending waits = refl

module _ (E : Env) where
  module _ (s : Settings) where
    abbrev queried : Eff E (Option (Query E))
    queried =
        optionally E (not (is_empty (s.get_strings "query-svc")))
          (new_service_query E s (s.get_strings "query-svc"))

    abbrev submits : Eff E (Option (Submit E))
    submits = optionally E (s.get_bool "submit" || s.get_bool "renew") (new_submit_client E s)

    abbrev approves : Eff E (Option (Approval E))
    approves = optionally E (s.get_bool "approve") (new_approve_client E s)

    abbrev fetches : Eff E (Option (Fetch E))
    fetches = optionally E (s.get_bool "fetch" || s.get_bool "renew") (new_fetch_client E s)

  -- The parts of an operation but the one that deletes, in the order in which they are built.
  abbrev pub preparations : Settings → String → Eff E (Unit {0})
  preparations s common_name = do
    name ← csr_name E s common_name
    new_csr_config E s common_name name
    queried s
    submits s
    approves s
    fetches s
    pure tt

  abbrev end : Result E.Failure (Unit {0}) × World E → Result E.Failure ℕ × World E
  end (r, w) = (ending r, w)

  settle-end :
      {A : Type 0} (r : Result E.Failure A) (more : A → Eff E ℕ) (f : A → Eff E (Unit {0}))
      (w v : World E)
      → ((a : A) (u : World E) → more a u ≡ end (f a u))
      → settle E 1 r more v ≡ end (((λ _. (r, v)) >>= f) w)
  unfolding settle
  settle-end (ok a) more f w v same = same a v
  settle-end (err e) more f w v same = refl
  settle-end panic more f w v same = refl
  settle-end waits more f w v same = refl

  -- Building one part more.
  or_exit-end :
      {A : Type 0} (m : Eff E A) (more : A → Eff E ℕ) (f : A → Eff E (Unit {0}))
      → ((a : A) (u : World E) → more a u ≡ end (f a u))
      → (w : World E) → or_exit E 1 m more w ≡ end ((m >>= f) w)
  or_exit-end m more f same w = settle-end (m w).0 more f w (m w).1 same

  module _ (s : Settings) where
    last-end :
        (more : Option (Purge E) → Eff E ℕ) (u : World E)
        → s.get_bool "delete" ≡ true
        → or_exit E 1 (optionally E (s.get_bool "delete") (new_delete_client E s)) more u
          ≡ end (pure tt u)
    unfolding new_delete_client new_purge settle
    last-end more u asked = rw asked refl

    new_operation-end :
        (common_name : String) (more : Operation E → Eff E ℕ) (w : World E)
        → s.get_bool "delete" ≡ true
        → new_operation E s common_name more w ≡ end (preparations s common_name w)
    unfolding new_operation
    new_operation-end common_name more w asked =
        or_exit-end (csr_name E s common_name) _ _
          (λ name. or_exit-end (new_csr_config E s common_name name) _ _ (λ config.
            or_exit-end (queried s) _ _ (λ querier. or_exit-end (submits s) _ _ (λ submitter.
              or_exit-end (approves s) _ _ (λ approval.
                or_exit-end (fetches s) _ (λ _. pure tt) (λ fetcher u. last-end _ u asked))))))
          w

    preparations-Stays : (common_name : String) → Stays E (preparations s common_name)
    preparations-Stays common_name =
        bind-Stays E (csr_name E s common_name) _ (csr_name-Stays E s common_name) (λ name.
          bind-Stays E (new_csr_config E s common_name name) _
            (new_csr_config-Stays E s common_name name)
            (λ config.
              bind-Stays E (queried s) _
                (optionally-Stays E s _ _ (new_service_query-Stays E s (s.get_strings "query-svc")))
                (λ querier.
                  bind-Stays E (submits s) _
                    (optionally-Stays E s _ _ (new_submit_client-Stays E s))
                    (λ submitter.
                      bind-Stays E (approves s) _
                        (optionally-Stays E s _ _ (new_approve_client-Stays E s))
                        (λ approval.
                          bind-Stays E (fetches s) (λ _. pure tt)
                            (optionally-Stays E s _ _ (new_fetch_client-Stays E s))
                            (λ fetcher u. refl))))))

    -- Asked to delete, whatever else it is asked, the command that issues certificates only builds the
    -- other parts of its operation: it panics once they are built, so that its process ends with the
    -- status 2, and ends with the status 1 where building them fails. It leaves the world that building
    -- them has left, and the kube-apiserver as it was.
    pub issue_panics :
        (common_name : String) (schedule : Schedule) (events : List Renew.Event) (w : World E)
        → s.get_bool "delete" ≡ true
        → let (result, w') = issue E s common_name schedule events w in
          let (prepared, v) = preparations s common_name w in
          (result ≡ ending prepared)
          × (exit_status result ≡ status prepared)
          × (w' ≡ v)
          × (w'.cluster ≡ w.cluster)
    unfolding issue
    issue_panics common_name schedule events w asked =
        let prepared = preparations s common_name w in
        let same = new_operation-end common_name (execute E s schedule events) w asked in
        let something : asks_nothing E s ≡ false = ground (arith, asked) in
        rw (something, same)
          (refl, exit_status-ending prepared.0, refl, preparations-Stays common_name w)
