-- ===== src/Lifecycle/Runs.antt =====
-- A run moves the requests of its name by steps of their life.
use text.Mathlib.TextPositions.{eq_refl}
use kube_csr.Base.{
  if_holds, String, ◌≡◌, refl, ◌∙◌, true, false, Option, none, some, List, ◌++◌, ok, pure, ◌>>◌,
}
use kube_csr.Env.{Env, World, Csr}
use kube_csr.Env.Laws.{DiskLaws, ClusterLaws}
use kube_csr.Generate
use kube_csr.Generate.Files.{generate-cluster}
use kube_csr.Query
use kube_csr.Query.{Query, get_subject_alternative_names}
use kube_csr.Submit
use kube_csr.Submit.{Submit}
use kube_csr.Submit.Replace.{submit-stores}
use kube_csr.Approve.{Approval, approve_csr, get_and_approve_csr}
use kube_csr.Fetch
use kube_csr.Fetch.{Fetch}
use kube_csr.Purge
use kube_csr.Purge.{Purge}
use kube_csr.Operation.{
  Generator, config_of, Operation, Process, Schedule, Run, within, modify, run_query, run_generate,
  run_submit, approve_submitted, add_hosts, asking, run_approve, run_fetch, run_purge, run,
}
use kube_csr.Lifecycle.{Reach, Reach-of_eq}
use kube_csr.Lifecycle.Queries.{get_subject_alternative_names-stored}
use kube_csr.Lifecycle.Parts.{
  Moves-of_cluster, submit-Moves, approve_csr-Moves, get_and_approve_csr-Moves, delete-Moves,
}
use kube_csr.Lifecycle.Loops.{fetch-Moves}
use kube_csr.Lifecycle.Advances.{
  Advances-trans, OnlyTo, Does, bind-Does, within-Does, modify-Does, pure-Does, changed-IsKept,
}

module _ (E : Env) (K : ClusterLaws E) (Named : String → Type 0) where
  open K use {stored}

  abbrev Part : {A : Type 0} → Run E A → Type 0
  Part m = (p : Process E) → Does E K Named m p

  run_query-Does : (events : List Query.Event) (q : Option (Query E)) → Part (run_query E events q)
  unfolding run_query
  run_query-Does events none p = pure-Does E K Named tt p
  run_query-Does events (some q) p =
      let round = get_subject_alternative_names E events q p.world in
      let o = p.operation in
      let query = some (record q { services = round.services }) in
      bind-Does E K Named (asking E events q) (λ sans. modify E (add_hosts E sans)) p
        (record {
          kept =
              changed-IsKept E K Named o o.source_config.name o.source_config.hosts query
                o.approved;
          name = λ n. n;
          moves = λ n. Reach-of_eq (get_subject_alternative_names-stored E K events q p.world);
        })
        (λ sans _.
          modify-Does E K Named
            (record { world = round.world; operation = record o { query = query } })
            (o.source_config.hosts ++ sans) query o.approved)

  run_generate-Does : (g : Option Generator) → Part (run_generate E g)
  unfolding run_generate
  run_generate-Does none p = pure-Does E K Named tt p
  run_generate-Does (some g) p =
      let conf = config_of g p.operation.source_config in
      within-Does E K Named (Generate.generate E conf) p (λ n.
        Moves-of_cluster E K (OnlyTo Named) (Generate.generate E conf) p.world
          (generate-cluster E conf p.world))

  run_approve-Does : (a : Option (Approval E)) → Part (run_approve E a)
  unfolding run_approve
  run_approve-Does none p = pure-Does E K Named tt p
  run_approve-Does (some a) p =
      let name = p.operation.source_config.name in
      let approving = within E (get_and_approve_csr E name) in
      if_holds (λ m. Does E K Named m p) p.operation.approved (pure tt) approving
        (pure-Does E K Named tt p)
        (within-Does E K Named (get_and_approve_csr E name) p
          (get_and_approve_csr-Moves E K (OnlyTo Named) name p.world))

  run_fetch-Does : (events : List Fetch.Event) (f : Option (Fetch E)) → Part (run_fetch E events f)
  unfolding run_fetch
  run_fetch-Does events none p = pure-Does E K Named tt p
  run_fetch-Does events (some f) p =
      let name = p.operation.source_config.name in
      within-Does E K Named (Fetch.fetch E f.conf name events) p
        (fetch-Moves E K (OnlyTo Named) f.conf name events p.world)

  run_purge-Does : (purge : Option (Purge E)) → Part (run_purge E purge)
  unfolding run_purge
  run_purge-Does none p = pure-Does E K Named tt p
  run_purge-Does (some purge) p =
      let name = p.operation.source_config.name in
      within-Does E K Named (Purge.delete E name) p (delete-Moves E K (OnlyTo Named) name p.world)

  module _ (D : DiskLaws E) where
    -- What a submission returns is stored under its name.
    submitted-stored :
        (s : Submit E) (source : Generate.Config) (w : World E) {r : Csr}
        → (Submit.submit E s source w).0 ≡ ok r
        → (r.name ≡ source.name) × (stored (Submit.submit E s source w).1.cluster r.name ≡ some r)
    submitted-stored s source w {r} done =
        let (named, _, _, at) = submit-stores E K D s source w done in
        (named, at r.name ∙ rw (named, eq_refl source.name) refl)

    run_submit-Does : (s : Option (Submit E)) (a : Option (Approval E)) → Part (run_submit E s a)
    unfolding run_submit
    run_submit-Does none a p = pure-Does E K Named tt p
    run_submit-Does (some s) a p =
        let source = p.operation.source_config in
        bind-Does E K Named (within E (Submit.submit E s source)) (approve_submitted E a) p
          (within-Does E K Named (Submit.submit E s source) p
            (λ n. submit-Moves E K (OnlyTo Named) s source p.world n n))
          (λ r sent. after a r (submitted-stored s source p.world sent))
      where
        after :
            (a : Option (Approval E)) (r : Csr) {w : World E}
            → (r.name ≡ p.operation.source_config.name) × (stored w.cluster r.name ≡ some r)
            → Does E K Named (approve_submitted E a r) (record p { world = w })
        after none r there = pure-Does E K Named tt _
        after (some a) r {w} (named, there) =
            let q = record p { world = w } in
            let o = p.operation in
            bind-Does E K Named (within E (approve_csr E r))
              (λ _. modify E (λ o. record o { approved = true })) q
              (within-Does E K Named (approve_csr E r) q
                (λ n. approve_csr-Moves E K (OnlyTo Named) r w (rw named n) there))
              (λ _ _. modify-Does E K Named _ o.source_config.hosts o.query true)

    parts-Does :
        (schedule : Schedule) (o : Operation E)
        → Part (do
          run_query E schedule.query o.query
          run_generate E o.generate
          run_submit E o.submit o.approve
          run_approve E o.approve
          run_fetch E schedule.fetch o.fetch
          run_purge E o.purge)
    parts-Does schedule o p =
        bind-Does E K Named (run_query E schedule.query o.query) _ p
          (run_query-Does schedule.query o.query p)
          (λ _ _.
            bind-Does E K Named (run_generate E o.generate) _ _ (run_generate-Does o.generate _)
              (λ _ _.
                bind-Does E K Named (run_submit E o.submit o.approve) _ _
                  (run_submit-Does o.submit o.approve _)
                  (λ _ _.
                    bind-Does E K Named (run_approve E o.approve) _ _ (run_approve-Does o.approve _)
                      (λ _ _.
                        bind-Does E K Named (run_fetch E schedule.fetch o.fetch) _ _
                          (run_fetch-Does schedule.fetch o.fetch _)
                          (λ _ _. run_purge-Does o.purge _)))))

    pub run-Does : (schedule : Schedule) → Part (run E schedule)
    unfolding run
    run-Does schedule p =
        let o = record p.operation { approved = false } in
        Advances-trans E K Named p (record p { operation = o }) _
          (modify-Does E K Named p o.source_config.hosts o.query false)
          (parts-Does schedule o (record p { operation = o }))

module _ (E : Env) (K : ClusterLaws E) (D : DiskLaws E) where
  open K use {stored}

  -- Whatever parts a run has and whatever it returns, what it leaves at the kube-apiserver is reached
  -- from what stood there by steps of the life of the request of its own name: a creation of a free
  -- name, an approval appended to the conditions of what was stored, an annotation, a deletion.
  pub run-Reach :
      (schedule : Schedule) (p : Process E)
      → let name = p.operation.source_config.name in
        Reach
          (OnlyTo (λ n. n ≡ name))
          (stored p.world.cluster)
          (stored (run E schedule p).1.world.cluster)
  run-Reach schedule p =
      (run-Does E K (λ n. n ≡ p.operation.source_config.name) D schedule p).moves refl
