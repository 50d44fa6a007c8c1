-- ===== src/Purge/Collect.antt =====
-- What a garbage collection leaves, told by the answers that the verdicts give in its course.
use kube_csr.Base.{
  ℕ, ◌+◌, ◌≤◌, String, ◌≡◌, refl, Bool, none, List, [], ◌∷◌, ◌++◌, arith, fine, ok, returned-ok,
  bind-ok, call, All, length, if◌then◌else◌,
}
use kube_csr.Base.Int.{ℤ, pos, ◌-ℤ◌}
use kube_csr.Env.{Env, World, Eff, Duration, Csr, Metric, set_gauge, on_cluster}
use kube_csr.Env.Laws.{ClusterLaws}
use kube_csr.Lifecycle.Loops.{Leaves}
use kube_csr.Purge.{
  Verdict, Config, purge_item, purge_items, measure, collect_listed, garbage_collect, csr_gauge,
}
use kube_csr.Purge.Answers.{Rows, none_left, row, hits, collected, total_hits, purge_item-Purged}

module _ (E : Env) (K : ClusterLaws E) where
  open K use {stored}

  purge_items-Purged :
      (grace : Duration) (fns : List (Verdict E)) (items : List Csr) (purged : ℕ) (w : World E)
      {n : ℕ}
      → All (Leaves E) fns
      → (purge_items E fns grace items purged w).0 ≡ ok n
      → let w' = (purge_items E fns grace items purged w).1 in
        (rows : List (List Bool)) × Rows E grace fns items w rows w'
        × (n ≡ purged + total_hits rows)
        × All (λ bs. hits bs ≤ 1) rows
        × ((j : String)
            → stored w'.cluster j ≡ (if collected items rows j then none else stored w.cluster j))
  unfolding purge_items
  purge_items-Purged grace fns [] purged w leave done =
      ([], none_left w, ground arith, tt, λ j. refl)
  purge_items-Purged grace fns (c ∷ items) purged w leave done =
      let first = purge_item E fns grace c purged in
      let (p, one, others, e) = bind-ok first (purge_items E fns grace items) w done in
      let (bs, answers, step) = purge_item-Purged E K grace fns c purged w leave one in
      let (rows, rest, counted, once, at) =
        purge_items-Purged grace fns items p (first w).1 leave others in
      (
        bs ∷ rows,
        rw e (row answers rest),
        omega (arith, step.counted, counted),
        (step.once, once),
        λ j. rw e (ground (arith, at j, step.at j)),
      )

  measure-done :
      (start : ℤ) (listed purged : ℕ) (w : World E)
      → ((measure E start listed purged w).1.cluster ≡ w.cluster)
        × (before : List Metric) × ((measure E start listed purged w).1.metrics
            ≡ before ++ (set_gauge csr_gauge (pos listed -ℤ pos purged) ∷ []))
  unfolding measure
  measure-done start listed purged w = (refl, _, refl)

  -- A garbage collection that returns no error, with verdicts that leave the kube-apiserver alone: it
  -- has listed requests and asked every verdict on each of them, in the worlds that the answers before
  -- have left; each request got at most one yes; exactly the names of those that got one are deleted,
  -- and the gauge is set to the number of requests listed less the number of these.
  pub garbage_collect-collects :
      (conf : Config E) (w : World E)
      → All (Leaves E) conf.should_gc
      → (garbage_collect E conf w).0 ≡ ok tt
      → let w' = (garbage_collect E conf w).1 in
        let listed : World E = record w {
          host = (E.now w.host).1;
          cluster = (E.list w.cluster).1;
        } in
        (items : List Csr) × (rows : List (List Bool)) × (purged : World E) × ((E.list w.cluster).0
          ≡ fine items)
        × Rows E conf.grace_period conf.should_gc items listed rows purged
        × All (λ bs. hits bs ≤ 1) rows
        × ((j : String)
            → stored w'.cluster j ≡ (if collected items rows j then none else stored w.cluster j))
        × (before : List Metric) × (w'.metrics
            ≡ before ++ (set_gauge csr_gauge (pos (length items) -ℤ pos (total_hits rows)) ∷ []))
  unfolding garbage_collect collect_listed
  garbage_collect-collects conf w leave done =
      let start = (E.now w.host).0 in
      let w1 : World E = record w { host = (E.now w.host).1 } in
      let list : Eff E (List Csr) = call (on_cluster E E.list) in
      let (items, got, rest, e) = bind-ok list (collect_listed E conf start) w1 done in
      let w2 = (list w1).1 in
      let purge : Eff E ℕ = purge_items E conf.should_gc conf.grace_period items 0 in
      let (n, purged, finished, e') = bind-ok purge (measure E start (length items)) w2 rest in
      let (rows, asked, counted, once, at) =
        purge_items-Purged conf.grace_period conf.should_gc items 0 w2 leave purged in
      let (same, before, metrics) = measure-done start (length items) n (purge w2).1 in
      let total : n ≡ total_hits rows = omega (arith, counted) in
      (
        items,
        rows,
        (purge w2).1,
        returned-ok _ got,
        asked,
        once,
        λ j. rw (e, e', same, at j, K.list_keeps w.cluster),
        before,
        rw (e, e', metrics, total),
      )
