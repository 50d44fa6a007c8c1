-- ===== src/Purge/Twice.antt =====
-- What a collection makes of a request that meets two of the verdicts that it is asked for.
use text.Mathlib.TextPositions.{eq_refl}
use kube_csr.Base.{
  ℕ, ◌+◌, ◌^◌, ◌<◌, String, ◌≡◌, ◌≢◌, ◌∙◌, Bool, true, false, some, List, [], ◌∷◌, ◌++◌, arith,
  str_eq, fine, ok, bind-ok, returned-ok, call, All, length,
}
use kube_csr.Base.Int.{pos, ◌+ℤ◌, ◌≤ℤ◌}
use kube_csr.Env.{Env, World, Eff, Time, Csr, Condition, on_cluster}
use kube_csr.Env.Laws.{ClusterLaws, ClockLaws}
use kube_csr.Settings.{Settings}
use kube_csr.Cmd.{chosen, collector_config}
use kube_csr.Fetch.Annotations.{fetched_at, last_of}
use kube_csr.Purge
use kube_csr.Purge.{
  Verdict, Config, is_past, is_block_expired, is_certificate_expired, is_before_limit,
  is_first_denied, is_condition_denied, is_fetched_at, is_map_fetched, is_annotation_fetched,
  delete, purge_if, purge_item, purge_items, collect_listed, garbage_collect,
}
use kube_csr.Purge.Answers.{purge_if-Purged}
use kube_csr.Lifecycle.Collections.{is_annotation_fetched-Leaves}
use kube_csr.Purge.Verdicts.{DeniedBefore, is_condition_denied_iff, is_annotation_fetched_iff}
use kube_csr.Purge.Clock.{
  Reached, VerdictKeeps, now-Keeps, is_condition_denied-Keeps, is_annotation_fetched-Keeps,
  is_certificate_expired-Keeps, purge_if-Keeps, purge_item-Keeps,
}

-- At the time, the grace period is over since the request was denied and since it was fetched last.
pub record IsDueTwice (E : Env) (c : Csr) (g : ℕ) (time : Time) : Type 0 where
  pub denied : DeniedBefore c.conditions g time
  pub first : String
  pub times : List String
  pub few : length times + 1 < 2 ^ 63
  pub annotated : c.annotations ≡ some (fetched_at first times)
  pub dated : str_eq (last_of first times) "" ≡ false
  pub last : Time
  pub parsed : E.parse_time (last_of first times) ≡ fine last
  pub over : last +ℤ pos g ≤ℤ time

DeniedBefore-later :
    (conditions : List Condition) (g : ℕ) (t u : Time)
    → t ≤ℤ u
    → DeniedBefore conditions g t
    → DeniedBefore conditions g u
DeniedBefore-later [] g t u le h = h
DeniedBefore-later (c ∷ cs) g t u le h = (h.0, omega arith)

module _ (E : Env) (K : ClusterLaws E) (C : ClockLaws E) (time : Time) (g : ℕ) (c : Csr) where
  open K use {stored}

  module _ (small : g < 2 ^ 63) (due : IsDueTwice E c g time) where
    denied-yes :
        (w : World E) → Reached E C time w → (is_condition_denied E c (pos g) w).0 ≡ ok true
    denied-yes w reached =
        (is_condition_denied_iff E c g w small).1
          (DeniedBefore-later c.conditions g time (E.now w.host).0 reached due.denied)

    fetched-yes :
        (w : World E) → Reached E C time w → (is_annotation_fetched E c (pos g) w).0 ≡ ok true
    fetched-yes w reached =
        (is_annotation_fetched_iff E c due.first due.times due.last g w small due.few due.annotated
            due.dated due.parsed).1
          (omega (arith, due.over))

    -- The second deletion finds nothing.
    purge_item-fails :
        (fns : List (Verdict E)) (purged : ℕ) (w : World E) {n : ℕ}
        → Reached E C time w
        → (purge_item E
            (is_condition_denied E ∷ is_annotation_fetched E ∷ fns)
            (pos g)
            c
            purged
            w).0
          ≢ ok n
    unfolding purge_item
    purge_item-fails fns purged w reached done =
        let step = λ (b : Bool) (p : ℕ). purge_if E b c.name p in
        let (b, denied, chosen, _) = bind-ok (is_condition_denied E c (pos g)) _ w done in
        let yes : b ≡ true = ground (arith, denied, denied-yes w reached) in
        let w1 = (is_condition_denied E c (pos g) w).1 in
        let reached1 = is_condition_denied-Keeps E C time c (pos g) w reached in
        let (p, first, later, _) = bind-ok (step b purged) _ w1 chosen in
        let w2 = (step b purged w1).1 in
        let reached2 = purge_if-Keeps E C time b c.name purged w1 reached1 in
        let (b', fetched, chosen', _) = bind-ok (is_annotation_fetched E c (pos g)) _ w2 later in
        let yes' : b' ≡ true = ground (arith, fetched, fetched-yes w2 reached2) in
        let w3 = (is_annotation_fetched E c (pos g) w2).1 in
        let (_, second, _, _) = bind-ok (step b' p) _ w3 chosen' in
        let gone = (purge_if-Purged E K b c.name purged w1 first).at c.name in
        let there = (purge_if-Purged E K b' c.name p w3 second).there (ground (arith, yes')) in
        there (rw (is_annotation_fetched-Leaves E c (pos g) w2) (gone ∙ rw (yes, eq_refl c.name)))

    purge_items-fails :
        (fns : List (Verdict E)) (front back : List Csr) (purged : ℕ) (w : World E) {n : ℕ}
        → All (VerdictKeeps E C time) fns
        → Reached E C time w
        → (purge_items E
            (is_condition_denied E ∷ is_annotation_fetched E ∷ fns)
            (pos g)
            (front ++ c ∷ back)
            purged
            w).0
          ≢ ok n
    unfolding purge_items
    purge_items-fails fns [] back purged w keep reached done =
        let all = is_condition_denied E ∷ is_annotation_fetched E ∷ fns in
        let (_, one, _, _) =
          bind-ok (purge_item E all (pos g) c purged) (purge_items E all (pos g) back) w done in
        purge_item-fails fns purged w reached one
    purge_items-fails fns (d ∷ front) back purged w keep reached done =
        let all = is_condition_denied E ∷ is_annotation_fetched E ∷ fns in
        let first = purge_item E all (pos g) d purged in
        let (p, _, rest, _) =
          bind-ok first (purge_items E all (pos g) (front ++ c ∷ back)) w done in
        let kept =
          purge_item-Keeps E C time all (pos g) d purged
            (is_condition_denied-Keeps E C time, (is_annotation_fetched-Keeps E C time, keep)) w
            reached in
        purge_items-fails fns front back p (first w).1 keep kept rest

  -- The collection that the command configures for denied and for fetched requests fails, if a request
  -- is listed for which the grace period is over since its denial and since its last fetch, at a time
  -- that the clock, which is not set back, has reached: it is to be deleted twice.
  pub garbage_collect-double :
      (s : Settings) (w : World E) (front back : List Csr)
      → s.get_bool "denied" ≡ true
      → s.get_bool "fetched" ≡ true
      → s.get_duration "grace-period" ≡ pos g
      → g < 2 ^ 63
      → IsDueTwice E c g time
      → time ≤ℤ (E.now w.host).0
      → (E.list w.cluster).0 ≡ fine (front ++ c ∷ back)
      → (garbage_collect E (collector_config E s) w).0 ≢ ok tt
  unfolding garbage_collect collect_listed collector_config Purge.new_purge_config
  garbage_collect-double s w front back denied fetched grace small due reached listed done =
      let conf = collector_config E s in
      let start = (E.now w.host).0 in
      let w1 : World E = record w { host = (E.now w.host).1 } in
      let list : Eff E (List Csr) = call (on_cluster E E.list) in
      let (items, got, rest, _) = bind-ok list (collect_listed E conf start) w1 done in
      let same : items ≡ front ++ c ∷ back = ground (arith, returned-ok _ got, listed) in
      let (n, purged, _, _) =
        bind-ok (purge_items E conf.should_gc conf.grace_period items 0) _ (list w1).1 rest in
      let expired = chosen E (s.get_bool "expired") (is_certificate_expired E) in
      purge_items-fails small due expired front back 0 (list w1).1
        (chosen-Keeps (s.get_bool "expired")) (now-Keeps E C time w reached)
        (rw (same, denied, fetched, grace) at purged)
    where
      chosen-Keeps :
          (asked : Bool) → All (VerdictKeeps E C time) (chosen E asked (is_certificate_expired E))
      chosen-Keeps true = (is_certificate_expired-Keeps E C time, tt)
      chosen-Keeps false = tt
