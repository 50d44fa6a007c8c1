-- ===== src/Lifecycle/Queries.antt =====
-- The queries of services leave the requests alone.
use kube_csr.Base.{
  String, ◌≡◌, refl, ◌∙◌, List, [], ◌∷◌, Result, ok, err, panic, waits, Bool-cases, inl, inr,
}
use kube_csr.Env.{Env, World}
use kube_csr.Env.Laws.{ClusterLaws}
use kube_csr.Query
use kube_csr.Query.{
  Query, ServiceToQuery, Round, query_service, pass_on, query_services, after_pass, is_complete,
  poll, get_subject_alternative_names, tick, timeout,
}
use kube_csr.Base.Int.{pos, leb_ℤ}

module _ (E : Env) (K : ClusterLaws E) where
  open K use {stored}

  Same : World E → World E → Type 0
  Same w v = stored v.cluster ≡ stored w.cluster

  query_service-Same :
      (s : ServiceToQuery) (sans : List String) (w : World E) → Same w (query_service E s sans w).2
  unfolding query_service Same
  query_service-Same s sans w = elim (Bool-cases s.done) [
    | inl done ↦ rw done refl
    | inr open_ ↦ rw open_ (K.get_service_keeps s.ns s.svc w.cluster)
  ]

  pass_on-Same :
      (result : Result E.Failure (List String)) (s : ServiceToQuery) (ss : List ServiceToQuery)
      (w v : World E) (more : List String → Round E (List String))
      → Same w v
      → ((sans : List String) → Same v (more sans).world)
      → Same w (pass_on E result s ss v more).world
  unfolding pass_on Same
  pass_on-Same (ok sans) s ss w v more first rest = rest sans ∙ first
  pass_on-Same (err e) s ss w v more first rest = first
  pass_on-Same panic s ss w v more first rest = first
  pass_on-Same waits s ss w v more first rest = first

  query_services-Same :
      (ss : List ServiceToQuery) (sans : List String) (w : World E)
      → Same w (query_services E ss sans w).world
  unfolding query_services Same
  query_services-Same [] sans w = refl
  query_services-Same (s ∷ ss) sans w =
      let (result, s', v) = query_service E s sans w in
      pass_on-Same result s' ss w v (λ more. query_services E ss more v)
        (query_service-Same s sans w) (λ more. query_services-Same ss more v)

  after_pass-Same :
      (result : Result E.Failure (List String)) (pass : Round E (List String)) (w : World E)
      (more : List String → Round E (List String))
      → Same w pass.world
      → ((sans : List String) → Same pass.world (more sans).world)
      → Same w (after_pass E result pass more).world
  unfolding after_pass Same
  after_pass-Same (ok sans) pass w more first rest =
      elim (Bool-cases (is_complete E pass.services)) [
        | inl complete ↦ rw complete first
        | inr open_ ↦ rw open_ (rest sans ∙ first)
      ]
  after_pass-Same (err e) pass w more first rest = first
  after_pass-Same panic pass w more first rest = first
  after_pass-Same waits pass w more first rest = first

  poll-Same :
      (conf : Query.Config) (events : List Query.Event) (ss : List ServiceToQuery)
      (sans : List String) (w : World E)
      → Same w (poll E conf events ss sans w).world
  unfolding poll Same
  poll-Same conf [] ss sans w = refl
  poll-Same conf (timeout ∷ events) ss sans w = refl
  poll-Same conf (tick ∷ events) ss sans w =
      let pass = query_services E ss sans w in
      after_pass-Same pass.result pass w (λ more. poll E conf events pass.services more pass.world)
        (query_services-Same ss sans w)
        (λ more. poll-Same conf events pass.services more pass.world)

  pub get_subject_alternative_names-stored :
      (events : List Query.Event) (q : Query E) (w : World E)
      → stored (get_subject_alternative_names E events q w).world.cluster ≡ stored w.cluster
  unfolding get_subject_alternative_names Same
  get_subject_alternative_names-stored events q w =
      elim (Bool-cases (leb_ℤ q.conf.polling_interval (pos 0))) [
        | inl bad ↦ rw bad refl
        | inr good ↦ rw good (poll-Same q.conf events q.services [] w)
      ]
