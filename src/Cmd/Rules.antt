-- ===== src/Cmd/Rules.antt =====
-- A rule to prove what the command that issues certificates does, from what follows its building of
-- the operation.
use kube_csr.Base.{not, ◌||◌, ℕ, String, ◌≡◌, ok}
use kube_csr.Env.{Env, World, Eff}
use kube_csr.Settings.{Settings}
use kube_csr.Operation.{Operation}
use kube_csr.Cmd.{
  is_empty, csr_name, new_csr_config, new_submit_client, new_approve_client, new_fetch_client,
  new_delete_client, new_service_query,
}
use kube_csr.Cmd.Builds.{
  Stays, csr_name-Stays, new_csr_config-Stays, optionally-Stays, new_submit_client-Stays,
  new_approve_client-Stays, new_fetch_client-Stays, new_delete_client-Stays,
  new_service_query-Stays,
}
use kube_csr.Cmd.Commands.{or_exit, optionally, new_operation}

module _ (E : Env) where
  -- A value that an action returns in some world.
  abbrev pub Gives : {A : Type 0} → Eff E A → A → Type 0
  Gives m a = (w : World E) × ((m w).0 ≡ ok a)

  -- What the parts of an operation that has been built come from.
  pub record IsBuilt (s : Settings) (common_name : String) (o : Operation E) : Type 0 where
    pub name : String
    pub named : Gives (csr_name E s common_name) name
    pub config : Gives (new_csr_config E s common_name name) o.source_config
    pub query :
        Gives
          (optionally E
            (not (is_empty (s.get_strings "query-svc")))
            (new_service_query E s (s.get_strings "query-svc")))
          o.query
    pub submit :
        Gives
          (optionally E (s.get_bool "submit" || s.get_bool "renew") (new_submit_client E s))
          o.submit
    pub approve : Gives (optionally E (s.get_bool "approve") (new_approve_client E s)) o.approve
    pub fetch :
        Gives
          (optionally E (s.get_bool "fetch" || s.get_bool "renew") (new_fetch_client E s))
          o.fetch
    pub purge : Gives (optionally E (s.get_bool "delete") (new_delete_client E s)) o.purge

  -- What holds of `or_exit 1` if it holds of what follows.
  abbrev pub Passes : (Eff E ℕ → World E → Type 0) → Type 1
  Passes P =
      (A : Type 0) (m : Eff E A) (more : A → Eff E ℕ)
      → Stays E m
      → ((a : A) → Gives m a → (w : World E) → P (more a) w)
      → (w : World E) → P (or_exit E 1 m more) w

  module _ (P : Eff E ℕ → World E → Type 0) (pass : Passes P) (s : Settings) where
    pub new_operation-rule :
        (common_name : String) (more : Operation E → Eff E ℕ)
        → ((o : Operation E) → IsBuilt s common_name o → (w : World E) → P (more o) w)
        → (w : World E) → P (new_operation E s common_name more) w
    unfolding new_operation
    new_operation-rule common_name more h =
        let services = s.get_strings "query-svc" in
        pass _ (csr_name E s common_name) _ (csr_name-Stays E s common_name) (λ name named.
          pass _ (new_csr_config E s common_name name) _ (new_csr_config-Stays E s common_name name)
            (λ config configured.
              pass _ (optionally E _ (new_service_query E s services)) _
                (optionally-Stays E s _ _ (new_service_query-Stays E s services))
                (λ querier querier_given.
                  pass _ (optionally E _ (new_submit_client E s)) _
                    (optionally-Stays E s _ _ (new_submit_client-Stays E s))
                    (λ submitter submitter_given.
                      pass _ (optionally E _ (new_approve_client E s)) _
                        (optionally-Stays E s _ _ (new_approve_client-Stays E s))
                        (λ approval approval_given.
                          pass _ (optionally E _ (new_fetch_client E s)) _
                            (optionally-Stays E s _ _ (new_fetch_client-Stays E s))
                            (λ fetcher fetcher_given.
                              pass _ (optionally E _ (new_delete_client E s)) _
                                (optionally-Stays E s _ _ (new_delete_client-Stays E s))
                                (λ purger purging. h _ (record {
                                  name = name;
                                  named = named;
                                  config = configured;
                                  query = querier_given;
                                  submit = submitter_given;
                                  approve = approval_given;
                                  fetch = fetcher_given;
                                  purge = purging;
                                }))))))))
