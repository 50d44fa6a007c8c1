-- ===== src/Cmd/Issued.antt =====
-- What the command that issues certificates does to the requests.
use kube_csr.Base.{
  if_holds, ℕ, String, ◌<>◌, ◌≡◌, sym, ◌∙◌, false, not, Option, none, some, List, arith, ok,
  Bool-cases, inl, inr, bind-ok, call, pure,
}
use kube_csr.Base.Int.{leb_ℤ, pos}
use kube_csr.Env.{Env, World, Eff, on_host}
use kube_csr.Env.Laws.{ClusterLaws, DiskLaws}
use kube_csr.Kubeclient.{new_kube_client}
use kube_csr.Settings.{Settings}
use kube_csr.Generate
use kube_csr.Fetch.{Fetch}
use kube_csr.Operation.{Operation, Schedule, run}
use kube_csr.Renew
use kube_csr.Renew.{Renew, prefix, check_paths, new_renewer_with, new_renewer, renew}
use kube_csr.Cmd.{csr_name, new_csr_config, new_renew}
use kube_csr.Cmd.Builds.{new_renew-Stays}
use kube_csr.Cmd.Rules.{Gives, new_operation-rule}
use kube_csr.Cmd.Commands.{or_exit, operating, asks_nothing, new_operation, execute, issue}
use kube_csr.Cmd.Lives.{Moves-Passes, last-Moves}
use kube_csr.Lifecycle.{Action, Reach, here, Reach-mono}
use kube_csr.Lifecycle.Parts.{Moves}
use kube_csr.Lifecycle.Advances.{OnlyTo}
use kube_csr.Lifecycle.Runs.{run-Does}
use kube_csr.Lifecycle.Renewals.{IsNameOf, base, new, renew-Reach}

-- The names that the command may use: the one that is configured or made from the common name and
-- the host's, and, if it renews without overriding, this one with the first bytes of an identifier.
pub data IsIssued (E : Env) (s : Settings) (common_name : String) : String → Type 0 where
  first : (name : String) → Gives E (csr_name E s common_name) name → IsIssued E s common_name name
  renewed :
      (name uuid : String)
      → Gives E (csr_name E s common_name) name
      → s.get_bool "override" ≡ false
      → IsIssued E s common_name (name <> "-" <> prefix 13 uuid)

module _ (E : Env) (s : Settings) where
  pub new_csr_config-name :
      (common_name name : String) {config : Generate.Config}
      → Gives E (new_csr_config E s common_name name) config
      → config.name ≡ name
  unfolding new_csr_config
  new_csr_config-name common_name name (w, done) =
      let (wd, _, same, _) = bind-ok (call (on_host E E.working_directory)) _ w done in ground arith

  -- The renewal starts with the operation's name.
  IsFrom : Operation E → Renew E → Type 0
  IsFrom o r =
      (r.csr_basename ≡ o.source_config.name)
      × (r.conf.operation.source_config.name ≡ o.source_config.name)
      × (r.conf.generate_new_csr ≡ not (s.get_bool "override"))

  new_renewer_with-IsFrom :
      (path : String) (conf : Renew.Config E) (f : Option (Fetch E)) (w : World E) {r : Renew E}
      → (new_renewer_with E path conf f w).0 ≡ ok r
      → (r.csr_basename ≡ conf.operation.source_config.name)
        × (r.conf.operation.source_config.name ≡ conf.operation.source_config.name)
        × (r.conf.generate_new_csr ≡ conf.generate_new_csr)
  unfolding new_renewer_with
  new_renewer_with-IsFrom path conf none w done = absurd (ground arith)
  new_renewer_with-IsFrom path conf (some f) w done =
      let (_, _, rest, _) = bind-ok (check_paths E _) _ w done in
      let (k, _, rest', _) = bind-ok (new_kube_client E path) _ _ rest in
      let (_, _, same, _) = bind-ok (Renew.register_metrics E) _ _ rest' in
      (ground arith, ground arith, ground arith)

  new_renew-IsFrom : (o : Operation E) {r : Renew E} → Gives E (new_renew E s o) r → IsFrom o r
  unfolding new_renew new_renewer IsFrom
  new_renew-IsFrom o {r} (w, done) =
      elim (Bool-cases (leb_ℤ (s.get_duration "renew-check-interval") (pos 0))) [
        | inl bad ↦ absurd (ground arith)
        | inr good ↦ new_renewer_with-IsFrom _ _ o.fetch w (rw good at done)
      ]

module _ (E : Env) (K : ClusterLaws E) (D : DiskLaws E) (s : Settings) (common_name : String) where
  open K use {stored}

  abbrev Issuing : Action → String → Type 0
  Issuing = OnlyTo (IsIssued E s common_name)

  IsIssued-of_renewal :
      (o : Operation E) (r : Renew E)
      → IsFrom E s o r
      → Gives E (csr_name E s common_name) o.source_config.name
      → (n : String) → IsNameOf r n
      → IsIssued E s common_name n
  unfolding IsFrom
  IsIssued-of_renewal o r (same, _, _) named _ base = rw same (first o.source_config.name named)
  IsIssued-of_renewal o r (same, _, asked) named _ (new uuid may) =
      rw same (renewed o.source_config.name uuid named (ground arith))

  run-Moves :
      (schedule : Schedule) (o : Operation E) (w : World E)
      → Gives E (csr_name E s common_name) o.source_config.name
      → Moves E K Issuing (operating E o (run E schedule)) w
  run-Moves schedule o w named =
      (run-Does E K (IsIssued E s common_name) D schedule
          (record { world = w; operation = o })).moves
        (first o.source_config.name named)

  renew-Moves :
      (schedule : Schedule) (events : List Renew.Event) (o : Operation E) (r : Renew E)
      (w : World E)
      → IsFrom E s o r
      → Gives E (csr_name E s common_name) o.source_config.name
      → Moves E K Issuing (operating E r.conf.operation (renew E r schedule events)) w
  unfolding IsFrom
  renew-Moves schedule events o r w from named =
      Reach-mono (λ a. IsIssued-of_renewal o r from named)
        (renew-Reach E K D r schedule events (record { world = w; operation = r.conf.operation })
          (from.1 ∙ sym from.0))

  execute-Moves :
      (schedule : Schedule) (events : List Renew.Event) (o : Operation E) (w : World E)
      → Gives E (csr_name E s common_name) o.source_config.name
      → Moves E K Issuing (execute E s schedule events o) w
  unfolding execute
  execute-Moves schedule events o w named =
      let renewing : Renew E → Eff E ℕ =
        λ r. or_exit E 2 (operating E r.conf.operation (renew E r schedule events)) (λ _. pure 0) in
      if_holds (λ m. Moves E K Issuing m w) (not (s.get_bool "renew"))
        (or_exit E 2 (operating E o (run E schedule)) (λ _. pure 0))
        (or_exit E 1 (new_renew E s o) renewing)
        (last-Moves E K Issuing (operating E o (run E schedule)) w (run-Moves schedule o w named))
        (Moves-Passes E K Issuing _ (new_renew E s o) renewing (new_renew-Stays E s o)
          (λ r built v.
            last-Moves E K Issuing (operating E r.conf.operation (renew E r schedule events)) v
              (renew-Moves schedule events o r v (new_renew-IsFrom E s o built) named))
          w)

  -- Whatever its settings are and however it ends, the command that issues certificates moves no
  -- request but those of the name that is configured, or made of the common name and the host's, and
  -- of the names that a renewal without overriding makes of it; and these by steps of their life only.
  pub issue-Reach :
      (schedule : Schedule) (events : List Renew.Event) (w : World E)
      → Reach
          (OnlyTo (IsIssued E s common_name))
          (stored w.cluster)
          (stored (issue E s common_name schedule events w).1.cluster)
  unfolding issue
  issue-Reach schedule events w =
      if_holds (λ m. Moves E K Issuing m w) (asks_nothing E s) (pure 1)
        (new_operation E s common_name (execute E s schedule events)) here
        (new_operation-rule E (Moves E K Issuing) (Moves-Passes E K Issuing) s common_name
          (execute E s schedule events)
          (λ o built v.
            execute-Moves schedule events o v
              (rw (new_csr_config-name E s common_name built.name built.config) built.named))
          w)
