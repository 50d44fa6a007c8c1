-- ===== src/Cmd/Approved.antt =====
-- What the command that issues certificates leaves when it submits and approves.
use kube_csr.Base.{
  subst, ℕ, String, ◌≡◌, refl, sym, Bool, true, false, not, ◌||◌, Option, none, some, List, [],
  arith, Result, ok, err, panic, waits, if_holds, bind-ok, pure,
}
use kube_csr.Env.{Env, World, Eff}
use kube_csr.Env.Laws.{ClusterLaws, DiskLaws}
use kube_csr.Settings.{Settings}
use kube_csr.Generate
use kube_csr.Submit.{Submit}
use kube_csr.Approve.{Approval}
use kube_csr.Operation.{Operation, Process, Schedule, run}
use kube_csr.Operation.Approving.{IsApproved, IsApproved-later, submitting, run-approves}
use kube_csr.Renew
use kube_csr.Cmd.{
  is_empty, csr_name, new_csr_config, new_submit_client, new_fetch_client, new_service_query,
}
use kube_csr.Cmd.Rules.{Gives, IsBuilt, Passes, new_operation-rule}
use kube_csr.Cmd.Issued.{new_csr_config-name}
use kube_csr.Cmd.Commands.{
  settle, or_exit, optionally, operating, asks_nothing, new_operation, execute, issue,
}

-- The settings to submit and approve, and neither to query, fetch, delete nor renew.
pub record AsksApproval (s : Settings) : Type 0 where
  pub query : s.get_strings "query-svc" ≡ []
  pub submit : s.get_bool "submit" ≡ true
  pub approve : s.get_bool "approve" ≡ true
  pub fetch : s.get_bool "fetch" ≡ false
  pub purge : s.get_bool "delete" ≡ false
  pub renew : s.get_bool "renew" ≡ false

module _ (E : Env) where
  unasked :
      {A : Type 0} (asked : Bool) (m : Eff E A) {found : Option A}
      → asked ≡ false
      → Gives E (optionally E asked m) found
      → found ≡ none
  unasked true m off built = absurd (ground arith)
  unasked false m off built = ground (arith, built.1)

  asked_for :
      {A : Type 0} (asked : Bool) (m : Eff E A) {found : Option A}
      → asked ≡ true
      → Gives E (optionally E asked m) found
      → (a : A) × (found ≡ some a)
  asked_for false m on built = absurd (ground arith)
  asked_for true m {found} on built =
      let (a, _, same, _) = bind-ok m (λ a. pure (some a)) built.0 built.1 in (a, ground arith)

  -- An operation with these parts is one that submits and approves.
  submitting-eq :
      (o : Operation E) (s : Submit E) (a : Approval E)
      → o.query ≡ none
      → o.submit ≡ some s
      → o.approve ≡ some a
      → o.fetch ≡ none
      → o.purge ≡ none
      → o ≡ submitting E o s a
  submitting-eq o s a query submit approve fetch purge = λ i. record o {
    query = query i;
    submit = submit i;
    approve = approve i;
    fetch = fetch i;
    purge = purge i;
  }

module _ (E : Env) (K : ClusterLaws E) (D : DiskLaws E) (s : Settings) (common_name : String) where
  -- The request of the name that the command uses is approved, with the bytes of the CSR file.
  pub record HasApproved (before after : World E) : Type 0 where
    pub name : String
    pub config : Generate.Config
    pub named : Gives E (csr_name E s common_name) name
    pub configured : Gives E (new_csr_config E s common_name name) config
    pub approved : IsApproved E K D name config.csr_path before after

  EndsApproved : Eff E ℕ → World E → Type 0
  EndsApproved m w = (m w).0 ≡ ok 0 → HasApproved w (m w).1

  later :
      {first before after : World E}
      → before.cluster ≡ first.cluster
      → HasApproved before after
      → HasApproved first after
  later same h = record {
    name = h.name;
    config = h.config;
    named = h.named;
    configured = h.configured;
    approved = IsApproved-later E K D same h.approved;
  }

  settle-EndsApproved :
      {A : Type 0} (result : Result E.Failure A) (more : A → Eff E ℕ) (w v : World E)
      → v.cluster ≡ w.cluster
      → ((a : A) → result ≡ ok a → EndsApproved (more a) v)
      → (settle E 1 result more v).0 ≡ ok 0
      → HasApproved w (settle E 1 result more v).1
  unfolding settle EndsApproved
  settle-EndsApproved (ok a) more w v same h done = later same (h a refl done)
  settle-EndsApproved (err e) more w v same h done = absurd (ground arith)
  settle-EndsApproved panic more w v same h done = absurd cc
  settle-EndsApproved waits more w v same h done = absurd cc

  EndsApproved-Passes : Passes E EndsApproved
  unfolding EndsApproved
  EndsApproved-Passes A m more stays h w =
      settle-EndsApproved (m w).0 more w (m w).1 (stays w) (λ a e. h a (w, e) (m w).1)

  settle-done :
      (result : Result E.Failure (Unit {0})) (v : World E)
      → (settle E 2 result (λ _. pure 0) v).0 ≡ ok 0
      → (result ≡ ok tt) × ((settle E 2 result (λ _. pure 0) v).1 ≡ v)
  unfolding settle
  settle-done (ok u) v done = (refl, refl)
  settle-done (err e) v done = absurd (ground arith)
  settle-done panic v done = absurd cc
  settle-done waits v done = absurd cc

  run-EndsApproved :
      (schedule : Schedule) (o : Operation E) (submitter : Submit E) (approval : Approval E)
      (w : World E)
      → IsBuilt E s common_name o
      → o ≡ submitting E o submitter approval
      → EndsApproved (or_exit E 2 (operating E o (run E schedule)) (λ _. pure 0)) w
  unfolding EndsApproved
  run-EndsApproved schedule o submitter approval w built same done =
      let process : Operation E → Process E = λ o'. record { world = w; operation = o' } in
      let (returned, world) = settle-done _ _ done in
      let name = new_csr_config-name E s common_name built.name built.config in
      record {
        name = built.name;
        config = o.source_config;
        named = built.named;
        configured = built.config;
        approved = rw world (
            subst
              (λ n.
                IsApproved E K D n o.source_config.csr_path w (run E schedule (process o)).1.world)
              name
              (subst
                (λ o'.
                  (run E schedule (process o')).0 ≡ ok tt
                  → IsApproved E K D o.source_config.name o.source_config.csr_path w
                      (run E schedule (process o')).1.world)
                (sym same) (run-approves E K D schedule o w submitter approval) returned));
      }

  module _ (asks : AsksApproval s) where
    built-submits :
        (o : Operation E)
        → IsBuilt E s common_name o
        → (submitter : Submit E) × (approval : Approval E) × (o ≡ submitting E o submitter approval)
    built-submits o built =
        let no_services : not (is_empty (s.get_strings "query-svc")) ≡ false = rw asks.query refl in
        let submits : (s.get_bool "submit" || s.get_bool "renew") ≡ true = rw asks.submit refl in
        let fetches : (s.get_bool "fetch" || s.get_bool "renew") ≡ false =
          rw (asks.fetch, asks.renew) refl in
        let (submitter, some_submitter) =
          asked_for E _ (new_submit_client E s) submits built.submit in
        let (approval, approves) = asked_for E _ _ asks.approve built.approve in
        (
          submitter,
          approval,
          submitting-eq E o submitter approval
              (unasked E _ (new_service_query E s (s.get_strings "query-svc")) no_services
                built.query)
              some_submitter approves (unasked E _ (new_fetch_client E s) fetches built.fetch)
              (unasked E _ _ asks.purge built.purge),
        )

    execute-EndsApproved :
        (schedule : Schedule) (events : List Renew.Event) (o : Operation E)
        → IsBuilt E s common_name o
        → (w : World E) → EndsApproved (execute E s schedule events o) w
    unfolding execute EndsApproved
    execute-EndsApproved schedule events o built w =
        let (submitter, approval, same) = built-submits o built in
        rw asks.renew (run-EndsApproved schedule o submitter approval w built same)

    -- Asked to submit and approve, and neither to query, fetch, delete nor renew, the command that
    -- issues certificates leaves, when it ends with the exit code 0, exactly one approval on the request
    -- of its name, whatever stood there before; the request has the bytes of the CSR file, and requests
    -- of other names are as they were.
    pub issue-HasApproved :
        (schedule : Schedule) (events : List Renew.Event) (w : World E)
        → (issue E s common_name schedule events w).0 ≡ ok 0
        → HasApproved w (issue E s common_name schedule events w).1
    unfolding issue EndsApproved
    issue-HasApproved schedule events w =
        if_holds (λ m. EndsApproved m w) (asks_nothing E s) (pure 1)
          (new_operation E s common_name (execute E s schedule events)) (λ e. absurd (ground arith))
          (new_operation-rule E EndsApproved EndsApproved-Passes s common_name
            (execute E s schedule events) (execute-EndsApproved schedule events) w)
