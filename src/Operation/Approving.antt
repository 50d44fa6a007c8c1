-- ===== src/Operation/Approving.antt =====
-- What a run that submits and approves leaves at the kube-apiserver.
use kube_csr.Base.{
  String, ◌≡◌, refl, ◌∙◌, Bool, true, false, Option, none, some, [], ◌∷◌, arith, str_eq, ok,
  bind-ok, if◌then◌else◌,
}
use kube_csr.Env.{Env, World, Csr}
use kube_csr.Env.Laws.{DiskLaws, ClusterLaws}
use kube_csr.Submit
use kube_csr.Submit.{Submit}
use kube_csr.Submit.Replace.{submit-stores, submit-disk}
use kube_csr.Generate.Files.{generate-cluster}
use kube_csr.Approve.{Approval, approval_condition, approve_csr}
use kube_csr.Approve.Conditions.{approve_csr-stores}
use kube_csr.Operation.{
  Generator, config_of, Operation, Process, Schedule, within, run_query, run_generate, run_submit,
  run_approve, run_fetch, run_purge, run,
}

module _ (E : Env) where
  -- An operation that submits and approves, and neither queries, fetches nor deletes.
  abbrev pub submitting : Operation E → Submit E → Approval E → Operation E
  submitting o s a = record o {
    query = none;
    submit = some s;
    approve = some a;
    fetch = none;
    purge = none;
  }

module _ (E : Env) (K : ClusterLaws E) where
  open K use {stored}

  run_generate-cluster :
      (g : Option Generator) (p : Process E)
      → (run_generate E g p).1.world.cluster ≡ p.world.cluster
  unfolding run_generate
  run_generate-cluster none p = refl
  run_generate-cluster (some g) p =
      generate-cluster E (config_of g p.operation.source_config) p.world

  run_generate-operation :
      (g : Option Generator) (p : Process E) → (run_generate E g p).1.operation ≡ p.operation
  unfolding run_generate
  run_generate-operation none p = refl
  run_generate-operation (some g) p = refl

  if-twice {ℓ} :
      {A : Type ℓ} (b : Bool) (x y z : A)
      → (if b then x else (if b then y else z)) ≡ (if b then x else z)
  if-twice true x y z = refl
  if-twice false x y z = refl

  module _ (D : DiskLaws E) where
    -- Under its name stands a request with the approval as its one condition and with the bytes that
    -- the CSR file holds; requests of other names are as they were.
    pub record IsApproved (name path : String) (before after : World E) : Type 0 where
      pub request : Csr
      pub conditions : request.conditions ≡ approval_condition ∷ []
      pub file : D.contents after.disk path ≡ some request.request
      pub at :
          (n : String)
          → stored after.cluster n
            ≡ (if str_eq name n then some request else stored before.cluster n)

    approve_csr-disk : (r : Csr) (w : World E) → (approve_csr E r w).1.disk ≡ w.disk
    unfolding approve_csr
    approve_csr-disk r w = ground arith

    run_submit-IsApproved :
        (s : Submit E) (a : Approval E) (p : Process E)
        → let (result, p') = run_submit E (some s) (some a) p in
          result ≡ ok tt
          → let source = p.operation.source_config in
            (p'.operation ≡ record p.operation { approved = true })
            × IsApproved source.name source.csr_path p.world p'.world
    unfolding run_submit
    run_submit-IsApproved s a p done =
        let source = p.operation.source_config in
        let sending = within E (Submit.submit E s source) in
        let (r, sent, rest, e) = bind-ok sending _ p done in
        let (named, file, fresh, at) = submit-stores E K D s source p.world sent in
        let approving = within E (approve_csr E r) in
        let (u, approved, _, e') = bind-ok approving _ (sending p).1 rest in
        let (new, _, bytes, conditions, at') =
          approve_csr-stores E K r (sending p).1.world approved in
        (
          rw (e, e') refl,
          record {
            request = new;
            conditions = rw (conditions, fresh) refl;
            file =
                rw
                  (
                    e,
                    e',
                    approve_csr-disk r (sending p).1.world,
                    submit-disk E K D s source p.world,
                    file,
                    bytes,
                  )
                  refl;
            at = λ n. rw (e, e', at' n, named, at n) (if-twice (str_eq source.name n) _ _ _);
          },
        )

    -- An approval that `submit` has made is not made again.
    run_approve-approved :
        (a : Approval E) (p : Process E)
        → p.operation.approved ≡ true
        → run_approve E (some a) p ≡ (ok tt, p)
    unfolding run_approve
    run_approve-approved a p done = rw done

    pub IsApproved-later :
        {name path : String} {first before after : World E}
        → before.cluster ≡ first.cluster
        → IsApproved name path before after
        → IsApproved name path first after
    IsApproved-later same approved = record {
      request = approved.request;
      conditions = approved.conditions;
      file = approved.file;
      at = λ n. approved.at n ∙ rw same;
    }

    -- A run without queries, fetches and deletions that submits and approves leaves, when it succeeds,
    -- exactly one approval on the request of the configured name, whatever stood there before; the
    -- request has the bytes of the CSR file, and requests of other names are as they were.
    pub run-approves :
        (schedule : Schedule) (o : Operation E) (w : World E) (s : Submit E) (a : Approval E)
        → (run E schedule (record { world = w; operation = submitting E o s a })).0 ≡ ok tt
        → IsApproved o.source_config.name o.source_config.csr_path w
            (run E schedule (record { world = w; operation = submitting E o s a })).1.world
    unfolding run run_query run_approve run_fetch run_purge
    run-approves schedule o w s a done =
        let asked = record (submitting E o s a) { approved = false } in
        let p : Process E = record { world = w; operation = asked } in
        let (_, _, rest, e) = bind-ok (run_generate E o.generate) _ p done in
        let q = (run_generate E o.generate p).1 in
        let kept : q.operation ≡ asked = run_generate-operation o.generate p in
        let (_, sent, after, e') = bind-ok (run_submit E (some s) (some a)) _ q rest in
        let (changed, approved) = run_submit-IsApproved s a q sent in
        let q' = (run_submit E (some s) (some a) q).1 in
        let skipped = run_approve-approved a q' (rw changed) in
        rw (e, e', skipped)
          (IsApproved-later (run_generate-cluster o.generate p) (rw kept at approved))
