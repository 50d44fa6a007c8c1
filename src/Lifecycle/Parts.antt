-- ===== src/Lifecycle/Parts.antt =====
-- Each part of an operation moves the requests by steps of their life.
use kube_csr.Base.{
  arith, String, ◌≡◌, ap, ◌∙◌, some, [], ◌∷◌, ◌++◌, fine, failed, Reply, ok, Bool-cases, inl, inr,
  bind-carries, returned-ok, call, ◌>>=◌,
}
use kube_csr.Api.{register_api}
use kube_csr.Env.{Duration, start_ticker, Env, World, Eff, Csr, on_cluster, on_disk}
use kube_csr.Env.Laws.{ClusterLaws}
use kube_csr.Generate
use kube_csr.Submit
use kube_csr.Submit.{Submit, kube_csr_of, after_create, send, submit}
use kube_csr.Approve.{approval_condition, approve_csr, get_csr, get_and_approve_csr}
use kube_csr.Purge
use kube_csr.Lifecycle.{Action, creation, deletion, approval, Reach, here, Reach-trans, Reach-of_eq}
use kube_csr.Lifecycle.Calls.{create-Reach, delete-Reach, approval-Reach, get-Reach}

module _ (E : Env) where
  pub register_api-cluster :
      (bind pprof : String) (w : World E) → (register_api E bind pprof w).1.cluster ≡ w.cluster
  unfolding register_api
  register_api-cluster bind pprof w = ground arith

  pub start_ticker-cluster :
      (d : Duration) (w : World E) → (start_ticker E d w).1.cluster ≡ w.cluster
  start_ticker-cluster d w = ground arith

module _ (E : Env) (K : ClusterLaws E) (May : Action → String → Type 0) where
  open K use {stored}

  -- What an action does at the kube-apiserver, from one world.
  abbrev pub Moves : {A : Type 0} → Eff E A → World E → Type 0
  Moves m w = Reach May (stored w.cluster) (stored (m w).1.cluster)

  pub bind-Moves :
      {A B : Type 0} (m : Eff E A) (f : A → Eff E B) (w : World E)
      → Moves m w
      → ((a : A) → (m w).0 ≡ ok a → Moves (f a) (m w).1)
      → Moves (m >>= f) w
  bind-Moves m f w =
      bind-carries (λ u v. Reach May (stored u.cluster) (stored v.cluster)) m f w
        (λ a b c first rest. Reach-trans first rest)

  -- An action that leaves the kube-apiserver alone.
  pub Moves-of_cluster :
      {A : Type 0} (m : Eff E A) (w : World E) → (m w).1.cluster ≡ w.cluster → Moves m w
  Moves-of_cluster m w same = Reach-of_eq (ap stored same)

  after_create-Moves :
      (conf : Submit.Config) (c : Csr) (reply : Reply E.Failure Csr) (w : World E)
      → May creation c.name
      → May deletion c.name
      → Moves (after_create E conf c reply) w
  unfolding after_create
  after_create-Moves conf c (fine r) w may_create may_delete = here
  after_create-Moves conf c (failed f) w may_create may_delete =
      elim (Bool-cases (E.is_already_exists f)) [
        | inr unknown ↦ rw unknown here
        | inl exists ↦ elim (Bool-cases conf.override) [
          | inr kept ↦ rw (exists, kept) here
          | inl allowed ↦
              rw (exists, allowed)
                (bind-Moves (call (on_cluster E (E.delete c.name)))
                  (λ _. call (on_cluster E (E.create c))) w
                  (delete-Reach E K May c.name w.cluster may_delete)
                  (λ _ _. create-Reach E K May c (E.delete c.name w.cluster).1 may_create))
        ]
      ]

  pub submit-Moves :
      (s : Submit E) (csr : Generate.Config) (w : World E)
      → May creation csr.name
      → May deletion csr.name
      → Moves (submit E s csr) w
  unfolding submit send
  submit-Moves s csr w may_create may_delete =
      bind-Moves (call (on_disk E (E.read_file csr.csr_path))) _ w here (λ b _.
        let c = kube_csr_of csr.name b in
        let v = (on_disk E (E.read_file csr.csr_path) w).1 in
        Reach-trans (create-Reach E K May c v.cluster may_create)
          (after_create-Moves s.conf c _ (on_cluster E (E.create c) v).1 may_create may_delete))

  pub approve_csr-Moves :
      (r : Csr) (w : World E)
      → May approval r.name
      → stored w.cluster r.name ≡ some r
      → Moves (approve_csr E r) w
  unfolding approve_csr
  approve_csr-Moves r w may there =
      bind-Moves
        (call (
          on_cluster E (
            E.update_approval
              (record r { conditions = r.conditions ++ (approval_condition ∷ []) }))))
        _ w (approval-Reach E K May r w.cluster may there) (λ _ _. here)

  -- What a successful `Get` gives is what is stored, still.
  pub get-stored :
      (name : String) (w : World E) {r : Csr}
      → (call (on_cluster E (E.get name)) w).0 ≡ ok r
      → (r.name ≡ name) × (stored (E.get name w.cluster).1 r.name ≡ some r)
  get-stored name w {r} got =
      let (found, named) = K.get_done name w.cluster (returned-ok _ got) in
      (
        named,
        ap (λ at. at r.name) (K.get_keeps name w.cluster) ∙ (ap (stored w.cluster) named ∙ found),
      )

  pub get_and_approve_csr-Moves :
      (name : String) (w : World E) → May approval name → Moves (get_and_approve_csr E name) w
  unfolding get_and_approve_csr get_csr
  get_and_approve_csr-Moves name w may =
      bind-Moves (call (on_cluster E (E.get name))) (approve_csr E) w
        (get-Reach E K May name w.cluster)
        (λ r got.
          let (named, there) = get-stored name w got in approve_csr-Moves r _ (rw named may) there)

  pub delete-Moves :
      (name : String) (w : World E) → May deletion name → Moves (Purge.delete E name) w
  unfolding Purge.delete
  delete-Moves name w may = delete-Reach E K May name w.cluster may
