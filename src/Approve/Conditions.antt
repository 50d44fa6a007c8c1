-- ===== src/Approve/Conditions.antt =====
-- What an approval adds to a request.
use kube_csr.Base.{
  String, ◌≡◌, [], ◌∷◌, ◌++◌, some, str_eq, ok, pure, call, returned-ok, bind-ok, if◌then◌else◌,
}
use kube_csr.Env.{Env, World, Eff, Csr, on_cluster}
use kube_csr.Env.Laws.{ClusterLaws}
use kube_csr.Approve.{approval_condition, approve_csr, get_csr, get_and_approve_csr}

module _ (E : Env) (K : ClusterLaws E) where
  open K use {stored}

  -- The request with the approval behind its conditions is stored under its name.
  pub approve_csr-stores :
      (r : Csr) (w : World E)
      → (approve_csr E r w).0 ≡ ok tt
      → (new : Csr) × (new.name ≡ r.name)
        × (new.request ≡ r.request)
        × (new.conditions ≡ r.conditions ++ (approval_condition ∷ []))
        × ((n : String)
            → stored (approve_csr E r w).1.cluster n
              ≡ (if str_eq r.name n then some new else stored w.cluster n))
  unfolding approve_csr
  approve_csr-stores r w done =
      let sent : Csr = record r { conditions = r.conditions ++ (approval_condition ∷ []) } in
      let update : Eff E Csr = call (on_cluster E (E.update_approval sent)) in
      let (new, updated, _, e) = bind-ok update (λ x. pure tt) w done in
      let (name, conditions, request, at) =
        K.approval_done sent w.cluster (returned-ok _ updated) in
      (new, name, request, conditions, λ n. rw e (at n))

  -- Approving by name keeps the bytes of the stored request, adds the approval behind the conditions
  -- that it has, and leaves requests of other names as they were.
  pub get_and_approve_csr-stores :
      (name : String) (w : World E)
      → (get_and_approve_csr E name w).0 ≡ ok tt
      → (old : Csr) × (new : Csr) × (stored w.cluster name ≡ some old)
        × (new.request ≡ old.request)
        × (new.conditions ≡ old.conditions ++ (approval_condition ∷ []))
        × ((n : String)
            → stored (get_and_approve_csr E name w).1.cluster n
              ≡ (if str_eq name n then some new else stored w.cluster n))
  unfolding get_and_approve_csr get_csr
  get_and_approve_csr-stores name w done =
      let (old, got, approved, e) = bind-ok (get_csr E name) (approve_csr E) w done in
      let (found, named) = K.get_done name w.cluster (returned-ok _ got) in
      let (new, _, request, conditions, at) =
        approve_csr-stores old (get_csr E name w).1 approved in
      (old, new, found, request, conditions, λ n. rw (e, at n, named, K.get_keeps name w.cluster))
