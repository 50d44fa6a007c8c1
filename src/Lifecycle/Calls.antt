-- ===== src/Lifecycle/Calls.antt =====
-- Each call of the kube-apiserver is at most one step of the life of a request.
use kube_csr.Base.{String, ◌≡◌, some, [], ◌∷◌, ◌++◌, arith, Reply-cases, Option-cases, inl, inr}
use kube_csr.Env.{Env, Csr}
use kube_csr.Env.Laws.{ClusterLaws}
use kube_csr.Approve.{approval_condition}
use kube_csr.Fetch.{annotations_after}
use kube_csr.Lifecycle.{
  Action, creation, deletion, approval, annotation, create, delete, approve, annotate, Reach,
  Reach-of_eq, Reach-of_Step,
}

module _ (E : Env) (K : ClusterLaws E) (May : Action → String → Type 0) where
  open K use {stored}

  pub create-Reach :
      (c : Csr) (k : E.Cluster)
      → May creation c.name
      → Reach May (stored k) (stored (E.create c k).1)
  create-Reach c k may = elim (Reply-cases (E.create c k).0) [
    | inl (r, e) ↦
        let (free, _, _, fresh, at) = K.create_done c k e in
        Reach-of_Step (create c.name r may free fresh at)
    | inr (f, e) ↦ Reach-of_eq (K.create_failed c k e)
  ]

  pub delete-Reach :
      (n : String) (k : E.Cluster) → May deletion n → Reach May (stored k) (stored (E.delete n k).1)
  delete-Reach n k may = elim (Reply-cases (E.delete n k).0) [
    | inl (u, e) ↦
        let (taken, at) = K.delete_done n k e in
        elim (Option-cases (stored k n)) [
          | inl free ↦ absurd (taken free)
          | inr (old, there) ↦ Reach-of_Step (delete n old may there at)
        ]
    | inr (f, e) ↦ Reach-of_eq (K.delete_failed n k e)
  ]

  pub approval-Reach :
      (r : Csr) (k : E.Cluster)
      → May approval r.name
      → stored k r.name ≡ some r
      → let sent = record r { conditions = r.conditions ++ (approval_condition ∷ []) } in
        Reach May (stored k) (stored (E.update_approval sent k).1)
  approval-Reach r k may there =
      let sent = record r { conditions = r.conditions ++ (approval_condition ∷ []) } in
      elim (Reply-cases (E.update_approval sent k).0) [
        | inl (new, e) ↦
            let (_, conditions, request, at) = K.approval_done sent k e in
            Reach-of_Step (approve r.name r new may there request conditions at)
        | inr (f, e) ↦ Reach-of_eq (K.approval_failed sent k e)
      ]

  pub update-Reach :
      (r : Csr) (now : String) (k : E.Cluster)
      → May annotation r.name
      → stored k r.name ≡ some r
      → let sent = record r { annotations = some (annotations_after now r.annotations) } in
        Reach May (stored k) (stored (E.update sent k).1)
  update-Reach r now k may there =
      let sent = record r { annotations = some (annotations_after now r.annotations) } in
      elim (Reply-cases (E.update sent k).0) [
        | inl (new, e) ↦
            let (old, found, annotations, request, conditions, at) = K.update_done sent k e in
            let same : old ≡ r = ground (arith, found, there) in
            Reach-of_Step
              (annotate r.name now old new may found request conditions (rw same annotations) at)
        | inr (f, e) ↦ Reach-of_eq (K.update_failed sent k e)
      ]

  pub get-Reach : (n : String) (k : E.Cluster) → Reach May (stored k) (stored (E.get n k).1)
  get-Reach n k = Reach-of_eq (K.get_keeps n k)

  pub list-Reach : (k : E.Cluster) → Reach May (stored k) (stored (E.list k).1)
  list-Reach k = Reach-of_eq (K.list_keeps k)
