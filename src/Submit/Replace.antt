-- ===== src/Submit/Replace.antt =====
-- What a submission leaves at the kube-apiserver, with and without overriding.
use kube_csr.Base.{
  String, ◌≡◌, refl, sym, ap, ◌∙◌, ◌≢◌, false, some, [], arith, str_eq, fine, failed, ok, Reply,
  Reply-cases, Bool-cases, returned-ok, bind-ok, bind-keeps, inl, inr, if◌then◌else◌, call, ◌>>◌,
}
use kube_csr.Env.{Env, World, Eff, Bytes, Csr, on_cluster, on_disk}
use kube_csr.Env.Laws.{DiskLaws, ClusterLaws}
use kube_csr.Generate
use kube_csr.Submit.{Submit, Config, kube_csr_of, after_create, send, submit}

module _ (E : Env) (K : ClusterLaws E) where
  open K use {stored}

  -- The request is stored, and no other request has changed.
  pub record IsStored (c : Csr) (before : World E) (r : Csr) (after : World E) : Type 0 where
    pub name : r.name ≡ c.name
    pub request : r.request ≡ c.request
    pub conditions : r.conditions ≡ []
    pub at :
        (n : String)
        → stored after.cluster n ≡ (if str_eq c.name n then some r else stored before.cluster n)

  create-IsStored :
      (c : Csr) (w : World E) (r : Csr)
      → (call (on_cluster E (E.create c)) w).0 ≡ ok r
      → IsStored c w r (call (on_cluster E (E.create c)) w).1
  create-IsStored c w r done =
      let (_, name, request, conditions, at) = K.create_done c w.cluster (returned-ok _ done) in
      record { name = name; request = request; conditions = conditions; at = at }

  -- Deleting the old request and creating the new one amounts to the new one's taking its place.
  replace-IsStored :
      (c : Csr) (w : World E) (r : Csr)
      → let m = call (on_cluster E (E.delete c.name)) >> call (on_cluster E (E.create c)) in
        (m w).0 ≡ ok r → IsStored c w r (m w).1
  replace-IsStored c w r done =
      let delete_old : Eff E (Unit {0}) = call (on_cluster E (E.delete c.name)) in
      let (u, deleted, created, e) =
        bind-ok delete_old (λ _. call (on_cluster E (E.create c))) w done in
      let (_, gone) = K.delete_done c.name w.cluster (returned-ok _ deleted) in
      let new = create-IsStored c (delete_old w).1 r created in
      rw e (record {
        name = new.name;
        request = new.request;
        conditions = new.conditions;
        at = λ n. ground (arith, new.at n, gone n);
      })

  -- A refused creation leaves what was stored, so that what follows it counts from there.
  IsStored-create_failed :
      (c : Csr) (w : World E) (f : E.Failure) (r : Csr) (after : World E)
      → (E.create c w.cluster).0 ≡ failed f
      → IsStored c (on_cluster E (E.create c) w).1 r after
      → IsStored c w r after
  IsStored-create_failed c w f r after e new = record {
    name = new.name;
    request = new.request;
    conditions = new.conditions;
    at = λ n. ground (arith, new.at n, K.create_failed c w.cluster e);
  }

  after_create-IsStored :
      (conf : Config) (c : Csr) (w : World E) (r : Csr) (reply : Reply E.Failure Csr)
      → (E.create c w.cluster).0 ≡ reply
      → let m = after_create E conf c reply (on_cluster E (E.create c) w).1 in
        m.0 ≡ ok r → IsStored c w r m.1
  unfolding after_create
  after_create-IsStored conf c w r (fine x) e done = create-IsStored c w r (rw e done)
  after_create-IsStored conf c w r (failed f) e done = elim (Bool-cases (E.is_already_exists f)) [
    | inr unknown ↦ ground arith
    | inl exists ↦ elim (Bool-cases conf.override) [
      | inr kept ↦ ground arith
      | inl allowed ↦
          rw (exists, allowed)
            (IsStored-create_failed c w f r _ e
              (replace-IsStored c (on_cluster E (E.create c) w).1 r (rw (exists, allowed) at done)))
    ]
  ]

  create-others :
      (c : Csr) (k : E.Cluster) (n : String)
      → str_eq c.name n ≡ false
      → stored (E.create c k).1 n ≡ stored k n
  create-others c k n other = elim (Reply-cases (E.create c k).0) [
    | inl (r, e) ↦ (K.create_done c k e).4 n ∙ rw other
    | inr (f, e) ↦ rw (K.create_failed c k e)
  ]

  delete-others :
      (m : String) (k : E.Cluster) (n : String)
      → str_eq m n ≡ false
      → stored (E.delete m k).1 n ≡ stored k n
  delete-others m k n other = elim (Reply-cases (E.delete m k).0) [
    | inl (u, e) ↦ (K.delete_done m k e).1 n ∙ rw other
    | inr (f, e) ↦ rw (K.delete_failed m k e)
  ]

  after_create-others :
      (conf : Config) (c : Csr) (reply : Reply E.Failure Csr) (w : World E) (n : String)
      → str_eq c.name n ≡ false
      → stored (after_create E conf c reply w).1.cluster n ≡ stored w.cluster n
  unfolding after_create
  after_create-others conf c (fine r) w n other = refl
  after_create-others conf c (failed f) w n other =
      let k' = (E.delete c.name w.cluster).1 in
      ground (arith, delete-others c.name w.cluster n other, create-others c k' n other)

  send-others :
      (conf : Config) (c : Csr) (w : World E) (n : String)
      → str_eq c.name n ≡ false
      → stored (send E conf c w).1.cluster n ≡ stored w.cluster n
  unfolding send
  send-others conf c w n other =
      after_create-others conf c (E.create c w.cluster).0 (on_cluster E (E.create c) w).1 n other
      ∙ create-others c w.cluster n other

  -- Whatever a submission returns, requests of other names stay as they were.
  pub submit-others :
      (s : Submit E) (csr : Generate.Config) (w : World E) (n : String)
      → str_eq csr.name n ≡ false
      → stored (submit E s csr w).1.cluster n ≡ stored w.cluster n
  unfolding submit
  submit-others s csr w n other = elim (Reply-cases (E.read_file csr.csr_path w.disk).0) [
    | inr (f, e) ↦ rw e
    | inl (b, e) ↦ rw e (
        send-others s.conf (kube_csr_of csr.name b) (on_disk E (E.read_file csr.csr_path) w).1 n
          other)
  ]

  send-no_override :
      (conf : Config) (c : Csr) (w : World E) {old : Csr}
      → conf.override ≡ false
      → stored w.cluster c.name ≡ some old
      → ((r : Csr) → (send E conf c w).0 ≢ ok r)
        × (stored (send E conf c w).1.cluster ≡ stored w.cluster)
  unfolding send
  send-no_override conf c w kept taken = elim (Reply-cases (E.create c w.cluster).0) [
    | inl (r, e) ↦ ground (arith, K.create_done c w.cluster e)
    | inr (f, e) ↦ (λ r. ground arith, ground (arith, K.create_failed c w.cluster e))
  ]

  -- Without overriding, a name that is taken makes the submission fail, and every request stays as it
  -- was.
  pub submit-no_override :
      (s : Submit E) (csr : Generate.Config) (w : World E) {old : Csr}
      → s.conf.override ≡ false
      → stored w.cluster csr.name ≡ some old
      → let (result, w') = submit E s csr w in
        ((r : Csr) → result ≢ ok r) × (stored w'.cluster ≡ stored w.cluster)
  unfolding submit
  submit-no_override s csr w kept taken = elim (Reply-cases (E.read_file csr.csr_path w.disk).0) [
    | inr (f, e) ↦ (λ r. ground arith, ground arith)
    | inl (b, e) ↦ rw e (
        send-no_override s.conf (kube_csr_of csr.name b) (on_disk E (E.read_file csr.csr_path) w).1
          kept taken)
  ]

  send-IsStored :
      (conf : Config) (c : Csr) (w : World E) (r : Csr)
      → (send E conf c w).0 ≡ ok r
      → IsStored c w r (send E conf c w).1
  unfolding send
  send-IsStored conf c w r done = after_create-IsStored conf c w r _ refl done

  module _ (D : DiskLaws E) where
    -- A submission that succeeds has stored, under the configured name, a request with the bytes of the
    -- CSR file and no condition yet; requests of other names stay as they were.
    pub submit-stores :
        (s : Submit E) (csr : Generate.Config) (w : World E) {r : Csr}
        → (submit E s csr w).0 ≡ ok r
        → (r.name ≡ csr.name)
          × (D.contents w.disk csr.csr_path ≡ some r.request)
          × (r.conditions ≡ [])
          × ((n : String)
              → stored (submit E s csr w).1.cluster n
                ≡ (if str_eq csr.name n then some r else stored w.cluster n))
    unfolding submit
    submit-stores s csr w {r} done =
        let read : Eff E Bytes = call (on_disk E (E.read_file csr.csr_path)) in
        let (b, found, sent, e) =
          bind-ok read (λ b. send E s.conf (kube_csr_of csr.name b)) w done in
        let new = send-IsStored s.conf (kube_csr_of csr.name b) (read w).1 r sent in
        (
          new.name,
          D.read_found csr.csr_path w.disk (returned-ok _ found) ∙ ap some (sym new.request),
          new.conditions,
          λ n. rw e (new.at n),
        )

    after_create-disk :
        (conf : Config) (c : Csr) (reply : Reply E.Failure Csr) (w : World E)
        → (after_create E conf c reply w).1.disk ≡ w.disk
    unfolding after_create
    after_create-disk conf c (fine r) w = refl
    after_create-disk conf c (failed f) w = ground arith

    -- A submission writes no file.
    pub submit-disk :
        (s : Submit E) (csr : Generate.Config) (w : World E)
        → D.contents (submit E s csr w).1.disk ≡ D.contents w.disk
    unfolding submit send
    submit-disk s csr w =
        bind-keeps (λ v. D.contents v.disk) (call (on_disk E (E.read_file csr.csr_path))) _ w
          (D.read_keeps csr.csr_path w.disk)
          (λ b v. ap D.contents (
            after_create-disk s.conf (kube_csr_of csr.name b) _
              (on_cluster E (E.create (kube_csr_of csr.name b)) v).1))
