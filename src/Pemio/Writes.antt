-- ===== src/Pemio/Writes.antt =====
-- What the two write functions leave on the disk.
use kube_csr.Base.{
  ℕ, String, ◌<>◌, ◌≡◌, refl, ◌∙◌, Bool, false, some, [], arith, str_eq, eq_iff, ok, err, errorf,
  Reply-cases, Bool-cases, inl, inr, if◌then◌else◌,
}
use kube_csr.Env.{Env, World, Bytes}
use kube_csr.Env.Laws.{DiskLaws}
use kube_csr.Pemio.{save, write_file, write_pem}

-- A PEM file is written as the bytes of its encoding are.
pub write_pem-write_file :
    (E : Env) (b : Bytes) (kind path : String) (perm : ℕ) (override : Bool)
    → write_pem E b kind path perm override
      ≡ write_file E (E.pem_encode (record { kind = kind; bytes = b })) path perm override
unfolding write_pem write_file
write_pem-write_file E b kind path perm override = refl

module _ (E : Env) where
  save-cluster :
      (path : String) (perm : ℕ) (b : Bytes) (w : World E)
      → (save E path perm b w).1.cluster ≡ w.cluster
  unfolding save
  save-cluster path perm b w = ground arith

  pub write_file-cluster :
      (b : Bytes) (path : String) (perm : ℕ) (override : Bool) (w : World E)
      → (write_file E b path perm override w).1.cluster ≡ w.cluster
  unfolding write_file save
  write_file-cluster b path perm override w = ground arith

module _ (E : Env) (L : DiskLaws E) where
  open L use {contents}

  save-path :
      (path : String) (perm : ℕ) (b : Bytes) (w : World E)
      → (save E path perm b w).0 ≡ ok tt
      → contents (save E path perm b w).1.disk path ≡ some b
  unfolding save
  save-path path perm b w done = elim (Reply-cases (E.open_trunc path perm w.disk).0) [
    | inr (f, e) ↦ ground arith
    | inl (h, e) ↦ ground (
      arith,
      L.open_done path perm w.disk e,
      L.write_done h b (E.open_trunc path perm w.disk).1 {old = []},
      L.close_keeps h (E.write h b (E.open_trunc path perm w.disk).1).1,
    )
  ]

  save-others :
      (path : String) (perm : ℕ) (b : Bytes) (w : World E) (q : String)
      → str_eq path q ≡ false
      → contents (save E path perm b w).1.disk q ≡ contents w.disk q
  unfolding save
  save-others path perm b w q other = elim (Reply-cases (E.open_trunc path perm w.disk).0) [
    | inr (f, e) ↦ ground (arith, L.open_others path perm w.disk q)
    | inl (h, e) ↦ ground (
      arith,
      L.open_done path perm w.disk e,
      L.open_others path perm w.disk q,
      L.write_others h b (E.open_trunc path perm w.disk).1 q,
      L.close_keeps h (E.write h b (E.open_trunc path perm w.disk).1).1,
    )
  ]

  save-at :
      (path : String) (perm : ℕ) (b : Bytes) (w : World E) (q : String)
      → (save E path perm b w).0 ≡ ok tt
      → contents (save E path perm b w).1.disk q
        ≡ (if str_eq path q then some b else contents w.disk q)
  save-at path perm b w q done = elim (Bool-cases (str_eq path q)) [
    | inl e ↦ rw (e, ← ((eq_iff path q).0 e)) (save-path path perm b w done)
    | inr e ↦ rw e (save-others path perm b w q e)
  ]

  stated : String → World E → World E
  stated path w = record w { disk = (E.stat path w.disk).1 }

  -- A write without an error has got past the test on an existing file.
  write_file-save :
      (b : Bytes) (path : String) (perm : ℕ) (override : Bool) (w : World E)
      → (write_file E b path perm override w).0 ≡ ok tt
      → write_file E b path perm override w ≡ save E path perm b (stated path w)
  unfolding write_file stated
  write_file-save b path perm override w done = ground arith

  pub write_file-path :
      (b : Bytes) (path : String) (perm : ℕ) (override : Bool) (w : World E)
      → (write_file E b path perm override w).0 ≡ ok tt
      → contents (write_file E b path perm override w).1.disk path ≡ some b
  write_file-path b path perm override w done =
      let e = write_file-save b path perm override w done in
      rw e (save-path path perm b (stated path w) (rw (← e) done))

  -- A write that returns no error has left exactly the given bytes at the path, every other path
  -- as it was, and the kube-apiserver's state as it was.
  pub write_file-writes :
      (b : Bytes) (path : String) (perm : ℕ) (override : Bool) (w : World E)
      → (write_file E b path perm override w).0 ≡ ok tt
      → let w' = (write_file E b path perm override w).1 in
        ((q : String) → contents w'.disk q ≡ (if str_eq path q then some b else contents w.disk q))
        × (w'.cluster ≡ w.cluster)
  unfolding stated
  write_file-writes b path perm override w done =
      let e = write_file-save b path perm override w done in
      rw e (
        λ q. save-at path perm b (stated path w) q (rw (← e) done) ∙ rw L.stat_keeps,
        save-cluster E path perm b (stated path w),
      )

  -- Where the path holds a file and overriding is not allowed, the write fails by the error that
  -- names the path, and every path keeps what it holds.
  pub write_file-refuses :
      (b : Bytes) (path : String) (perm : ℕ) (w : World E) {old : Bytes}
      → contents w.disk path ≡ some old
      → let (result, w') = write_file E b path perm false w in
        (result ≡ err (errorf ("file exists " <> path))) × (contents w'.disk ≡ contents w.disk)
  unfolding write_file
  write_file-refuses b path perm w there =
      ground (arith, L.stat_found path w.disk there, L.stat_keeps path w.disk)
