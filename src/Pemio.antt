-- ===== src/Pemio.antt =====
-- pkg/utils/pemio/write.go
pub mod Writes
use kube_csr.Base.{
  ℕ, String, ◌<>◌, Bool, not, ◌&&◌, Reply, fine, failed, ok, err, errorf, pure, throw, call,
  observe, ◌>>=◌, ◌>>◌, if◌then◌else◌,
}
use kube_csr.Env.{Env, World, Bytes, Block, Eff, on_disk}

module _ (E : Env) where
  -- defer fd.Close()
  abbrev closing : {A : Type 0} → E.Handle → Eff E A → Eff E A
  closing fd body w = ((body w).0, record (body w).1 { disk = E.close fd (body w).1.disk })

  -- Both functions stat the path and refuse an existing file unless they may override it.
  abbrev refuse_existing : {A : Type 0} → String → Bool → Reply E.Failure A → Eff E (Unit {0})
  refuse_existing path override (fine _) =
      if not override then throw (errorf ("file exists " <> path)) else pure tt
  refuse_existing path override (failed _) = pure tt

  -- The file is created or truncated, written, and closed on every path.
  unfoldable pub save : String → ℕ → Bytes → Eff E (Unit {0})
  save path perm b = do
    fd ← call (on_disk E (E.open_trunc path perm))
    closing fd (call (on_disk E (E.write fd b)))

  unfoldable pub write_file : Bytes → String → ℕ → Bool → Eff E (Unit {0})
  write_file b path perm override = do
    found ← observe (on_disk E (E.stat path))
    refuse_existing path override found
    save path perm b

  unfoldable pub write_pem : Bytes → String → String → ℕ → Bool → Eff E (Unit {0})
  write_pem b kind path perm override = do
    found ← observe (on_disk E (E.stat path))
    refuse_existing path override found
    save path perm (E.pem_encode (record { kind = kind; bytes = b }))
