-- ===== src/Env/Laws.antt =====
-- The documented behaviour of the code outside the program that some properties rest on.
use kube_csr.Base.{
  ℕ, String, ◌≡◌, ◌≢◌, true, false, Option, none, some, [], ◌++◌, str_eq, fine, failed,
  if◌then◌else◌,
}
use kube_csr.Base.Int.{◌≤ℤ◌}
use kube_csr.Env.{Env, Bytes, Csr}

-- os: what each path holds, as far as the program may reach it.
pub record DiskLaws (E : Env) : Type 0 where
  pub contents : E.Disk → String → Option Bytes
  pub path_of : E.Handle → String
  pub stat_found :
      (p : String) (d : E.Disk) {b : Bytes} → contents d p ≡ some b → (E.stat p d).0 ≡ fine tt
  pub stat_keeps : (p : String) (d : E.Disk) → contents (E.stat p d).1 ≡ contents d
  pub read_found :
      (p : String) (d : E.Disk) {b : Bytes} → (E.read_file p d).0 ≡ fine b → contents d p ≡ some b
  pub read_keeps : (p : String) (d : E.Disk) → contents (E.read_file p d).1 ≡ contents d
  pub open_done :
      (p : String) (perm : ℕ) (d : E.Disk) {h : E.Handle}
      → (E.open_trunc p perm d).0 ≡ fine h
      → (path_of h ≡ p) × (contents (E.open_trunc p perm d).1 p ≡ some [])
  pub open_others :
      (p : String) (perm : ℕ) (d : E.Disk) (q : String)
      → str_eq p q ≡ false
      → contents (E.open_trunc p perm d).1 q ≡ contents d q
  pub write_done :
      (h : E.Handle) (b : Bytes) (d : E.Disk) {old : Bytes}
      → contents d (path_of h) ≡ some old
      → (E.write h b d).0 ≡ fine tt
      → contents (E.write h b d).1 (path_of h) ≡ some (old ++ b)
  pub write_others :
      (h : E.Handle) (b : Bytes) (d : E.Disk) (q : String)
      → str_eq (path_of h) q ≡ false
      → contents (E.write h b d).1 q ≡ contents d q
  pub close_keeps : (h : E.Handle) (d : E.Disk) → contents (E.close h d) ≡ contents d

-- The requests that the kube-apiserver holds, by name. A call that fails has changed nothing.
pub record ClusterLaws (E : Env) : Type 0 where
  pub stored : E.Cluster → String → Option Csr
  pub create_done :
      (c : Csr) (k : E.Cluster) {r : Csr}
      → (E.create c k).0 ≡ fine r
      → (stored k c.name ≡ none)
        × (r.name ≡ c.name)
        × (r.request ≡ c.request)
        × (r.conditions ≡ [])
        × ((n : String)
            → stored (E.create c k).1 n ≡ (if str_eq c.name n then some r else stored k n))
  pub create_failed :
      (c : Csr) (k : E.Cluster) {f : E.Failure}
      → (E.create c k).0 ≡ failed f
      → stored (E.create c k).1 ≡ stored k
  pub create_exists :
      (c : Csr) (k : E.Cluster) {f : E.Failure}
      → (E.create c k).0 ≡ failed f
      → E.is_already_exists f ≡ true
      → stored k c.name ≢ none
  pub delete_done :
      (n : String) (k : E.Cluster)
      → (E.delete n k).0 ≡ fine tt
      → (stored k n ≢ none)
        × ((j : String) → stored (E.delete n k).1 j ≡ (if str_eq n j then none else stored k j))
  pub delete_failed :
      (n : String) (k : E.Cluster) {f : E.Failure}
      → (E.delete n k).0 ≡ failed f
      → stored (E.delete n k).1 ≡ stored k
  pub get_done :
      (n : String) (k : E.Cluster) {r : Csr}
      → (E.get n k).0 ≡ fine r
      → (stored k n ≡ some r) × (r.name ≡ n)
  pub get_keeps : (n : String) (k : E.Cluster) → stored (E.get n k).1 ≡ stored k
  pub approval_done :
      (c : Csr) (k : E.Cluster) {r : Csr}
      → (E.update_approval c k).0 ≡ fine r
      → (r.name ≡ c.name)
        × (r.conditions ≡ c.conditions)
        × (r.request ≡ c.request)
        × ((n : String)
            → stored (E.update_approval c k).1 n ≡ (if str_eq c.name n then some r else stored k n))
  pub approval_failed :
      (c : Csr) (k : E.Cluster) {f : E.Failure}
      → (E.update_approval c k).0 ≡ failed f
      → stored (E.update_approval c k).1 ≡ stored k
  -- The bytes and the conditions of a request are not those of an update: they stay as they are.
  pub update_done :
      (c : Csr) (k : E.Cluster) {r : Csr}
      → (E.update c k).0 ≡ fine r
      → (old : Csr) × (stored k c.name ≡ some old)
        × (r.annotations ≡ c.annotations)
        × (r.request ≡ old.request)
        × (r.conditions ≡ old.conditions)
        × ((n : String)
            → stored (E.update c k).1 n ≡ (if str_eq c.name n then some r else stored k n))
  pub update_failed :
      (c : Csr) (k : E.Cluster) {f : E.Failure}
      → (E.update c k).0 ≡ failed f
      → stored (E.update c k).1 ≡ stored k
  pub get_service_keeps :
      (ns svc : String) (k : E.Cluster) → stored (E.get_service ns svc k).1 ≡ stored k
  pub list_keeps : (k : E.Cluster) → stored (E.list k).1 ≡ stored k

-- time: the clock is not set back between two readings.
pub record ClockLaws (E : Env) : Type 0 where
  pub no_return : (h : E.Host) → (E.now h).0 ≤ℤ (E.now (E.now h).1).0
