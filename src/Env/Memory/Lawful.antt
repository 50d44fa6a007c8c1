-- ===== src/Env/Memory/Lawful.antt =====
-- The environment in memory meets the laws.
use text.Mathlib.TextPositions.{eq_refl}
use kube_csr.Base.{
  fine, Option-cases, inl, inr, String, ◌≡◌, refl, false, Option, none, some, [], ◌++◌, arith,
  str_eq, eq_iff, lookup, insert, lookup-insert, remove, lookup-remove, if◌then◌else◌,
}
use kube_csr.Env.{Csr, Bytes}
use kube_csr.Env.Laws.{DiskLaws, ClusterLaws, ClockLaws}
use kube_csr.Env.Memory.{
  Cluster, Disk, memory, create, get, get_service, update, approve, delete, stat, read_file, write,
}

pub disk_laws : DiskLaws memory
unfolding stat read_file write
disk_laws = record {
  contents = λ d p. lookup p d;
  path_of = λ h. h;
  stat_found = λ p d e. ground arith;
  stat_keeps = λ p d. ground arith;
  read_found = λ p d e. ground arith;
  read_keeps = λ p d. ground arith;
  open_done = λ p perm d {h} e. ground (arith, lookup-insert {V = Bytes} p p [] d, eq_refl p);
  open_others = λ p perm d q e. ground (arith, lookup-insert {V = Bytes} p q [] d);
  write_done = λ h b d {old} e f. ground (arith, lookup-insert h h (old ++ b) d, eq_refl h);
  write_others = λ h b d q e. write_other h b d q e;
  close_keeps = λ h d. refl;
}
  where
    write_other :
        (h : String) (b : Bytes) (d : Disk) (q : String)
        → str_eq h q ≡ false
        → lookup q (write h b d).1 ≡ lookup q d
    write_other h b d q e = grind (arith, lookup-insert)

-- A request carries the name under which it is stored.
abbrev pub named : String → Option Csr → Option Csr
named n none = none
named n (some r) = some (record r { name = n })

abbrev pub stored : Cluster → String → Option Csr
stored k n = named n (lookup n k.requests)

stored-put :
    (c : Csr) (k : Cluster) (n : String)
    → named n (lookup n (insert c.name c k.requests))
      ≡ (if str_eq c.name n then some c else stored k n)
stored-put c k n = rw lookup-insert (ground (arith, eq_iff c.name n))

stored-remove :
    (j : String) (k : Cluster) (n : String)
    → named n (lookup n (remove j k.requests)) ≡ (if str_eq j n then none else stored k n)
stored-remove j k n = rw lookup-remove (ground arith)

update_stored :
    (c : Csr) (k : Cluster) {r : Csr}
    → (update c k).0 ≡ fine r
    → (old : Csr) × (stored k c.name ≡ some old)
      × (r.annotations ≡ c.annotations)
      × (r.request ≡ old.request)
      × (r.conditions ≡ old.conditions)
      × ((n : String) → stored (update c k).1 n ≡ (if str_eq c.name n then some r else stored k n))
unfolding update
update_stored c k {r} e = elim (Option-cases (lookup c.name k.requests)) [
  | inl missing ↦ absurd (ground arith)
  | inr (old, found) ↦
      let new : Csr = record old { name = c.name; annotations = c.annotations } in
      (
        record old { name = c.name },
        ground arith,
        ground arith,
        ground arith,
        ground arith,
        λ n. ground (arith, stored-put new k n),
      )
]

pub cluster_laws : ClusterLaws memory
unfolding create get update approve delete get_service
cluster_laws = record {
  stored = stored;
  create_done = λ c k {r} e. (
    ground arith,
    ground arith,
    ground arith,
    ground arith,
    λ n. ground (arith, stored-put (record c { conditions = []; certificate = none }) k n),
  );
  create_failed = λ c k e. ground arith;
  create_exists = λ c k e x. ground arith;
  delete_done = λ n k e. (ground arith, λ j. ground (arith, stored-remove n k j));
  delete_failed = λ n k e. ground arith;
  get_done = λ n k e. ground arith;
  get_keeps = λ n k. ground arith;
  approval_done = λ c k {r} e.
      (ground arith, ground arith, ground arith, λ n. ground (arith, stored-put c k n));
  approval_failed = λ c k e. ground arith;
  update_done = update_stored;
  update_failed = λ c k e. ground arith;
  get_service_keeps = λ ns svc k. ground arith;
  list_keeps = λ k. refl;
}

-- What the two laws speak of, over this environment.
pub contents_lem : (d : Disk) (p : String) → disk_laws.contents d p ≡ lookup p d
unfolding disk_laws
contents_lem d p = refl

pub stored_lem : (k : Cluster) (n : String) → cluster_laws.stored k n ≡ stored k n
unfolding cluster_laws
stored_lem k n = refl

pub clock_laws : ClockLaws memory
clock_laws = record { no_return = λ h. omega arith }
