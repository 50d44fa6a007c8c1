-- ===== src/Scripts.antt =====
-- scripts/update/: docs.go, metrics_purge.go and metrics_renew.go, which write the documentation. What
-- ends a script by `glog.Exit` is an error here.
use kube_csr.Base.{
  ok, String, ◌<>◌, Bool, not, ◌||◌, List, [], ◌∷◌, str_eq, map, Reply, fine, failed, pure, call,
  observe, ◌>>=◌, ◌>>◌, if◌then◌else◌,
}
use kube_csr.Env.{Env, Eff, Bytes, on_disk, on_host, on_registry}
use kube_csr.Sort.{sort_strings}
use kube_csr.Purge
use kube_csr.Renew

-- What `Gather` tells of a metric.
pub record Family : Type 0 where
  pub name : String
  pub kind : String
  pub help : String

-- An entry of a directory.
pub record Entry : Type 0 where
  pub name : String
  pub is_dir : Bool

-- The code that only the scripts call: prometheus, cobra's markdown of the commands, the shell, and
-- more of the files.
pub record Tools (E : Env) : Type 0 where
  pub gather : E.Registry → Reply E.Failure (List Family) × E.Registry
  pub bytes_of : String → Bytes
  pub gen_markdown_tree : String → E.Disk → Reply E.Failure (Unit {0}) × E.Disk
  pub read_dir : String → E.Disk → Reply E.Failure (List Entry) × E.Disk
  -- the output of `bash -c`
  pub bash : String → E.Disk → Reply E.Failure Bytes × E.Disk
  -- without O_CREATE
  pub open_existing : String → E.Disk → Reply E.Failure E.Handle × E.Disk
  pub sync : E.Handle → E.Disk → E.Disk

-- strings.HasSuffix
unfoldable pub has_suffix : String → String → Bool
has_suffix String.[] suffix = str_eq "" suffix
has_suffix (String.◌∷◌ c s) suffix = str_eq (String.◌∷◌ c s) suffix || has_suffix s suffix

module _ (E : Env) (T : Tools E) where
  -- A change of the disk that cannot fail.
  abbrev pub on_file : (E.Disk → E.Disk) → Eff E (Unit {0})
  on_file f w = (ok tt, record w { disk = f w.disk })

  unfoldable pub doc_dir : Eff E String
  doc_dir = do
    cwd ← call (on_host E E.working_directory)
    let dir = E.join_path cwd "docs"
    call (on_disk E (E.stat dir))
    pure dir

  abbrev pub line_of : Family → String
  line_of m = E.quote m.name <> "," <> E.quote m.kind <> "," <> E.quote m.help <> "\n"

  -- Errors of the writes are not looked at.
  unfoldable pub write_lines : E.Handle → List String → Eff E (Unit {0})
  write_lines fd [] = pure tt
  write_lines fd (elt ∷ elts) = do
    observe (on_disk E (E.write fd (T.bytes_of elt)))
    write_lines fd elts

  -- The two scripts for metrics, which differ in what they register and in the file.
  unfoldable pub write_metrics : Eff E (Unit {0}) → String → Eff E (Unit {0})
  write_metrics register file = do
    dir ← doc_dir
    register
    metrics ← call (on_registry E T.gather)
    fd ← call (on_disk E (E.open_trunc (E.join_path dir file) 420))
    write_lines fd ("name,type,help\n" ∷ sort_strings (map line_of metrics))
    on_file (T.sync fd)
    on_file (E.close fd)

  abbrev pub metrics_purge : Eff E (Unit {0})
  metrics_purge = write_metrics (Purge.register_metrics E) "purge-metrics.csv"

  abbrev pub metrics_renew : Eff E (Unit {0})
  metrics_renew = write_metrics (Renew.register_metrics E) "renew-metrics.csv"

  -- A file that cannot be opened is left, and what becomes of the write is not told.
  unfoldable pub rewrite : Bytes → Reply E.Failure E.Handle → Eff E (Unit {0})
  rewrite b (failed f) = pure tt
  rewrite b (fine fd) = do observe (on_disk E (E.write fd b)); on_file (E.close fd)

  -- The footer of cobra is taken out of a page.
  unfoldable pub strip_footer : String → Eff E (Unit {0})
  strip_footer path = do
    b ← call (on_disk E (T.bash ("grep -v \"^###### Auto generated by spf13/cobra on\" " <> path)))
    opened ← observe (on_disk E (T.open_existing path))
    rewrite b opened

  unfoldable pub strip_footers : String → List Entry → Eff E (Unit {0})
  strip_footers dir [] = pure tt
  strip_footers dir (f ∷ files) = do
    (if f.is_dir || not (has_suffix f.name ".md")
        then pure tt
        else strip_footer (E.join_path dir f.name))
    strip_footers dir files

  unfoldable pub docs : Eff E (Unit {0})
  docs = do
    dir ← doc_dir
    call (on_disk E (T.gen_markdown_tree dir))
    files ← call (on_disk E (T.read_dir dir))
    strip_footers dir files
