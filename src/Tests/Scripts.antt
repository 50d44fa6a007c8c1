-- ===== src/Tests/Scripts.antt =====
-- Examples of the scripts.
use kube_csr.Base.{
  ◌≡◌, refl, false, [], ◌∷◌, fine, ok, some, codes, lookup, insert, remove, map, pure,
}
use kube_csr.Env.Memory.{memory, idle_world, stat, write}
use kube_csr.Sort.{sort_strings, insert_sorted, text_less}
use kube_csr.Scripts.{
  Tools, has_suffix, doc_dir, write_lines, write_metrics, rewrite, strip_footer, strip_footers,
  docs,
}

-- A page holds one byte without its footer.
abbrev tools : Tools memory
tools = record {
  gather = λ r. (fine (map (λ m. record { name = m; kind = "K"; help = "h" }) r), r);
  bytes_of = λ s. codes s;
  gen_markdown_tree = λ dir d. (fine tt, insert "/work/docs/csr.md" (1 ∷ 2 ∷ []) d);
  read_dir = λ dir d. (
    fine (
        record { name = "csr.md"; is_dir = false }
        ∷ record { name = "a.csv"; is_dir = false }
        ∷ []),
    d,
  );
  bash = λ command d. (fine (1 ∷ []), d);
  open_existing = λ p d. (fine p, insert p [] d);
  sync = λ h d. d;
}

documented :
    lookup "/work/docs/csr.md"
      (docs memory tools (record idle_world { disk = ("/work/docs", []) ∷ [] })).1.disk
    ≡ some (1 ∷ [])
unfolding docs doc_dir strip_footers strip_footer rewrite has_suffix stat write lookup remove
documented = refl

docs_end : (docs memory tools (record idle_world { disk = ("/work/docs", []) ∷ [] })).0 ≡ ok tt
unfolding docs doc_dir strip_footers strip_footer rewrite has_suffix stat write lookup remove
docs_end = refl

-- The lines of the metrics come out sorted, behind the header.
metrics_documented :
    lookup "/work/docs/m.csv"
      (write_metrics memory tools
        (pure tt)
        "m.csv"
        (record idle_world { disk = ("/work/docs", []) ∷ []; registry = "b" ∷ "a" ∷ [] })).1.disk
    ≡ some (codes "name,type,help\na,K,h\nb,K,h\n")
unfolding write_metrics doc_dir write_lines sort_strings insert_sorted text_less stat write lookup
    remove
metrics_documented = refl
