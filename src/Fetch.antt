-- ===== src/Fetch.antt =====
-- pkg/operation/fetch/fetch.go
pub mod Annotations
pub mod Polling
use kube_csr.Base.{
  ℕ, ◌+◌, String, ◌<>◌, Bool, true, false, not, Option, none, some, List, [], ◌∷◌, str_eq, lookup,
  insert, errorf, pure, throw, wait, call, ◌>>=◌, ◌>>◌, if◌then◌else◌,
}
use kube_csr.Base.Int.{ℤ, pos, ◌+ℤ◌, wrap64, eqb_ℤ}
use kube_csr.Env.{Env, Eff, Bytes, Duration, Csr, Condition, on_cluster, read_host, start_ticker}
use kube_csr.Kubeclient.{KubeClient, new_kube_client}
use kube_csr.Pemio.{write_file}
use kube_csr.Strconv.{atoi, itoa}

-- KubeCsrFetchedAnnotationDate
abbrev pub annotation_date : String
annotation_date = "alpha.kube-csr/lastFetchTime"

-- KubeCsrFetchedAnnotationNb
abbrev pub annotation_count : String
annotation_count = "alpha.kube-csr/fetchCount"

abbrev pub certificate_denied : String
certificate_denied = "Denied"

pub record Config : Type 0 where
  pub override : Bool
  pub polling_interval : Duration
  pub polling_timeout : Duration
  pub certificate_path : String
  pub certificate_permission : ℕ
  pub annotate : Bool

pub record Fetch (E : Env) : Type 0 where
  pub conf : Config
  pub kube_client : KubeClient E

-- What a round of the `select` receives.
pub data Event : Type 0 where
  signal : String → Event
  tick timeout : Event

-- m[key] of a Go map: a missing key reads as the empty string.
unfoldable pub text_at : String → List (String × String) → String
text_at key m = elim (lookup key m) [ none ↦ "" | some v ↦ v ]

-- The annotations after a fetch at a time.
unfoldable pub annotations_after : String → Option (List (String × String)) → List (String × String)
annotations_after now none = (annotation_date, now) ∷ (annotation_count, "1") ∷ []
annotations_after now (some m) =
    let dated = insert annotation_date now m in
    let (nb, parsed) = atoi (text_at annotation_count dated) in
    insert annotation_count (itoa (wrap64 (nb +ℤ pos 1))) dated

-- The first denial among the conditions, as the loop over them finds it.
unfoldable pub find_denied : List Condition → Option Condition
find_denied [] = none
find_denied (c ∷ cs) =
    let rest = find_denied cs in if str_eq c.kind certificate_denied then some c else rest

module _ (E : Env) where
  unfoldable pub new_fetcher : String → Config → Eff E (Fetch E)
  new_fetcher path conf =
      if eqb_ℤ conf.polling_interval (pos 0)
      then throw
          (errorf ("invalid value for PollingInterval: " <> E.duration_text conf.polling_interval))
      else if eqb_ℤ conf.polling_timeout (pos 0)
      then throw
          (errorf ("invalid value for PollingTimeout: " <> E.duration_text conf.polling_timeout))
      else do k ← new_kube_client E path; pure (record { conf = conf; kube_client = k })

  unfoldable pub update_annotations : Config → Csr → Eff E (Unit {0})
  update_annotations conf r = if not conf.annotate then pure tt else do
    now ← read_host E E.now
    call (
        on_cluster E (
          E.update (record r {
            annotations = some (annotations_after (E.format_time now) r.annotations);
          })))
    pure tt

  -- A fetched certificate is announced and then written.
  unfoldable pub deliver : Config → Csr → Bytes → Eff E (Unit {0})
  deliver conf r certificate = do
    update_annotations conf r
    write_file E certificate conf.certificate_path conf.certificate_permission conf.override

  abbrev pub denial : Csr → Condition → String
  denial r c =
      "csr/"
      <> r.name
      <> " uid: "
      <> r.uid
      <> " is "
      <> E.quote c.kind
      <> ": "
      <> E.condition_text c

  -- A request with no certificate ends the loop if it is denied; `more` is the rest of the loop.
  unfoldable pub on_pending : Csr → Option Condition → Eff E (Unit {0}) → Eff E (Unit {0})
  on_pending r (some c) more = throw (errorf (denial r c))
  on_pending r none more = more

  -- What one tick does with the request that it got.
  unfoldable pub on_request : Config → Csr → Option Bytes → Eff E (Unit {0}) → Eff E (Unit {0})
  on_request conf r (some certificate) more = deliver conf r certificate
  on_request conf r none more = on_pending r (find_denied r.conditions) more

  -- The loop over the `select`.
  unfoldable pub await_certificate : Config → String → List Event → Eff E (Unit {0})
  await_certificate conf csr_name [] = wait
  await_certificate conf csr_name (signal s ∷ events) = throw (errorf s)
  await_certificate conf csr_name (timeout ∷ events) =
      throw (errorf ("timeout during certificate fetching of csr/" <> csr_name))
  await_certificate conf csr_name (tick ∷ events) = do
    r ← call (on_cluster E (E.get csr_name))
    on_request conf r r.certificate (await_certificate conf csr_name events)

  unfoldable pub fetch : Config → String → List Event → Eff E (Unit {0})
  fetch conf csr_name events = do
    start_ticker E conf.polling_interval
    await_certificate conf csr_name events
