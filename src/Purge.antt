-- ===== src/Purge.antt =====
-- pkg/operation/purge/purge.go
pub mod Verdicts
pub mod Collect
pub mod Answers
pub mod Clock
pub mod Twice
pub mod Daemon
pub mod Days
use kube_csr.Base.{
  ℕ, suc, ◌+◌, ◌/◌, String, ◌<>◌, Bool, true, false, not, ◌||◌, Option, none, some, List, [], ◌∷◌,
  str_eq, length, lookup, Reply, fine, failed, Result, ok, err, panic, waits, errorf, pure, throw,
  crash, call, ◌>>=◌, ◌>>◌, if◌then◌else◌,
}
use kube_csr.Base.Int.{ℤ, pos, negsuc, ◌+ℤ◌, ◌-ℤ◌, neg, wrap64, ltb_ℤ, eqb_ℤ}
use kube_csr.Api.{pprof_bind_default, register_api}
use kube_csr.Env.{
  start_ticker, Env, World, Eff, Bytes, Time, Duration, Csr, Condition, Block, inc, set_gauge,
  sample, on_cluster, on_registry, read_host, emit,
}
use kube_csr.Fetch.{annotation_date, annotation_count, certificate_denied, text_at}
use kube_csr.Kubeclient.{KubeClient, new_kube_client}
use kube_csr.Strconv.{atoi}

abbrev pub Verdict : Env → Type 0
Verdict E = Csr → Duration → Eff E Bool

pub record Config (E : Env) : Type 0 where
  pub should_gc : List (Verdict E)
  pub grace_period : Duration
  pub polling_period : Duration
  pub prometheus_bind : String

pub record Purge (E : Env) : Type 0 where
  pub conf : Config E
  pub kube_client : KubeClient E

abbrev pub csr_gauge : String
csr_gauge = "kubernetes_apiserver_csr"

abbrev pub latency_histogram : String
latency_histogram = "kubernetes_csr_garbage_collect_latency_seconds"

abbrev pub delete_counter : String
delete_counter = "kubernetes_csr_deletes"

abbrev pub delete_error_counter : String
delete_error_counter = "kubernetes_csr_delete_errors"

-- t.Unix(), rounded down to whole seconds
abbrev pub unix : Time → ℤ
unix (pos n) = pos (n / 1_000_000_000)
unix (negsuc n) = negsuc (n / 1_000_000_000)

-- now.Add(-gracePeriod)
abbrev pub grace_limit : Time → Duration → Time
grace_limit now grace = now +ℤ wrap64 (neg grace)

-- What a round of the loop's `select` receives.
pub data Event : Type 0 where
  signal tick : Event

module _ (E : Env) where
  unfoldable pub new_purge_config : Duration → List (Verdict E) → Config E
  new_purge_config grace fns = record {
    should_gc = fns;
    grace_period = grace;
    polling_period = pos 0;
    prometheus_bind = "";
  }

  unfoldable pub register_metrics : Eff E (Unit {0})
  register_metrics = do
    call (on_registry E (E.register csr_gauge))
    call (on_registry E (E.register latency_histogram))
    call (on_registry E (E.register delete_counter))
    call (on_registry E (E.register delete_error_counter))

  -- A nil configuration is dereferenced by the first test.
  unfoldable pub new_purge : String → Option (Config E) → Eff E (Purge E)
  new_purge path none = crash
  new_purge path (some conf) =
      if eqb_ℤ conf.polling_period (pos 0)
      then throw
          (errorf ("invalid value for PollingPeriod: " <> E.duration_text conf.polling_period))
      else do
        k ← new_kube_client E path
        register_metrics
        pure (record { conf = conf; kube_client = k })

  -- The tests on the time at which a certificate ends; the second reading of the clock is logged.
  unfoldable pub is_past : Time → Duration → Eff E Bool
  is_past not_after grace = do
    now ← read_host E E.now
    if ltb_ℤ now not_after then pure false else do
      since ← read_host E E.now
      pure (if ltb_ℤ (grace_limit now grace) not_after then false else true)

  unfoldable pub is_block_expired : Option Block → Duration → Eff E Bool
  is_block_expired none grace = crash
  is_block_expired (some block) grace = elim (E.parse_certificate block.bytes) [
    | failed f ↦ pure false
    | fine not_after ↦ is_past not_after grace
  ]

  abbrev is_empty : Bytes → Bool
  is_empty [] = true
  is_empty (b ∷ bs) = false

  unfoldable pub is_certificate_expired : Csr → Duration → Eff E Bool
  is_certificate_expired csr grace = elim csr.certificate [
    | none ↦ pure false
    | some certificate ↦
        let (block, rest) = E.pem_decode certificate in
        if is_empty rest then is_block_expired block grace else pure false
  ]

  -- What follows the tests on the request: the time of the event against the grace period.
  unfoldable pub is_before_limit : Time → Duration → Eff E Bool
  is_before_limit t grace = do
    now ← read_host E E.now
    pure (if ltb_ℤ (grace_limit now grace) t then false else true)

  unfoldable pub is_first_denied : List Condition → Duration → Eff E Bool
  is_first_denied [] grace = pure false
  is_first_denied (condition ∷ conditions) grace =
      if not (str_eq condition.kind certificate_denied)
      then pure false
      else is_before_limit condition.last_update_time grace

  unfoldable pub is_condition_denied : Csr → Duration → Eff E Bool
  is_condition_denied csr grace = is_first_denied csr.conditions grace

  unfoldable pub is_fetched_at : Reply E.Failure Time → Duration → Eff E Bool
  is_fetched_at (failed f) grace = pure false
  is_fetched_at (fine t) grace = is_before_limit t grace

  unfoldable pub is_map_fetched : List (String × String) → Duration → Eff E Bool
  is_map_fetched annotations grace =
      let (nb, parsed) = atoi (text_at annotation_count annotations) in
      let date = text_at annotation_date annotations in
      if not parsed
      then pure false
      else if eqb_ℤ nb (pos 0)
      then pure false
      else if str_eq date ""
      then pure false
      else is_fetched_at (E.parse_time date) grace

  unfoldable pub is_annotation_fetched : Csr → Duration → Eff E Bool
  is_annotation_fetched csr grace = elim csr.annotations [
    | none ↦ pure false
    | some annotations ↦ is_map_fetched annotations grace
  ]

  unfoldable pub delete : String → Eff E (Unit {0})
  delete csr_name = call (on_cluster E (E.delete csr_name))

  -- What a verdict makes of one request: the number of requests purged so far, after it.
  unfoldable pub purge_if : Bool → String → ℕ → Eff E ℕ
  purge_if false name purged = pure purged
  purge_if true name purged = do delete name; emit E (inc delete_counter); pure (purged + 1)

  -- The loop over the verdicts, for one request.
  unfoldable pub purge_item : List (Verdict E) → Duration → Csr → ℕ → Eff E ℕ
  purge_item [] grace elt purged = pure purged
  purge_item (fn ∷ fns) grace elt purged = do
    verdict ← fn elt grace
    purged' ← purge_if verdict elt.name purged
    purge_item fns grace elt purged'

  unfoldable pub purge_items : List (Verdict E) → Duration → List Csr → ℕ → Eff E ℕ
  purge_items fns grace [] purged = pure purged
  purge_items fns grace (elt ∷ items) purged = do
    purged' ← purge_item fns grace elt purged
    purge_items fns grace items purged'

  -- The metrics of a run, with the number of requests listed and the number purged.
  unfoldable pub measure : Time → ℕ → ℕ → Eff E (Unit {0})
  measure start listed purged = do
    end ← read_host E E.now
    emit E (sample latency_histogram (unix end -ℤ unix start))
    emit E (set_gauge csr_gauge (pos listed -ℤ pos purged))

  unfoldable pub collect_listed : Config E → Time → List Csr → Eff E (Unit {0})
  collect_listed conf start items = do
    purged ← purge_items conf.should_gc conf.grace_period items 0
    measure start (length items) purged

  unfoldable pub garbage_collect : Config E → Eff E (Unit {0})
  garbage_collect conf = do
    start ← read_host E E.now
    items ← call (on_cluster E E.list)
    collect_listed conf start items

  -- A failed run is counted, and the loop goes on.
  unfoldable pub count_error : Result E.Failure (Unit {0}) → Eff E (Unit {0})
  count_error (ok u) = pure tt
  count_error (err e) = emit E (inc delete_error_counter)
  count_error panic = λ w. (panic, w)
  count_error waits = λ w. (waits, w)

  unfoldable pub garbage_collect_loop : Config E → List Event → Eff E (Unit {0})
  garbage_collect_loop conf [] = λ w. (waits, w)
  garbage_collect_loop conf (signal ∷ events) = pure tt
  garbage_collect_loop conf (tick ∷ events) = λ w.
      let (result, w') = garbage_collect conf w in
      (count_error result >> garbage_collect_loop conf events) w'

  -- GarbageCollectLoop
  unfoldable pub garbage_collect_daemon : Config E → List Event → Eff E (Unit {0})
  garbage_collect_daemon conf events = do
    register_api E conf.prometheus_bind pprof_bind_default
    start_ticker E conf.polling_period
    garbage_collect_loop conf events
