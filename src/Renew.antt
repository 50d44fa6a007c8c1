-- ===== src/Renew.antt =====
-- pkg/renew/renew.go
pub mod Channel
pub mod Threshold
use Prim.Native.String
use kube_csr.Base.{
  ℕ, zero, suc, String, ◌<>◌, Bool, true, false, not, Option, none, some, List, [], ◌∷◌, str_eq,
  Reply, fine, failed, Result, ok, err, panic, waits, errorf, pure, throw, crash, call, observe,
  wait, ◌>>=◌, ◌>>◌, if◌then◌else◌, ◌^◌, ◌-◌,
}
use kube_csr.Base.Int.{ℤ, pos, negsuc, ◌-ℤ◌, wrap64, ltb_ℤ, leb_ℤ}
use kube_csr.Api.{pprof_bind_default, register_api}
use kube_csr.Env.{
  start_ticker, Env, World, Eff, Bytes, Time, Duration, Block, inc, set_gauge, on_disk, on_host,
  on_registry, read_host, emit, computed,
}
use kube_csr.Generate
use kube_csr.Fetch
use kube_csr.Fetch.{Fetch}
use kube_csr.Kubeclient.{KubeClient, new_kube_client}
use kube_csr.Strconv.{itoa}
use kube_csr.Operation.{Operation, Process, Schedule, Run, within, gets, modify, run}

pub record Config (E : Env) : Type 0 where
  pub operation : Operation E
  pub renew_threshold : Duration
  pub renew_command : String
  pub exit_on_renew : Bool
  pub generate_new_csr : Bool
  pub prometheus_bind : String
  pub check_interval : Duration

pub record Renew (E : Env) : Type 0 where
  pub conf : Config E
  pub csr_basename : String
  pub kube_client : KubeClient E

abbrev pub renew_counter : String
renew_counter = "total_renew"

abbrev pub renew_error_counter : String
renew_error_counter = "total_renew_errors"

abbrev pub expiration_gauge : String
expiration_gauge = "seconds_before_expiration"

abbrev pub next_renew_gauge : String
next_renew_gauge = "seconds_before_renew"

-- t.Sub(u), which is clamped to the range of a duration.
unfoldable pub sub_time : Time → Time → Duration
sub_time t u =
    let d = t -ℤ u in
    if ltb_ℤ (pos (2 ^ 63 - 1)) d
    then pos (2 ^ 63 - 1)
    else if ltb_ℤ d (negsuc (2 ^ 63 - 1))
    then negsuc (2 ^ 63 - 1)
    else d

-- strings.Join
unfoldable pub join : String → List String → String
join sep [] = ""
join sep (s ∷ []) = s
join sep (s ∷ t ∷ ts) = s <> sep <> join sep (t ∷ ts)

-- s[:n]
unfoldable pub prefix : ℕ → String → String
prefix zero s = ""
prefix (suc n) String.[] = ""
prefix (suc n) (String.◌∷◌ c s) = String.◌∷◌ c (prefix n s)

-- What a round of the `select` in `Renew` receives. A tick comes with what the polling loops of
-- the run that it may start receive.
pub data Event : Type 0 where
  signal renewed : Event
  tick : Schedule → Event

module _ (E : Env) where
  unfoldable pub register_metrics : Eff E (Unit {0})
  register_metrics = do
    call (on_registry E (E.register renew_counter))
    call (on_registry E (E.register renew_error_counter))
    call (on_registry E (E.register expiration_gauge))
    call (on_registry E (E.register next_renew_gauge))

  -- The texts of the errors of `Stat`, for the paths that are missing.
  unfoldable pub missing_paths : List String → Eff E (List String)
  missing_paths [] = pure []
  missing_paths (p ∷ paths) = do
    found ← observe (on_disk E (E.stat p))
    rest ← missing_paths paths
    pure (elim found [ fine _ ↦ rest | failed f ↦ E.failure_text f ∷ rest ])

  abbrev pub report : List String → Eff E (Unit {0})
  report [] = pure tt
  report (e ∷ errs) = throw (errorf (join ", " (e ∷ errs)))

  unfoldable pub check_paths : List String → Eff E (Unit {0})
  check_paths paths = do errs ← missing_paths paths; report errs

  -- Both configurations are set to override what exists.
  abbrev pub overriding : Operation E → Fetch E → Operation E
  overriding o f = record o {
    source_config = record o.source_config { override = true };
    fetch = some (record f { conf = record f.conf { override = true } });
  }

  unfoldable pub new_renewer_with : String → Config E → Option (Fetch E) → Eff E (Renew E)
  new_renewer_with path conf none = crash
  new_renewer_with path conf (some f) = do
    check_paths (
        conf.operation.source_config.private_key_path ∷ conf.operation.source_config.csr_path
        ∷ f.conf.certificate_path ∷ [])
    k ← new_kube_client E path
    register_metrics
    pure (record {
      conf = record conf { operation = overriding conf.operation f };
      csr_basename = conf.operation.source_config.name;
      kube_client = k;
    })

  unfoldable pub new_renewer : String → Config E → Eff E (Renew E)
  new_renewer path conf =
      if leb_ℤ conf.check_interval (pos 0)
      then throw (
          errorf
            ("non-positive interval for the renew check interval: " <> itoa conf.check_interval))
      else new_renewer_with path conf conf.operation.fetch

  -- The certificate's end, from the bytes of its file.
  unfoldable pub read_end : String → Option Block → Eff E Time
  read_end path none = throw (errorf ("cannot parse certificate " <> path))
  read_end path (some p) = call (computed E (E.parse_certificate p.bytes))

  -- The gauges are given nanoseconds here, which the code converts to seconds.
  unfoldable pub is_due : Time → Duration → Eff E Bool
  is_due not_after threshold = do
    now ← read_host E E.now
    let time_left = sub_time not_after now
    emit E (set_gauge expiration_gauge time_left)
    let time_left_threshold = wrap64 (time_left -ℤ threshold)
    emit E (set_gauge next_renew_gauge time_left_threshold)
    pure (if ltb_ℤ (pos 0) time_left_threshold then false else true)

  unfoldable pub should_renew_with : Duration → Option (Fetch E) → Eff E Bool
  should_renew_with threshold none = crash
  should_renew_with threshold (some f) = do
    b ← call (on_disk E (E.read_file f.conf.certificate_path))
    not_after ← read_end f.conf.certificate_path (E.pem_decode b).0
    is_due not_after threshold

  unfoldable pub should_renew : Renew E → Run E Bool
  should_renew r = do
    f ← gets E (λ o. o.fetch)
    within E (should_renew_with r.conf.renew_threshold f)

  abbrev pub rename : String → Operation E → Operation E
  rename name o = record o { source_config = record o.source_config { name = name } }

  -- A new name for the request, from the base name and the first bytes of an identifier.
  unfoldable pub choose_name : Renew E → Run E (Unit {0})
  choose_name r = if not r.conf.generate_new_csr then pure tt else do
    uuid ← within E (read_host E E.new_uuid)
    modify E (rename (r.csr_basename <> "-" <> prefix 13 uuid))

  unfoldable pub renew_now : Renew E → Schedule → Run E Bool
  renew_now r schedule = do
    choose_name r
    run E schedule
    within E (emit E (inc renew_counter))
    pure true

  unfoldable pub process_renew : Renew E → Schedule → Run E Bool
  process_renew r schedule = do
    need_renew ← should_renew r
    if not need_renew then pure false else renew_now r schedule

  -- The renew command, if there is one.
  unfoldable pub run_renew_command : Renew E → Run E (Unit {0})
  run_renew_command r =
      if str_eq r.conf.renew_command ""
      then pure tt
      else within E (call (on_host E (E.run_command r.conf.renew_command)))

  -- A tick's renewal is sent to the channel, whose one place `pending` tells to be taken. The
  -- receiver is this loop itself: a send to a full channel never ends. An error is counted.
  unfoldable pub after_tick :
      Result E.Failure Bool → Bool → (Bool → Run E (Unit {0})) → Run E (Unit {0})
  after_tick (ok false) pending more = more pending
  after_tick (ok true) true more = wait
  after_tick (ok true) false more = more true
  after_tick (err e) pending more = do within E (emit E (inc renew_error_counter)); more pending
  after_tick panic pending more = crash
  after_tick waits pending more = wait

  -- The `select` takes what is ready: `renewed` while the channel is empty is passed over.
  unfoldable pub renew_loop : Renew E → List Event → Bool → Run E (Unit {0})
  renew_loop r [] pending = wait
  renew_loop r (signal ∷ events) pending = pure tt
  renew_loop r (renewed ∷ events) false = renew_loop r events false
  renew_loop r (renewed ∷ events) true = do
    run_renew_command r
    if not r.conf.exit_on_renew then renew_loop r events false else pure tt
  renew_loop r (tick schedule ∷ events) pending = λ p.
      let (result, p') = process_renew r schedule p in
      after_tick result pending (renew_loop r events) p'

  -- Renew: a first renewal ends the process by its error.
  unfoldable pub renew : Renew E → Schedule → List Event → Run E (Unit {0})
  renew r first events = do
    within E (register_api E r.conf.prometheus_bind pprof_bind_default)
    renewed_first ← process_renew r first
    within E (start_ticker E r.conf.check_interval)
    renew_loop r events renewed_first
