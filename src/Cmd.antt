-- ===== src/Cmd.antt =====
-- cmd/cmd.go: what the two commands build from the settings.
pub mod Flags
pub mod Commands
pub mod Builds
pub mod Rules
pub mod Codes
pub mod Deletions
pub mod Lives
pub mod Issued
pub mod Approved
use Prim.Native.Char.{code}
use Prim.Native.String
use kube_csr.Base.{
  ℕ, String, ◌<>◌, Bool, true, false, not, ◌&&◌, ◌||◌, Option, none, some, List, [], ◌∷◌, ◌++◌, ◌-◌,
  ◌%◌, ◌^◌, str_eq, ◌==◌, Result, ok, err, panic, waits, pure, call, crash, wait, ◌>>=◌, ◌>>◌,
  if◌then◌else◌,
}
use kube_csr.Base.Int.{ℤ, pos, negsuc}
use kube_csr.Env.{Env, World, Eff, on_host}
use kube_csr.Settings.{Settings}
use kube_csr.Generate
use kube_csr.Query
use kube_csr.Query.{Query, new_query}
use kube_csr.Submit.{Submit, new_submitter}
use kube_csr.Approve.{Approval, new_approval}
use kube_csr.Fetch.{Fetch, new_fetcher}
use kube_csr.Purge
use kube_csr.Purge.{
  Purge, Verdict, new_purge, new_purge_config, is_condition_denied, is_annotation_fetched,
  is_certificate_expired, garbage_collect, garbage_collect_daemon,
}
use kube_csr.Operation.{Operation, Process, Schedule, Run, shared, run}
use kube_csr.Renew
use kube_csr.Renew.{Renew, new_renewer, renew}

-- path.IsAbs
unfoldable pub is_abs : String → Bool
is_abs String.[] = false
is_abs (String.◌∷◌ c s) = code c == b'/'

-- os.FileMode of an `int`, which keeps 32 bits
unfoldable pub file_mode : ℤ → ℕ
file_mode (pos n) = n % 2 ^ 32
file_mode (negsuc n) = 2 ^ 32 - 1 - n % 2 ^ 32

abbrev pub is_empty : List String → Bool
is_empty [] = true
is_empty (x ∷ xs) = false

module _ (E : Env) where
  unfoldable pub absolute_path : String → String → String
  absolute_path wd p = if not (is_abs p) then E.join_path wd p else p

  unfoldable pub csr_name : Settings → String → Eff E String
  csr_name s common_name =
      if not (str_eq (s.get_string "csr-name") "")
      then pure (s.get_string "csr-name")
      else if not (str_eq (s.get_string "hostname") "")
      then pure (common_name <> "-" <> s.get_string "hostname")
      else do hostname ← call (on_host E E.hostname); pure (common_name <> "-" <> hostname)

  unfoldable pub new_csr_config : Settings → String → String → Eff E Generate.Config
  new_csr_config s common_name name = do
    wd ← call (on_host E E.working_directory)
    pure (record {
      name = name;
      override = s.get_bool "override";
      common_name = common_name;
      hosts = s.get_strings "subject-alternative-names";
      load_private_key = s.get_bool "load-private-key";
      rsa_bits = s.get_int "rsa-bits";
      private_key_path = absolute_path wd (s.get_string "private-key-file");
      private_key_permission = file_mode (s.get_int "private-key-perm");
      csr_path = absolute_path wd (s.get_string "csr-file");
      csr_permission = file_mode (s.get_int "csr-perm");
    })

  unfoldable pub new_submit_client : Settings → Eff E (Submit E)
  new_submit_client s =
      new_submitter E (s.get_string "kubeconfig-path") (record { override = s.get_bool "override" })

  unfoldable pub new_approve_client : Settings → Eff E (Approval E)
  new_approve_client s = new_approval E (s.get_string "kubeconfig-path")

  -- Nothing is annotated that is deleted right after.
  unfoldable pub new_fetch_client : Settings → Eff E (Fetch E)
  new_fetch_client s = do
    wd ← call (on_host E E.working_directory)
    new_fetcher E (s.get_string "kubeconfig-path") (record {
      override = s.get_bool "override";
      polling_interval = s.get_duration "fetch-interval";
      polling_timeout = s.get_duration "fetch-timeout";
      certificate_path = absolute_path wd (s.get_string "certificate-file");
      certificate_permission = file_mode (s.get_int "certificate-perm");
      annotate = not (s.get_bool "skip-fetch-annotate") && not (s.get_bool "delete");
    })

  unfoldable pub new_delete_client : Settings → Eff E (Purge E)
  new_delete_client s = new_purge E (s.get_string "kubeconfig-path") none

  abbrev pub bind_address : Settings → String
  bind_address s =
      if not (s.get_bool "disable-prometheus-exporter")
      then s.get_string "prometheus-exporter-bind"
      else ""

  abbrev pub chosen : Bool → Verdict E → List (Verdict E)
  chosen asked fn = if asked then fn ∷ [] else []

  unfoldable pub collector_config : Settings → Purge.Config E
  collector_config s =
      let conf = new_purge_config E (s.get_duration "grace-period") [] in
      record conf {
        should_gc =
            conf.should_gc
            ++ (chosen (s.get_bool "denied") (is_condition_denied E)
                ++ (chosen (s.get_bool "fetched") (is_annotation_fetched E)
                    ++ chosen (s.get_bool "expired") (is_certificate_expired E)));
        polling_period = s.get_duration "polling-period";
        prometheus_bind = bind_address s;
      }

  unfoldable pub new_garbage_collector : Settings → Eff E (Purge E)
  new_garbage_collector s = new_purge E (s.get_string "kubeconfig-path") (some (collector_config s))

  unfoldable pub new_service_query : Settings → List String → Eff E (Query E)
  new_service_query s svc_to_query =
      new_query E (s.get_string "kubeconfig-path") svc_to_query (record {
        polling_interval = s.get_duration "query-interval";
        polling_timeout = s.get_duration "query-timeout";
      })

  unfoldable pub new_renew : Settings → Operation E → Eff E (Renew E)
  new_renew s o = new_renewer E (s.get_string "kubeconfig-path") (record {
    operation = o;
    renew_threshold = s.get_duration "renew-threshold";
    renew_command = s.get_string "renew-command";
    exit_on_renew = s.get_bool "renew-exit";
    generate_new_csr = not (s.get_bool "override");
    prometheus_bind = bind_address s;
    check_interval = s.get_duration "renew-check-interval";
  })
