-- ===== src/Cmd/Flags.antt =====
-- cmd/cmd.go: the flags that NewCommand declares, and the keys of viper that it binds to them, but
-- for the level of the log. What cobra, pflag and viper make of the declarations is a parameter, `Viper`.
pub mod Bindings
use kube_csr.Base.{String, Bool, true, false, Option, List, [], ◌∷◌, ◌++◌}
use kube_csr.Base.Int.{ℤ, pos}
use kube_csr.Env.{Duration}
use kube_csr.Settings.{Settings}

pub data Command : Type 0 where
  root_command garbage_command issue_command : Command

-- The flags' types, and the getters of viper that their defaults are read by.
pub data Kind : Type 0 where
  string bool duration string_slice : Kind

pub data Value : Type 0 where
  nil : Value
  of_bool : Bool → Value
  of_int : ℤ → Value
  of_duration : Duration → Value
  of_string : String → Value

-- viperConfig.SetDefault(key, value); command.PersistentFlags().KindP(name, shorthand,
-- viperConfig.GetKind(name), ...); viperConfig.BindPFlag(key, command...Lookup(name))
pub data Declaration : Type 0 where
  set_default : (key : String) → Value → Declaration
  add_flag : Command → Kind → (name shorthand : String) → Declaration
  bind_flag : (key : String) → Command → (name : String) → Declaration

-- The three lines that most keys have.
abbrev pub declared : Command → Kind → String → String → Value → List Declaration
declared command kind key shorthand value =
    set_default key value ∷ add_flag command kind key shorthand ∷ bind_flag key command key ∷ []

abbrev joined : List (List Declaration) → List Declaration
joined [] = []
joined (ds ∷ dss) = ds ++ joined dss

abbrev pub root_flags : List Declaration
root_flags = declared root_command string "kubeconfig-path" "" (of_string "")

abbrev pub garbage_flags : List Declaration
garbage_flags = joined (
    declared garbage_command duration "grace-period" "" (of_duration (pos 172_800_000_000_000))
    ∷ declared garbage_command bool "denied" "" (of_bool false)
    ∷ declared garbage_command bool "fetched" "" (of_bool false)
    ∷ declared garbage_command bool "expired" "" (of_bool false)
    ∷ declared garbage_command duration "polling-period" "" (of_duration (pos 600_000_000_000))
    ∷ declared garbage_command bool "daemon" "" (of_bool false)
    ∷ declared garbage_command bool "disable-prometheus-exporter" "" (of_bool false)
    ∷ declared garbage_command bool "prometheus-exporter-bind" "" (of_string "0.0.0.0:8484")
    ∷ [])

-- all: the names and overriding
abbrev pub name_flags : List Declaration
name_flags = joined (
    declared issue_command string "csr-name" "" (of_string "")
    ∷ declared issue_command string "hostname" "" (of_string "")
    ∷ declared issue_command bool "override" "" (of_bool false)
    ∷ [])

-- query
abbrev pub query_flags : List Declaration
query_flags = joined (
    declared issue_command string_slice "query-svc" "q" nil
    ∷ declared issue_command duration "query-interval" "" (of_duration (pos 2_000_000_000))
    ∷ declared issue_command duration "query-timeout" "" (of_duration (pos 20_000_000_000))
    ∷ [])

-- generate
abbrev pub generate_flags : List Declaration
generate_flags = joined (
    declared issue_command bool "generate" "g" (of_bool false)
    ∷ declared issue_command string "rsa-bits" "" (of_int (pos 2048))
    ∷ declared issue_command string_slice "subject-alternative-names" "" nil
    ∷ (set_default "private-key-perm" (of_int (pos 384)) ∷ [])
    ∷ declared issue_command string "private-key-file" "" (of_string "kube-csr.private_key")
    ∷ declared issue_command bool "load-private-key" "" (of_bool false)
    ∷ (set_default "csr-perm" (of_int (pos 384)) ∷ [])
    ∷ declared issue_command string "csr-file" "" (of_string "kube-csr.csr")
    ∷ [])

-- submit, approve and fetch
abbrev pub submit_flags : List Declaration
submit_flags = joined (
    declared issue_command bool "submit" "s" (of_bool false)
    ∷ declared issue_command bool "approve" "a" (of_bool false)
    ∷ (set_default "fetch" (of_bool false)
        ∷ set_default "certificate-perm" (of_int (pos 384))
        ∷ add_flag issue_command bool "fetch" "f"
        ∷ bind_flag "fetch" issue_command "fetch"
        ∷ [])
    ∷ declared issue_command string "certificate-file" "" (of_string "kube-csr.certificate")
    ∷ declared issue_command duration "fetch-interval" "" (of_duration (pos 1_000_000_000))
    ∷ declared issue_command duration "fetch-timeout" "" (of_duration (pos 10_000_000_000))
    ∷ declared issue_command bool "skip-fetch-annotate" "" (of_bool false)
    ∷ [])

-- delete and renew
abbrev pub renew_flags : List Declaration
renew_flags = joined (
    declared issue_command bool "delete" "d" (of_bool false)
    ∷ declared issue_command bool "renew" "" (of_bool false)
    ∷ declared issue_command bool "renew-exit" "" (of_bool false)
    ∷ declared issue_command string "renew-command" "" (of_string "")
    ∷ declared issue_command duration "renew-threshold" "" (of_duration (pos 3_600_000_000_000))
    ∷ declared issue_command duration "renew-check-interval" "" (of_duration (pos 900_000_000_000))
    ∷ (add_flag issue_command bool "disable-prometheus-exporter" ""
        ∷ bind_flag "disable-prometheus-exporter" garbage_command "disable-prometheus-exporter"
        ∷ add_flag issue_command bool "prometheus-exporter-bind" ""
        ∷ bind_flag "prometheus-exporter-bind" garbage_command "prometheus-exporter-bind"
        ∷ [])
    ∷ [])

-- The declarations of NewCommand, in their order.
abbrev pub declarations : List Declaration
declarations = joined (
    root_flags ∷ garbage_flags ∷ name_flags ∷ query_flags ∷ generate_flags ∷ submit_flags
    ∷ renew_flags ∷ [])

-- The texts that a command line gives to flags, each of a command.
abbrev pub Given : Type 0
Given = Command → String → Option String

-- cobra, pflag and viper: the state of the flags and of `viperConfig`, and the readings under a
-- command line.
pub record Viper : Type 1 where
  pub State : Type 0
  pub fresh : State
  pub set : String → Value → State → State
  pub reading : Kind → String → State → Value
  pub add : Command → Kind → String → String → Value → State → State
  pub bind : String → Command → String → State → State
  pub settings : State → Given → Settings

module _ (V : Viper) where
  abbrev pub declare : Declaration → V.State → V.State
  declare (set_default key value) v = V.set key value v
  declare (add_flag command kind name shorthand) v =
      V.add command kind name shorthand (V.reading kind name v) v
  declare (bind_flag key command name) v = V.bind key command name v

  unfoldable pub declare_all : List Declaration → V.State → V.State
  declare_all [] v = v
  declare_all (d ∷ ds) v = declare_all ds (declare d v)

  -- What the two commands read, under a command line.
  unfoldable pub settings_of : Given → Settings
  settings_of given = V.settings (declare_all declarations V.fresh) given
