-- ===== src/Cmd/Flags/Bindings.antt =====
-- Which flags the keys are bound to, and what follows for the two commands.
use kube_csr.Base.{
  String, ◌≡◌, Bool, true, false, not, ◌&&◌, Option, none, some, List, [], ◌∷◌, str_eq, has,
  if◌then◌else◌,
}
use kube_csr.Env.{Env}
use kube_csr.Settings.{Settings}
use kube_csr.Renew
use kube_csr.Cmd.Flags.{
  Command, root_command, garbage_command, issue_command, Kind, Value, Declaration, set_default,
  add_flag, bind_flag, Given, Viper,
}

-- The two settings read a key alike.
abbrev pub ReadsAlike : Settings → Settings → String → Type 0
ReadsAlike s t key =
    (s.get_bool key ≡ t.get_bool key)
    × (s.get_string key ≡ t.get_string key)
    × (s.get_int key ≡ t.get_int key)
    × (s.get_duration key ≡ t.get_duration key)
    × (s.get_strings key ≡ t.get_strings key)

-- viper: a key is read from the flag that has been bound to it last, if the command line gives it,
-- and from no other flag.
pub record ViperLaws (V : Viper) : Type 0 where
  pub bound : V.State → String → Option (Command × String)
  pub fresh_bound : (key : String) → bound V.fresh key ≡ none
  pub set_bound : (key : String) (value : Value) (v : V.State) → bound (V.set key value v) ≡ bound v
  pub add_bound :
      (c : Command) (kind : Kind) (name shorthand : String) (value : Value) (v : V.State)
      → bound (V.add c kind name shorthand value v) ≡ bound v
  pub bind_bound :
      (key : String) (c : Command) (name : String) (v : V.State) (k : String)
      → bound (V.bind key c name v) k ≡ (if str_eq key k then some (c, name) else bound v k)
  pub reads :
      (v : V.State) (given given' : Given) (key : String)
      → ((c : Command) (name : String)
          → bound v key ≡ some (c, name)
          → given c name ≡ given' c name)
      → ReadsAlike (V.settings v given) (V.settings v given') key

-- The two flags of the command that issues certificates for the exporter of metrics.
unfoldable pub is_exporter_flag : Command → String → Bool
is_exporter_flag issue_command name =
    has name ("disable-prometheus-exporter" ∷ "prometheus-exporter-bind" ∷ [])
is_exporter_flag garbage_command name = false
is_exporter_flag root_command name = false

-- A declaration does not bind a key to one of them.
spares : Declaration → Bool
spares (set_default key value) = true
spares (add_flag c kind name shorthand) = true
spares (bind_flag key c name) = not (is_exporter_flag c name)

all_spare : List Declaration → Bool
all_spare [] = true
all_spare (d ∷ ds) = spares d && all_spare ds

module _ (V : Viper) (L : ViperLaws V) where
  open L use {bound}

  -- No key is bound to one of the two flags.
  IsSpared : V.State → Type 0
  IsSpared v =
      (key : String) (c : Command) (name : String)
      → bound v key ≡ some (c, name)
      → is_exporter_flag c name ≡ false

  module _ (given given' : Given) where
    -- The command lines give the same texts to all flags but the two.
    abbrev pub AgreeElsewhere : Type 0
    AgreeElsewhere =
        (c : Command) (name : String)
        → is_exporter_flag c name ≡ false
        → given c name ≡ given' c name
