-- ===== src/Tests/Flags.antt =====
-- An example of the flags, over a small model of viper.
use kube_csr.Base.{
  String, Bool, false, Option, none, some, List, [], str_eq, lookup, insert, if◌then◌else◌,
}
use kube_csr.Base.Int.{ℤ, pos}
use kube_csr.Env.{Duration}
use kube_csr.Cmd.Commands
use kube_csr.Cmd.Flags.{Command, Value, nil, of_bool, of_int, of_duration, of_string, Given, Viper}
use kube_csr.Cmd.Flags.Bindings.{is_exporter_flag}

record State : Type 0 where
  bindings : List (String × (Command × String))
  defaults : List (String × Value)

-- The text that the command line gives to the flag of a key.
abbrev text_at : Given → Option (Command × String) → Option String
text_at given none = none
text_at given (some (c, name)) = given c name

abbrev text : State → Given → String → Option String
text v given key = text_at given (lookup key v.bindings)

abbrev as_bool : Option Value → Bool
as_bool (some (of_bool b)) = b
as_bool _ = false

abbrev as_string : Option Value → String
as_string (some (of_string s)) = s
as_string _ = ""

abbrev as_int : Option Value → ℤ
as_int (some (of_int n)) = n
as_int _ = pos 0

abbrev as_duration : Option Value → Duration
as_duration (some (of_duration d)) = d
as_duration _ = pos 0

abbrev bool_of : Option Value → Option String → Bool
bool_of default none = as_bool default
bool_of default (some s) = str_eq s "true"

abbrev string_of : Option Value → Option String → String
string_of default none = as_string default
string_of default (some s) = s

-- Numbers, durations and lists keep their defaults here.
abbrev small : Viper
small = record {
  State = State;
  fresh = record { bindings = []; defaults = [] };
  set = λ key value v. record v { defaults = insert key value v.defaults };
  reading = λ kind key v. elim (lookup key v.defaults) [ none ↦ nil | some value ↦ value ];
  add = λ c kind name shorthand value v. v;
  bind = λ key c name v. record v { bindings = insert key (c, name) v.bindings };
  settings = λ v given. record {
    get_bool = λ key. bool_of (lookup key v.defaults) (text v given key);
    get_string = λ key. string_of (lookup key v.defaults) (text v given key);
    get_int = λ key. as_int (lookup key v.defaults);
    get_duration = λ key. as_duration (lookup key v.defaults);
    get_strings = λ key. [];
  };
}

-- A command line that asks to submit, and the same with the two flags of the exporter.
abbrev plain : Given
plain c name = if str_eq name "submit" then some "true" else none

abbrev with_exporter : Given
with_exporter c name = if is_exporter_flag c name then some "true" else plain c name
