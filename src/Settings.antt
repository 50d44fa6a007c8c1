-- ===== src/Settings.antt =====
-- The readings of `viperConfig`, which resolves each key from the flags, or from its default.
use kube_csr.Base.{String, Bool, List}
use kube_csr.Base.Int.{ℤ}
use kube_csr.Env.{Duration}

pub record Settings : Type 0 where
  pub get_bool : String → Bool
  pub get_string : String → String
  pub get_int : String → ℤ
  pub get_duration : String → Duration
  pub get_strings : String → List String
