-- ===== src/Main.antt =====
-- main.go
use kube_csr.Base.{ℕ, Option, none, some, Result, ok, err, panic, waits, ◌==◌, not, if◌then◌else◌}

-- The status that the process ends with, from what `Execute` of the root command makes: an error, the
-- exit code that the command has left, or a panic, on which the runtime ends the process with 2. There
-- is none while the command waits.
unfoldable pub exit_status : {F : Type 0} → Result F ℕ → Option ℕ
exit_status (err e) = some 1
exit_status (ok exit_code) = some (if not (exit_code == 0) then exit_code else 0)
exit_status panic = some 2
exit_status waits = none
