-- ===== src/Cli/Exit.antt =====
-- src/exit.rs: the exit codes of every command.
use vivarium.Prelude.{ℕ}

pub data ExitKind : Type 0 where
  success usage data_err unavailable software io_err temp_fail no_perm config doctor_strict :
      ExitKind
  guest_status : ℕ → ExitKind

unfoldable pub code : ExitKind → ℕ
code success = 0
code doctor_strict = 1
code usage = 64
code data_err = 65
code unavailable = 69
code software = 70
code io_err = 74
code temp_fail = 75
code no_perm = 77
code config = 78
code (guest_status status) = status
