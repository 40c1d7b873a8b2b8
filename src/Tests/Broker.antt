-- ===== src/Tests/Broker.antt =====
-- The broker's daemon on two commands, of which the second fails.
use text.Mathlib.Text.{◌==◌ as str_eq}
use vgen.Base.{[], ◌∷◌, refl, ◌≡◌, suc, if◌then◌else◌, ℕ}
use vgen.Broker.Daemon.{value, exception, BrokerCommand, Outside, run_once, execute_all}
use vgen.Broker.Journal.{Journal, get_state}
use vgen.Broker.Cursor.{Stopped, execute_all_lem, cursor}

abbrev first_command : BrokerCommand
first_command = record { id = "cmd_1"; body = "rekey" }

abbrev second_command : BrokerCommand
second_command = record { id = "cmd_2"; body = "refused" }

-- A gateway that counts its calls, and a handler that refuses the second command.
abbrev outside : Outside ℕ
outside = record {
  heartbeat = λ n w. (value tt, suc w);
  commands = λ after w. (value (first_command ∷ second_command ∷ []), suc w);
  handle = λ c s. (if str_eq c.body "rekey" then value "completed" else exception "ValueError", s);
  complete = λ id result w. (value tt, suc w);
  now = λ w. w;
}

abbrev empty_journal : Journal
empty_journal = record { events = []; state = []; fresh = 0 }

execute_all_lem_example :
    Stopped outside
      (first_command ∷ second_command ∷ [])
      (empty_journal, 0)
      (execute_all outside (first_command ∷ second_command ∷ []) (empty_journal, 0))
execute_all_lem_example =
    execute_all_lem outside (λ c s. refl) (first_command ∷ second_command ∷ []) (empty_journal, 0)

-- The second command stays ahead of the cursor.
cursor_after_failure : cursor outside (run_once outside (empty_journal, 0)) ≡ "cmd_1"
unfolding run_once get_state
cursor_after_failure = refl
