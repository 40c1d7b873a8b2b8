-- ===== src/Broker/Daemon.antt =====
-- One round of the broker's daemon (`run_once` and `_execute` of src/vgen/broker/daemon.py). The
-- gateway's client and the command handler are parameters: functions on a world `W` that stands for
-- everything outside the broker's process; the handler may write the journal too. An exception of the handler or of a completion is given by
-- its type's name.
use text.Mathlib.Text.{◌==◌ as str_eq}
use vgen.Base.{ℕ, String, Bool, true, false, List, [], ◌∷◌, if◌then◌else◌, length}
use vgen.Broker.Journal.{Journal, append, pending, set_state, get_state}

-- A command of the gateway; a missing identifier is the empty text.
pub record BrokerCommand : Type 0 where
  pub id : String
  pub body : String

-- What a call gives: its value, or the exception that it raises.
pub data CallResult (E A : Type 0) : Type 0 where
  value : A → CallResult E A
  exception : E → CallResult E A

-- The fields of a VgenClientError that are recorded.
pub record ClientError : Type 0 where
  pub code : String
  pub name : String
  pub retry_action : String

abbrev pub State : Type 0 → Type 0
State W = Journal × W

pub record Outside (W : Type 0) : Type 0 where
  pub heartbeat : ℕ → W → CallResult ClientError (Unit {0}) × W
  pub commands : String → W → CallResult ClientError (List BrokerCommand) × W
  pub handle : BrokerCommand → State W → CallResult String String × State W
  pub complete : String → String → W → CallResult String (Unit {0}) × W
  pub now : W → ℕ

abbrev pub last_command : String
last_command = "last_command"

module _ {W : Type 0} (out : Outside W) where
  unfoldable pub journal_failure : BrokerCommand → String → State W → State W
  unfolding append
  journal_failure c error (j, w) = (
    (append "command_failed" (("command_id", c.id) ∷ ("error_type", error) ∷ []) (out.now w) j).1,
    w,
  )

  unfoldable pub finished :
      BrokerCommand → Journal → CallResult String (Unit {0}) × W → Bool × State W
  unfolding journal_failure set_state
  finished c j (value done, w) = (true, (set_state last_command c.id j, w))
  finished c j (exception error, w) = (false, journal_failure c error (j, w))

  unfoldable pub handled : BrokerCommand → CallResult String String × State W → Bool × State W
  unfolding finished journal_failure
  handled c (value result, (j, w)) = finished c j (out.complete c.id result w)
  handled c (exception error, s) = (false, journal_failure c error s)

  unfoldable pub execute : BrokerCommand → State W → Bool × State W
  unfolding handled
  execute c s = if str_eq c.id "" then (false, s) else handled c (out.handle c s)

  -- The loop stops at the first command that is not executed.
  unfoldable pub execute_all : List BrokerCommand → State W → State W
  unfolding execute
  execute_all [] s = s
  execute_all (c ∷ cs) s =
      let rest = execute_all cs (execute c s).1 in if (execute c s).0 then rest else (execute c s).1

  unfoldable pub gateway_failure : ClientError → State W → State W
  unfolding append
  gateway_failure error (j, w) = (
    (append "gateway_error"
        (("code", error.code) ∷ ("name", error.name) ∷ ("retry_action", error.retry_action) ∷ [])
        (out.now w) j).1,
    w,
  )

  unfoldable pub polled : Journal → CallResult ClientError (List BrokerCommand) × W → State W
  unfolding execute_all gateway_failure
  polled j (value commands, w) = execute_all commands (j, w)
  polled j (exception error, w) = gateway_failure error (j, w)

  unfoldable pub beaten : Journal → CallResult ClientError (Unit {0}) × W → State W
  unfolding polled get_state gateway_failure
  beaten j (value done, w) = polled j (out.commands (get_state last_command "" j) w)
  beaten j (exception error, w) = gateway_failure error (j, w)

  unfoldable pub run_once : State W → State W
  unfolding beaten pending
  run_once (j, w) = beaten j (out.heartbeat (length (pending 100 j)) w)
