-- ===== src/Gateway/Receipts.antt =====
-- The receipt of a finished attempt and its replay (`_decode_finished_attempt_receipt` and
-- `replay_finished_attempt` of src/vgen/gateway/repository.py).
use Prim.Native.Char.{code}
use text.Mathlib.Text.{◌==◌ as str_eq}
use vgen.Base.{
  ℕ, ◌-◌, [], ◌∷◌, String, Bool, ◌&&◌, ◌||◌, Option, none, some, leb, ◌==◌, if◌then◌else◌,
}
use vgen.Protocol.{AttemptState, attempt_in, attempt_index}
use vgen.Gateway.Db.{Db, Attempt, Receipt}
use vgen.Gateway.Tx.{
  Result, ok, raise, ◌>>◌, require, internal_error, idempotency_conflict, validation_failed,
}

-- The answer of a finished attempt.
pub record Finished : Type 0 where
  pub attempt_id : ℕ
  pub task_id : ℕ
  pub state : AttemptState

abbrev is_hex_digit : ℕ → Bool
is_hex_digit c = (leb b'0' c && leb c b'9') || (leb b'a' c && leb c b'f')

-- `re.fullmatch(r"[0-9a-f]{64}", text)`: `n` digits are still to come.
unfoldable pub is_hex : ℕ → String → Bool
is_hex n String.[] = n == 0
is_hex n (String.◌∷◌ c s) = leb 1 n && is_hex_digit (code c) && is_hex (n - 1) s

abbrev read_receipt : Receipt → ℕ → AttemptState → Result (Option Finished)
read_receipt Receipt.unreadable attempt_id state = raise internal_error
read_receipt (Receipt.receipt a t s) attempt_id state =
    if a == attempt_id && attempt_index s == attempt_index state
    then ok (some (record { attempt_id = a; task_id = t; state = s }))
    else raise internal_error

abbrev compare_receipt :
    Option String → Option Receipt → ℕ → AttemptState → String → Result (Option Finished)
compare_receipt none none attempt_id state hash = ok none
compare_receipt (some stored) (some r) attempt_id state hash =
    if str_eq stored hash then read_receipt r attempt_id state else raise idempotency_conflict
compare_receipt _ _ attempt_id state hash = raise internal_error

-- `none`: the row has no receipt, being written by an older release.
unfoldable pub decode_finished_attempt_receipt : Attempt → ℕ → String → Result (Option Finished)
decode_finished_attempt_receipt a attempt_id hash =
    compare_receipt a.finish_semantic_hash a.finish_receipt attempt_id a.state hash

abbrev pub is_finished : AttemptState → Bool
is_finished s =
    attempt_in s (AttemptState.succeeded ∷ AttemptState.failed ∷ AttemptState.cancelled ∷ [])

-- The row of an attempt under its exact fence.
abbrev pub fenced_attempt : ℕ → ℕ → Option Attempt → Option Attempt
fenced_attempt worker_id token none = none
fenced_attempt worker_id token (some a) =
    if a.worker_id == worker_id && a.fencing_token == token then some a else none

unfoldable pub replay_finished_attempt : ℕ → ℕ → ℕ → String → Db → Result (Option Finished)
unfolding is_hex decode_finished_attempt_receipt
replay_finished_attempt attempt_id worker_id token hash db = do
  require (is_hex 64 hash) validation_failed
  elim (fenced_attempt worker_id token (db.attempts.row attempt_id)) [
    | none ↦ ok none
    | some a ↦
        if is_finished a.state then decode_finished_attempt_receipt a attempt_id hash else ok none
  ]
