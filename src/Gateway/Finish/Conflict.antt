-- ===== src/Gateway/Finish/Conflict.antt =====
-- A second report with another hash (`finish_attempt` of src/vgen/gateway/repository.py).
use text.Mathlib.Text.{◌==◌ as str_eq}
use vgen.Gateway.Db.{Db}
use vgen.Gateway.Heartbeat.{Execution, execution}
use vgen.Gateway.Finish.{
  Report, Verdict, finish_again, finish_attempt, is_over, check_report, resume, finish_with, ok,
  raise, with_task, fenced_attempt,
}
use vgen.Gateway.Receipts.{Finished, decode_finished_attempt_receipt}
use vgen.Gateway.Finish.Ended.{Ended, finish_live-Ended, fence_agrees}
use vgen.Gateway.Finish.Replay.{Ended-fenced, unleased-execution}
use vgen.Base.{◌≡◌, ◌∙◌, some, false, refl, String, ℕ, ap, none}
use vgen.Gateway.Tx.{◌>>=◌, idempotency_conflict, Ensures-at, Ensures-bind}
use vgen.Gateway.Safety.{IsConsistent}
use vgen.Gateway.Safety.Reports.{Joined, execution-Joined}

-- The two reports are about one attempt under one token.
pub record SameAttempt (r s : Report) : Type 0 where
  pub attempt_id : s.attempt_id ≡ r.attempt_id
  pub worker_id : s.worker_id ≡ r.worker_id
  pub fencing_token : s.fencing_token ≡ r.fencing_token

module _ (r s : Report) (hash other : String) (f : Finished) (v : Verdict) (later : ℕ) (db : Db)
    (e : Ended r hash f db) (same : SameAttempt r s) (hashed : s.finish_semantic_hash ≡ some other)
    (differs : str_eq hash other ≡ false) (checked : check_report s ≡ ok v) where
  conflict-resume : resume s v db (some e.attempt) ≡ raise idempotency_conflict
  unfolding decode_finished_attempt_receipt
  conflict-resume = rw (hashed, e.over, e.stored_hash, e.stored_receipt, differs) refl

  conflict-fenced :
      with_task db (fenced_attempt s.worker_id s.fencing_token (db.attempts.row s.attempt_id))
      ≡ some e.attempt
  conflict-fenced =
      rw (same.attempt_id, same.worker_id, same.fencing_token) (Ended-fenced r hash f v later db e)

  conflict-execution : execution s.attempt_id s.worker_id s.fencing_token db ≡ none
  conflict-execution =
      rw (same.attempt_id, same.worker_id, same.fencing_token)
        (unleased-execution r hash f v later db e)

  conflict-again : finish_again s v db ≡ raise idempotency_conflict
  unfolding finish_again
  conflict-again = ap (resume s v db) conflict-fenced ∙ conflict-resume

  conflict-attempt : finish_attempt s later db ≡ raise idempotency_conflict
  unfolding finish_attempt
  conflict-attempt =
      ap
        (λ m. m >>= λ u.
          finish_with s u later db (execution s.attempt_id s.worker_id s.fencing_token db))
        checked
      ∙ ap (finish_with s v later db) conflict-execution
      ∙ conflict-again

-- From a consistent database, once a report with a hash has ended a live attempt, every well-formed
-- report on that attempt with another hash is refused as a conflict.
pub finish_conflict :
    (r s : Report) (hash other : String) (x : Execution) (v : Verdict) (stamp later : ℕ)
    (db db' : Db) (f : Finished)
    → IsConsistent db
    → r.finish_semantic_hash ≡ some hash
    → execution r.attempt_id r.worker_id r.fencing_token db ≡ some x
    → is_over stamp x ≡ false
    → finish_attempt r stamp db ≡ ok (f, db')
    → SameAttempt r s
    → s.finish_semantic_hash ≡ some other
    → str_eq hash other ≡ false
    → check_report s ≡ ok v
    → finish_attempt s later db' ≡ raise idempotency_conflict
unfolding finish_attempt
finish_conflict r s hash other x v stamp later db db' f h hashed running live e same others differs
      checked =
    conflict-attempt r s hash other f v later db' ended same others differs checked
  where
    joined : Joined r.attempt_id r.worker_id r.fencing_token db x
    joined = execution-Joined r.attempt_id r.worker_id r.fencing_token db x running

    ended : Ended r hash f db'
    ended = Ensures-at {Q = Ended r hash} (finish_attempt r stamp db) e (
        Ensures-bind (check_report r) _ λ u c.
          rw (running, live)
            (finish_live-Ended r hash u x stamp db hashed joined (fence_agrees r x db h joined)))
