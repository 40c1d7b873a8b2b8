-- ===== src/Gateway/Finish/Replay.antt =====
-- A report that is sent twice (`finish_attempt` of src/vgen/gateway/repository.py).
use text.Mathlib.TextPositions.{eq_refl}
use vgen.Gateway.Db.{Db}
use vgen.Gateway.Heartbeat.{Execution, execution}
use vgen.Gateway.Finish.{
  Report, Verdict, finish_live, finish_again, finish_attempt, is_over, check_report, with_task, ok,
  resume, finish_with, Result,
}
use vgen.Gateway.Receipts.{Finished, decode_finished_attempt_receipt, fenced_attempt}
use vgen.Gateway.Safety.Reports.{execution-Joined}
use vgen.Base.{◌≡◌, none, some, true, refl, arith, String, ℕ, ◌∙◌, ◌≤◌, ==_refl, ap, sym, Option}
use vgen.Gateway.Safety.Finishing.{finish_again-unchanged}
use vgen.Gateway.Tx.{
  Ensures, Ensures-bind, ◌>>=◌, Ensures-mono, Ensures-with, Ensures-at, Ensures-if,
}
use vgen.Gateway.Safety.{IsConsistent}
use vgen.Protocol.{attempt_index}
use vgen.Gateway.Finish.Ended.{Ended, finish_live-Ended, fence_agrees}

-- The replay of a stored receipt.
module _ (r : Report) (hash : String) (f : Finished) (v : Verdict) (stamp : ℕ) (db : Db)
    (e : Ended r hash f db) where
  pub unleased-execution : execution r.attempt_id r.worker_id r.fencing_token db ≡ none
  unfolding execution
  unleased-execution = rw e.unleased refl

  pub Ended-fenced :
      with_task db (fenced_attempt r.worker_id r.fencing_token (db.attempts.row r.attempt_id))
      ≡ some e.attempt
  Ended-fenced = rw e.row (ground (arith, e.worker, e.token, e.task_there))

  Ended-decoded : decode_finished_attempt_receipt e.attempt r.attempt_id hash ≡ ok (some f)
  unfolding decode_finished_attempt_receipt
  Ended-decoded =
      rw
        (
          e.stored_hash,
          e.stored_receipt,
          eq_refl hash,
          ==_refl r.attempt_id,
          ==_refl (attempt_index e.attempt.state),
        )
        (ap (λ g. ok (some g)) (sym e.answer))

  Ended-replayed : r.finish_semantic_hash ≡ some hash → finish_again r v db ≡ ok (f, db)
  unfolding finish_again
  Ended-replayed hashed = ap (resume r v db) Ended-fenced ∙ rw (hashed, e.over, Ended-decoded) refl

module _ (r : Report) (hash : String) (stamp later : ℕ) (late : stamp ≤ later)
    (hashed : r.finish_semantic_hash ≡ some hash) where
  abbrev Repeats : Finished → Db → Type 0
  Repeats f db = finish_attempt r later db ≡ ok (f, db)

  repeated :
      (v : Verdict) (f : Finished) (db : Db)
      → check_report r ≡ ok v
      → finish_with r v later db (execution r.attempt_id r.worker_id r.fencing_token db)
        ≡ ok (f, db)
      → Repeats f db
  unfolding finish_attempt
  repeated v f db checked e =
      ap
        (λ m. m >>= λ u.
          finish_with r u later db (execution r.attempt_id r.worker_id r.fencing_token db))
        checked
      ∙ e

  again :
      (v : Verdict) (db : Db)
      → check_report r ≡ ok v
      → ((m : Result (Finished × Db))
          → finish_again r v db ≡ m
          → finish_with r v later db (execution r.attempt_id r.worker_id r.fencing_token db) ≡ m)
      → Ensures Repeats (finish_again r v db)
  again v db checked same =
      Ensures-mono
        (λ f after e.
          rw e.0 (repeated v f db checked (same (ok (f, db)) (e.1 ∙ ap (λ d. ok (f, d)) e.0))))
        (finish_again r v db) (Ensures-with (finish_again r v db) (finish_again-unchanged r v db))

  over_later : (x : Execution) → is_over stamp x ≡ true → is_over later x ≡ true
  over_later x o = ground (arith, late)

  answered :
      (v : Verdict) (db : Db) (o : Option Execution)
      → IsConsistent db
      → check_report r ≡ ok v
      → execution r.attempt_id r.worker_id r.fencing_token db ≡ o
      → Ensures Repeats (finish_with r v stamp db o)
  answered v db none h checked e = again v db checked (λ m s. ap (finish_with r v later db) e ∙ s)
  answered v db (some x) h checked e =
      Ensures-if (is_over stamp x) _ _
        (λ over.
          again v db checked λ m s. ap (finish_with r v later db) e ∙ rw (over_later x over) s)
        λ live.
          Ensures-mono
            (λ f after d. repeated v f after checked (
              ap (finish_with r v later after) (unleased-execution r hash f v later after d)
              ∙ Ended-replayed r hash f v later after d hashed))
            (finish_live r v x stamp db)
            (finish_live-Ended r hash v x stamp db hashed
              (execution-Joined r.attempt_id r.worker_id r.fencing_token db x e)
              (fence_agrees r x db h
                (execution-Joined r.attempt_id r.worker_id r.fencing_token db x e)))

-- From a consistent database, a report with a hash that was accepted is accepted again, then or
-- later: the answer is the same and the database is left as the first report left it.
pub finish_twice :
    (r : Report) (hash : String) (stamp later : ℕ) (db db' : Db) (f : Finished)
    → IsConsistent db
    → stamp ≤ later
    → r.finish_semantic_hash ≡ some hash
    → finish_attempt r stamp db ≡ ok (f, db')
    → finish_attempt r later db' ≡ ok (f, db')
unfolding finish_attempt
finish_twice r hash stamp later db db' f h late hashed e =
    Ensures-at {Q = Repeats r hash stamp later late hashed} (finish_attempt r stamp db) e (
      Ensures-bind (check_report r) _ λ v checked.
        answered r hash stamp later late hashed v db
          (execution r.attempt_id r.worker_id r.fencing_token db) h checked refl)
