-- ===== src/Gateway/Jobs/Replay.antt =====
-- A maintenance job has one outcome (`complete_worker_maintenance` of
-- src/vgen/gateway/repository.py).
use vgen.Base.{
  [], ◌∷◌, none, some, true, false, inl, inr, refl, arith, ◌&&◌, ◌≡◌, List, Bool, ℕ, String,
  ==_refl, Option, ◌==◌, ◌∙◌, Option-cases, ap, Bool-cases,
}
use text.Mathlib.TextPositions.{eq_refl}
use vgen.Gateway.Tx.{
  ok, Ensures, Ensures-at, Ensures-raise, maintenance_lease_lost, Ensures-if, Ensures-require,
  maintenance_state_conflict, Ensures-ok, maintenance_result_invalid,
}
use vgen.Gateway.Installs.{
  same_result, same_option, same_flag, same_texts, same_number, same_text, update_index,
  install_index, capability_index, JobResult,
}
use vgen.Gateway.Jobs.Completion.{
  complete_worker_maintenance, complete_job, is_completed, is_succeeded, same_stored, JobReport,
  final_state, completed_job, store_completion, may_complete, result_kind, is_valid_result,
}
use vgen.Gateway.Jobs.Reports.{fenced_job, of_worker}
use vgen.Gateway.Db.{Job, Db, JobState}
use vgen.Gateway.Jobs.Authorizations.{Authority}
use vgen.Gateway.Jobs.Requests.{run_jobs, run_jobs_refines}
use vgen.Gateway.Jobs.Drivers.{JobRequest}
use vgen.Gateway.Jobs.{kind_index}
use vgen.Gateway.Expiry.{is_open_job}
use vgen.Gateway.Jobs.CompletionMoves.{store_completion-jobs}

same_texts_refl : (xs : List String) → same_texts xs xs ≡ true
same_texts_refl [] = refl
same_texts_refl (x ∷ xs) = rw eq_refl (same_texts_refl xs)

same_flag_refl : (b : Bool) → same_flag b b ≡ true
same_flag_refl true = refl
same_flag_refl false = refl

same_option_refl :
    {A : Type 0} (eq : A → A → Bool) (h : (a : A) → eq a a ≡ true) (o : Option A)
    → same_option eq o o ≡ true
same_option_refl eq h none = refl
same_option_refl eq h (some a) = h a

same_number_refl : (n : ℕ) → same_number n n ≡ true
unfolding same_number
same_number_refl n = ground arith

same_text_refl : (s : String) → same_text s s ≡ true
unfolding same_text
same_text_refl s = eq_refl s

same_result_refl : (x : JobResult) → same_result x x ≡ true
unfolding same_result
same_result_refl (JobResult.update_result s v sha e) =
    rw
      (
        ==_refl (update_index s),
        eq_refl v,
        eq_refl sha,
        same_option_refl same_number same_number_refl e,
      )
      refl
same_result_refl (JobResult.model_result s ds f e) =
    rw
      (
        ==_refl (install_index s),
        same_texts_refl ds,
        same_option_refl same_text same_text_refl f,
        same_option_refl same_number same_number_refl e,
      )
      refl
same_result_refl (JobResult.capability_result s r d sha b e) =
    rw
      (
        ==_refl (capability_index s),
        eq_refl r,
        eq_refl d,
        eq_refl sha,
        same_option_refl same_flag same_flag_refl b,
        same_option_refl same_number same_number_refl e,
      )
      refl
same_result_refl (JobResult.node_pack_result s r sha b e c) =
    rw
      (
        ==_refl (install_index s),
        eq_refl r,
        eq_refl sha,
        same_option_refl same_flag same_flag_refl b,
        same_option_refl same_number same_number_refl e,
        same_option_refl same_text same_text_refl c,
      )
      refl

-- The job of a report is over, with that report's outcome.
record Recorded (r : JobReport) (j : Job) (db : Db) : Type 0 where
  row : db.jobs.row r.job_id ≡ some j
  owner : of_worker r.worker_id r.fencing_token j ≡ true
  over : is_completed j.state ≡ true
  same : (same_flag (is_succeeded j.state) r.succeeded && same_stored j.result r.result) ≡ true

answer_again :
    (auth : Authority) (r : JobReport) (stamp : ℕ) (j : Job) (db : Db)
    → Recorded r j db
    → complete_worker_maintenance auth r stamp db ≡ ok (j, db)
unfolding complete_worker_maintenance complete_job fenced_job
answer_again auth r stamp j db h = rw (h.row, h.owner, h.over, h.same) refl

complete-Recorded :
    (auth : Authority) (r : JobReport) (stamp : ℕ) (db : Db)
    → Ensures (Recorded r) (complete_worker_maintenance auth r stamp db)
unfolding complete_worker_maintenance complete_job fenced_job
complete-Recorded auth r stamp db = elim (Option-cases (db.jobs.row r.job_id)) [
  | inl e ↦ rw e (Ensures-raise maintenance_lease_lost)
  | inr (j, e) ↦ elim (Bool-cases (of_worker r.worker_id r.fencing_token j)) [
    | inl mine ↦
        rw (e, mine)
          (Ensures-if (is_completed j.state) _ _
            (λ over.
              Ensures-require
                (same_flag (is_succeeded j.state) r.succeeded && same_stored j.result r.result)
                maintenance_state_conflict _
                λ same.
                  Ensures-ok j db (record { row = e; owner = mine; over = over; same = same }))
            λ going. Ensures-require (may_complete r stamp j) maintenance_lease_lost _ λ held.
              Ensures-require (kind_index (result_kind r.result) == kind_index j.kind)
                maintenance_result_invalid _
                λ kind.
                  Ensures-require (is_valid_result auth r j) maintenance_result_invalid _ λ valid.
                    Ensures-ok (completed_job r stamp j) (store_completion auth r j stamp db)
                      (stored j e mine))
    | inr other ↦ rw (e, other) (Ensures-raise maintenance_lease_lost)
  ]
]
  where
    ended : (b : Bool) → is_completed (final_state b) ≡ true
    ended true = refl
    ended false = refl

    won : (b : Bool) → same_flag (is_succeeded (final_state b)) b ≡ true
    won true = refl
    won false = refl

    stored :
        (j : Job)
        → db.jobs.row r.job_id ≡ some j
        → of_worker r.worker_id r.fencing_token j ≡ true
        → Recorded r (completed_job r stamp j) (store_completion auth r j stamp db)
    stored j e mine = record {
      row = rw (store_completion-jobs auth r j stamp db) (rw (e, ==_refl r.job_id) refl);
      owner = mine;
      over = ended r.succeeded;
      same = rw (won r.succeeded, same_result_refl r.result) refl;
    }

Recorded-run :
    (r : JobReport) (j : Job) (history : List (JobRequest × ℕ)) (db : Db)
    → Recorded r j db
    → Recorded r j (run_jobs history db)
Recorded-run r j history db h =
    let m = run_jobs_refines history db r.job_id j h.row in
    record {
      row = m.row ∙ ap some (m.settled (closed j.state h.over));
      owner = h.owner;
      over = h.over;
      same = h.same;
    }
  where
    closed : (s : JobState) → is_completed s ≡ true → is_open_job s ≡ false
    closed s e = ground arith

-- Once a completion was answered with a job's row, the same report is answered with the same row and
-- changes nothing, after any history of requests on maintenance jobs and at any time.
pub complete_twice :
    (auth auth' : Authority) (r : JobReport) (stamp later : ℕ) (j : Job) (db db' : Db)
    (history : List (JobRequest × ℕ))
    → complete_worker_maintenance auth r stamp db ≡ ok (j, db')
    → complete_worker_maintenance auth' r later (run_jobs history db')
      ≡ ok (j, run_jobs history db')
complete_twice auth auth' r stamp later j db db' history e =
    answer_again auth' r later j (run_jobs history db') (
      Recorded-run r j history db' (
        Ensures-at (complete_worker_maintenance auth r stamp db) e
          (complete-Recorded auth r stamp db)))
