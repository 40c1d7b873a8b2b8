-- ===== src/Gateway/Heartbeat/Fencing.antt =====
-- Whose heartbeats count (`heartbeat_attempt` of src/vgen/gateway/repository.py).
use vgen.Gateway.Db.{Db, Attempt}
use vgen.Gateway.Heartbeat.{
  Heartbeat, Directive, Execution, execution, heartbeat_attempt, lost_heartbeat, live_heartbeat,
  acknowledges_cancel, is_cancelled, is_invalid, touch_lease, set_progress, start_attempt,
  progress_text, raise, lease_lost, Result, ok, attempt_in, AttemptState, progress_invalid,
}
use vgen.Gateway.Safety.Reports.{Joined, execution-Joined}
use vgen.Base.{
  [], ◌∷◌, ◌==◌, ◌&&◌, ◌+◌, ◌≡◌, ◌⊎◌, ◌∙◌, none, some, inl, inr, true, false, refl, arith,
  if◌then◌else◌, ℕ, Bool, Bool-cases, Option, test, is_none, ltb, leb, String,
}
use vgen.Gateway.Tx.{Ensures, Ensures-if, Ensures-ok, Ensures-raise, Ensures-at}

-- The lease that a heartbeat needs: of this worker, under this token, not released, not overdue.
abbrev pub holds_lease : Heartbeat → ℕ → Db → Bool
holds_lease h stamp db =
    test
      (λ l.
        l.worker_id == h.worker_id
        && l.fencing_token == h.fencing_token
        && is_none l.released_at
        && ltb stamp l.expires_at)
      (db.leases.row h.attempt_id)

-- The answer to a worker without a lease: an error, unless its task was cancelled.
abbrev pub Refused : Heartbeat → ℕ → Db → Type 0
Refused h stamp db =
    (heartbeat_attempt h stamp db ≡ raise lease_lost)
    ⊎ ((heartbeat_attempt h stamp db ≡ ok (record { cancelled = true; expires_at = stamp }, db))
        × (test (acknowledges_cancel h.worker_id h.fencing_token db) (db.attempts.row h.attempt_id)
            ≡ true))

lost_heartbeat-cases :
    (h : Heartbeat) (stamp : ℕ) (db : Db)
    → heartbeat_attempt h stamp db
      ≡ lost_heartbeat h.attempt_id h.worker_id h.fencing_token stamp db
    → Refused h stamp db
unfolding lost_heartbeat
lost_heartbeat-cases h stamp db e =
    elim (Bool-cases
      (test (acknowledges_cancel h.worker_id h.fencing_token db) (db.attempts.row h.attempt_id))) [
        | inl told ↦ inr (e ∙ rw told refl, told)
        | inr lost ↦ inl (e ∙ rw lost refl)
      ]

-- A heartbeat without a lease of that worker and token that is neither released nor overdue changes
-- nothing: it is refused, or it is told that its task was cancelled.
pub heartbeat_without_lease :
    (h : Heartbeat) (stamp : ℕ) (db : Db) → holds_lease h stamp db ≡ false → Refused h stamp db
unfolding heartbeat_attempt
heartbeat_without_lease h stamp db missing =
    lost_heartbeat-cases h stamp db
      (answer (execution h.attempt_id h.worker_id h.fencing_token db) refl)
  where
    answer :
        (o : Option Execution)
        → execution h.attempt_id h.worker_id h.fencing_token db ≡ o
        → elim o as (λ x. Result (Directive × Db)) [
          | none ↦ lost_heartbeat h.attempt_id h.worker_id h.fencing_token stamp db
          | some x ↦
              if leb x.lease.expires_at stamp
              then lost_heartbeat h.attempt_id h.worker_id h.fencing_token stamp db
              else live_heartbeat h stamp x db
        ]
          ≡ lost_heartbeat h.attempt_id h.worker_id h.fencing_token stamp db
    answer none e = refl
    answer (some x) e =
        let j = execution-Joined h.attempt_id h.worker_id h.fencing_token db x e in
        let late : leb x.lease.expires_at stamp ≡ true =
          ground (arith, j.lease_row, j.worker, j.token_is, j.unreleased) in
        rw late refl

-- What a heartbeat that is answered leaves behind.
abbrev pub Renewed : Heartbeat → ℕ → Db → Directive → Db → Type 0
Renewed h stamp db d db' =
    d.cancelled ≡ false
    → (d.expires_at ≡ stamp + h.ttl)
      × (test
            (λ l.
              l.worker_id == h.worker_id
              && l.fencing_token == h.fencing_token
              && is_none l.released_at
              && l.expires_at == stamp + h.ttl)
            (db'.leases.row h.attempt_id)
          ≡ true)
      × (h.started ≡ true
          → test (λ a. attempt_in a.state (AttemptState.leased ∷ []))
              (db'.attempts.row h.attempt_id)
            ≡ false)

start_attempt-leases :
    (attempt_id task_id stamp : ℕ) (starts : Bool) (o : Option String) (db : Db)
    → (start_attempt attempt_id task_id stamp starts (set_progress attempt_id o db)).leases
      ≡ db.leases
start_attempt-leases attempt_id task_id stamp true none db = refl
start_attempt-leases attempt_id task_id stamp true (some text) db = refl
start_attempt-leases attempt_id task_id stamp false none db = refl
start_attempt-leases attempt_id task_id stamp false (some text) db = refl

-- A started attempt is not leased any more.
start_attempt-started :
    (attempt_id worker_id task_id stamp ttl : ℕ) (started : Bool) (o : Option String) (a : Attempt)
    (db : Db)
    → db.attempts.row attempt_id ≡ some a
    → started ≡ true
    → test
        (λ b. attempt_in b.state (AttemptState.leased ∷ []))
        ((start_attempt attempt_id task_id stamp
            (started && attempt_in a.state (AttemptState.leased ∷ []))
            (set_progress attempt_id o
              (touch_lease attempt_id worker_id stamp ttl db))).attempts.row
          attempt_id)
      ≡ false
start_attempt-started attempt_id worker_id task_id stamp ttl started none a db row s =
    elim (Bool-cases (attempt_in a.state (AttemptState.leased ∷ []))) [
      | inl e ↦ rw (s, e) (ground arith)
      | inr e ↦ rw (s, e) (ground arith)
    ]
start_attempt-started attempt_id worker_id task_id stamp ttl started (some text) a db row s =
    elim (Bool-cases (attempt_in a.state (AttemptState.leased ∷ []))) [
      | inl e ↦ rw (s, e) (ground arith)
      | inr e ↦ rw (s, e) (ground arith)
    ]

lost_heartbeat-Renewed :
    (h : Heartbeat) (stamp : ℕ) (db : Db)
    → Ensures
        (Renewed h stamp db)
        (lost_heartbeat h.attempt_id h.worker_id h.fencing_token stamp db)
unfolding lost_heartbeat
lost_heartbeat-Renewed h stamp db =
    Ensures-if
      (test (acknowledges_cancel h.worker_id h.fencing_token db) (db.attempts.row h.attempt_id)) _ _
      (λ told. Ensures-ok _ db (λ c. ground arith)) (λ lost. Ensures-raise lease_lost)

touched :
    (h : Heartbeat) (stamp : ℕ) (x : Execution) (db : Db)
    → Joined h.attempt_id h.worker_id h.fencing_token db x
    → test
        (λ l.
          l.worker_id == h.worker_id
          && l.fencing_token == h.fencing_token
          && is_none l.released_at
          && l.expires_at == stamp + h.ttl)
        ((touch_lease h.attempt_id h.worker_id stamp h.ttl db).leases.row h.attempt_id)
      ≡ true
touched h stamp x db j = ground (arith, j.lease_row, j.worker, j.token_is, j.unreleased)

live_heartbeat-Renewed :
    (h : Heartbeat) (stamp : ℕ) (x : Execution) (db : Db)
    → Joined h.attempt_id h.worker_id h.fencing_token db x
    → Ensures (Renewed h stamp db) (live_heartbeat h stamp x db)
unfolding live_heartbeat
live_heartbeat-Renewed h stamp x db j =
    Ensures-if (is_cancelled x.task) _ _ (λ cancelled. Ensures-ok _ _ (λ c. ground arith))
      λ running.
        Ensures-if (is_invalid h.progress) _ _ (λ bad. Ensures-raise progress_invalid)
          λ good. Ensures-ok _ _ λ c. (
            refl,
            rw
                (start_attempt-leases h.attempt_id x.attempt.task_id stamp
                  (h.started && attempt_in x.attempt.state (AttemptState.leased ∷ []))
                  (progress_text h.progress) (touch_lease h.attempt_id h.worker_id stamp h.ttl db))
                (touched h stamp x db j),
            start_attempt-started h.attempt_id h.worker_id x.attempt.task_id stamp h.ttl h.started
                (progress_text h.progress) x.attempt db j.attempt_row,
          )

-- A heartbeat that is answered, and not with a cancellation, renews the lease of its worker and
-- token to the time that it answers, the given span from now; where it reports the start, the
-- attempt is leased no more.
pub heartbeat_renews :
    (h : Heartbeat) (stamp : ℕ) (db db' : Db) (d : Directive)
    → heartbeat_attempt h stamp db ≡ ok (d, db')
    → Renewed h stamp db d db'
unfolding heartbeat_attempt
heartbeat_renews h stamp db db' d e =
    Ensures-at {Q = Renewed h stamp db} (heartbeat_attempt h stamp db) e
      (answer (execution h.attempt_id h.worker_id h.fencing_token db) refl)
  where
    answer :
        (o : Option Execution)
        → execution h.attempt_id h.worker_id h.fencing_token db ≡ o
        → Ensures (Renewed h stamp db) (elim o as (λ x. Result (Directive × Db)) [
          | none ↦ lost_heartbeat h.attempt_id h.worker_id h.fencing_token stamp db
          | some x ↦
              if leb x.lease.expires_at stamp
              then lost_heartbeat h.attempt_id h.worker_id h.fencing_token stamp db
              else live_heartbeat h stamp x db
        ])
    answer none e = lost_heartbeat-Renewed h stamp db
    answer (some x) e =
        Ensures-if (leb x.lease.expires_at stamp) _ _ (λ late. lost_heartbeat-Renewed h stamp db)
          λ timely.
            live_heartbeat-Renewed h stamp x db
              (execution-Joined h.attempt_id h.worker_id h.fencing_token db x e)
