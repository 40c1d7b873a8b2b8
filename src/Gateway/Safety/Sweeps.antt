-- ===== src/Gateway/Safety/Sweeps.antt =====
-- The sweeps keep the database consistent.
use vgen.Base.{
  ℕ, Bool, true, false, Option, some, ◌≡◌, refl, arith, not, Option-cases, Bool-cases, inl, inr,
  test, is_none, String, List, All, ◌∷◌, ◌∙◌, [], ◌==◌, All-mono,
}
use vgen.Gateway.Db.{Db, Attempt}
use vgen.Gateway.Commands.{enqueue_task_rekey_command}
use vgen.Gateway.Sweep.{
  expire_reservations, finalize_drained_workers, release_expired, task_expired, is_live,
  expire_leases, expire_lease, expire_each, is_executing, is_lease_expired,
}
use vgen.Table.Laws.{IsTable-kept, mentions, distinct, distinct-select, All-select}
use vgen.Gateway.Safety.{IsConsistent, fine, task_agrees, ◌⇒◌}

-- A task whose reservation lapsed has no live attempt.
live-not-expired :
    (stamp : ℕ) (db : Db) (k : ℕ) (a : Attempt)
    → task_agrees db k a ≡ true
    → is_live a.state ≡ true
    → task_expired stamp db a.task_id ≡ false
unfolding task_expired
live-not-expired stamp db k a h live = ground arith

live_rows_kept :
    (stamp : ℕ) (db : Db) (k : ℕ)
    → fine (task_agrees db k) (db.attempts.row k) ≡ true
    → fine (λ a. is_live a.state ⇒ not (task_expired stamp db a.task_id)) (db.attempts.row k) ≡ true
live_rows_kept stamp db k h = elim (Option-cases (db.attempts.row k)) [
  | inl e ↦ rw e
  | inr (a, e) ↦ elim (Bool-cases (is_live a.state)) [
    | inl live ↦ rw (e, live) (ground (arith, live-not-expired stamp db k a (rw e at h) live))
    | inr idle ↦ rw (e, idle)
  ]
]

pub expire_reservations-IsConsistent :
    (stamp : ℕ) (db : Db) → IsConsistent db → IsConsistent (expire_reservations stamp db)
unfolding expire_reservations
expire_reservations-IsConsistent stamp db h = record {
  leases_table = IsTable-kept h.leases_table refl (λ k. ground arith);
  attempts_table = IsTable-kept h.attempts_table refl (λ k. ground arith);
  tasks_table = IsTable-kept h.tasks_table refl (λ k. ground arith);
  tasks_agree = λ k. ground (arith, h.tasks_agree k, live_rows_kept stamp db k (h.tasks_agree k));
  leases_agree = λ k. ground (arith, h.leases_agree k, live_rows_kept stamp db k (h.tasks_agree k));
  tokens_drawn = λ k. ground (arith, h.tokens_drawn k);
  leases_fenced =
      λ k. ground (arith, h.leases_fenced k, live_rows_kept stamp db k (h.tasks_agree k));
  live_unique = λ j k. ground (arith, h.live_unique j k);
  not_started = λ k. ground (arith, h.not_started k);
  workers_agree = λ k. ground (arith, h.workers_agree k, h.tasks_agree k);
  attempts_drawn = λ k. ground (arith, h.attempts_drawn k);
  tasks_drawn = λ k. ground (arith, h.tasks_drawn k);
  leases_drawn = λ k. ground (arith, h.leases_drawn k);
  tokens_unique = λ j k. ground (arith, h.tokens_unique j k);
}

pub finalize_drained_workers-IsConsistent :
    (stamp : ℕ) (db : Db) → IsConsistent db → IsConsistent (finalize_drained_workers stamp db)
unfolding finalize_drained_workers
finalize_drained_workers-IsConsistent stamp db h = record {
  leases_table = h.leases_table;
  attempts_table = h.attempts_table;
  tasks_table = h.tasks_table;
  tasks_agree = h.tasks_agree;
  leases_agree = h.leases_agree;
  tokens_drawn = λ k. ground (arith, h.tokens_drawn k);
  leases_fenced = h.leases_fenced;
  live_unique = h.live_unique;
  not_started = h.not_started;
  workers_agree = λ k. ground (arith, h.workers_agree k, h.tasks_agree k);
  attempts_drawn = λ k. ground (arith, h.attempts_drawn k);
  tasks_drawn = λ k. ground (arith, h.tasks_drawn k);
  leases_drawn = λ k. ground (arith, h.leases_drawn k);
  tokens_unique = h.tokens_unique;
}

module _ (stamp attempt_id task_id : ℕ) (db : Db) (h : IsConsistent db) (a : Attempt)
    (row : db.attempts.row attempt_id ≡ some a) (same : a.task_id ≡ task_id)
    (open_lease : test (λ l. is_none l.released_at) (db.leases.row attempt_id) ≡ true) where
  release_expired-IsConsistent : IsConsistent (release_expired stamp attempt_id task_id db)
  unfolding release_expired
  release_expired-IsConsistent = record {
    leases_table = IsTable-kept h.leases_table refl (λ k. ground arith);
    attempts_table = IsTable-kept h.attempts_table refl (λ k. ground arith);
    tasks_table = IsTable-kept h.tasks_table refl (λ k. ground arith);
    tasks_agree = λ k.
        ground (arith, h.tasks_agree k, h.live_unique k attempt_id, h.leases_fenced attempt_id);
    leases_agree = λ k. ground (arith, h.leases_agree k);
    tokens_drawn = λ k. ground (arith, h.tokens_drawn k);
    leases_fenced = λ k. ground (arith, h.leases_fenced k);
    live_unique = λ j k. ground (arith, h.live_unique j k);
    not_started = λ k. ground (arith, h.not_started k);
    workers_agree = λ k. ground (arith, h.workers_agree k, h.tasks_agree k);
    attempts_drawn = λ k. ground (arith, h.attempts_drawn k);
    tasks_drawn = λ k. ground (arith, h.tasks_drawn k);
    leases_drawn = λ k. ground (arith, h.leases_drawn k);
    tokens_unique = λ j k. ground (arith, h.tokens_unique j k);
  }

-- Only the table of commands is written.
pub enqueue-eq :
    (task_id : ℕ) (source : Option ℕ) (reason : String) (stamp : ℕ) (db : Db)
    → (enqueue_task_rekey_command task_id source reason stamp db).0 ≡ record db {
      commands = (enqueue_task_rekey_command task_id source reason stamp db).0.commands;
    }
unfolding enqueue_task_rekey_command
enqueue-eq task_id source reason stamp db = ground arith

-- Consistency reads four of the tables.
pub IsConsistent-same :
    {db db' : Db}
    → IsConsistent db
    → db'.leases ≡ db.leases
    → db'.attempts ≡ db.attempts
    → db'.tasks ≡ db.tasks
    → db'.workers ≡ db.workers
    → db'.fresh ≡ db.fresh
    → IsConsistent db'
IsConsistent-same {db} {db'} h ls as_ ts ws fr = record {
  leases_table = rw ls h.leases_table;
  attempts_table = rw as_ h.attempts_table;
  tasks_table = rw ts h.tasks_table;
  tasks_agree = λ k. rw (as_, ts) (h.tasks_agree k);
  leases_agree = λ k. rw (as_, ls) (h.leases_agree k);
  tokens_drawn = λ k. rw (as_, ws) (h.tokens_drawn k);
  leases_fenced = λ k. rw (ls, as_) (h.leases_fenced k);
  live_unique = λ j k. rw as_ (h.live_unique j k);
  not_started = λ k. rw as_ (h.not_started k);
  workers_agree = λ k. rw (as_, ts) (h.workers_agree k);
  attempts_drawn = λ k. rw (as_, fr) (h.attempts_drawn k);
  tasks_drawn = λ k. rw (ts, fr) (h.tasks_drawn k);
  leases_drawn = λ k. rw (ls, fr) (h.leases_drawn k);
  tokens_unique = λ j k. rw as_ (h.tokens_unique j k);
}

pub enqueue-IsConsistent :
    (task_id : ℕ) (source : Option ℕ) (reason : String) (stamp : ℕ) (db : Db)
    → IsConsistent db
    → IsConsistent (enqueue_task_rekey_command task_id source reason stamp db).0
enqueue-IsConsistent task_id source reason stamp db h =
    rw (enqueue-eq task_id source reason stamp db) (IsConsistent-same h refl refl refl refl refl)

abbrev is_open : Db → ℕ → Bool
is_open db k = test (λ l. is_none l.released_at) (db.leases.row k)

expire_lease-IsConsistent :
    (stamp attempt_id : ℕ) (db : Db)
    → IsConsistent db
    → is_open db attempt_id ≡ true
    → IsConsistent (expire_lease stamp attempt_id (db.attempts.row attempt_id) db).0
unfolding expire_lease
expire_lease-IsConsistent stamp attempt_id db h o =
    elim (Option-cases (db.attempts.row attempt_id)) [
      | inl e ↦ rw e h
      | inr (a, e) ↦
          let kept = release_expired-IsConsistent stamp attempt_id a.task_id db h a e refl o in
          elim (Bool-cases (test is_executing (db.tasks.row a.task_id))) [
            | inl moved ↦
                rw (e, moved)
                  (enqueue-IsConsistent a.task_id (some attempt_id) "lease_expired" stamp _ kept)
            | inr idle ↦ rw (e, idle) kept
          ]
    ]

-- The round for one attempt leaves the leases of the others alone.
is_open-expire_lease :
    (stamp attempt_id j : ℕ) (db : Db)
    → (attempt_id == j) ≡ false
    → is_open (expire_lease stamp attempt_id (db.attempts.row attempt_id) db).0 j ≡ is_open db j
unfolding expire_lease release_expired
is_open-expire_lease stamp attempt_id j db other =
    elim (Option-cases (db.attempts.row attempt_id)) [
      | inl e ↦ rw e
      | inr (a, e) ↦ elim (Bool-cases (test is_executing (db.tasks.row a.task_id))) [
        | inl moved ↦
            rw (e, moved)
              (rw (enqueue-eq a.task_id (some attempt_id) "lease_expired" stamp _) (ground arith))
        | inr idle ↦ rw (e, idle) (ground arith)
      ]
    ]

All-kept :
    (stamp attempt_id : ℕ) (ks : List ℕ) (db : Db)
    → mentions attempt_id ks ≡ false
    → All (λ k. is_open db k ≡ true) ks
    → All
        (λ k. is_open (expire_lease stamp attempt_id (db.attempts.row attempt_id) db).0 k ≡ true)
        ks
All-kept stamp attempt_id [] db m all = tt
All-kept stamp attempt_id (k ∷ ks) db m all = (
  is_open-expire_lease stamp attempt_id k db (ground arith) ∙ all.0,
  All-kept stamp attempt_id ks db (ground arith) all.1,
)

expire_each-IsConsistent :
    (stamp : ℕ) (ks : List ℕ) (db : Db)
    → IsConsistent db
    → distinct ks ≡ true
    → All (λ k. is_open db k ≡ true) ks
    → IsConsistent (expire_each stamp ks db).0
unfolding expire_each
expire_each-IsConsistent stamp [] db h d all = h
expire_each-IsConsistent stamp (k ∷ ks) db h d all =
    expire_each-IsConsistent stamp ks _ (expire_lease-IsConsistent stamp k db h all.0)
      (ground arith) (All-kept stamp k ks db (ground arith) all.1)

is_open_of_expired :
    (stamp : ℕ) (db : Db) (k : ℕ)
    → test (is_lease_expired stamp k) (db.leases.row k) ≡ true
    → is_open db k ≡ true
is_open_of_expired stamp db k h = ground arith

pub expire_leases-IsConsistent :
    (stamp : ℕ) (db : Db) → IsConsistent db → IsConsistent (expire_leases stamp db).0
unfolding expire_leases
expire_leases-IsConsistent stamp db h = finalize_drained_workers-IsConsistent stamp _ (
    expire_each-IsConsistent stamp _ db h
      (distinct-select (is_lease_expired stamp) db.leases.row db.leases.keys
        h.leases_table.distinct_keys)
      (All-mono (is_open_of_expired stamp db) _
        (All-select (is_lease_expired stamp) db.leases.row db.leases.keys)))
