-- ===== src/Gateway/Leasing/Capacity.antt =====
-- The capacity of a worker bounds the attempts that it executes (`lease` of
-- src/vgen/gateway/repository.py).
use vgen.Table.{count_keys}
use vgen.Table.Laws.{mentions, distinct}
use vgen.Gateway.Db.{Db, Attempt, KeyEnvelope, Worker}
use vgen.Gateway.Leasing.{Grant, lease, active_count, store_lease, is_reserved_for, ok, is_live}
use vgen.Gateway.Leasing.Grants.{swept, lease-Granted}
use vgen.Gateway.Leasing.Order.{swept-IsConsistent}
use vgen.Gateway.Safety.{IsConsistent}
use vgen.Base.{
  [], ◌∷◌, ◌==◌, ◌&&◌, ◌≤◌, ◌≡◌, ◌∙◌, some, inl, inr, true, false, suc, refl, arith, ℕ, Bool,
  Option, List, ap, test, is_some, Bool-cases, ==→eq, sym, subst,
}

module _ {A : Type 0} (p : ℕ → A → Bool) (row row' : ℕ → Option A) where
  count_keys-same :
      (ks : List ℕ)
      → ((j : ℕ) → mentions j ks ≡ true → test (p j) (row' j) ≡ test (p j) (row j))
      → count_keys p row' ks ≡ count_keys p row ks
  unfolding count_keys
  count_keys-same [] h = refl
  count_keys-same (k ∷ ks) h =
      let s : test (p k) (row' k) ≡ test (p k) (row k) = h k (ground arith) in
      let rest : count_keys p row' ks ≡ count_keys p row ks =
        count_keys-same ks (λ j m. h j (ground arith)) in
      rw (s, rest) refl

  -- One row more passes the test.
  pub count_keys-suc :
      (k : ℕ) (ks : List ℕ)
      → distinct ks ≡ true
      → mentions k ks ≡ true
      → test (p k) (row k) ≡ false
      → test (p k) (row' k) ≡ true
      → ((j : ℕ) → (j == k) ≡ false → test (p j) (row' j) ≡ test (p j) (row j))
      → count_keys p row' ks ≡ suc (count_keys p row ks)
  unfolding count_keys
  count_keys-suc k [] d m old new others = ground arith
  count_keys-suc k (j ∷ ks) d m old new others = elim (Bool-cases (j == k)) [
    | inl e ↦
        let rest : count_keys p row' ks ≡ count_keys p row ks =
          count_keys-same ks (λ i n. others i (differs i j k ks e d n)) in
        rw (==→eq j k e, old, new, rest) refl
    | inr e ↦
        let rest : count_keys p row' ks ≡ suc (count_keys p row ks) =
          count_keys-suc k ks (ground arith) (ground arith) old new others in
        rw (others j e) (ground arith)
  ]
    where
      differs :
          (i j k : ℕ) (ks : List ℕ)
          → (j == k) ≡ true
          → distinct (j ∷ ks) ≡ true
          → mentions i ks ≡ true
          → (i == k) ≡ false
      differs i j k ks e d n = elim (Bool-cases (i == k)) [
        | inl s ↦
            let same : i ≡ j = ==→eq i k s ∙ sym (==→eq j k e) in
            let seen : mentions j ks ≡ true = subst (λ x. mentions x ks ≡ true) same n in
            ground arith
        | inr s ↦ s
      ]

store_lease-active_count :
    (worker_id fencing attempt_id task_id stamp ttl : ℕ) (key : KeyEnvelope) (a : Attempt) (db : Db)
    → IsConsistent db
    → db.attempts.row attempt_id ≡ some a
    → is_reserved_for task_id worker_id a ≡ true
    → active_count worker_id (store_lease worker_id fencing attempt_id task_id stamp ttl key db)
      ≡ suc (active_count worker_id db)
unfolding active_count store_lease
store_lease-active_count worker_id fencing attempt_id task_id stamp ttl key a db h row reserved =
    count_keys-suc (λ _ b. b.worker_id == worker_id && is_live b.state) db.attempts.row _ attempt_id
      db.attempts.keys h.attempts_table.distinct_keys
      (h.attempts_table.listed attempt_id ∙ ap is_some row) (ground arith) (ground arith)
      (λ j e. ground arith)

-- From a consistent database, a granted lease adds one leased attempt to the worker's, whose number
-- is then no greater than the worker's capacity.
pub lease_within_capacity :
    (worker_id ttl stamp : ℕ) (db db' : Db) (g : Grant)
    → IsConsistent db
    → lease worker_id ttl stamp db ≡ ok (some g, db')
    → (w : Worker) × ((swept stamp db).workers.row worker_id ≡ some w)
      × (active_count worker_id db' ≡ suc (active_count worker_id (swept stamp db)))
      × (active_count worker_id db' ≤ w.capacity)
lease_within_capacity worker_id ttl stamp db db' g h e =
    let granted = lease-Granted worker_id ttl stamp db e in
    let grown : active_count worker_id db' ≡ suc (active_count worker_id (swept stamp db)) =
      rw granted.stored (
        store_lease-active_count worker_id g.fencing_token g.attempt_id g.task_id stamp ttl
          granted.key granted.attempt (swept stamp db) (swept-IsConsistent stamp db h)
          granted.attempt_row granted.reserved) in
    (granted.worker, granted.worker_row, grown, ground (arith, granted.room))
