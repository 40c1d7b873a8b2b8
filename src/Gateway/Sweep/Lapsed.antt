-- ===== src/Gateway/Sweep/Lapsed.antt =====
-- After the sweep of the leases none is overdue (`_expire_leases` of
-- src/vgen/gateway/repository.py).
use vgen.Table.Laws.{mentions, mentions-select_true}
use vgen.Gateway.Db.{Db, Lease, Attempt}
use vgen.Gateway.Sweep.{
  expire_lease, expire_each, expire_leases, release_expired, is_lease_expired, is_executing,
  finalize_drained_workers, select_where,
}
use vgen.Gateway.Safety.{IsConsistent}
use vgen.Gateway.Safety.Sweeps.{enqueue-eq}
use vgen.Base.{
  [], ◌∷◌, ◌==◌, ◌≡◌, ◌∙◌, some, inl, inr, true, false, arith, ℕ, Bool, Option-cases, Bool-cases,
  is_some, List, test, subst, sym, ==→eq, ◌<◌, none,
}

-- The lease of an attempt is open past its time.
abbrev pub is_overdue : ℕ → Db → ℕ → Bool
is_overdue stamp db k = test (is_lease_expired stamp k) (db.leases.row k)

expire_lease-other :
    (stamp k j : ℕ) (db : Db)
    → (k == j) ≡ false
    → is_overdue stamp (expire_lease stamp k (db.attempts.row k) db).0 j ≡ is_overdue stamp db j
unfolding expire_lease release_expired
expire_lease-other stamp k j db other = elim (Option-cases (db.attempts.row k)) [
  | inl e ↦ rw e
  | inr (a, e) ↦ elim (Bool-cases (test is_executing (db.tasks.row a.task_id))) [
    | inl moved ↦
        rw (e, moved) (rw (enqueue-eq a.task_id (some k) "lease_expired" stamp _) (ground arith))
    | inr idle ↦ rw (e, idle) (ground arith)
  ]
]

expire_lease-own :
    (stamp k : ℕ) (db : Db) (a : Attempt)
    → db.attempts.row k ≡ some a
    → is_overdue stamp (expire_lease stamp k (db.attempts.row k) db).0 k ≡ false
unfolding expire_lease release_expired
expire_lease-own stamp k db a e = elim (Bool-cases (test is_executing (db.tasks.row a.task_id))) [
  | inl moved ↦
      rw (e, moved) (rw (enqueue-eq a.task_id (some k) "lease_expired" stamp _) (ground arith))
  | inr idle ↦ rw (e, idle) (ground arith)
]

-- Attempts do not vanish.
expire_lease-attempts :
    (stamp k j : ℕ) (db : Db)
    → is_some ((expire_lease stamp k (db.attempts.row k) db).0.attempts.row j)
      ≡ is_some (db.attempts.row j)
unfolding expire_lease release_expired
expire_lease-attempts stamp k j db = elim (Option-cases (db.attempts.row k)) [
  | inl e ↦ rw e
  | inr (a, e) ↦ elim (Bool-cases (test is_executing (db.tasks.row a.task_id))) [
    | inl moved ↦
        rw (e, moved) (rw (enqueue-eq a.task_id (some k) "lease_expired" stamp _) (ground arith))
    | inr idle ↦ rw (e, idle) (ground arith)
  ]
]

-- An attempt that has an overdue lease is there.
abbrev Anchored : ℕ → Db → Type 0
Anchored stamp db = (j : ℕ) → is_overdue stamp db j ≡ true → is_some (db.attempts.row j) ≡ true

module _ (stamp k : ℕ) (db : Db) (h : Anchored stamp db) where
  abbrev swept_once : Db
  swept_once = (expire_lease stamp k (db.attempts.row k) db).0

  swept_once-clear : is_overdue stamp (expire_lease stamp k (db.attempts.row k) db).0 k ≡ false
  unfolding expire_lease
  swept_once-clear = elim (Option-cases (db.attempts.row k)) [
    | inl e ↦ rw e (elim (Bool-cases (is_overdue stamp db k)) [
      | inl overdue ↦ ground (arith, h k overdue)
      | inr clear ↦ clear
    ])
    | inr (a, e) ↦ expire_lease-own stamp k db a e
  ]

  swept_once-overdue :
      (j : ℕ)
      → is_overdue stamp swept_once j ≡ true
      → ((k == j) ≡ false) × (is_overdue stamp db j ≡ true)
  swept_once-overdue j overdue = elim (Bool-cases (k == j)) [
    | inl same ↦
        let q : is_overdue stamp swept_once k ≡ true =
          subst (λ x. is_overdue stamp swept_once x ≡ true) (sym (==→eq k j same)) overdue in
        ground (arith, q, swept_once-clear)
    | inr other ↦ (other, sym (expire_lease-other stamp k j db other) ∙ overdue)
  ]

  swept_once-Anchored : Anchored stamp swept_once
  swept_once-Anchored j overdue =
      expire_lease-attempts stamp k j db ∙ h j (swept_once-overdue j overdue).1

expire_each-clears :
    (stamp : ℕ) (ks : List ℕ) (db : Db)
    → Anchored stamp db
    → ((j : ℕ) → is_overdue stamp db j ≡ true → mentions j ks ≡ true)
    → (j : ℕ) → is_overdue stamp (expire_each stamp ks db).0 j ≡ false
unfolding expire_each
expire_each-clears stamp [] db h listed j = elim (Bool-cases (is_overdue stamp db j)) [
  | inl overdue ↦ let s = listed j overdue in ground arith
  | inr clear ↦ clear
]
expire_each-clears stamp (k ∷ ks) db h listed j =
    expire_each-clears stamp ks _ (swept_once-Anchored stamp k db h)
      (λ i overdue.
        let s = swept_once-overdue stamp k db h i overdue in ground (arith, listed i s.1, s.0))
      j

overdue-Anchored : (stamp : ℕ) (db : Db) → IsConsistent db → Anchored stamp db
overdue-Anchored stamp db h j overdue = ground (arith, h.leases_fenced j)

overdue-listed :
    (stamp : ℕ) (db : Db)
    → IsConsistent db
    → (j : ℕ) → is_overdue stamp db j ≡ true
    → mentions j (select_where (is_lease_expired stamp) db.leases) ≡ true
overdue-listed stamp db h j overdue =
    mentions-select_true (is_lease_expired stamp) db.leases.row j db.leases.keys
      (ground (arith, h.leases_table.listed j)) overdue

-- After the sweep of a consistent database no lease is open at or past its time of expiry.
pub expire_leases_clears :
    (stamp : ℕ) (db : Db) (k : ℕ) (l : Lease)
    → IsConsistent db
    → (expire_leases stamp db).0.leases.row k ≡ some l
    → l.released_at ≡ none
    → stamp < l.expires_at
unfolding expire_leases finalize_drained_workers
expire_leases_clears stamp db k l h row opened = ground (
  arith,
  expire_each-clears stamp (select_where (is_lease_expired stamp) db.leases) db
      (overdue-Anchored stamp db h) (overdue-listed stamp db h) k,
)
