-- ===== src/Gateway/Artifacts/Counts.antt =====
-- How many output artifacts a lease is given (`reserve_output_artifacts` of
-- src/vgen/gateway/repository.py).
use vgen.Base.{
  [], ◌∷◌, false, refl, arith, zero, suc, ◌==◌, ◌+◌, ◌-◌, ◌≤◌, ◌≡◌, ℕ, String, List, length, ap,
  min, max, ==_refl,
}
use vgen.Gateway.Db.{Db, Artifact}
use vgen.Gateway.Rekey.{take}
use vgen.Table.Laws.{mentions, mentions-append}
use vgen.Table.{insert}
use vgen.Gateway.Artifacts.{
  open_outputs, store_outputs, reserve_output_artifacts, new_output, clamped, ok, artifact_before,
  is_open_output,
}
use vgen.Table.Lengths.{select_sorted-length}
use vgen.Gateway.Tx.{Ensures, Ensures-ok, Ensures-at}

-- The keys of the artifacts were drawn from the supply.
pub record IsDrawn (db : Db) : Type 0 where
  pub undrawn : (n : ℕ) → db.fresh ≤ n → mentions n db.artifacts.keys ≡ false

module _ (text_of : ℕ → String) (task_id attempt_id : ℕ) (store_type : String) (stamp : ℕ) where
  abbrev with_output : ℕ → Db → Db
  with_output index db = record db {
    artifacts =
        insert db.fresh (new_output task_id attempt_id index store_type (text_of db.fresh) stamp)
          db.artifacts;
    fresh = suc db.fresh;
  }

  with_output-IsDrawn : (index : ℕ) (db : Db) → IsDrawn db → IsDrawn (with_output index db)
  with_output-IsDrawn index db h = record {
    undrawn = λ n e.
        let former = h.undrawn n (omega (arith, e)) in
        let other : (db.fresh == n) ≡ false = ground (arith, e) in
        rw (mentions-append n db.fresh db.artifacts.keys, former, other) refl;
  }

  with_output-length :
      (index : ℕ) (db : Db)
      → IsDrawn db
      → length (open_outputs attempt_id (with_output index db))
        ≡ suc (length (open_outputs attempt_id db))
  unfolding open_outputs
  with_output-length index db h =
      select_sorted-length artifact_before (λ _ a. is_open_output attempt_id a) db.fresh _
        db.artifacts (h.undrawn db.fresh (omega arith)) (rw (==_refl attempt_id) refl)

  store_outputs-length :
      (index missing : ℕ) (db : Db)
      → IsDrawn db
      → length (
          open_outputs attempt_id
            (store_outputs text_of task_id attempt_id store_type stamp index missing db))
        ≡ length (open_outputs attempt_id db) + missing
  unfolding store_outputs
  store_outputs-length index zero db h = omega arith
  store_outputs-length index (suc missing) db h =
      let rest =
        store_outputs-length (index + 1) missing (with_output index db)
          (with_output-IsDrawn index db h) in
      omega (arith, rest, with_output-length index db h)

take-length : {A : Type 0} (n : ℕ) (xs : List A) → n ≤ length xs → length (take n xs) ≡ n
unfolding take
take-length zero xs h = refl
take-length (suc n) [] h = omega (arith, h)
take-length (suc n) (x ∷ xs) h = ap suc (take-length n xs (omega (arith, h)))

module _ (text_of : ℕ → String) (task_id attempt_id count : ℕ) (store_type : String) where
  abbrev Filled : List (ℕ × Artifact) → Db → Type 0
  Filled answer db' =
      (length answer ≡ clamped count)
      × ((later : ℕ)
          → reserve_output_artifacts text_of task_id attempt_id count store_type later db'
            ≡ ok (answer, db'))

  reserve_again :
      (later : ℕ) (db : Db)
      → clamped count ≤ length (open_outputs attempt_id db)
      → reserve_output_artifacts text_of task_id attempt_id count store_type later db
        ≡ ok (take (clamped count) (open_outputs attempt_id db), db)
  unfolding reserve_output_artifacts store_outputs
  reserve_again later db h =
      let nothing : (clamped count - length (open_outputs attempt_id db)) ≡ 0 = omega (arith, h) in
      rw nothing refl

  reserve-Filled :
      (stamp : ℕ) (db : Db)
      → IsDrawn db
      → Ensures Filled
          (reserve_output_artifacts text_of task_id attempt_id count store_type stamp db)
  unfolding reserve_output_artifacts
  reserve-Filled stamp db h =
      let existing = length (open_outputs attempt_id db) in
      let filled =
        store_outputs text_of task_id attempt_id store_type stamp existing
          (clamped count - existing) db in
      let enough : clamped count ≤ length (open_outputs attempt_id filled) = omega (
        arith,
        store_outputs-length text_of task_id attempt_id store_type stamp existing
            (clamped count - existing) db h,
      ) in
      Ensures-ok _ filled (
        take-length (clamped count) (open_outputs attempt_id filled) enough,
        λ later. reserve_again later filled enough,
      )

  -- A lease is given as many output artifacts as it asks for, at least 1 and at most 8, whatever was
  -- reserved before; asked again with the same count, at any time, the same ones are given and nothing
  -- is added.
  pub reserve_output_artifacts_lem :
      (stamp later : ℕ) (db db' : Db) (answer : List (ℕ × Artifact))
      → IsDrawn db
      → reserve_output_artifacts text_of task_id attempt_id count store_type stamp db
        ≡ ok (answer, db')
      → (length answer ≡ min (max count 1) 8)
        × (reserve_output_artifacts text_of task_id attempt_id count store_type later db'
            ≡ ok (answer, db'))
  reserve_output_artifacts_lem stamp later db db' answer h e =
      let filled =
        Ensures-at (reserve_output_artifacts text_of task_id attempt_id count store_type stamp db) e
          (reserve-Filled stamp db h) in
      (filled.0, filled.1 later)
