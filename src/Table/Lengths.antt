-- ===== src/Table/Lengths.antt =====
-- How long a sorted selection is after an INSERT.
use vgen.Base.{
  none, some, [], ◌∷◌, inl, inr, true, false, refl, arith, suc, ◌==◌, ◌≡◌, ◌++◌, if◌then◌else◌, ℕ,
  Bool, List, Option, length, test, Bool-cases, ==_refl, ap,
}
use vgen.Table.{insert_key, add_row, sort_keys, select_sorted, Table, insert}
use vgen.Table.Laws.{mentions}

module _ {A : Type 0} (before : ℕ × A → ℕ × A → Bool) (p : ℕ → A → Bool) where
  insert_key-length :
      (x : ℕ × A) (ys : List (ℕ × A)) → length (insert_key before x ys) ≡ suc (length ys)
  unfolding insert_key
  insert_key-length x [] = refl
  insert_key-length x (y ∷ ys) = elim (Bool-cases (before y x)) [
    | inl first ↦ rw first (ap suc (insert_key-length x ys))
    | inr later ↦ rw later refl
  ]

  -- A row that passes makes the list longer by one.
  abbrev one_more : ℕ → Option A → ℕ → ℕ
  one_more k o n = if test (p k) o then suc n else n

  add_row-length :
      (k : ℕ) (o : Option A) (rest : List (ℕ × A))
      → length (add_row before p k o rest) ≡ one_more k o (length rest)
  unfolding add_row
  add_row-length k none rest = refl
  add_row-length k (some a) rest = elim (Bool-cases (p k a)) [
    | inl hit ↦ rw hit (insert_key-length (k, a) rest)
    | inr miss ↦ rw miss refl
  ]

  -- The new row passes, and the others are what they were.
  sort_keys-length :
      (row : ℕ → Option A) (j : ℕ) (a : A) (ks : List ℕ)
      → mentions j ks ≡ false
      → p j a ≡ true
      → length (sort_keys before p (λ k. if k == j then some a else row k) (ks ++ j ∷ []))
        ≡ suc (length (sort_keys before p row ks))
  unfolding sort_keys
  sort_keys-length row j a [] free fits =
      rw (==_refl j) (rw (add_row-length j (some a) []) (rw fits refl))
  sort_keys-length row j a (k ∷ ks) unlisted fits =
      let other : (k == j) ≡ false = ground arith in
      let rest = sort_keys-length row j a ks (ground arith) fits in
      rw
        (
          other,
          add_row-length k (row k)
              (sort_keys before p (λ i. if i == j then some a else row i) (ks ++ j ∷ [])),
          add_row-length k (row k) (sort_keys before p row ks),
          rest,
        )
        (one_more_suc k (row k) (length (sort_keys before p row ks)))
    where
      one_more_suc : (k : ℕ) (o : Option A) (n : ℕ) → one_more k o (suc n) ≡ suc (one_more k o n)
      one_more_suc k o n = elim (Bool-cases (test (p k) o)) [
        | inl hit ↦ rw hit refl
        | inr miss ↦ rw miss refl
      ]

  -- An INSERT of a row that passes makes the sorted selection longer by one.
  pub select_sorted-length :
      (j : ℕ) (a : A) (t : Table A)
      → mentions j t.keys ≡ false
      → p j a ≡ true
      → length (select_sorted before p (insert j a t)) ≡ suc (length (select_sorted before p t))
  unfolding select_sorted
  select_sorted-length j a t unlisted fits = sort_keys-length t.row j a t.keys unlisted fits
