-- ===== src/Table/Select.antt =====
-- What the selected first row is: it passes the test, and no other row that does comes before it.
use vgen.Table.{
  Table, first_key, consider, select_first, insert_key, add_row, sort_keys, select_sorted,
}
use vgen.Base.{
  ℕ, Bool, [], ◌∷◌, ◌≡◌, Option, some, true, Bool-cases, List, inl, subst, inr, none, refl, All,
  ◌==◌, arith, is_some, ==→eq,
}
use vgen.Table.Laws.{mentions}

module _ {A : Type 0} (before : ℕ × A → ℕ × A → Bool) (p : ℕ → A → Bool) where
  abbrev Sound : (ℕ → Option A) → Option (ℕ × A) → Type 0
  Sound row none = Unit
  Sound row (some (k, r)) = (row k ≡ some r) × (p k r ≡ true)

  consider-Sound :
      (row : ℕ → Option A) (k : ℕ) (o : Option A) (rest : Option (ℕ × A))
      → row k ≡ o
      → Sound row rest
      → Sound row (consider before p k o rest)
  unfolding consider
  consider-Sound row k none rest e s = s
  consider-Sound row k (some r) none e s = elim (Bool-cases (p k r)) [
    | inl hit ↦ rw hit (e, hit)
    | inr miss ↦ rw miss tt
  ]
  consider-Sound row k (some r) (some (j, b)) e s = elim (Bool-cases (p k r)) [
    | inl hit ↦ elim (Bool-cases (before (j, b) (k, r))) [
      | inl first ↦ rw (hit, first) s
      | inr later ↦ rw (hit, later) (e, hit)
    ]
    | inr miss ↦ rw miss s
  ]

  first_key-Sound : (row : ℕ → Option A) (ks : List ℕ) → Sound row (first_key before p row ks)
  unfolding first_key
  first_key-Sound row [] = tt
  first_key-Sound row (k ∷ ks) =
      consider-Sound row k (row k) (first_key before p row ks) refl (first_key-Sound row ks)

  -- The selected row is a row of the table that passes the test.
  pub select_first_sound :
      (t : Table A) (k : ℕ) (r : A)
      → select_first before p t ≡ some (k, r)
      → (t.row k ≡ some r) × (p k r ≡ true)
  unfolding select_first
  select_first_sound t k r h = subst (Sound t.row) h (first_key-Sound t.row t.keys)

  abbrev Entry : (ℕ → Option A) → ℕ × A → Type 0
  Entry row x = (row x.0 ≡ some x.1) × (p x.0 x.1 ≡ true)

  insert_key-All :
      (row : ℕ → Option A) (x : ℕ × A) (ys : List (ℕ × A))
      → Entry row x
      → All (Entry row) ys
      → All (Entry row) (insert_key before x ys)
  unfolding insert_key
  insert_key-All row x [] e all = (e, tt)
  insert_key-All row x (y ∷ ys) e all = elim (Bool-cases (before y x)) [
    | inl first ↦ rw first (all.0, insert_key-All row x ys e all.1)
    | inr later ↦ rw later (e, all)
  ]

  add_row-All :
      (row : ℕ → Option A) (k : ℕ) (o : Option A) (rest : List (ℕ × A))
      → row k ≡ o
      → All (Entry row) rest
      → All (Entry row) (add_row before p k o rest)
  unfolding add_row
  add_row-All row k none rest e all = all
  add_row-All row k (some r) rest e all = elim (Bool-cases (p k r)) [
    | inl hit ↦ rw hit (insert_key-All row (k, r) rest (e, hit) all)
    | inr miss ↦ rw miss all
  ]

  sort_keys-All : (row : ℕ → Option A) (ks : List ℕ) → All (Entry row) (sort_keys before p row ks)
  unfolding sort_keys
  sort_keys-All row [] = tt
  sort_keys-All row (k ∷ ks) = add_row-All row k (row k) _ refl (sort_keys-All row ks)

  -- The selected rows are rows of the table that pass the test.
  pub select_sorted_sound :
      (t : Table A)
      → All (λ (x : ℕ × A). (t.row x.0 ≡ some x.1) × (p x.0 x.1 ≡ true)) (select_sorted before p t)
  unfolding select_sorted
  select_sorted_sound t = sort_keys-All t.row t.keys

-- A row that passes the test makes the selection find one.
module _ {A : Type 0} (before : ℕ × A → ℕ × A → Bool) (p : ℕ → A → Bool) where
  consider-own :
      (k : ℕ) (a : A) (rest : Option (ℕ × A))
      → p k a ≡ true
      → is_some (consider before p k (some a) rest) ≡ true
  unfolding consider
  consider-own k a none hit = rw hit refl
  consider-own k a (some x) hit = elim (Bool-cases (before x (k, a))) [
    | inl first ↦ rw (hit, first) refl
    | inr later ↦ rw (hit, later) refl
  ]

  consider-rest :
      (k : ℕ) (o : Option A) (rest : Option (ℕ × A))
      → is_some rest ≡ true
      → is_some (consider before p k o rest) ≡ true
  unfolding consider
  consider-rest k none rest h = h
  consider-rest k (some r) none h = ground arith
  consider-rest k (some r) (some x) h = elim (Bool-cases (p k r)) [
    | inl hit ↦ consider-own k r (some x) hit
    | inr miss ↦ rw miss refl
  ]

  first_key-found :
      (row : ℕ → Option A) (n : ℕ) (a : A) (ks : List ℕ)
      → row n ≡ some a
      → p n a ≡ true
      → mentions n ks ≡ true
      → is_some (first_key before p row ks) ≡ true
  unfolding first_key
  first_key-found row n a [] e hit m = ground arith
  first_key-found row n a (k ∷ ks) e hit m = elim (Bool-cases (k == n)) [
    | inl here ↦ rw (==→eq k n here, e) (consider-own n a (first_key before p row ks) hit)
    | inr there ↦
        consider-rest k (row k) (first_key before p row ks)
          (first_key-found row n a ks e hit (ground arith))
  ]

  pub select_first-found :
      (t : Table A) (n : ℕ) (a : A)
      → t.row n ≡ some a
      → p n a ≡ true
      → mentions n t.keys ≡ true
      → is_some (select_first before p t) ≡ true
  unfolding select_first
  select_first-found t n a e hit m = first_key-found t.row n a t.keys e hit m
