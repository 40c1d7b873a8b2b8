-- ===== src/Table/Counts.antt =====
-- Where a count is 0 or nothing is found, no row passes the test.
use vgen.Table.{Table, count_keys, exists_key, count_where, exists_where}
use vgen.Table.Laws.{IsTable, mentions}
use vgen.Base.{
  [], ◌∷◌, ◌==◌, ◌≡◌, ◌∙◌, some, inl, inr, true, false, arith, ℕ, Bool, List, test, ap, Bool-cases,
  is_some, ==→eq,
}

module _ {A : Type 0} (p : ℕ → A → Bool) (t : Table A) (h : IsTable t) where
  keys_unfit :
      (ks : List ℕ) (j : ℕ)
      → count_keys p t.row ks ≡ 0
      → mentions j ks ≡ true
      → test (p j) (t.row j) ≡ false
  unfolding count_keys
  keys_unfit [] j e m = ground arith
  keys_unfit (k ∷ ks) j e m = elim (Bool-cases (test (p k) (t.row k))) [
    | inl hit ↦ ground arith
    | inr miss ↦ elim (Bool-cases (j == k)) [
      | inl same ↦ rw (==→eq j k same) miss
      | inr other ↦ keys_unfit ks j (rw miss at e) (ground arith)
    ]
  ]

  pub count_zero : count_where p t ≡ 0 → (j : ℕ) (a : A) → t.row j ≡ some a → p j a ≡ false
  count_zero e j a row = ground (arith, keys_unfit t.keys j e (h.listed j ∙ ap is_some row))

  keys_missed :
      (ks : List ℕ) (j : ℕ)
      → exists_key p t.row ks ≡ false
      → mentions j ks ≡ true
      → test (p j) (t.row j) ≡ false
  unfolding exists_key
  keys_missed [] j e m = ground arith
  keys_missed (k ∷ ks) j e m = elim (Bool-cases (test (p k) (t.row k))) [
    | inl hit ↦ ground arith
    | inr miss ↦ elim (Bool-cases (j == k)) [
      | inl same ↦ rw (==→eq j k same) miss
      | inr other ↦ keys_missed ks j (rw miss at e) (ground arith)
    ]
  ]

  pub exists_false : exists_where p t ≡ false → (j : ℕ) (a : A) → t.row j ≡ some a → p j a ≡ false
  exists_false e j a row = ground (arith, keys_missed t.keys j e (h.listed j ∙ ap is_some row))
