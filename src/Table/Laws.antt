-- ===== src/Table/Laws.antt =====
-- Laws of the tables: each key stands once in the list of keys, and just those keys have a row.
use vgen.Base.{
  ℕ, ◌≡◌, refl, Bool, true, false, ◌&&◌, ◌||◌, not, Option, none, List, [], ◌∷◌, ◌++◌, arith, ◌==◌,
  is_some, test, All, Bool-cases, inl, inr,
}
use vgen.Table.{Table, insert, select_keys}

abbrev pub mentions : ℕ → List ℕ → Bool
mentions k [] = false
mentions k (j ∷ js) = j == k || mentions k js

abbrev pub distinct : List ℕ → Bool
distinct [] = true
distinct (j ∷ js) = not (mentions j js) && distinct js

pub record IsTable {A : Type 0} (t : Table A) : Type 0 where
  pub listed : (k : ℕ) → mentions k t.keys ≡ is_some (t.row k)
  pub distinct_keys : distinct t.keys ≡ true

pub mentions-append :
    (k j : ℕ) (ks : List ℕ) → mentions k (ks ++ j ∷ []) ≡ (mentions k ks || j == k)
mentions-append k j [] = ground arith
mentions-append k j (i ∷ ks) = ground (arith, mentions-append k j ks)

distinct-append :
    (j : ℕ) (ks : List ℕ)
    → distinct ks ≡ true
    → mentions j ks ≡ false
    → distinct (ks ++ j ∷ []) ≡ true
distinct-append j [] d m = refl
distinct-append j (i ∷ ks) d m = ground (arith, mentions-append i j ks, distinct-append j ks)

module _ {A : Type 0} where
  -- An update writes into rows that are there.
  pub IsTable-kept :
      {t u : Table A}
      → IsTable t
      → u.keys ≡ t.keys
      → ((k : ℕ) → is_some (u.row k) ≡ is_some (t.row k))
      → IsTable u
  IsTable-kept {t} {u} h keys rows = record {
    listed = λ k. rw (keys, rows k) (h.listed k);
    distinct_keys = rw keys h.distinct_keys;
  }

  pub IsTable-insert :
      (k : ℕ) (r : A) (t : Table A) → t.row k ≡ none → IsTable t → IsTable (insert k r t)
  IsTable-insert k r t free h = record {
    listed = λ j. ground (arith, h.listed j, mentions-append j k t.keys);
    distinct_keys = distinct-append k t.keys h.distinct_keys (ground (arith, h.listed k));
  }

  module _ (p : ℕ → A → Bool) (row : ℕ → Option A) where
    pub mentions-select :
        (k : ℕ) (ks : List ℕ) → mentions k ks ≡ false → mentions k (select_keys p row ks) ≡ false
    unfolding select_keys
    mentions-select k [] h = refl
    mentions-select k (j ∷ ks) h = ground (arith, mentions-select k ks)

    pub mentions-select_true :
        (k : ℕ) (ks : List ℕ)
        → mentions k ks ≡ true
        → test (p k) (row k) ≡ true
        → mentions k (select_keys p row ks) ≡ true
    unfolding select_keys
    mentions-select_true k [] h t = cc
    mentions-select_true k (j ∷ ks) h t = elim (Bool-cases (j == k)) [
      | inl same ↦ first same
      | inr other ↦ ground (arith, mentions-select_true k ks)
    ]
      where
        first : (j == k) ≡ true → mentions k (select_keys p row (j ∷ ks)) ≡ true
        first same = ground arith

    pub distinct-select :
        (ks : List ℕ) → distinct ks ≡ true → distinct (select_keys p row ks) ≡ true
    unfolding select_keys
    distinct-select [] h = refl
    distinct-select (j ∷ ks) h = ground (arith, distinct-select ks, mentions-select j ks)

    pub All-select : (ks : List ℕ) → All (λ k. test (p k) (row k) ≡ true) (select_keys p row ks)
    unfolding select_keys
    All-select [] = tt
    All-select (j ∷ ks) = elim (Bool-cases (test (p j) (row j))) [
      | inl hit ↦ rw hit (hit, All-select ks)
      | inr miss ↦ rw miss (All-select ks)
    ]
