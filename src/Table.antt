-- ===== src/Table.antt =====
-- A table of the gateway's database (src/vgen/gateway/database.py): rows under their primary key.
-- `keys` lists the keys in the order of insertion; a key has one row at most by construction.
pub mod Laws
pub mod Select
pub mod First
pub mod Counts
pub mod Lengths
use vgen.Base.{
  ℕ, suc, ◌≡◌, refl, Bool, true, false, ◌&&◌, Option, none, some, List, [], ◌∷◌, ◌++◌, arith, ◌==◌,
  if◌then◌else◌, is_some, test,
}
use mathlib.Core.Option

pub record Table (A : Type 0) : Type 0 where
  pub keys : List ℕ
  pub row : ℕ → Option A

module _ {A : Type 0} where
  -- UPDATE ... SET ... WHERE: the rows that pass the test are rewritten.
  abbrev pub update_where : (ℕ → A → Bool) → (A → A) → Table A → Table A
  update_where p f t = record t { row = λ k. Option.map (λ r. if p k r then f r else r) (t.row k) }

  -- INSERT of a row under a key that is free.
  abbrev pub insert : ℕ → A → Table A → Table A
  insert k r t = record { keys = t.keys ++ k ∷ []; row = λ j. if j == k then some r else t.row j }

  -- The keys of the rows that pass a test, in the table's order.
  unfoldable pub select_keys : (ℕ → A → Bool) → (ℕ → Option A) → List ℕ → List ℕ
  select_keys p row [] = []
  select_keys p row (k ∷ ks) =
      let rest = select_keys p row ks in if test (p k) (row k) then k ∷ rest else rest

  abbrev pub select_where : (ℕ → A → Bool) → Table A → List ℕ
  select_where p t = select_keys p t.row t.keys

  -- SELECT COUNT(*) ... WHERE.
  unfoldable pub count_keys : (ℕ → A → Bool) → (ℕ → Option A) → List ℕ → ℕ
  count_keys p row [] = 0
  count_keys p row (k ∷ ks) =
      let rest = count_keys p row ks in if test (p k) (row k) then suc rest else rest

  abbrev pub count_where : (ℕ → A → Bool) → Table A → ℕ
  count_where p t = count_keys p t.row t.keys

  -- SELECT 1 ... WHERE ... LIMIT 1.
  unfoldable pub exists_key : (ℕ → A → Bool) → (ℕ → Option A) → List ℕ → Bool
  exists_key p row [] = false
  exists_key p row (k ∷ ks) = if test (p k) (row k) then true else exists_key p row ks

  abbrev pub exists_where : (ℕ → A → Bool) → Table A → Bool
  exists_where p t = exists_key p t.row t.keys

  consider :
      (ℕ × A → ℕ × A → Bool) → (ℕ → A → Bool) → ℕ → Option A → Option (ℕ × A) → Option (ℕ × A)
  consider before p k none rest = rest
  consider before p k (some r) none = if p k r then some (k, r) else none
  consider before p k (some r) (some best) =
      if p k r then (if before best (k, r) then some best else some (k, r)) else some best

  -- SELECT ... WHERE ... ORDER BY ... LIMIT 1: the first row that no other row comes before.
  pub first_key : (ℕ × A → ℕ × A → Bool) → (ℕ → A → Bool) → (ℕ → Option A) → List ℕ → Option (ℕ × A)
  first_key before p row [] = none
  first_key before p row (k ∷ ks) = consider before p k (row k) (first_key before p row ks)

  unfoldable pub select_first : (ℕ × A → ℕ × A → Bool) → (ℕ → A → Bool) → Table A → Option (ℕ × A)
  unfolding first_key consider
  select_first before p t = first_key before p t.row t.keys

  insert_key : (ℕ × A → ℕ × A → Bool) → ℕ × A → List (ℕ × A) → List (ℕ × A)
  insert_key before x [] = x ∷ []
  insert_key before x (y ∷ ys) =
      let rest = insert_key before x ys in if before y x then y ∷ rest else x ∷ y ∷ ys

  add_row : (ℕ × A → ℕ × A → Bool) → (ℕ → A → Bool) → ℕ → Option A → List (ℕ × A) → List (ℕ × A)
  unfolding insert_key
  add_row before p k none rest = rest
  add_row before p k (some r) rest = if p k r then insert_key before (k, r) rest else rest

  sort_keys : (ℕ × A → ℕ × A → Bool) → (ℕ → A → Bool) → (ℕ → Option A) → List ℕ → List (ℕ × A)
  unfolding add_row
  sort_keys before p row [] = []
  sort_keys before p row (k ∷ ks) = add_row before p k (row k) (sort_keys before p row ks)

  -- SELECT ... WHERE ... ORDER BY ...
  unfoldable pub select_sorted : (ℕ × A → ℕ × A → Bool) → (ℕ → A → Bool) → Table A → List (ℕ × A)
  unfolding sort_keys
  select_sorted before p t = sort_keys before p t.row t.keys

-- UPDATE ... SET ... WHERE id=?.
abbrev pub update_row : {A : Type 0} → ℕ → (A → A) → Table A → Table A
update_row k f t = update_where (λ j _. j == k) f t
