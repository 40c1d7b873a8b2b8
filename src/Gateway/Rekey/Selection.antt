-- ===== src/Gateway/Rekey/Selection.antt =====
-- What the selection of a worker gives: `first_match` over the first rows of a sorted SELECT
-- (src/vgen/gateway/repository.py).
use vgen.Gateway.Rekey.{first_match, take, Worker}
use vgen.Table.{Table, select_sorted}
use vgen.Table.Select.{select_sorted_sound}
use vgen.Base.{
  [], ◌∷◌, ◌≡◌, none, some, inl, inr, true, zero, suc, ℕ, Bool, List, Option, subst, All,
  Bool-cases,
}

module _ (P : ℕ × Worker → Type 0) (matches : ℕ → Worker → Bool) where
  take-All : (n : ℕ) (xs : List (ℕ × Worker)) → All P xs → All P (take n xs)
  unfolding take
  take-All zero xs all = tt
  take-All (suc n) [] all = tt
  take-All (suc n) (x ∷ xs) all = (all.0, take-All n xs all.1)

  abbrev Holds : Option (ℕ × Worker) → Type 0
  Holds none = Unit
  Holds (some x) = P x × (matches x.0 x.1 ≡ true)

  first_match-Holds : (xs : List (ℕ × Worker)) → All P xs → Holds (first_match matches xs)
  unfolding first_match
  first_match-Holds [] all = tt
  first_match-Holds ((k, w) ∷ rest) all = elim (Bool-cases (matches k w)) [
    | inl hit ↦ rw hit (all.0, hit)
    | inr miss ↦ rw miss (first_match-Holds rest all.1)
  ]

-- The chosen worker is a row of the table that passes the test and matches.
pub first_match_sound :
    (matches : ℕ → Worker → Bool) (before : ℕ × Worker → ℕ × Worker → Bool) (p : ℕ → Worker → Bool)
    (t : Table Worker) (x : ℕ × Worker)
    → first_match matches (take 50 (select_sorted before p t)) ≡ some x
    → ((t.row x.0 ≡ some x.1) × (p x.0 x.1 ≡ true)) × (matches x.0 x.1 ≡ true)
first_match_sound matches before p t x e = subst (Holds IsFit matches) e (
    first_match-Holds IsFit matches _
      (take-All IsFit matches 50 _ (select_sorted_sound before p t)))
  where
    IsFit : ℕ × Worker → Type 0
    IsFit y = (t.row y.0 ≡ some y.1) × (p y.0 y.1 ≡ true)
