-- ===== src/Table/First.antt =====
-- The selected first row under an order: no row that passes the test comes before it.
use vgen.Table.{Table, first_key, consider, select_first}
use vgen.Table.Laws.{IsTable, mentions}
use vgen.Base.{
  [], ◌∷◌, ◌==◌, ◌&&◌, ◌≡◌, none, some, inl, inr, true, false, refl, arith, ℕ, Bool, Bool-cases,
  Option, not, Option-cases, List, test, ==→eq, ◌∙◌, subst, ap, is_some,
}

module _ {A : Type 0} (before : ℕ × A → ℕ × A → Bool) (p : ℕ → A → Bool)
    (asymmetric : (x y : ℕ × A) → before x y ≡ true → before y x ≡ false)
    (connected : (x y z : ℕ × A)
      → before x y ≡ false
      → before y z ≡ false
      → before x z ≡ false) where
  irreflexive : (x : ℕ × A) → before x x ≡ false
  irreflexive x = elim (Bool-cases (before x x)) [ inl e ↦ asymmetric x x e | inr e ↦ e ]

  -- The row at a key does not beat the candidate.
  abbrev loses : (ℕ → Option A) → Option (ℕ × A) → ℕ → Bool
  loses row none j = not (test (p j) (row j))
  loses row (some x) j = not (test (λ r. p j r && before (j, r) x) (row j))

  loses-later :
      (row : ℕ → Option A) (x y : ℕ × A) (j : ℕ)
      → before x y ≡ false
      → loses row (some x) j ≡ true
      → loses row (some y) j ≡ true
  loses-later row x y j e l = elim (Option-cases (row j)) [
    | inl n ↦ rw n
    | inr (r, s) ↦ elim (Bool-cases (before (j, r) x)) [
      | inl b ↦ ground arith
      | inr b ↦ rw (s, connected (j, r) x y b e) (ground arith)
    ]
  ]

  loses-consider :
      (row : ℕ → Option A) (k j : ℕ) (o : Option A) (rest : Option (ℕ × A))
      → loses row rest j ≡ true
      → loses row (consider before p k o rest) j ≡ true
  unfolding consider
  loses-consider row k j none rest l = l
  loses-consider row k j (some r) none l = elim (Bool-cases (p k r)) [
    | inl hit ↦ rw hit (ground arith)
    | inr miss ↦ rw miss l
  ]
  loses-consider row k j (some r) (some x) l = elim (Bool-cases (p k r)) [
    | inl hit ↦ elim (Bool-cases (before x (k, r))) [
      | inl first ↦ rw (hit, first) l
      | inr later ↦ rw (hit, later) (loses-later row x (k, r) j later l)
    ]
    | inr miss ↦ rw miss l
  ]

  loses-own :
      (row : ℕ → Option A) (k : ℕ) (o : Option A) (rest : Option (ℕ × A))
      → row k ≡ o
      → loses row (consider before p k o rest) k ≡ true
  unfolding consider
  loses-own row k none none e = rw e
  loses-own row k none (some x) e = rw e
  loses-own row k (some r) none e = elim (Bool-cases (p k r)) [
    | inl hit ↦ rw (hit, e, irreflexive (k, r)) (ground arith)
    | inr miss ↦ rw (miss, e) (ground arith)
  ]
  loses-own row k (some r) (some x) e = elim (Bool-cases (p k r)) [
    | inl hit ↦ elim (Bool-cases (before x (k, r))) [
      | inl first ↦ rw (hit, first, e, asymmetric x (k, r) first) (ground arith)
      | inr later ↦ rw (hit, later, e, irreflexive (k, r)) (ground arith)
    ]
    | inr miss ↦ rw (miss, e) (ground arith)
  ]

  first_key-loses :
      (row : ℕ → Option A) (ks : List ℕ) (j : ℕ)
      → mentions j ks ≡ true
      → loses row (first_key before p row ks) j ≡ true
  unfolding first_key
  first_key-loses row [] j m = ground arith
  first_key-loses row (k ∷ ks) j m = elim (Bool-cases (j == k)) [
    | inl e ↦ rw (==→eq j k e) (loses-own row k (row k) (first_key before p row ks) refl)
    | inr e ↦
        loses-consider row k j (row k) (first_key before p row ks)
          (first_key-loses row ks j (ground arith))
  ]

  -- No row of the table that passes the test comes before the selected one.
  pub select_first_least :
      (t : Table A) (k : ℕ) (r : A) (j : ℕ) (q : A)
      → IsTable t
      → select_first before p t ≡ some (k, r)
      → t.row j ≡ some q
      → p j q ≡ true
      → before (j, q) (k, r) ≡ false
  unfolding select_first
  select_first_least t k r j q h e row hit =
      let s : loses t.row (some (k, r)) j ≡ true =
        subst (λ o. loses t.row o j ≡ true) e
          (first_key-loses t.row t.keys j (h.listed j ∙ ap is_some row)) in
      ground arith

  -- Where none is selected, no row passes the test.
  pub select_first-none :
      (t : Table A) (j : ℕ) (q : A)
      → IsTable t
      → select_first before p t ≡ none
      → t.row j ≡ some q
      → p j q ≡ false
  unfolding select_first
  select_first-none t j q h e row =
      let s : loses t.row none j ≡ true =
        subst (λ o. loses t.row o j ≡ true) e
          (first_key-loses t.row t.keys j (h.listed j ∙ ap is_some row)) in
      ground arith
