-- ===== src/Prelude/Upsert.antt =====
-- The `select ... where` that an upsert begins with, and its two ways to write: a changed row or a new one.
use mathlib.Core.Option
use mathlib.Core.Path.{◌≡◌, refl, ap}
use mathlib.Core.Logic.{◌⊎◌, inl, inr}
use mathlib.Core.Bool.{Bool, true, false}
use mathlib.Core.Option.{Option, none, some}
use mathlib.Core.List.{List, [], ◌∷◌, ◌++◌}
use Prim.Native.Nat.{ℕ, zero, suc, ◌≤◌}
use native.Mathlib.Omega.{arith}
use bisakerja_scraper.Prelude.Tests.{if◌then◌else◌, Bool-cases, Option-cases}
use bisakerja_scraper.Prelude.Lists.{length, get_elem?, modify, keep}

abbrev pub is_nil {ℓ} : {A : Type ℓ} → List A → Bool
is_nil [] = true
is_nil (x ∷ xs) = false

abbrev pub changed_or_new {ℓ} : {A : Type ℓ} → A → (A → A) → List A → List A
changed_or_new new change [] = new ∷ []
changed_or_new new change (x ∷ xs) = change x ∷ []

abbrev pub first {ℓ} : {A : Type ℓ} → List A → Option A
first [] = none
first (x ∷ xs) = some x

get_elem?-append_last {ℓ} :
    {A : Type ℓ} (xs : List A) (x : A) → get_elem? (xs ++ x ∷ []) (length xs) ≡ some x
get_elem?-append_last [] x = refl
get_elem?-append_last (y ∷ xs) x = get_elem?-append_last xs x

nil_of_length {ℓ} : {A : Type ℓ} (xs : List A) → length xs ≤ 0 → xs ≡ []
nil_of_length [] h = refl
nil_of_length (x ∷ xs) h = absurd (omega arith)

abbrev pub write_at {ℓ} : {A : Type ℓ} → Option ℕ → A → (A → A) → List A → ℕ × Bool × List A
write_at none new change table = (length table, true, table ++ new ∷ [])
write_at (some i) new change table = (i, false, modify table i change)

module _ {A : Type 0} (is : A → Bool) where
  -- The reference of the first row that fits.
  unfoldable pub find_where : List A → Option ℕ
  find_where [] = none
  find_where (x ∷ xs) = let rest = Option.map suc (find_where xs) in if is x then some 0 else rest

  -- The row's reference, whether it is new, and the table.
  unfoldable pub upsert_where : A → (A → A) → List A → ℕ × Bool × List A
  upsert_where new change table = write_at (find_where table) new change table

  find_where-nil : find_where [] ≡ none
  unfolding find_where
  find_where-nil = refl

  find_where-head : (x : A) (xs : List A) → is x ≡ true → find_where (x ∷ xs) ≡ some 0
  unfolding find_where
  find_where-head x xs h = rw h refl

  find_where-tail :
      (x : A) (xs : List A) → is x ≡ false → find_where (x ∷ xs) ≡ Option.map suc (find_where xs)
  unfolding find_where
  find_where-tail x xs h = rw h refl

  -- What the upsert makes of the table, row by row.
  abbrev pub upserted : A → (A → A) → List A → List A
  upserted new change [] = new ∷ []
  upserted new change (x ∷ xs) =
      let rest = upserted new change xs in if is x then change x ∷ xs else x ∷ rest

  pub upsert_where-table :
      (new : A) (change : A → A) (table : List A)
      → (upsert_where new change table).2 ≡ upserted new change table
  unfolding upsert_where
  upsert_where-table new change [] = rw find_where-nil refl
  upsert_where-table new change (x ∷ xs) = elim (Bool-cases (is x)) [
    | inl fits ↦ rw (find_where-head x xs fits, fits) refl
    | inr other ↦
        let ih = upsert_where-table new change xs in
        rw (find_where-tail x xs other, other)
          (elim (Option-cases (find_where xs)) [
            | inl missing ↦ rw missing (ap (λ rest. x ∷ rest) (rw missing at ih))
            | inr (i, found) ↦ rw found (ap (λ rest. x ∷ rest) (rw found at ih))
          ])
  ]

  -- Whether the row is new.
  pub upsert_where-created :
      (new : A) (change : A → A) (table : List A)
      → (upsert_where new change table).1 ≡ is_nil (keep is table)
  unfolding upsert_where
  upsert_where-created new change [] = rw find_where-nil refl
  upsert_where-created new change (x ∷ xs) = elim (Bool-cases (is x)) [
    | inl fits ↦ rw (find_where-head x xs fits, fits) refl
    | inr other ↦
        let ih = upsert_where-created new change xs in
        rw (find_where-tail x xs other, other)
          (elim (Option-cases (find_where xs)) [
            | inl missing ↦ rw missing (rw missing at ih)
            | inr (i, found) ↦ rw found (rw found at ih)
          ])
  ]

  -- The reference leads to the row that is written.
  pub upsert_where-get :
      (new : A) (change : A → A) (table : List A)
      → get_elem? (upsert_where new change table).2 (upsert_where new change table).0
        ≡ first (changed_or_new new change (keep is table))
  unfolding upsert_where
  upsert_where-get new change [] = rw find_where-nil refl
  upsert_where-get new change (x ∷ xs) = elim (Bool-cases (is x)) [
    | inl fits ↦ rw (find_where-head x xs fits, fits) refl
    | inr other ↦
        let ih = upsert_where-get new change xs in
        rw (find_where-tail x xs other, other)
          (elim (Option-cases (find_where xs)) [
            | inl missing ↦ rw missing (rw missing at ih)
            | inr (i, found) ↦ rw found (rw found at ih)
          ])
  ]

  -- The rows of a table whose fitting row is at most one: afterwards there is exactly one, the changed
  -- row or the new one.
  pub keep-upserted :
      (new : A) (change : A → A) (table : List A)
      → is new ≡ true
      → ((x : A) → is x ≡ true → is (change x) ≡ true)
      → length (keep is table) ≤ 1
      → keep is (upserted new change table) ≡ changed_or_new new change (keep is table)
  keep-upserted new change [] n c u = rw n refl
  keep-upserted new change (x ∷ xs) n c u = elim (Bool-cases (is x)) [
    | inl fits ↦
        rw (fits, c x fits)
          (ap (λ rest. change x ∷ rest) (nil_of_length (keep is xs) (omega (arith, rw fits at u))))
    | inr other ↦ rw (other, other) (keep-upserted new change xs n c (rw other at u))
  ]

  -- Rows that another test selects are kept, if neither the new row nor a changed one passes it.
  pub keep-upserted_other :
      (q : A → Bool) (new : A) (change : A → A) (table : List A)
      → q new ≡ false
      → ((x : A) → is x ≡ true → (q x ≡ false) × (q (change x) ≡ false))
      → keep q (upserted new change table) ≡ keep q table
  keep-upserted_other q new change [] n c = rw n refl
  keep-upserted_other q new change (x ∷ xs) n c = elim (Bool-cases (is x)) [
    | inl fits ↦ let (old, changed) = c x fits in rw (fits, old, changed) refl
    | inr other ↦ let ih = keep-upserted_other q new change xs n c in rw other (rw ih refl)
  ]

  -- A change that keeps the test's value, and a new row, take no row away.
  pub keep-upserted_grows :
      (q : A → Bool) (new : A) (change : A → A) (table : List A)
      → ((x : A) → q (change x) ≡ q x)
      → length (keep q table) ≤ length (keep q (upserted new change table))
  keep-upserted_grows q new change [] same = omega arith
  keep-upserted_grows q new change (x ∷ xs) same =
      ground (arith, keep-upserted_grows q new change xs same, same x)

  pub keep-upserted_some :
      (new : A) (change : A → A) (table : List A)
      → is new ≡ true
      → ((x : A) → is (change x) ≡ is x)
      → 1 ≤ length (keep is (upserted new change table))
  keep-upserted_some new change [] n same = ground arith
  keep-upserted_some new change (x ∷ xs) n same =
      ground (arith, keep-upserted_some new change xs n same, same x)

  -- A row stays where it is, as it is or changed.
  pub upserted-get :
      (new : A) (change : A → A) (table : List A) (i : ℕ) (x : A)
      → get_elem? table i ≡ some x
      → (get_elem? (upserted new change table) i ≡ some x)
        ⊎ (get_elem? (upserted new change table) i ≡ some (change x))
  upserted-get new change [] i x e = absurd (cc)
  upserted-get new change (y ∷ ys) zero x e = elim (Bool-cases (is y)) [
    | inl fits ↦ rw fits (inr (ground arith))
    | inr other ↦ rw other (inl e)
  ]
  upserted-get new change (y ∷ ys) (suc i) x e = elim (Bool-cases (is y)) [
    | inl fits ↦ rw fits (inl e)
    | inr other ↦ rw other (upserted-get new change ys i x e)
  ]
