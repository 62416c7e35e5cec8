-- ===== src/Eligibility/Rows.antt =====
-- The rows that `EligibilityResolver._upsert` writes, and that later calls keep.
use bisakerja_scraper.Prelude.{
  ℕ, zero, suc, ◌≡◌, inl, inr, refl, String, some, true, false, List, [], ◌∷◌, ◌++◌, Option-cases,
  arith, map, length, modify, get_elem?, same_text,
}
use bisakerja_scraper.Prelude.Text.{member}
use bisakerja_scraper.Models.{RawJob}
use bisakerja_scraper.Eligibility.{
  Scope, EligibilityDecisionInput, NormalizationEligibilityDecision, Decisions, decide, key_of, see,
  find_decision, upsert, resolve_from, values_of,
}

get_elem?-append_last :
    {A : Type 0} (xs : List A) (x : A) → get_elem? (xs ++ x ∷ []) (length xs) ≡ some x
get_elem?-append_last [] x = refl
get_elem?-append_last (y ∷ xs) x = get_elem?-append_last xs x

get_elem?-append_left :
    {A : Type 0} (xs ys : List A) (i : ℕ) (x : A)
    → get_elem? xs i ≡ some x
    → get_elem? (xs ++ ys) i ≡ some x
get_elem?-append_left [] ys i x e = absurd (cc)
get_elem?-append_left (y ∷ xs) ys zero x e = e
get_elem?-append_left (y ∷ xs) ys (suc i) x e = get_elem?-append_left xs ys i x e

module _ (id : String) (head : NormalizationEligibilityDecision) (table : Decisions) where
  find_decision-head :
      find_decision id (head ∷ table) ≡ some 0 → same_text head.raw_job_id id ≡ true
  unfolding find_decision
  find_decision-head e = elim (Option-cases (find_decision id table)) [
    | inl missing ↦ ground arith
    | inr (i, found) ↦ ground arith
  ]

  find_decision-tail :
      (i : ℕ) → find_decision id (head ∷ table) ≡ some (suc i) → find_decision id table ≡ some i
  unfolding find_decision
  find_decision-tail i e = elim (Option-cases (find_decision id table)) [
    | inl missing ↦ ground arith
    | inr (j, found) ↦ ground arith
  ]

-- A row that is found and replaced is read back.
replaced :
    (id : String) (table : Decisions) (i : ℕ) (values : NormalizationEligibilityDecision)
    → find_decision id table ≡ some i
    → get_elem? (modify table i (λ _. values)) i ≡ some values
unfolding find_decision
replaced id [] i values e = absurd (cc)
replaced id (head ∷ table) zero values e = refl
replaced id (head ∷ table) (suc i) values e =
    replaced id table i values (find_decision-tail id head table i e)

-- The row of another raw job is not replaced.
not_replaced :
    (id : String) (table : Decisions) (i j : ℕ) (values row : NormalizationEligibilityDecision)
    → find_decision id table ≡ some i
    → same_text row.raw_job_id id ≡ false
    → get_elem? table j ≡ some row
    → get_elem? (modify table i (λ _. values)) j ≡ some row
not_replaced id [] i j values row e other g = g
not_replaced id (head ∷ table) zero zero values row e other g =
    let same = find_decision-head id head table e in absurd (grind arith)
not_replaced id (head ∷ table) zero (suc j) values row e other g = g
not_replaced id (head ∷ table) (suc i) zero values row e other g = g
not_replaced id (head ∷ table) (suc i) (suc j) values row e other g =
    not_replaced id table i j values row (find_decision-tail id head table i e) other g

module _ (s : Scope) (input : EligibilityDecisionInput) (table : Decisions) where
  upsert-get :
      get_elem? (upsert s input table).1 (upsert s input table).0
      ≡ some (values_of s.scrape_run_id input)
  unfolding upsert
  upsert-get = elim (Option-cases (find_decision input.raw_job.id table)) [
    | inl missing ↦ rw missing (get_elem?-append_last table _)
    | inr (i, found) ↦ rw found (replaced input.raw_job.id table i _ found)
  ]

  upsert-keeps :
      (j : ℕ) (row : NormalizationEligibilityDecision)
      → same_text row.raw_job_id input.raw_job.id ≡ false
      → get_elem? table j ≡ some row
      → get_elem? (upsert s input table).1 j ≡ some row
  unfolding upsert
  upsert-keeps j row other g = elim (Option-cases (find_decision input.raw_job.id table)) [
    | inl missing ↦ rw missing (get_elem?-append_left table _ j row g)
    | inr (i, found) ↦ rw found (not_replaced input.raw_job.id table i j _ row found other g)
  ]

abbrev pub ids : List RawJob → List String
ids raw_jobs = map (λ raw_job. raw_job.id) raw_jobs

-- `raw_jobs.id` is a primary key.
abbrev pub AreDistinct : List RawJob → Type 0
AreDistinct [] = Unit
AreDistinct (raw_job ∷ rest) = (member raw_job.id (ids rest) ≡ false) × AreDistinct rest

decide-raw_job :
    (s : Scope) (raw_job : RawJob) (seen : List String) → (decide s raw_job seen).raw_job ≡ raw_job
unfolding decide
decide-raw_job s raw_job seen = ground arith

-- The loop keeps the row of a raw job that it does not meet.
resolve_from-keeps :
    (s : Scope) (raw_jobs : List RawJob) (seen : List String) (table : Decisions) (j : ℕ)
    (row : NormalizationEligibilityDecision)
    → member row.raw_job_id (ids raw_jobs) ≡ false
    → get_elem? table j ≡ some row
    → get_elem? (resolve_from s raw_jobs seen table).1 j ≡ some row
unfolding resolve_from
resolve_from-keeps s [] seen table j row other g = g
resolve_from-keeps s (raw_job ∷ rest) seen table j row other g =
    let input = decide s raw_job seen in
    resolve_from-keeps s rest (see (key_of s raw_job) seen) (upsert s input table).1 j row
      (ground arith)
      (upsert-keeps s input table j row (rw (decide-raw_job s raw_job seen) (ground arith)) g)

-- After the loop, the reference returned for its first raw job leads to the row of its decision.
pub resolve_from-get :
    (s : Scope) (raw_job : RawJob) (rest : List RawJob) (seen : List String) (table : Decisions)
    → member raw_job.id (ids rest) ≡ false
    → let (i, table') = upsert s (decide s raw_job seen) table in
      get_elem? (resolve_from s rest (see (key_of s raw_job) seen) table').1 i
      ≡ some (values_of s.scrape_run_id (decide s raw_job seen))
resolve_from-get s raw_job rest seen table other =
    let input = decide s raw_job seen in
    resolve_from-keeps s rest (see (key_of s raw_job) seen) (upsert s input table).1
      (upsert s input table).0 (values_of s.scrape_run_id input)
      (rw (decide-raw_job s raw_job seen) other) (upsert-get s input table)
