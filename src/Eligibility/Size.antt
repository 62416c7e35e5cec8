-- ===== src/Eligibility/Size.antt =====
-- The gate passes no more raw jobs than it is given, none twice, and no other one.
use bisakerja_scraper.Prelude.{
  ℕ, ◌≤◌, List, [], ◌∷◌, length, All, get_elem?, ◌≡◌, refl, String, false, Bool-cases, inl, inr,
  arith,
}
use bisakerja_scraper.Prelude.Text.{member}
use bisakerja_scraper.Models.{RawJob}
use bisakerja_scraper.Eligibility.Rows.{ids, AreDistinct}
use bisakerja_scraper.Eligibility.{
  Scope, Decisions, keep_eligible, row_is_eligible, eligible_raw_jobs, resolve_for_raw_jobs,
}

keep_eligible-size :
    (table : Decisions) (raw_jobs : List RawJob) (refs : List ℕ)
    → length (keep_eligible table raw_jobs refs) ≤ length raw_jobs
unfolding keep_eligible
keep_eligible-size table [] refs = omega arith
keep_eligible-size table (raw_job ∷ rest) [] = omega arith
keep_eligible-size table (raw_job ∷ rest) (i ∷ refs) =
    ground (arith, keep_eligible-size table rest refs)

pub eligible_raw_jobs-size :
    (s : Scope) (table : Decisions) → length (eligible_raw_jobs s table) ≤ length s.raw_jobs
unfolding eligible_raw_jobs
eligible_raw_jobs-size s table =
    let (refs, table') = resolve_for_raw_jobs s table in keep_eligible-size table' s.raw_jobs refs

keep_eligible-member :
    (table : Decisions) (raw_jobs : List RawJob) (refs : List ℕ) (id : String)
    → member id (ids raw_jobs) ≡ false
    → member id (ids (keep_eligible table raw_jobs refs)) ≡ false
unfolding keep_eligible
keep_eligible-member table [] refs id h = refl
keep_eligible-member table (raw_job ∷ rest) [] id h = refl
keep_eligible-member table (raw_job ∷ rest) (i ∷ refs) id h =
    let ih = keep_eligible-member table rest refs id in ground (arith, ih)

keep_eligible-AreDistinct :
    (table : Decisions) (raw_jobs : List RawJob) (refs : List ℕ)
    → AreDistinct raw_jobs
    → AreDistinct (keep_eligible table raw_jobs refs)
unfolding keep_eligible
keep_eligible-AreDistinct table [] refs d = tt
keep_eligible-AreDistinct table (raw_job ∷ rest) [] d = tt
keep_eligible-AreDistinct table (raw_job ∷ rest) (i ∷ refs) d =
    let ih = keep_eligible-AreDistinct table rest refs d.1 in
    elim (Bool-cases (row_is_eligible (get_elem? table i))) [
      | inl eligible ↦ rw eligible (keep_eligible-member table rest refs raw_job.id d.0, ih)
      | inr held ↦ rw held ih
    ]

pub eligible_raw_jobs-AreDistinct :
    (s : Scope) (table : Decisions)
    → AreDistinct s.raw_jobs
    → AreDistinct (eligible_raw_jobs s table)
unfolding eligible_raw_jobs
eligible_raw_jobs-AreDistinct s table d =
    let (refs, table') = resolve_for_raw_jobs s table in
    keep_eligible-AreDistinct table' s.raw_jobs refs d

module _ (P : RawJob → Type 0) where
  keep_eligible-All :
      (table : Decisions) (raw_jobs : List RawJob) (refs : List ℕ)
      → All P raw_jobs
      → All P (keep_eligible table raw_jobs refs)
  unfolding keep_eligible
  keep_eligible-All table [] refs h = tt
  keep_eligible-All table (raw_job ∷ rest) [] h = tt
  keep_eligible-All table (raw_job ∷ rest) (i ∷ refs) h =
      let ih = keep_eligible-All table rest refs h.1 in
      elim (Bool-cases (row_is_eligible (get_elem? table i))) [
        | inl eligible ↦ rw eligible (h.0, ih)
        | inr held ↦ rw held ih
      ]

  pub eligible_raw_jobs-All :
      (s : Scope) (table : Decisions) → All P s.raw_jobs → All P (eligible_raw_jobs s table)
  unfolding eligible_raw_jobs
  eligible_raw_jobs-All s table h =
      let (refs, table') = resolve_for_raw_jobs s table in
      keep_eligible-All table' s.raw_jobs refs h
