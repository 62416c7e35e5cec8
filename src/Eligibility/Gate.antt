-- ===== src/Eligibility/Gate.antt =====
-- The gate in front of the normalisation: `eligible_raw_jobs` of `_normalize_source`.
use bisakerja_scraper.Prelude.{
  ◌≡◌, inl, inr, refl, String, Option, none, some, true, false, List, [], ◌∷◌, same_text,
  same_text_iff, Bool-cases, arith,
}
use bisakerja_scraper.Prelude.Text.{member}
use bisakerja_scraper.Models.{RawJob}
use bisakerja_scraper.Eligibility.{
  Scope, Decisions, decide, key_of, see, is_eligible, upsert, resolve_from, resolve_for_raw_jobs,
  keep_eligible, eligible_raw_jobs,
}
use bisakerja_scraper.Eligibility.Decision.{IsNew, decide-IsNew}
use bisakerja_scraper.Eligibility.Rows.{AreDistinct, resolve_from-get}

-- Each job is new: to the backend, among the stored jobs, and after the jobs before it.
abbrev pub AllNew : Scope → List String → List RawJob → Type 0
AllNew s seen [] = Unit
AllNew s seen (raw_job ∷ rest) = IsNew s raw_job seen × AllNew s (see (key_of s raw_job) seen) rest

-- Every text of the first list is in the second one.
abbrev Within : List String → List String → Type 0
Within small big = (text : String) → member text big ≡ false → member text small ≡ false

IsNew-Within :
    (s : Scope) (raw_job : RawJob) (small big : List String)
    → Within small big
    → IsNew s raw_job big
    → IsNew s raw_job small
IsNew-Within s raw_job small big w new =
    let (key, e, absent) = new.0 in ((key, e, w key absent), new.1, new.2)

see-Within : (key : Option String) (seen : List String) → Within seen (see key seen)
see-Within none seen text h = h
see-Within (some key) seen text h = ground arith

see-member : (key : String) (seen : List String) → member key (see (some key) seen) ≡ true
see-member key seen = elim (Bool-cases (member key seen)) [
  | inl present ↦ rw (present, present) refl
  | inr absent ↦ let same = (same_text_iff key key).1 refl in ground arith
]

see-Within_both :
    (key : Option String) (small big : List String)
    → Within small big
    → Within (see key small) (see key big)
see-Within_both none small big w = w
see-Within_both (some key) small big w = λ text h. elim (Bool-cases (same_text text key)) [
  | inl same ↦
      let e = (same_text_iff text key).0 same in let present = see-member key big in absurd (cc)
  | inr other ↦ let absent = w text (see-Within (some key) big text h) in ground arith
]

AllNew-Within :
    (s : Scope) (small big : List String) (raw_jobs : List RawJob)
    → Within small big
    → AllNew s big raw_jobs
    → AllNew s small raw_jobs
AllNew-Within s small big [] w new = tt
AllNew-Within s small big (raw_job ∷ rest) w new = (
  IsNew-Within s raw_job small big w new.0,
  AllNew-Within s (see (key_of s raw_job) small) (see (key_of s raw_job) big) rest
      (see-Within_both (key_of s raw_job) small big w) new.1,
)

keep_eligible-AllNew :
    (s : Scope) (raw_jobs : List RawJob) (seen : List String) (table : Decisions)
    → AreDistinct raw_jobs
    → let (refs, table') = resolve_from s raw_jobs seen table in
      AllNew s seen (keep_eligible table' raw_jobs refs)
unfolding resolve_from keep_eligible
keep_eligible-AllNew s [] seen table d = tt
keep_eligible-AllNew s (raw_job ∷ rest) seen table d =
    let input = decide s raw_job seen in
    let read = resolve_from-get s raw_job rest seen table d.0 in
    let new =
      keep_eligible-AllNew s rest (see (key_of s raw_job) seen) (upsert s input table).1 d.1 in
    elim (Bool-cases (is_eligible input.reason)) [
      | inl eligible ↦ rw (read, eligible) (decide-IsNew s raw_job seen eligible, new)
      | inr rejected ↦
          rw (read, rejected)
            (AllNew-Within s seen (see (key_of s raw_job) seen) _
              (see-Within (key_of s raw_job) seen) new)
    ]

-- Among raw jobs with distinct identifiers, the gate passes to the normalisation only jobs that are
-- new: each has an identity, the backend has no job of that identity, no stored job that is looked up
-- has it, and no job that passes the gate before it has it.
pub eligible_raw_jobs-AllNew :
    (s : Scope) (table : Decisions)
    → AreDistinct s.raw_jobs
    → AllNew s [] (eligible_raw_jobs s table)
unfolding eligible_raw_jobs resolve_for_raw_jobs
eligible_raw_jobs-AllNew s table d = keep_eligible-AllNew s s.raw_jobs [] table d
