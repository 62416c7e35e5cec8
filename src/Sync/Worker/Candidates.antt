-- ===== src/Sync/Worker/Candidates.antt =====
-- Which jobs are attempted.
use bisakerja_scraper.Prelude.{
  ℕ, zero, suc, ◌+◌, ◌<◌, ◌≡◌, true, false, List, [], ◌∷◌, ◌++◌, arith, length, take, keep, leb,
  length-append, Bool-cases, inl, inr, if◌then◌else◌,
}
use mathlib.Core.List.{append_assoc, append-nil}
use bisakerja_scraper.Models.{NormalizedJob}
use bisakerja_scraper.Sync.Events.{Events}
use bisakerja_scraper.Sync.Worker.{Outside, is_candidate, candidates_from}

module _ (out : Outside) (max_attempts : ℕ) (events : Events) where
  abbrev wanted : List NormalizedJob → List NormalizedJob
  wanted jobs = keep (λ job. is_candidate out max_attempts job events) jobs

  -- The rest of the loop, when the list has grown by a job.
  grown :
      (limit room : ℕ) (job : NormalizedJob) (jobs found : List NormalizedJob)
      → length found + suc room ≡ limit
      → ((r : ℕ) (f : List NormalizedJob)
          → length f + suc r ≡ limit
          → candidates_from out max_attempts limit f jobs events ≡ f ++ take (suc r) (wanted jobs))
      → (if leb limit (length (found ++ job ∷ []))
          then found ++ job ∷ []
          else candidates_from out max_attempts limit (found ++ job ∷ []) jobs events)
        ≡ found ++ (job ∷ take room (wanted jobs))
  grown limit zero job jobs found e ih =
      let full : leb limit (length (found ++ job ∷ [])) ≡ true =
        ground (arith, length-append found (job ∷ [])) in
      rw full
  grown limit (suc room) job jobs found e ih =
      let go_on : leb limit (length (found ++ job ∷ [])) ≡ false =
        ground (arith, length-append found (job ∷ [])) in
      let size : length (found ++ job ∷ []) + suc room ≡ limit =
        omega (arith, length-append {0} found (job ∷ [])) in
      rw (go_on, ih room (found ++ job ∷ []) size, append_assoc)

  candidates_from-append :
      (limit room : ℕ) (jobs found : List NormalizedJob)
      → length found + suc room ≡ limit
      → candidates_from out max_attempts limit found jobs events
        ≡ found ++ take (suc room) (wanted jobs)
  unfolding candidates_from
  candidates_from-append limit room [] found h = rw append-nil
  candidates_from-append limit room (job ∷ jobs) found h =
      elim (Bool-cases (is_candidate out max_attempts job events)) [
        | inl new ↦
            rw new
              (grown limit room job jobs found h (λ r f e. candidates_from-append limit r jobs f e))
        | inr old ↦
            let go_on : leb limit (length found) ≡ false = ground arith in
            rw (old, go_on) (candidates_from-append limit room jobs found h)
      ]

-- With a positive limit, the candidates are the first `limit` of the eligible jobs that are
-- candidates, in the order in which they are listed. (With limit 0 the first eligible job is still
-- looked at.)
pub candidates_from-take :
    (out : Outside) (max_attempts limit : ℕ) (eligible : List NormalizedJob) (events : Events)
    → 0 < limit
    → candidates_from out max_attempts limit [] eligible events
      ≡ take limit (keep (λ job. is_candidate out max_attempts job events) eligible)
candidates_from-take out max_attempts (suc limit) eligible events h =
    candidates_from-append out max_attempts events (suc limit) limit eligible [] (omega arith)
candidates_from-take out max_attempts zero eligible events h = elim h [ ]
