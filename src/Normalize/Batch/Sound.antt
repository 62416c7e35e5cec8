-- ===== src/Normalize/Batch/Sound.antt =====
-- A source that is normalised in batches keeps its account.
use bisakerja_scraper.Prelude.{
  ℕ, ◌≤◌, ◌≡◌, refl, Option, none, some, Bool, true, false, List, [], ◌∷◌, if◌then◌else◌, length,
  length-append, All, All-append_parts, arith,
}
use bisakerja_scraper.Prelude.Chunks.{chunked, joined, chunked-joined}
use bisakerja_scraper.Models.{RawJob}
use bisakerja_scraper.Normalize.{Work, Stage, Progress, started, finished, Gate, pass, SourceResult}
use bisakerja_scraper.Normalize.Counts.{
  finished-IsAccounted, IsAccounted, normalize_source-IsAccounted,
}
use bisakerja_scraper.Normalize.Ai.{Ai, normalize_jobs}
use bisakerja_scraper.Normalize.Ai.Answer.{normalize_jobs-Answers}
use bisakerja_scraper.Normalize.Batch.Steps.{Copes, Settles, Advanced-trans, prepare-Prepares}
use bisakerja_scraper.Normalize.Batch.Calls.{single_requests-Settles, on_outcome-Settles}
use bisakerja_scraper.Normalize.Batch.{
  commit, on_outcome, single_requests, ask, normalize_batch, normalize_batches,
  normalize_source_with,
}

module _ (s : Stage) (ai : Ai) where
  either_Settles :
      (test : Bool) (n : ℕ) (p : Progress) (x y : Option Progress)
      → Settles n p x
      → Settles n p y
      → Settles n p (if test then x else y)
  either_Settles true n p x y h k = h
  either_Settles false n p x y h k = k

  ask-Settles :
      (prompt : List RawJob) (p : Progress)
      → All (Copes s ai) prompt
      → Settles (length prompt) p (ask s ai prompt p)
  ask-Settles [] p copes = (p, refl, (refl, omega arith, omega arith, refl))
  ask-Settles (raw_job ∷ rest) p copes =
      let prompt = raw_job ∷ rest in
      either_Settles ai.has_normalize_jobs (length prompt) p
        (on_outcome s ai prompt (normalize_jobs ai prompt) (commit p))
        (single_requests s ai prompt p)
        (on_outcome-Settles s ai prompt (normalize_jobs ai prompt) (commit p) copes
          (normalize_jobs-Answers ai prompt))
        (single_requests-Settles s ai prompt p copes)

  normalize_batch-Settles :
      (raw_batch : List RawJob) (p : Progress)
      → All (Copes s ai) raw_batch
      → Settles (length raw_batch) p (normalize_batch s ai raw_batch p)
  unfolding normalize_batch
  normalize_batch-Settles raw_batch p copes =
      let (prepared, settled, e, size, one, fits) = prepare-Prepares s ai raw_batch p copes in
      let (after, ok, all) = ask-Settles prepared.0 prepared.1 fits in
      (
        after,
        rw e ok,
        Advanced-trans s ai settled (length prepared.0) (length raw_batch) p prepared.1 after size
            one all,
      )

  normalize_batches-Settles :
      (batches : List (List RawJob)) (p : Progress)
      → All (Copes s ai) (joined batches)
      → Settles (length (joined batches)) p (normalize_batches s ai batches p)
  unfolding normalize_batches
  normalize_batches-Settles [] p copes = (p, refl, (refl, omega arith, omega arith, refl))
  normalize_batches-Settles (raw_batch ∷ rest) p copes =
      let (left, right) = All-append_parts (Copes s ai) raw_batch (joined rest) copes in
      let (next, e, one) = normalize_batch-Settles raw_batch (commit p) left in
      let (after, ok, all) = normalize_batches-Settles rest (commit next) right in
      let size = length-append raw_batch (joined rest) in
      (
        after,
        rw e ok,
        Advanced-trans s ai (length raw_batch) (length (joined rest))
            (length (joined (raw_batch ∷ rest))) p next after (omega (arith, size)) one all,
      )

-- Without an AI client nothing is asked of the database; with one, its batches have a positive size, and
-- for each raw job the upsert meets at most one OperationalError and the log none.
abbrev pub CopesWith : Stage → Option Ai → List RawJob → Type 0
CopesWith s none raw_jobs = Unit
CopesWith s (some ai) raw_jobs = (1 ≤ ai.batch_size) × All (Copes s ai) raw_jobs

-- Normalising a source keeps its account, with an AI client and without, whichever raw jobs the gate holds
-- back, whichever mappings fail, and whatever the AI answers: if with an AI client the batches have a
-- positive size and for no raw job that passes the gate the upsert fails twice or the log fails, then the stage
-- ends with a result, the counts of normalised and skipped raw jobs add up to those fetched, the persisted
-- and the parsed are the normalised ones, and the skipped are those held back and one for each error.
pub normalize_source_with-IsAccounted :
    (s : Stage) (ai : Option Ai) (gate : Gate) (raw_jobs : List RawJob) (work : Work)
    → CopesWith s ai (pass gate raw_jobs)
    → (outcome : SourceResult × Work) × (normalize_source_with s ai gate raw_jobs work
        ≡ some outcome)
      × IsAccounted gate raw_jobs outcome.0
unfolding normalize_source_with
normalize_source_with-IsAccounted s none gate raw_jobs work copes =
    (_, refl, normalize_source-IsAccounted s gate raw_jobs work)
normalize_source_with-IsAccounted s (some ai) gate raw_jobs work copes =
    let eligible = pass gate raw_jobs in
    let whole = chunked-joined ai.batch_size copes.0 eligible in
    let (after, ok, all) =
      normalize_batches-Settles s ai (chunked ai.batch_size eligible)
        (started raw_jobs eligible work) (rw whole copes.1) in
    (finished after, rw ok refl, finished-IsAccounted gate raw_jobs work after (rw whole at all))
