-- ===== src/Normalize/Ai/Answer.antt =====
-- An answer that passes the check has one item for each raw job of the prompt, in their order.
use bisakerja_scraper.Prelude.{
  ◌≡◌, refl, Option, none, some, true, List, [], ◌∷◌, arith, Bool-cases, Option-cases, inl, inr,
}
use bisakerja_scraper.Models.{RawJob}
use bisakerja_scraper.Persistence.{CanonicalJob}
use bisakerja_scraper.Normalize.Ai.{
  Ai, AiBatchItemResult, AiOutcome, results, ai_raised, SdkReply, authentication_error,
  timeout_error, rate_limit_error, connection_error, status_error, unexpected_error,
  no_parsed_answer, answer, same_ids, with_job, validate_item, validate_items, validate_batch,
  outcome_of, on_sdk_reply, normalize_jobs,
}

abbrev SameIds : List RawJob → Option (List AiBatchItemResult) → Type 0
SameIds prompt none = Unit
SameIds prompt (some items) = same_ids prompt items ≡ true

-- The results of a call are the prompt's.
abbrev pub Answers : List RawJob → AiOutcome → Type 0
Answers prompt (ai_raised e) = Unit
Answers prompt (results items) = same_ids prompt items ≡ true

abbrev SameId : AiBatchItemResult → Option AiBatchItemResult → Type 0
SameId item none = Unit
SameId item (some validated) = validated.item_id ≡ item.item_id

with_job-SameId :
    (item : AiBatchItemResult) (job : Option CanonicalJob) → SameId item (with_job item job)
with_job-SameId item none = tt
with_job-SameId item (some job) = refl

validate_item-SameId :
    (ai : Ai) (raw_job : RawJob) (item : AiBatchItemResult) (job : Option CanonicalJob)
    → SameId item (validate_item ai raw_job item job)
validate_item-SameId ai raw_job item none = refl
validate_item-SameId ai raw_job item (some job) =
    with_job-SameId item (ai.with_defaults raw_job job)

validate_items-SameIds :
    (ai : Ai) (prompt : List RawJob) (items : List AiBatchItemResult)
    → same_ids prompt items ≡ true
    → SameIds prompt (validate_items ai prompt items)
unfolding validate_items same_ids
validate_items-SameIds ai [] items h = refl
validate_items-SameIds ai (raw_job ∷ prompt) [] h = absurd (cc)
validate_items-SameIds ai (raw_job ∷ prompt) (item ∷ items) h =
    let one = validate_item-SameId ai raw_job item item.normalized_job in
    elim (Option-cases (validate_item ai raw_job item item.normalized_job)) [
      | inl refused ↦ rw refused tt
      | inr (validated, e) ↦
          let rest = validate_items-SameIds ai prompt items (ground arith) in
          let same = rw e at one in
          elim (Option-cases (validate_items ai prompt items)) [
            | inl refused ↦ rw (e, refused) tt
            | inr (others, f) ↦ let rest' = rw f at rest in rw (e, f) (rw same (ground arith))
          ]
    ]

validate_batch-Answers :
    (ai : Ai) (prompt : List RawJob) (items : List AiBatchItemResult)
    → Answers prompt (outcome_of (validate_batch ai prompt items))
unfolding validate_batch
validate_batch-Answers ai prompt items = elim (Bool-cases (same_ids prompt items)) [
  | inl same ↦
      let kept = validate_items-SameIds ai prompt items same in
      elim (Option-cases (validate_items ai prompt items)) [
        | inl refused ↦ rw (same, refused) tt
        | inr (validated, e) ↦ rw (same, e) (rw e at kept)
      ]
  | inr other ↦ rw other tt
]

on_sdk_reply-Answers :
    (ai : Ai) (prompt : List RawJob) (reply : SdkReply)
    → Answers prompt (on_sdk_reply ai prompt reply)
on_sdk_reply-Answers ai prompt authentication_error = tt
on_sdk_reply-Answers ai prompt timeout_error = tt
on_sdk_reply-Answers ai prompt rate_limit_error = tt
on_sdk_reply-Answers ai prompt connection_error = tt
on_sdk_reply-Answers ai prompt (status_error status_code) = tt
on_sdk_reply-Answers ai prompt (unexpected_error class_name retryable) = tt
on_sdk_reply-Answers ai prompt no_parsed_answer = tt
on_sdk_reply-Answers ai prompt (answer items) = validate_batch-Answers ai prompt items

pub normalize_jobs-Answers :
    (ai : Ai) (prompt : List RawJob) → Answers prompt (normalize_jobs ai prompt)
unfolding normalize_jobs
normalize_jobs-Answers ai prompt = on_sdk_reply-Answers ai prompt (ai.parse prompt)
