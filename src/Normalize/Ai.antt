-- ===== src/Normalize/Ai.antt =====
-- src/integrations/ai/openai_client.py: `normalize_jobs`, with the exceptions of the SDK and the check of the
-- answer by `validate_ai_normalization_batch_output` in src/modules/jobs/ai_normalization.py. The SDK's
-- call, the schema check, and the defaults and policy of an item are parameters; metrics are left out.
pub mod Answer
use bisakerja_scraper.Prelude.{
  ℕ, String, Option, none, some, Bool, true, false, not, ◌&&◌, ◌||◌, List, [], ◌∷◌, leb, ◌>>=◌,
  if◌then◌else◌, same_text, map,
}
use bisakerja_scraper.Prelude.Json.{Json, Fields, truthy}
use bisakerja_scraper.Models.{RawJob}
use bisakerja_scraper.Persistence.{CanonicalJob}
use bisakerja_scraper.Normalize.{Raised, scraper_error, Mapped}

pub record AiBatchItemResult : Type 0 where
  pub item_id : String
  pub normalized_job : Option CanonicalJob
  pub error_code : Option String
  pub error_message : Option String

-- What the SDK's call raises, an exception that the client does not handle by its class, and what it
-- returns: a message without a parsed answer, or an answer that is in the schema.
pub data SdkReply : Type 0 where
  authentication_error timeout_error rate_limit_error connection_error : SdkReply
  status_error : (status_code : ℕ) → SdkReply
  unexpected_error : (class_name : String) (retryable : Bool) → SdkReply
  no_parsed_answer : SdkReply
  answer : List AiBatchItemResult → SdkReply

-- What the pipeline reads of an exception: an `OpenAINormalizationError`'s class attributes, or the name
-- of the class.
pub record AiFailure : Type 0 where
  pub code : String
  pub retryable : Bool

abbrev pub invalid_response : AiFailure
invalid_response = record { code = "OPENAI_INVALID_RESPONSE"; retryable = false }

abbrev provider_unavailable : AiFailure
provider_unavailable = record { code = "OPENAI_PROVIDER_UNAVAILABLE"; retryable = true }

pub data AiOutcome : Type 0 where
  results : List AiBatchItemResult → AiOutcome
  ai_raised : AiFailure → AiOutcome

-- The client and the prompts: what the SDK's call does for a batch; `_apply_defaults` of an item with
-- `_validate_source_policy`, none when that raises; whether a raw job has a payload for a prompt; how a
-- client without `normalize_jobs` maps a raw job; and how often the insertion of a raw job's log row
-- meets an OperationalError.
pub record Ai : Type 0 where
  pub batch_size : ℕ
  pub has_normalize_jobs : Bool
  pub parse : List RawJob → SdkReply
  pub with_defaults : RawJob → CanonicalJob → Option CanonicalJob
  pub has_prompt : RawJob → Bool
  pub map_with_ai : RawJob → Mapped
  pub log_errors : RawJob → ℕ

-- `actual_ids != expected_ids`, of the prompt's items, which carry their raw jobs' identifiers.
unfoldable pub same_ids : List RawJob → List AiBatchItemResult → Bool
same_ids [] [] = true
same_ids [] (item ∷ items) = false
same_ids (raw_job ∷ raw_jobs) [] = false
same_ids (raw_job ∷ raw_jobs) (item ∷ items) =
    let rest = same_ids raw_jobs items in same_text item.item_id raw_job.id && rest

abbrev pub with_job : AiBatchItemResult → Option CanonicalJob → Option AiBatchItemResult
with_job item none = none
with_job item (some job) = some (record item { normalized_job = some job })

abbrev pub validate_item :
    Ai → RawJob → AiBatchItemResult → Option CanonicalJob → Option AiBatchItemResult
validate_item ai raw_job item none = some item
validate_item ai raw_job item (some job) = with_job item (ai.with_defaults raw_job job)

-- The loop over the pairs of prompt item and result.
unfoldable pub validate_items :
    Ai → List RawJob → List AiBatchItemResult → Option (List AiBatchItemResult)
validate_items ai [] items = some []
validate_items ai (raw_job ∷ raw_jobs) [] = some []
validate_items ai (raw_job ∷ raw_jobs) (item ∷ items) = do
  validated ← validate_item ai raw_job item item.normalized_job
  rest ← validate_items ai raw_jobs items
  some (validated ∷ rest)

-- `validate_ai_normalization_batch_output`; none is an AINormalizationContractError.
unfoldable pub validate_batch :
    Ai → List RawJob → List AiBatchItemResult → Option (List AiBatchItemResult)
validate_batch ai raw_jobs items =
    if same_ids raw_jobs items then validate_items ai raw_jobs items else none

abbrev pub outcome_of : Option (List AiBatchItemResult) → AiOutcome
outcome_of none = ai_raised invalid_response
outcome_of (some items) = results items

abbrev pub on_sdk_reply : Ai → List RawJob → SdkReply → AiOutcome
on_sdk_reply ai raw_jobs authentication_error =
    ai_raised (record { code = "OPENAI_AUTH_ERROR"; retryable = false })
on_sdk_reply ai raw_jobs timeout_error =
    ai_raised (record { code = "OPENAI_TIMEOUT"; retryable = true })
on_sdk_reply ai raw_jobs rate_limit_error =
    ai_raised (record { code = "OPENAI_RATE_LIMIT"; retryable = true })
on_sdk_reply ai raw_jobs connection_error = ai_raised provider_unavailable
on_sdk_reply ai raw_jobs (status_error status_code) =
    ai_raised (if leb 500 status_code then provider_unavailable else invalid_response)
on_sdk_reply ai raw_jobs (unexpected_error class_name retryable) =
    ai_raised (record { code = class_name; retryable = retryable })
on_sdk_reply ai raw_jobs no_parsed_answer = ai_raised invalid_response
on_sdk_reply ai raw_jobs (answer items) = outcome_of (validate_batch ai raw_jobs items)

unfoldable pub normalize_jobs : Ai → List RawJob → AiOutcome
normalize_jobs ai raw_jobs = on_sdk_reply ai raw_jobs (ai.parse raw_jobs)

abbrev error_details : (code : String) → Fields
error_details code =
    Fields.field "error" (Json.str code)
      (Fields.field "source_field_path" (Json.str "raw_payload") Fields.end)

-- `normalize_error_from_ai_exception`
pub normalize_error_from_ai_exception : (external_id : String) → AiFailure → Raised
normalize_error_from_ai_exception external_id e =
    scraper_error "NORMALIZE_ERROR" "AI normalization failed" (some external_id) e.retryable
      (error_details e.code)

abbrev or_default : Option String → (default : String) → String
or_default none default = default
or_default (some text) default = if truthy text then text else default

pub normalize_error_from_batch_item :
    (external_id : String) (error_code error_message : Option String) → Raised
normalize_error_from_batch_item external_id error_code error_message =
    scraper_error "NORMALIZE_ERROR"
      (or_default error_message "AI normalization batch returned partial error") (some external_id)
      false (error_details (or_default error_code "NORMALIZE_PARTIAL_ERROR"))
