-- ===== src/Eligibility.antt =====
-- src/modules/eligibility/resolver.py: the decision for each raw job of a batch, and its row in
-- `normalization_eligibility_decisions`. A row's reference is its position in the table.
pub mod Decision
pub mod Rows
pub mod Gate
pub mod Size
mod Tests
use mathlib.Core.Option
use bisakerja_scraper.Prelude.{
  ℕ, suc, String, Option, none, some, Bool, true, false, not, ◌&&◌, List, [], ◌∷◌, ◌++◌, ltb, leb,
  if◌then◌else◌, same_text, length, modify, keep, map, get_elem?,
}
use bisakerja_scraper.Prelude.Json.{Json, Fields, get_field, truthy}
use bisakerja_scraper.Prelude.Text.{join_text, member}
use bisakerja_scraper.Models.{NormalizedJob, RawJob}
use bisakerja_scraper.Sync.Events.{
  SyncEvent, SyncEventStatus, pending, sent, failed, dead_letter, Events, backend,
}

pub data EligibilityDecisionReason : Type 0 where
  normalization_eligible duplicate_in_scrape_scope existing_backend existing_normalized_synced
        existing_normalized_unsynced missing_identity identity_conflict reprocess_required :
      EligibilityDecisionReason

pub record EligibilityDecisionInput : Type 0 where
  pub raw_job : RawJob
  pub reason : EligibilityDecisionReason
  pub identity_key : Option String
  pub identity_hash : Option String
  pub payload_hash : Option String
  pub backend_job_id : Option String
  pub normalized_job_id : Option String
  pub normalized_sync_state : Option SyncEventStatus
  pub reason_details : Fields

-- `str.strip` and `str.lower`, which follow the tables of Unicode, and the two hashes.
pub record Texts : Type 0 where
  pub strip : String → String
  pub lower : String → String
  pub sha256 : String → String
  pub stable_payload_hash : Json → String

-- The arguments of `resolve_for_raw_jobs` and the tables that it reads.
pub record Scope : Type 0 where
  pub texts : Texts
  pub scrape_run_id : String
  pub raw_jobs : List RawJob
  pub backend_existing : String → String → Option Fields
  pub allow_reprocess : Bool
  pub max_sync_attempts : ℕ
  pub normalized_jobs : List NormalizedJob
  pub sync_events : Events

abbrev pub normalize_key : Texts → String → String
normalize_key t value = t.lower (t.strip value)

abbrev pub identity_key_from : (source_platform external_id : String) → Option String
identity_key_from source_platform external_id =
    if truthy source_platform && truthy external_id
    then some (join_text source_platform (join_text ":" external_id))
    else none

abbrev pub stable_identity_hash : Texts → Option String → Option String
stable_identity_hash t none = none
stable_identity_hash t (some key) = some (t.sha256 key)

abbrev pub hash_differs : Option String → String → Bool
hash_differs none hash = false
hash_differs (some raw) hash = not (same_text raw hash)

pub payload_changed : Texts → RawJob → NormalizedJob → Bool
payload_changed t raw_job normalized =
    hash_differs raw_job.payload_hash (t.stable_payload_hash normalized.normalized_payload)

abbrev pub string_or_none : Texts → Option Json → Option String
string_or_none t (some (Json.str value)) = if truthy (t.strip value) then some value else none
string_or_none t _ = none

-- `normalize_key` of the two columns of a raw job.
abbrev pub source_key : Scope → RawJob → String
source_key s raw_job = normalize_key s.texts raw_job.source_platform

abbrev pub external_key : Scope → RawJob → String
external_key s raw_job = normalize_key s.texts raw_job.external_id

-- The `where` of `_normalized_by_identity`.
pub selected : Scope → NormalizedJob → Bool
selected s row =
    member row.source_platform (keep truthy (map (source_key s) s.raw_jobs))
    && member row.external_id (keep truthy (map (external_key s) s.raw_jobs))

abbrev has_identity : Scope → (source_platform external_id : String) → NormalizedJob → Bool
has_identity s source_platform external_id row =
    same_text (normalize_key s.texts row.source_platform) source_platform
    && same_text (normalize_key s.texts row.external_id) external_id

abbrev pub or_else {ℓ} : {A : Type ℓ} → Option A → Option A → Option A
or_else none other = other
or_else (some a) other = some a

-- `normalized_by_identity.get((source_platform, external_id))`: a later row replaces an earlier one.
pub find_normalized :
    Scope → (source_platform external_id : String) → List NormalizedJob → Option NormalizedJob
find_normalized s source_platform external_id [] = none
find_normalized s source_platform external_id (row ∷ rows) =
    or_else (find_normalized s source_platform external_id rows)
      (if selected s row && has_identity s source_platform external_id row then some row else none)

-- The later of two attempts; of two at the same time, the row that was inserted later, where the
-- code's order takes the greater of two random identifiers.
abbrev pub later_event : SyncEvent → Option SyncEvent → Option SyncEvent
later_event event none = some event
later_event event (some other) =
    if leb event.attempted_at other.attempted_at then some other else some event

-- `_latest_sync_state_by_normalized_id(...).get(normalized_id)`, as the whole event.
pub latest_event : String → Events → Option SyncEvent
latest_event normalized_id [] = none
latest_event normalized_id (event ∷ events) =
    let rest = latest_event normalized_id events in
    if same_text event.target backend && same_text event.normalized_job_id normalized_id
    then later_event event rest
    else rest

-- `sync_state_attempt_count`: the map keeps no counts, so a failed event counts for one.
abbrev pub sync_state_attempt_count : SyncEventStatus → ℕ
sync_state_attempt_count failed = 1
sync_state_attempt_count _ = 0

abbrev pub stored_reason : Scope → RawJob → NormalizedJob → EligibilityDecisionReason
stored_reason s raw_job normalized =
    if s.allow_reprocess && payload_changed s.texts raw_job normalized
    then reprocess_required
    else existing_normalized_synced

abbrev pub sync_reason :
    Scope → RawJob → NormalizedJob → SyncEventStatus → EligibilityDecisionReason
sync_reason s raw_job normalized sent = stored_reason s raw_job normalized
sync_reason s raw_job normalized failed =
    if ltb (sync_state_attempt_count failed) s.max_sync_attempts
    then existing_normalized_unsynced
    else identity_conflict
sync_reason s raw_job normalized pending = existing_normalized_unsynced
sync_reason s raw_job normalized dead_letter = existing_normalized_unsynced

abbrev detail : (key text : String) → Fields → Fields
detail key text rest = Fields.field key (Json.str text) rest

abbrev base : Scope → RawJob → EligibilityDecisionReason → EligibilityDecisionInput
base s raw_job reason =
    let key = identity_key_from (source_key s raw_job) (external_key s raw_job) in
    record {
      raw_job = raw_job;
      reason = reason;
      identity_key = key;
      identity_hash = stable_identity_hash s.texts key;
      payload_hash = raw_job.payload_hash;
      backend_job_id = none;
      normalized_job_id = none;
      normalized_sync_state = none;
      reason_details = Fields.end;
    }

abbrev synced_decision :
    Scope → RawJob → NormalizedJob → Option SyncEvent → EligibilityDecisionInput
synced_decision s raw_job normalized none =
    record (base s raw_job (stored_reason s raw_job normalized)) {
      normalized_job_id = some normalized.id;
      reason_details = detail "normalizedLookup" "match" (detail "syncState" "none" Fields.end);
    }
synced_decision s raw_job normalized (some event) =
    record (base s raw_job (sync_reason s raw_job normalized event.status)) {
      normalized_job_id = some normalized.id;
      normalized_sync_state = some event.status;
      reason_details = detail "normalizedLookup" "match" Fields.end;
    }

abbrev stored_decision : Scope → RawJob → Option NormalizedJob → EligibilityDecisionInput
stored_decision s raw_job none = record (base s raw_job normalization_eligible) {
  reason_details = detail "backendLookup" "miss" (detail "normalizedLookup" "miss" Fields.end);
}
stored_decision s raw_job (some normalized) =
    synced_decision s raw_job normalized (latest_event normalized.id s.sync_events)

abbrev backend_decision : Scope → RawJob → Option Fields → EligibilityDecisionInput
backend_decision s raw_job (some hit) = record (base s raw_job existing_backend) {
  backend_job_id = string_or_none s.texts (get_field "jobId" hit);
  reason_details = detail "backendLookup" "match" Fields.end;
}
backend_decision s raw_job none =
    stored_decision s raw_job
      (find_normalized s (source_key s raw_job) (external_key s raw_job) s.normalized_jobs)

abbrev keyed_decision : Scope → RawJob → List String → Option String → EligibilityDecisionInput
keyed_decision s raw_job seen none = record (base s raw_job missing_identity) {
  reason_details = detail "reason" "source platform or external id is missing" Fields.end;
}
keyed_decision s raw_job seen (some key) =
    if member key seen
    then base s raw_job duplicate_in_scrape_scope
    else backend_decision s raw_job
        (s.backend_existing (source_key s raw_job) (external_key s raw_job))

-- `identity_key` in the loop.
abbrev pub key_of : Scope → RawJob → Option String
key_of s raw_job = identity_key_from (source_key s raw_job) (external_key s raw_job)

-- The body of the loop up to the call of `_upsert`.
pub decide : Scope → RawJob → (seen_in_scope : List String) → EligibilityDecisionInput
decide s raw_job seen = keyed_decision s raw_job seen (key_of s raw_job)

-- `seen_in_scope.add(identity_key)`, which an earlier `continue` skips.
abbrev pub see : Option String → List String → List String
see none seen = seen
see (some key) seen = if member key seen then seen else key ∷ seen

pub record NormalizationEligibilityDecision : Type 0 where
  pub scrape_run_id : String
  pub raw_job_id : String
  pub source_platform : String
  pub external_id : String
  pub identity_key : Option String
  pub identity_hash : Option String
  pub payload_hash : Option String
  pub decision : EligibilityDecisionReason
  pub backend_job_id : Option String
  pub normalized_job_id : Option String
  pub normalized_sync_state : Option SyncEventStatus
  pub reason_details : Fields

abbrev pub Decisions : Type 0
Decisions = List NormalizationEligibilityDecision

-- `values` in `_upsert`: every column of the row but its identifier and times.
abbrev pub values_of : String → EligibilityDecisionInput → NormalizationEligibilityDecision
values_of scrape_run_id input = record {
  scrape_run_id = scrape_run_id;
  raw_job_id = input.raw_job.id;
  source_platform = input.raw_job.source_platform;
  external_id = input.raw_job.external_id;
  identity_key = input.identity_key;
  identity_hash = input.identity_hash;
  payload_hash = input.payload_hash;
  decision = input.reason;
  backend_job_id = input.backend_job_id;
  normalized_job_id = input.normalized_job_id;
  normalized_sync_state = input.normalized_sync_state;
  reason_details = input.reason_details;
}

-- The `select` of `_upsert`: the reference of the first row of the raw job.
pub find_decision : (raw_job_id : String) → Decisions → Option ℕ
find_decision raw_job_id [] = none
find_decision raw_job_id (row ∷ rows) =
    let rest = Option.map suc (find_decision raw_job_id rows) in
    if same_text row.raw_job_id raw_job_id then some 0 else rest

abbrev pub write_at : Option ℕ → NormalizationEligibilityDecision → Decisions → ℕ × Decisions
write_at none values table = (length table, table ++ values ∷ [])
write_at (some i) values table = (i, modify table i (λ _. values))

-- `_upsert`: the row's reference and the table.
pub upsert : Scope → EligibilityDecisionInput → Decisions → ℕ × Decisions
upsert s input table =
    write_at (find_decision input.raw_job.id table) (values_of s.scrape_run_id input) table

-- The loop of `resolve_for_raw_jobs`: the references that it returns, and the table.
pub resolve_from :
    Scope → List RawJob → (seen_in_scope : List String) → Decisions → List ℕ × Decisions
resolve_from s [] seen table = ([], table)
resolve_from s (raw_job ∷ rest) seen table =
    let (i, table') = upsert s (decide s raw_job seen) table in
    let (refs, table'') = resolve_from s rest (see (key_of s raw_job) seen) table' in
    (i ∷ refs, table'')

pub resolve_for_raw_jobs : Scope → Decisions → List ℕ × Decisions
resolve_for_raw_jobs s table = resolve_from s s.raw_jobs [] table

abbrev pub is_eligible : EligibilityDecisionReason → Bool
is_eligible normalization_eligible = true
is_eligible _ = false

abbrev pub row_is_eligible : Option NormalizationEligibilityDecision → Bool
row_is_eligible none = false
row_is_eligible (some row) = is_eligible row.decision

-- `eligible_raw_jobs` of `_normalize_source` in src/jobs/pipeline.py: the decisions are read after all
-- of them are made.
pub keep_eligible : Decisions → List RawJob → List ℕ → List RawJob
keep_eligible table [] refs = []
keep_eligible table (raw_job ∷ rest) [] = []
keep_eligible table (raw_job ∷ rest) (i ∷ refs) =
    let rest' = keep_eligible table rest refs in
    if row_is_eligible (get_elem? table i) then raw_job ∷ rest' else rest'

pub eligible_raw_jobs : Scope → Decisions → List RawJob
eligible_raw_jobs s table =
    let (refs, table') = resolve_for_raw_jobs s table in keep_eligible table' s.raw_jobs refs
