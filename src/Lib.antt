-- ===== src/Lib.antt =====
-- The scraper's verification library: its stage queue, its HTTP client with rate limiting, its outbox
-- towards the backend, and the rules that decide which jobs are normalised and kept.
--
-- The program scrapes job listings, stores raw and normalised rows, and sends them to a backend. The
-- stage queue (src/modules/queue) dispatches work; the HTTP client (src/shared/http) fetches the
-- sources under a rate limit and a circuit breaker; the sync worker (src/modules/sync) builds a payload
-- for each eligible job, keeps one outbox event per job and payload, and sends the payloads in chunks.
-- Each live source (src/cli/pipeline.py) asks for page after page until it has enough new jobs or a reason
-- to stop. Before a raw job is normalised, the eligibility resolver (src/modules/eligibility) decides whether
-- it is new, and the pipeline (src/jobs/pipeline.py) maps the new ones only, alone or in batches that an AI
-- client answers (src/integrations/ai), stores what succeeds (src/modules/persistence) and quarantines what
-- fails (src/modules/quarantine); deduplication and the freshness sweep keep the stored jobs in order, and
-- each stage run is a row that the run tracker closes. The jobs that the backend took are handed on to its
-- notifications (src/modules/notifications). Both go through clients (src/integrations/backend), of which
-- the first one repeats transient failures.
--
-- Files and code:
--   Prelude            shared names, lists, tests, JSON values and texts
--   Models             src/modules/persistence/models.py, src/modules/jobs/schemas.py
--   Queue              src/modules/queue/jobs.py and worker.py: enqueue, claim_next, complete, fail,
--                      process_next_stage_job; Rows, Invariant, Claim, Progress prove about them
--   Http.RateLimit     src/shared/http/rate_limit.py: wait_before_request, record_success,
--                      record_failure, backoff_delay; Spacing, Breaker, Backoff
--   Http.Client        src/shared/http/client.py: _read_bounded, _request_bytes_once,
--                      _request_json_once, request_json, request_text; Body, Retry, Starvation
--   Sync.Events        src/modules/sync/events.py: find_event, prepare_event, attach_chunk_metadata,
--                      record_success, record_failure, is_retryable_event, scrape_scope_run_id;
--                      Unique, Changes, Keeps
--   Sync.Worker        src/modules/sync/worker.py: _list_backend_payload_candidates, _sync_chunk,
--                      sync_eligible_jobs; Chunk, Total, Limits, Requests, Capped, Candidates,
--                      Sent
--   Freshness          src/modules/freshness/service.py: FreshnessPolicy, sweep_source; Rows, Counts, Again
--   Eligibility        src/modules/eligibility/resolver.py: resolve_for_raw_jobs, _upsert, and the filter of
--                      _normalize_source in src/jobs/pipeline.py; Decision, Rows, Gate, Size
--   Dedup              src/modules/deduplication/engine.py: resolve_source_identity,
--                      make_fallback_fingerprint, evaluate, _duplicate_reason; History, Identity
--   Runs               src/modules/runs/tracker.py, and merge_source_results and _finish_stage_run of
--                      src/jobs/pipeline.py; Merge
--   Scheduler          src/jobs/scheduler.py: ManualTriggerGuard.run, in steps; Guard
--   Scrape             src/cli/pipeline.py: the fetchers of the five live sources, dedupe_new_jobs,
--                      stop_reason_from_exception, LivePipelineSource.fetch_raw_jobs; Sources has what
--                      differs between the sources; Loop, Sound, Limit, Challenge
--   Persistence        src/modules/persistence/repositories.py: upsert_raw_job, upsert_normalized_job,
--                      write_job, list_jobs; Identity, Columns, Write, Pages; Prelude.Upsert has the shared upsert
--   Quarantine         src/modules/quarantine/repository.py; Resolve, Rows
--   Normalize          src/jobs/pipeline.py: _normalize_source without an AI client; Counts, Handled, Lost
--   Handoff            src/modules/notifications/handoff.py: the repository; Worker has
--                      handoff_synced_jobs; Chunked, Sent, Requests, Kept; Prelude.Chunks cuts the chunks
--   Normalize.Ai       src/integrations/ai/openai_client.py: normalize_jobs, and
--                      src/modules/jobs/ai_normalization.py: validate_ai_normalization_batch_output; Answer
--   Normalize.Batch    src/jobs/pipeline.py: _normalize_source with an AI client; Steps, Calls, Sound
--   Normalize.Lookup   src/jobs/pipeline.py: _lookup_backend_identities, and the gate it leads to
--   Normalize.Run      src/jobs/pipeline.py: run_normalize over the sources; Closed
--   Backend            src/integrations/backend/client.py and notifications.py: sync_payload with its
--                      retries, summarize_response, send_candidates; Retry
--
-- Conventions. A table is a list of rows, and a row's reference is its position: no operation
-- deletes a row. A session is two copies of the tables, as it sees them and as the last commit left
-- them. Times are whole microseconds, and the clock's readings are arguments; a part of the code
-- that reads the clock twice in a row is given one reading. Counters and sizes are natural numbers,
-- so a test on a negative number has no case. The pauses between batches and the progress lines are
-- left out. SHA-256 with json.dumps, str.strip and str.lower, the markup cleaning of shared/text,
-- the decoders, the network's answers and the payload builder are parameters of the definitions that
-- use them, with no assumption.
--
-- Fuel. The outer loop of sync_eligible_jobs has one more round than there are jobs, and the inner one
-- too: a round of the outer loop takes at least one job, and a round of the inner one at least halves
-- the chunk down to the minimum. The result type names the case without fuel, which does not come about.
-- A list is cut into chunks with its length as fuel, since a chunk of a positive size takes at least one
-- value.
--
-- Not modelled: HTML and date parsing, prompts, the web API, settings, the command line's arguments and
-- output, and migrations, which are text work or glue over libraries; nor the enrichment service, the
-- salary and field rules, the backend's payloads and its identity lookup, the adapters of the sources,
-- the stages of a run in one process, the rows of the AI log, the cron configuration and the daemon.
mod Prelude
pub mod Models
pub mod Queue
pub mod Http
pub mod Sync
pub mod Freshness
pub mod Eligibility
pub mod Dedup
pub mod Runs
pub mod Scheduler
pub mod Scrape
pub mod Persistence
pub mod Quarantine
pub mod Normalize
pub mod Handoff
pub mod Backend
