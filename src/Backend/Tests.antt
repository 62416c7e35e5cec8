-- ===== src/Backend/Tests.antt =====
-- A backend that is busy twice and then answers, and one that rejects at once.
use bisakerja_scraper.Prelude.{
  ℕ, zero, suc, ◌+◌, ◌≤◌, ◌≡◌, ◌⊎◌, refl, Option, none, some, true, false,
}
use bisakerja_scraper.Prelude.Json.{Json, Items, Fields}
use bisakerja_scraper.Runs.{put}
use bisakerja_scraper.Sync.Worker.{Reply, accepted, client_error, server_error}
use bisakerja_scraper.Backend.{
  PostReply, transport_failed, response, BackendSyncClient, post_reply, sync_attempts, sync_payload,
  summarize_response, error_details,
}
use bisakerja_scraper.Backend.Retry.{is_transient, leading, sync_payload-leading}

abbrev replies : ℕ → Json → PostReply
replies zero payload = response 503 none
replies (suc zero) payload = transport_failed
replies (suc (suc attempt)) payload = response 202 none

abbrev client : (max_retries : ℕ) → BackendSyncClient
client max_retries = record {
  decimal = λ n. "2";
  path = "/api/v1/internal/scraper/jobs";
  max_retries = max_retries;
  post = replies;
}

abbrev status_and_posts : Reply × ℕ → Option ℕ × ℕ
status_and_posts (accepted status summary, posts) = (some status, posts)
status_and_posts (client_error status message summary, posts) = (some status, posts)
status_and_posts (server_error status message summary, posts) = (status, posts)

third_post : status_and_posts (sync_payload (client 3) Json.null) ≡ (some 202, 3)
unfolding sync_payload sync_attempts post_reply
third_post = refl

used_up : status_and_posts (sync_payload (client 1) Json.null) ≡ (none, 2)
unfolding sync_payload sync_attempts post_reply
used_up = refl

-- A rejection's body, of which the first ten details are looked at.
rejection_summary :
    summarize_response
      (λ n. "4")
      true
      422
      (some (
        Json.obj (
          Fields.field "success" (Json.bool false) (
            Fields.field "error"
              (Json.obj (
                Fields.field "code"
                  (Json.str "INVALID")
                  (Fields.field "details" (Json.arr (Items.cons Json.null Items.nil)) Fields.end)))
              Fields.end))))
    ≡ Fields.field "statusCode" (Json.num 422) (
        Fields.field "statusClass" (Json.str "4xx") (
          Fields.field "success" (Json.bool false) (
            Fields.field "errorCode"
              (Json.str "INVALID")
              (Fields.field "validationErrors" (Json.arr Items.nil) Fields.end))))
unfolding summarize_response error_details put
rejection_summary = refl

sync_payload-leading_example :
    let n = leading (λ i. is_transient ((client 3).post i Json.null)) 3 0 in
    (sync_payload (client 3) Json.null
      ≡ (post_reply (client 3) ((client 3).post n Json.null), n + 1))
    × (n ≤ 3)
    × ((is_transient ((client 3).post n Json.null) ≡ false) ⊎ (n ≡ 3))
sync_payload-leading_example = sync_payload-leading (client 3) Json.null
