-- ===== src/Backend.antt =====
-- src/integrations/backend/client.py and notifications.py: the clients that post to the backend. The
-- transport, the decoding of a body and the decimal digits of a number are parameters.
pub mod Retry
mod Tests
use bisakerja_scraper.Prelude.{
  ℕ, zero, suc, ◌+◌, ◌/◌, String, Option, none, some, Bool, true, false, ◌&&◌, ◌||◌, ltb, leb, ◌==◌,
  if◌then◌else◌,
}
use bisakerja_scraper.Prelude.Json.{Json, Items, Fields, get_field}
use bisakerja_scraper.Prelude.Text.{join_text}
use bisakerja_scraper.Runs.{put}
use bisakerja_scraper.Sync.Worker.{Reply, accepted, client_error, server_error}
use bisakerja_scraper.Handoff.Worker.{HandoffReply, success, raised}

-- What a post does: an httpx.HTTPError, or a response with its decoded body, if it has one.
pub data PostReply : Type 0 where
  transport_failed : PostReply
  response : (status_code : ℕ) (body : Option Json) → PostReply

abbrev body_fields : Option Json → Option Fields
body_fields (some (Json.obj fields)) = some fields
body_fields _ = none

-- `summary[key] = body[key]`, of a key that is in the body.
abbrev copy_key : (key : String) → Option Json → Fields → Fields
copy_key key none summary = summary
copy_key key (some value) summary = put key value summary

abbrev or_null : Option Json → Json
or_null none = Json.null
or_null (some value) = value

-- `{"path": item.get("path"), ...}`
abbrev error_detail : Fields → Json
error_detail item = Json.obj (
    Fields.field "path" (or_null (get_field "path" item)) (
      Fields.field "code" (or_null (get_field "code" item))
        (Fields.field "message" (or_null (get_field "message" item)) Fields.end)))

-- The dicts among the first details.
pub error_details : (first : ℕ) → Items → Items
error_details zero details = Items.nil
error_details (suc first) Items.nil = Items.nil
error_details (suc first) (Items.cons (Json.obj item) details) =
    Items.cons (error_detail item) (error_details first details)
error_details (suc first) (Items.cons item details) = error_details first details

abbrev with_details : Option Json → Fields → Fields
with_details (some (Json.arr details)) summary =
    put "validationErrors" (Json.arr (error_details 10 details)) summary
with_details _ summary = summary

abbrev with_code : Fields → Fields → Fields
with_code error summary = put "errorCode" (or_null (get_field "code" error)) summary

-- `error`, of which the sync client also summarises the details.
abbrev with_error : (detailed : Bool) → Option Json → Fields → Fields
with_error detailed (some (Json.obj error)) summary =
    let coded = with_code error summary in
    if detailed then with_details (get_field "details" error) coded else coded
with_error detailed _ summary = summary

abbrev with_body : (detailed : Bool) → Option Fields → Fields → Fields
with_body detailed none summary = summary
with_body detailed (some body) summary = with_error detailed (get_field "error" body) (
    copy_key "code" (get_field "code" body) (
      copy_key "message" (get_field "message" body)
        (copy_key "success" (get_field "success" body) summary)))

-- `summarize_response` of both modules; that of notifications.py is not detailed.
pub summarize_response :
    (decimal : ℕ → String) (detailed : Bool) (status_code : ℕ) (body : Option Json) → Fields
summarize_response decimal detailed status_code body = with_body detailed (body_fields body) (
    Fields.field "statusCode" (Json.num status_code) (
      Fields.field "statusClass" (Json.str (join_text (decimal (status_code / 100)) "xx"))
        Fields.end))

abbrev pub is_retryable_status : ℕ → Bool
is_retryable_status status_code =
    status_code == 429
    || status_code == 500
    || status_code == 502
    || status_code == 503
    || status_code == 504

abbrev pub is_success : ℕ → Bool
is_success status_code = leb 200 status_code && ltb status_code 300

pub record BackendSyncClient : Type 0 where
  pub decimal : ℕ → String
  pub path : String
  pub max_retries : ℕ
  pub post : (attempt : ℕ) → Json → PostReply

abbrev pub summary_of : BackendSyncClient → ℕ → Option Json → Fields
summary_of c status_code body =
    put "endpointPath" (Json.str c.path) (summarize_response c.decimal true status_code body)

-- `_post`
pub post_reply : BackendSyncClient → PostReply → Reply
post_reply c transport_failed = server_error none "backend sync transport failed" Fields.end
post_reply c (response status_code body) =
    let summary = summary_of c status_code body in
    if is_success status_code
    then accepted status_code summary
    else (if is_retryable_status status_code
        then server_error (some status_code) "backend sync retryable failure" summary
        else client_error status_code "backend sync rejected payload" summary)

-- The `except` clauses around a post: a result or a rejection ends the loop, with the number of posts.
abbrev pub after_post : Reply → (posts : ℕ) → (next : Reply × ℕ) → Reply × ℕ
after_post (accepted status_code summary) posts next = (accepted status_code summary, posts)
after_post (client_error status_code message summary) posts next =
    (client_error status_code message summary, posts)
after_post (server_error status_code message summary) posts next = next

-- The loop of `sync_payload` on the attempts that are left after this one: what it returns or raises, and
-- how often it posted. The last attempt raises, so the lines after the loop are never reached.
pub sync_attempts : BackendSyncClient → Json → (left attempt : ℕ) → Reply × ℕ
sync_attempts c payload zero attempt = (post_reply c (c.post attempt payload), attempt + 1)
sync_attempts c payload (suc left) attempt =
    after_post (post_reply c (c.post attempt payload)) (attempt + 1)
      (sync_attempts c payload left (attempt + 1))

pub sync_payload : BackendSyncClient → Json → Reply × ℕ
sync_payload c payload = sync_attempts c payload c.max_retries 0

-- `send_candidates` of `BackendNotificationHandoffClient`, which posts once.
pub send_candidates : (decimal : ℕ → String) (path : String) → PostReply → HandoffReply
send_candidates decimal path transport_failed =
    raised "BackendNotificationHandoffError" "notification handoff transport failed"
      (some Fields.end)
send_candidates decimal path (response status_code body) =
    let summary =
      put "endpointPath" (Json.str path) (summarize_response decimal false status_code body) in
    if is_success status_code
    then success summary
    else raised "BackendNotificationHandoffError" "notification handoff failed" (some summary)
