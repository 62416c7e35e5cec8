-- ===== src/Http/Client/Tests.antt =====
-- The client and its rate limiter on concrete sequences.
use bisakerja_scraper.Prelude.{
  ℕ, ◌+◌, ◌≡◌, refl, none, some, false, List, [], ◌∷◌, arith, ltb, if◌then◌else◌, ◌*◌,
}
use bisakerja_scraper.Prelude.Json.{Json, Fields}
use bisakerja_scraper.Http.RateLimit.Tests.{opened}
use bisakerja_scraper.Http.Client.{
  HttpClientConfig, Decoders, Exchange, Session, Answer, Loaded, Outcome, read_bounded,
  request_json, request_json_once, request_text, request_text_once, request_bytes_once, receive,
  attempts_from, record_request_error, backoff,
}
use bisakerja_scraper.Http.Client.Body.{read_bounded_lem}
use bisakerja_scraper.Http.Client.Retry.{Settles, request-Settles}
use bisakerja_scraper.Http.Client.Starvation.{
  IsBlocked, AllFail, session_after, request_json-starved,
}

abbrev config : HttpClientConfig
config = record { max_retries = 2; max_response_bytes = 10; retry_backoff_seconds = 200000 }

-- Every body decodes to an empty object, and to no text.
abbrev decoders : Decoders
decoders = record {
  loads = λ b. Loaded.document (Json.obj Fields.end);
  decode = λ b. none;
  preview = λ b. b;
}

-- The first attempt times out, and the others succeed.
abbrev flaky : ℕ → Exchange
flaky n = record {
  asked_at = n * 1000000;
  answer =
      if ltb n 2 then Answer.timeout "ReadTimeout" else Answer.response 200 false ((1 ∷ []) ∷ []);
  failed_at = n * 1000000 + 500;
}

abbrev every : ℕ → Exchange
every time = record {
  asked_at = time;
  answer = Answer.response 200 false ((1 ∷ []) ∷ []);
  failed_at = time;
}

abbrev unlimited : Session
unlimited = record { limiter = none; sent = 0; slept = [] }

abbrev blocked : Session
blocked = record { limiter = some opened; sent = 0; slept = [] }

second_try : (request_json config decoders flaky unlimited).0 ≡ Outcome.value Fields.end
unfolding request_json request_json_once request_bytes_once receive read_bounded attempts_from
    record_request_error backoff
second_try = refl

read_bounded_lem_example :
    read_bounded 2 0 [] ((1 ∷ 2 ∷ []) ∷ (3 ∷ []) ∷ [])
    ≡ (if ltb 2 3 then none else some (1 ∷ 2 ∷ 3 ∷ []))
read_bounded_lem_example = read_bounded_lem 2 ((1 ∷ 2 ∷ []) ∷ (3 ∷ []) ∷ [])

request-Settles_example :
    Settles
      (request_json_once config decoders)
      config
      flaky
      3
      1
      unlimited
      (request_json config decoders flaky unlimited).0
    × Settles
        (request_text_once config decoders)
        config
        flaky
        3
        1
        unlimited
        (request_text config decoders flaky unlimited).0
request-Settles_example = request-Settles config decoders flaky unlimited

blocked-IsBlocked : IsBlocked 30000000 1000000 blocked
blocked-IsBlocked = record {
  limiter = opened;
  has_limiter = refl;
  is_open = refl;
  opened_at = refl;
  over_threshold = omega arith;
  cools_for = refl;
}

abbrev no_retries : HttpClientConfig
no_retries = record config { max_retries = 0 }

-- A call every 20 seconds, each of which fails at once; the cooldown is 30 seconds.
abbrev calls : List Exchange
calls = every 20000000 ∷ every 40000000 ∷ every 60000000 ∷ []

request_json-starved_example :
    AllFail no_retries decoders calls blocked
    × ((session_after no_retries decoders calls blocked).sent ≡ 0)
request_json-starved_example =
    request_json-starved no_retries decoders 30000000 1000000 calls blocked refl (omega arith)
      blocked-IsBlocked
