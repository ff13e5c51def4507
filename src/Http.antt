-- ===== src/Http.antt =====
-- packages/core/src/api/http-client.ts: one request with retries, timeout and normalised errors.
-- `fetch`, the parser of JSON and the jitter are parameters: `fetch n` is what the n-th attempt's
-- call comes to (a timeout is its rejection with an AbortError), `fetch_available` tells whether there
-- is a `fetch`, `body_string` what `JSON.stringify(args.body)` comes to, where a throw is an error and
-- an absent body is `none`, `json_parse` is `JSON.parse`, with
-- `none` for a throw, and `jitter n` is `Math.floor(random() * jitterMs)` before attempt n + 1.
-- The URL, the headers and the body that are sent do not depend on the attempt.
pub mod Errors
pub mod Loop
pub mod Spec
use dokhna_tech_zatca.Prelude.{
  ℕ, zero, suc, ◌+◌, ◌*◌, ◌^◌, Bool, true, false, ◌&&◌, ◌||◌, not, Option, none, some, List, [],
  ◌∷◌, ◌++◌, ltb, leb, eqb, if◌then◌else◌,
}
use dokhna_tech_zatca.Prelude.Eq.{◌==◌}
use dokhna_tech_zatca.Prelude.Text.{Text, text, text_eq, decimal}
use dokhna_tech_zatca.Prelude.Exec.{ok, err}
use dokhna_tech_zatca.Json.{Json, null, num, number_text, str, obj, get_field}
use dokhna_tech_zatca.Errors.{ZatcaError, message_of, api_error, plain_error, Result}

pub record RetryOptions : Type 0 where
  pub count : ℕ
  pub base_ms : ℕ
  pub jitter_ms : ℕ

unfoldable pub default_retry : RetryOptions
default_retry = record { count = 3; base_ms = 250; jitter_ms = 250 }

unfoldable pub default_timeout_ms : ℕ
default_timeout_ms = 30_000

-- `headers.get(name)`, and what `text()` comes to.
pub record Response : Type 0 where
  pub status : ℕ
  pub header : Text → Option Text
  pub body : Result Text

abbrev pub Outcome : Type 0
Outcome = Result Response

abbrev is_empty : Text → Bool
is_empty [] = true
is_empty (_ ∷ _) = false

-- The first header that is there and not empty.
unfoldable pub first_header : (Text → Option Text) → List Text → Option Text
first_header header [] = none
first_header header (name ∷ names) = elim (header name) [
  | none ↦ first_header header names
  | some value ↦ if is_empty value then first_header header names else some value
]

unfoldable pub header_candidates : List Text
header_candidates =
    text "x-request-id" ∷ text "x-requestid" ∷ text "request-id" ∷ text "dxaddress" ∷ []

-- `body[key]` where `undefined` and `null` fall through `??`.
abbrev nullish : Option Json → Option Json
nullish none = none
nullish (some null) = none
nullish (some v) = some v

abbrev coalesce : Option Json → Option Json → Option Json
coalesce none b = b
coalesce (some v) b = some v

abbrev id_text : Option Json → Option Text
id_text (some (str s)) = some s
id_text (some (num p parts)) = some (number_text p parts)
id_text _ = none

unfoldable pub body_request_id : Option Json → Option Text
body_request_id (some (obj fields)) = id_text (
    coalesce (nullish (get_field (text "requestID") fields)) (
      coalesce (nullish (get_field (text "requestId") fields))
        (get_field (text "request_id") fields)))
body_request_id _ = none

unfoldable pub extract_request_id : Response → Option Json → Option Text
extract_request_id response parsed = elim (first_header response.header header_candidates) [
  | some value ↦ some value
  | none ↦ body_request_id parsed
]

unfoldable pub extract_validation_results : Option Json → Option Json
extract_validation_results (some (obj fields)) = get_field (text "validationResults") fields
extract_validation_results _ = none

unfoldable pub success_statuses : ℕ → Bool
success_statuses status = eqb status 200 || eqb status 202

unfoldable pub is_retryable_status : ℕ → Bool
is_retryable_status status = leb 500 status && ltb status 600

-- The errors that a rejection of `fetch` or `text()` can be; `ZatcaApiError` is not one of them.
unfoldable pub is_retryable_error : ZatcaError → Bool
is_retryable_error (plain_error name status message) =
    name == text "TypeError" || name == text "AbortError"
is_retryable_error _ = false

unfoldable pub compute_backoff_ms : ℕ → RetryOptions → ℕ → ℕ
compute_backoff_ms attempt retries jitter = retries.base_ms * 2 ^ attempt + jitter

abbrev pub failure : ℕ → Text → ZatcaError
failure status message = api_error (record {
  message = message;
  status_code = status;
  validation_results = none;
  request_id = none;
  raw_response = none;
})

-- What the result and the trace of a request are: the delays that were slept, one for each retry.
pub record Reply : Type 0 where
  pub result : Result (Option Json)
  pub delays : List ℕ

abbrev pub stop : Result (Option Json) → Reply
stop r = record { result = r; delays = [] }

abbrev pub slept : ℕ → Reply → Reply
slept ms reply = record reply { delays = ms ∷ reply.delays }

-- A request's options and surroundings.
pub record HttpEnv : Type 0 where
  pub json_parse : Text → Option Json
  pub timeout_ms : ℕ
  pub retries : RetryOptions
  pub jitter : ℕ → ℕ
  pub fetch_available : Bool
  pub body_string : Result (Option Text)
  pub fetch : ℕ → Outcome

unfoldable pub missing_fetch : ZatcaError
missing_fetch = plain_error (text "Error") none (
    text
      "global `fetch` is not available; pass `options.fetch` explicitly (Node <20 not supported).")

module _ (env : HttpEnv) where
  open env use {json_parse, timeout_ms, retries, jitter, fetch_available, body_string, fetch}

  -- `readBody`: the decoded body, the raw text where it is no JSON, `undefined` where it is empty.
  unfoldable pub decode_body : Text → Option Json
  decode_body s =
      if is_empty s then none else elim (json_parse s) [ some v ↦ some v | none ↦ some (str s) ]

  unfoldable pub read_body : Response → Result (Option Json)
  unfolding decode_body
  read_body response = elim response.body [ ok s ↦ ok (decode_body s) | err e ↦ err e ]

  -- The terminal branch of a response that is no success.
  unfoldable pub status_error : Response → Option Json → ZatcaError
  status_error response parsed = api_error (record {
    message = text "ZATCA API request failed with status " ++ decimal response.status;
    status_code = response.status;
    validation_results = extract_validation_results parsed;
    request_id = extract_request_id response parsed;
    raw_response = parsed;
  })

  -- The `catch` block's error, once no retry is made.
  unfoldable pub surface : ZatcaError → ZatcaError
  unfolding message_of
  surface (plain_error name status message) =
      if name == text "AbortError"
      then failure 0
          (text "ZATCA API request timed out after " ++ (decimal timeout_ms ++ text "ms"))
      else failure 0 (text "ZATCA API network error: " ++ message)
  surface (api_error e) = api_error e
  surface e = elim (message_of e) [
    | some message ↦ failure 0 (text "ZATCA API network error: " ++ message)
    | none ↦ failure 0 (text "ZATCA API request failed with unknown error")
  ]

  -- The `catch` block; `last` is `attempt == maxAttempts - 1`, and `retry` the rest of the loop.
  unfoldable pub catch : Bool → Reply → ZatcaError → Reply
  unfolding surface
  catch last retry e = if not last && is_retryable_error e then retry else stop (err (surface e))

  unfoldable pub read_success : Bool → Reply → Result (Option Json) → Reply
  unfolding catch
  read_success last retry (ok parsed) = stop (ok parsed)
  read_success last retry (err e) = catch last retry e

  unfoldable pub read_failure : Bool → Reply → Response → Result (Option Json) → Reply
  unfolding catch status_error
  read_failure last retry response (ok parsed) = stop (err (status_error response parsed))
  read_failure last retry response (err e) = catch last retry e

  -- One round of the loop. A response that will be retried is drained, its errors ignored.
  unfoldable pub attempt_once : Bool → Reply → Outcome → Reply
  unfolding read_success read_failure catch
  attempt_once last retry (err e) = catch last retry e
  attempt_once last retry (ok response) =
      if success_statuses response.status
      then read_success last retry (read_body response)
      else if is_retryable_status response.status && not last
      then retry
      else read_failure last retry response (read_body response)

  -- The loop, with `left` attempts to make from `attempt` on.
  unfoldable pub attempts : ℕ → ℕ → Reply
  attempts zero attempt =
      stop (err (failure 0 (text "ZATCA API request failed: retry attempts exhausted")))
  attempts (suc left) attempt =
      let rest = attempts left (attempt + 1) in
      attempt_once (eqb left 0) (slept (compute_backoff_ms attempt retries (jitter attempt)) rest)
        (fetch attempt)

  -- What comes before the loop: the guard on `fetch`, and the body that is sent.
  unfoldable pub prepared : Result (Option Text)
  prepared = if fetch_available then body_string else err missing_fetch

  -- What `prepared` throws is thrown as it is.
  unfoldable pub request : Reply
  unfolding prepared attempts
  request = elim prepared [ err e ↦ stop (err e) | ok body ↦ attempts (retries.count + 1) 0 ]
