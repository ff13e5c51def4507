-- ===== src/Http/Spec.antt =====
-- What one attempt decides, told without the loop, and what a whole request comes to.
use dokhna_tech_zatca.Prelude.{
  ℕ, zero, suc, ◌+◌, ◌*◌, ◌^◌, ◌&&◌, ◌||◌, eqb, leb, ◌≤◌, ◌<◌, ◌≡◌, ◌⊎◌, Option, List, [], ◌∷◌,
  if◌then◌else◌,
}
use dokhna_tech_zatca.Prelude.Exec.{ok, err}
use dokhna_tech_zatca.Json.{Json}
use dokhna_tech_zatca.Errors.{ZatcaError, Result}
use dokhna_tech_zatca.Http.{
  HttpEnv, Outcome, Response, Reply, is_retryable_error, read_body, status_error, surface,
}

-- An attempt either ends the request, or is transient; each with the result that it would give as
-- the last one.
pub data Verdict : Type 0 where
  final : Result (Option Json) → Verdict
  transient : Result (Option Json) → Verdict

module _ (env : HttpEnv) where
  open env use {retries, jitter, fetch}

  -- A rejection is transient if it is a TypeError or an AbortError.
  unfoldable pub of_error : ZatcaError → Verdict
  of_error e = let r = err (surface env e) in if is_retryable_error e then transient r else final r

  unfoldable pub of_success : Result (Option Json) → Verdict
  unfolding of_error
  of_success (ok parsed) = final (ok parsed)
  of_success (err e) = of_error e

  unfoldable pub of_client_error : Response → Result (Option Json) → Verdict
  unfolding of_error
  of_client_error response (ok parsed) = final (err (status_error env response parsed))
  of_client_error response (err e) = of_error e

  unfoldable pub of_server_error : Response → Result (Option Json) → Verdict
  of_server_error response (ok parsed) = transient (err (status_error env response parsed))
  of_server_error response (err e) = transient (err (surface env e))

  -- 200 and 202 are successes, 5xx is transient, all else is final, while the body can be read.
  unfoldable pub verdict : Outcome → Verdict
  unfolding of_success of_client_error of_server_error
  verdict (err e) = of_error e
  verdict (ok response) =
      let body = read_body env response in
      if eqb response.status 200 || eqb response.status 202
      then of_success body
      else if leb 500 response.status && leb response.status 599
      then of_server_error response body
      else of_client_error response body

  abbrev pub IsTransient : Outcome → Type 0
  IsTransient o = (r : Result (Option Json)) × (verdict o ≡ transient r)

  -- the delays of `k` retries from attempt `a` on: the base doubles, and the jitter is added
  abbrev pub backoffs : ℕ → ℕ → List ℕ
  backoffs a zero = []
  backoffs a (suc k) = (retries.base_ms * 2 ^ a + jitter a) ∷ backoffs (a + 1) k

  -- A request that had `left` retries at attempt `a` made `k` of them: every attempt before the
  -- last was transient, and the last was final, or transient with no retry left.
  pub record Ends (left a k : ℕ) (reply : Reply) : Type 0 where
    pub bound : k ≤ left
    pub slept : reply.delays ≡ backoffs a k
    pub before : (j : ℕ) → j < k → IsTransient (fetch (a + j))
    pub last :
        (verdict (fetch (a + k)) ≡ final reply.result)
        ⊎ ((k ≡ left) × (verdict (fetch (a + k)) ≡ transient reply.result))
