-- ===== src/Http/Errors.antt =====
-- What a failed request throws.
use dokhna_tech_zatca.Prelude.{
  ◌+◌, ◌≡◌, ◌∙◌, ◌⊎◌, sym, inl, inr, ap, subst, arith, Option, Bool-cases,
}
use dokhna_tech_zatca.Prelude.Exec.{ok, err}
use dokhna_tech_zatca.Json.{Json}
use dokhna_tech_zatca.Errors.{ZatcaError, api_error, plain_error, Result}
use dokhna_tech_zatca.Http.{
  HttpEnv, Outcome, Response, read_body, status_error, surface, is_retryable_error, prepared,
  request,
}
use dokhna_tech_zatca.Http.Spec.{
  Verdict, final, transient, of_error, of_success, of_client_error, of_server_error, verdict,
}
use dokhna_tech_zatca.Http.Loop.{request-Ends}

abbrev pub IsApiError : ZatcaError → Type 0
IsApiError (api_error e) = Unit
IsApiError _ = ⊥

err-injective : {A : Type 0} {a b : ZatcaError} → ◌≡◌ {A = Result A} (err a) (err b) → a ≡ b
err-injective h = cc

abbrev Throws : Result (Option Json) → Type 0
Throws (ok v) = Unit
Throws (err e) = IsApiError e

abbrev Sound : Verdict → Type 0
Sound (final r) = Throws r
Sound (transient r) = Throws r

module _ (env : HttpEnv) where
  surface-IsApiError : (e : ZatcaError) → IsApiError (surface env e)
  unfolding surface
  surface-IsApiError (plain_error name status message) = ground arith
  surface-IsApiError _ = tt

  of_error-Sound : (e : ZatcaError) → Sound (of_error env e)
  unfolding of_error
  of_error-Sound e = elim (Bool-cases (is_retryable_error e)) [
    | inl again ↦ rw again (surface-IsApiError e)
    | inr never ↦ rw never (surface-IsApiError e)
  ]

  of_success-Sound : (r : Result (Option Json)) → Sound (of_success env r)
  unfolding of_success
  of_success-Sound (ok v) = tt
  of_success-Sound (err e) = of_error-Sound e

  of_client_error-Sound :
      (response : Response) (r : Result (Option Json)) → Sound (of_client_error env response r)
  unfolding of_client_error status_error
  of_client_error-Sound response (ok v) = tt
  of_client_error-Sound response (err e) = of_error-Sound e

  of_server_error-Sound :
      (response : Response) (r : Result (Option Json)) → Sound (of_server_error env response r)
  unfolding of_server_error status_error
  of_server_error-Sound response (ok v) = tt
  of_server_error-Sound response (err e) = surface-IsApiError e

  verdict-Sound : (o : Outcome) → Sound (verdict env o)
  unfolding verdict
  verdict-Sound (err e) = of_error-Sound e
  verdict-Sound (ok response) =
      let body = read_body env response in
      ground (
        arith,
        of_success-Sound body,
        of_client_error-Sound response body,
        of_server_error-Sound response body,
      )

  -- Whatever `fetch` comes to, attempt by attempt, a request that fails throws a `ZatcaApiError`, or
  -- has failed before the first attempt, and then throws what the guard on `fetch` or the
  -- serialisation of the body has thrown.
  pub request-IsApiError :
      (e : ZatcaError) → (request env).result ≡ err e → IsApiError e ⊎ (prepared env ≡ err e)
  request-IsApiError e failed = elim (request-Ends env) [
    | inl (refusal, refused, same) ↦
        inr (refused ∙ ap err (err-injective (sym (ap (λ r. r.result) same) ∙ failed)))
    | inr (body, sent, k, ends) ↦ inl (elim ends.last [
      | inl f ↦ subst Sound (f ∙ ap final failed) (verdict-Sound (env.fetch (0 + k)))
      | inr (p, t) ↦ subst Sound (t ∙ ap transient failed) (verdict-Sound (env.fetch (0 + k)))
    ])
  ]
