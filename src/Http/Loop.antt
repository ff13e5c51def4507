-- ===== src/Http/Loop.antt =====
-- The retry loop meets its specification.
use dokhna_tech_zatca.Prelude.{
  ℕ, zero, suc, ◌+◌, ◌≡◌, ◌⊎◌, inl, inr, refl, ap, ◌∙◌, subst, false, Bool, Option, ◌∷◌, arith, eqb,
  if◌then◌else◌,
}
use dokhna_tech_zatca.Prelude.Exec.{ok, err, Result-cases}
use dokhna_tech_zatca.Prelude.Text.{Text}
use dokhna_tech_zatca.Json.{Json}
use dokhna_tech_zatca.Errors.{ZatcaError, Result}
use dokhna_tech_zatca.Http.{
  HttpEnv, Outcome, Reply, stop, slept, success_statuses, is_retryable_status, compute_backoff_ms,
  read_body, catch, attempt_once, attempts, prepared, request,
}
use dokhna_tech_zatca.Http.Spec.{Verdict, final, transient, of_error, verdict, IsTransient, Ends}

-- What the loop does with a verdict.
abbrev follow : Bool → Reply → Verdict → Reply
follow last retry (final r) = stop r
follow last retry (transient r) = if last then stop r else retry

module _ (env : HttpEnv) where
  open env use {retries, jitter, fetch}

  catch-follow :
      (last : Bool) (retry : Reply) (e : ZatcaError)
      → catch env last retry e ≡ follow last retry (of_error env e)
  unfolding catch of_error
  catch-follow last retry e = ground arith

  attempt_once-follow :
      (last : Bool) (retry : Reply) (o : Outcome)
      → attempt_once env last retry o ≡ follow last retry (verdict env o)
  unfolding attempt_once verdict success_statuses is_retryable_status
  attempt_once-follow last retry (err e) = catch-follow last retry e
  attempt_once-follow last retry (ok response) = elim (Result-cases (read_body env response)) [
    | inl (v, read) ↦ ground arith
    | inr (e, failed) ↦ ground (arith, catch-follow last retry e)
  ]

  verdict-cases :
      (o : Outcome) → ((r : Result (Option Json)) × (verdict env o ≡ final r)) ⊎ IsTransient env o
  verdict-cases o = go (verdict env o) refl
    where
      go :
          (v : Verdict)
          → verdict env o ≡ v
          → ((r : Result (Option Json)) × (verdict env o ≡ final r)) ⊎ IsTransient env o
      go (final r) e = inl (r, e)
      go (transient r) e = inr (r, e)

  Ends-now :
      (left a : ℕ) (r : Result (Option Json))
      → (verdict env (fetch (a + 0)) ≡ final r)
        ⊎ ((0 ≡ left) × (verdict env (fetch (a + 0)) ≡ transient r))
      → Ends env left a 0 (stop r)
  Ends-now left a r h = record {
    bound = omega arith;
    slept = refl;
    before = λ j lt. absurd (omega arith);
    last = h;
  }

  Ends-retry :
      (left a k : ℕ) (reply : Reply) (r : Result (Option Json))
      → verdict env (fetch a) ≡ transient r
      → Ends env left (a + 1) k reply
      → Ends env (suc left) a (suc k) (slept (compute_backoff_ms a retries (jitter a)) reply)
  unfolding compute_backoff_ms
  Ends-retry left a k reply r first e = record {
    bound = omega (arith, e.bound);
    slept = ap (λ d. compute_backoff_ms a retries (jitter a) ∷ d) e.slept;
    before = elim [
      | zero ↦ λ lt. (r, ap (λ n. verdict env (fetch n)) (plus_zero a) ∙ first)
      | suc j ↦ λ lt. subst (λ n. IsTransient env (fetch n)) (shift a j) (e.before j (omega arith))
    ];
    last = subst (λ n. Last n) (shift a k) (later e.last);
  }
    where
      plus_zero : (n : ℕ) → n + 0 ≡ n
      plus_zero n = omega arith

      shift : (n j : ℕ) → n + 1 + j ≡ n + suc j
      shift n j = omega arith

      Last : ℕ → Type 0
      Last n =
          (verdict env (fetch n) ≡ final reply.result)
          ⊎ ((suc k ≡ suc left) × (verdict env (fetch n) ≡ transient reply.result))

      later :
          (verdict env (fetch (a + 1 + k)) ≡ final reply.result)
            ⊎ ((k ≡ left) × (verdict env (fetch (a + 1 + k)) ≡ transient reply.result))
          → Last (a + 1 + k)
      later (inl f) = inl f
      later (inr (p, t)) = inr (ap suc p, t)

  at_zero : (a : ℕ) {v : Verdict} → verdict env (fetch a) ≡ v → verdict env (fetch (a + 0)) ≡ v
  at_zero a h = ap (λ n. verdict env (fetch n)) (omega arith) ∙ h

  more : (n : ℕ) → eqb (suc n) 0 ≡ false
  more n = ground arith

  attempts-Ends : (left a : ℕ) → (k : ℕ) × Ends env left a k (attempts env (suc left) a)
  unfolding attempts
  attempts-Ends zero a = elim (verdict-cases (fetch a)) [
    | inl (r, e) ↦ (0, rw (attempt_once-follow, e) (Ends-now 0 a r (inl (at_zero a e))))
    | inr (r, e) ↦ (0, rw (attempt_once-follow, e) (Ends-now 0 a r (inr (refl, at_zero a e))))
  ]
  attempts-Ends (suc left) a = elim (verdict-cases (fetch a)) [
    | inl (r, e) ↦ (0, rw (attempt_once-follow, e) (Ends-now (suc left) a r (inl (at_zero a e))))
    | inr (r, e) ↦
        let (k, rest) = attempts-Ends left (a + 1) in
        (suc k, rw (attempt_once-follow, e, more left) (Ends-retry left a k _ r e rest))
  ]

  -- Where there is no `fetch`, or the body cannot be serialised, a request throws that error before
  -- the first attempt. Otherwise it makes at most `count` retries, with the exponential delays in
  -- order; every attempt but the last was transient, and its result is that of the last, which was
  -- final or the last that `count` allows. The code behind the loop is never reached.
  pub request-Ends :
      ((e : ZatcaError) × (prepared env ≡ err e) × (request env ≡ stop (err e)))
      ⊎ ((body : Option Text) × (prepared env ≡ ok body)
          × (k : ℕ) × Ends env retries.count 0 k (request env))
  unfolding request
  request-Ends = elim (Result-cases (prepared env)) [
    | inr (e, refused) ↦ inl (e, refused, rw (request, refused) refl)
    | inl (body, sent) ↦
        let (k, ends) = attempts-Ends retries.count 0 in
        inr (body, sent, k, rw (request, sent, plus_one retries.count) ends)
  ]
    where
      plus_one : (n : ℕ) → n + 1 ≡ suc n
      plus_one n = omega arith
