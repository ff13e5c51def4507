-- ===== src/Server/Auth/TenantBearer/Laws.antt =====
-- Only a tenant's own live key passes, and every refusal looks alike.
use dokhna_tech_zatca.Prelude.{
  ℕ, subst, ◌≡◌, ◌⊎◌, inl, inr, refl, ◌∙◌, sym, true, none, some, Option, [], ◌∷◌, arith,
  Bool-cases, Option-cases,
}
use dokhna_tech_zatca.Prelude.Eq.{◌==◌}
use dokhna_tech_zatca.Prelude.Text.{Text, text_eq}
use dokhna_tech_zatca.Prelude.Dict.{insert}
use dokhna_tech_zatca.Prelude.Exec.{ok, err}
use dokhna_tech_zatca.Errors.{ZatcaError, auth_error}
use dokhna_tech_zatca.Server.ApiKeys.{
  KeyEnv, same_env, Rows, ApiKeyRow, ResolvedApiKey, parse_token, resolve, scan, accepts,
}
use dokhna_tech_zatca.Server.ApiKeys.Tokens.{Vouches, resolve-Vouches}
use dokhna_tech_zatca.Server.Auth.AdminKeys.{extract_bearer}
use dokhna_tech_zatca.Server.Auth.TenantBearer.{
  invalid_key, missing_header, malformed_header, judge, verify,
}

-- The one way to refuse.
abbrev pub Refused : ZatcaError → Type 0
Refused e = (message : Text) × (e ≡ auth_error 401 message)

module _ (env : KeyEnv) (scrypt : Text → Text → Text) where
  -- The rows vouch for the bearer, as a key of the tenant.
  pub record Admitted (auth_header tenant_ref : Text) (rows : Rows) (r : ResolvedApiKey)
      : Type 0 where
    pub bearer : Text
    pub presented : extract_bearer auth_header ≡ some bearer
    pub vouched : Vouches scrypt tenant_ref bearer rows r

  resolve-ok :
      (bearer : Text) (now : ℕ) (rows : Rows)
      → (found : Option ResolvedApiKey) × ((resolve env scrypt bearer now rows).0 ≡ ok found)
  unfolding resolve
  resolve-ok bearer now rows = elim (Option-cases (parse_token bearer)) [
    | inl malformed ↦ (none, rw (resolve, malformed) refl)
    | inr (parsed, well) ↦ elim (Bool-cases (same_env parsed.env env)) [
      | inl ours ↦
          ((scan env scrypt parsed.tenant_ref bearer now rows).0, rw (resolve, well, ours) refl)
      | inr foreign ↦ (none, rw (resolve, well, foreign) refl)
    ]
  ]

  resolved-Vouches :
      (bearer tenant_ref : Text) (now : ℕ) (rows : Rows) (r : ResolvedApiKey)
      → (resolve env scrypt bearer now rows).0 ≡ ok (some r)
      → r.tenant_ref ≡ tenant_ref
      → Vouches scrypt tenant_ref bearer rows r
  resolved-Vouches bearer tenant_ref now rows r h same =
      let (parsed, _, _, v) = resolve-Vouches env scrypt bearer now rows r h in
      let owner : parsed.tenant_ref ≡ tenant_ref = sym v.names_tenant ∙ same in
      subst (λ t. Vouches scrypt t bearer rows r) owner v

  -- What the verifier comes to.
  abbrev pub Judged : (auth_header tenant_ref : Text) → (now : ℕ) → Rows → Type 0
  Judged auth_header tenant_ref now rows =
      ((r : ResolvedApiKey) × ((verify env scrypt auth_header tenant_ref now rows).0 ≡ ok r)
        × Admitted auth_header tenant_ref rows r)
      ⊎ ((e : ZatcaError) × ((verify env scrypt auth_header tenant_ref now rows).0 ≡ err e)
          × Refused e)

  pub verify_resolved :
      (c : ℕ) (s tenant_ref bearer : Text) (now : ℕ) (rows : Rows) (r : ResolvedApiKey)
      → extract_bearer (c ∷ s) ≡ some bearer
      → (resolve env scrypt bearer now rows).0 ≡ ok (some r)
      → r.tenant_ref ≡ tenant_ref
      → (verify env scrypt (c ∷ s) tenant_ref now rows).0 ≡ ok r
  unfolding verify judge
  verify_resolved c s tenant_ref bearer now rows r held answer owner =
      let same : (r.tenant_ref == tenant_ref) ≡ true =
        (text_eq.beq_iff r.tenant_ref tenant_ref).1 owner in
      rw (verify, held, answer, same) refl

  judge_resolved :
      (c : ℕ) (s tenant_ref bearer : Text) (now : ℕ) (rows : Rows) (found : Option ResolvedApiKey)
      → extract_bearer (c ∷ s) ≡ some bearer
      → (resolve env scrypt bearer now rows).0 ≡ ok found
      → Judged (c ∷ s) tenant_ref now rows
  unfolding verify judge
  judge_resolved c s tenant_ref bearer now rows none held answer =
      inr (invalid_key, rw (verify, held, answer) refl, (_, refl))
  judge_resolved c s tenant_ref bearer now rows (some r) held answer =
      elim (Bool-cases (r.tenant_ref == tenant_ref)) [
        | inr other ↦ inr (invalid_key, rw (verify, held, answer, other) refl, (_, refl))
        | inl same ↦
            let owner = (text_eq.beq_iff r.tenant_ref tenant_ref).0 same in
            inl (
              r,
              verify_resolved c s tenant_ref bearer now rows r held answer owner,
              record {
                bearer = bearer;
                presented = held;
                vouched = resolved-Vouches bearer tenant_ref now rows r answer owner;
              },
            )
      ]

  -- The verifier admits a request only with a key that is in the store, not revoked, of the expected
  -- tenant and with the digest of the presented token, and the answer names that tenant and key;
  -- every other request, whatever is wrong with it, is refused with a 401.
  pub verify_judges :
      (auth_header tenant_ref : Text) (now : ℕ) (rows : Rows)
      → Judged auth_header tenant_ref now rows
  unfolding verify
  verify_judges [] tenant_ref now rows = inr (missing_header, refl, (_, refl))
  verify_judges (c ∷ s) tenant_ref now rows = elim (Option-cases (extract_bearer (c ∷ s))) [
    | inl malformed ↦ inr (malformed_header, rw (verify, malformed) refl, (_, refl))
    | inr (bearer, held) ↦
        let (found, answer) = resolve-ok bearer now rows in
        judge_resolved c s tenant_ref bearer now rows found held answer
  ]

  pub scan-accepts :
      (tenant_ref presented : Text) (now : ℕ) (k : Text) (row : ApiKeyRow) (rows : Rows)
      → accepts env scrypt tenant_ref presented row ≡ true
      → (r : ResolvedApiKey) × ((scan env scrypt tenant_ref presented now (insert k row rows)).0
          ≡ some r)
        × (r.tenant_ref ≡ tenant_ref)
  unfolding scan insert accepts
  scan-accepts tenant_ref presented now k row [] h = (
    record { tenant_ref = row.tenant_ref; token_id = row.token_id },
    ground arith,
    ground (arith, text_eq.beq_iff row.tenant_ref tenant_ref),
  )
  scan-accepts tenant_ref presented now k row ((j, other) ∷ rows) h = elim (Bool-cases (j == k)) [
    | inl here ↦ (
      record { tenant_ref = row.tenant_ref; token_id = row.token_id },
      ground arith,
      ground (arith, text_eq.beq_iff row.tenant_ref tenant_ref),
    )
    | inr later ↦ elim (Bool-cases (accepts env scrypt tenant_ref presented other)) [
      | inl before ↦ (
        record { tenant_ref = other.tenant_ref; token_id = other.token_id },
        ground arith,
        ground (arith, text_eq.beq_iff other.tenant_ref tenant_ref),
      )
      | inr rest ↦
          let (r, p, q) = scan-accepts tenant_ref presented now k row rows h in (r, ground arith, q)
    ]
  ]
