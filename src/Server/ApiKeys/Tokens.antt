-- ===== src/Server/ApiKeys/Tokens.antt =====
-- Tokens are read back as they were issued, and only by the store and the tenant that they name.
use dokhna_tech_zatca.Prelude.{
  ℕ, ◌≡◌, ◌⊎◌, inl, inr, refl, true, false, ◌&&◌, none, some, List, [], ◌∷◌, ◌++◌, All, arith,
  Bool-cases, Option-cases, and-eq-true,
}
use dokhna_tech_zatca.Prelude.Eq.{◌==◌}
use dokhna_tech_zatca.Prelude.Text.{Text, text, text_eq}
use dokhna_tech_zatca.Prelude.Dict.{values}
use dokhna_tech_zatca.Prelude.Exec.{ok}
use dokhna_tech_zatca.Server.ApiKeys.{
  KeyEnv, live, test, same_env, env_name, ParsedToken, ApiKeyRow, Rows, ResolvedApiKey, is_revoked,
  is_ref_char, span_ref, is_tail, parse_rest, parse_token, token_of, accepts, scan, resolve,
}

abbrev IsRef : Text → Type 0
IsRef = All (λ c. is_ref_char c ≡ true)

span_ref-append : (ref rest : Text) → IsRef ref → span_ref (ref ++ b'_' ∷ rest) ≡ (ref, b'_' ∷ rest)
unfolding span_ref is_ref_char
span_ref-append [] rest h = refl
span_ref-append (c ∷ ref) rest (first, h) = rw (span_ref-append ref rest h, first) refl

parse_rest-append :
    (env : KeyEnv) (c : ℕ) (ref tail : Text)
    → IsRef (c ∷ ref)
    → is_tail 32 tail ≡ true
    → parse_rest env (c ∷ ref ++ b'_' ∷ tail)
      ≡ some (record { env = env; tenant_ref = c ∷ ref; tail = tail })
unfolding parse_rest
parse_rest-append env c ref tail h t = rw (span_ref-append (c ∷ ref) tail h, t) refl

-- A token is read back as the environment, the tenant and the tail that it was made of, when the
-- reference is not empty and of its alphabet and the tail is 32 characters of base 32.
pub parse_token-token_of :
    (env : KeyEnv) (scrypt : Text → Text → Text) (c : ℕ) (ref tail : Text)
    → All (λ d. is_ref_char d ≡ true) (c ∷ ref)
    → is_tail 32 tail ≡ true
    → parse_token (token_of env scrypt (c ∷ ref) tail)
      ≡ some (record { env = env; tenant_ref = c ∷ ref; tail = tail })
unfolding parse_token token_of env_name text
parse_token-token_of live scrypt c ref tail h t = parse_rest-append live c ref tail h t
parse_token-token_of test scrypt c ref tail h t = parse_rest-append test c ref tail h t

abbrev pub IsIn : ApiKeyRow → List ApiKeyRow → Type 0
IsIn row [] = ⊥
IsIn row (other ∷ rows) = (row ≡ other) ⊎ IsIn row rows

-- A row that vouches for the presented token.
pub record Vouches (scrypt : Text → Text → Text) (tenant_ref presented : Text) (rows : Rows)
    (r : ResolvedApiKey) : Type 0 where
  pub row : ApiKeyRow
  pub is_in : IsIn row (values rows)
  pub not_revoked : row.revoked_at ≡ none
  pub owner : row.tenant_ref ≡ tenant_ref
  pub verified : scrypt presented row.salt ≡ row.hash
  pub names_tenant : r.tenant_ref ≡ tenant_ref
  pub names_key : r.token_id ≡ row.token_id

scan-Vouches :
    (env : KeyEnv) (scrypt : Text → Text → Text) (tenant_ref presented : Text) (now : ℕ)
    (rows : Rows) (r : ResolvedApiKey)
    → (scan env scrypt tenant_ref presented now rows).0 ≡ some r
    → Vouches scrypt tenant_ref presented rows r
unfolding scan accepts
scan-Vouches env scrypt tenant_ref presented now [] r h = absurd (ground arith)
scan-Vouches env scrypt tenant_ref presented now ((k, row) ∷ rows) r h =
    elim (Bool-cases (accepts env scrypt tenant_ref presented row)) [
      | inr other ↦
          let rest : (scan env scrypt tenant_ref presented now rows).0 ≡ some r = ground arith in
          let v = scan-Vouches env scrypt tenant_ref presented now rows r rest in
          record {
            row = v.row;
            is_in = inr v.is_in;
            not_revoked = v.not_revoked;
            owner = v.owner;
            verified = v.verified;
            names_tenant = v.names_tenant;
            names_key = v.names_key;
          }
      | inl accepted ↦
          let facts : (is_revoked row ≡ false)
              × ((row.tenant_ref == tenant_ref && scrypt presented row.salt == row.hash) ≡ true) =
            ground arith in
          let (same, equal) =
            and-eq-true (row.tenant_ref == tenant_ref) (scrypt presented row.salt == row.hash)
              facts.1 in
          let owner = (text_eq.beq_iff row.tenant_ref tenant_ref).0 same in
          let found : some (record { tenant_ref = row.tenant_ref; token_id = row.token_id })
              ≡ some r =
            ground arith in
          record {
            row = row;
            is_in = inl refl;
            not_revoked = ground arith;
            owner = owner;
            verified = (text_eq.beq_iff (scrypt presented row.salt) row.hash).0 equal;
            names_tenant = cc;
            names_key = cc;
          }
    ]

-- A token that `resolve` accepts is well-formed and of the store's environment, and the answer
-- names the tenant in the token and a row of that tenant which is not revoked and whose digest
-- the token has.
pub resolve-Vouches :
    (env : KeyEnv) (scrypt : Text → Text → Text) (presented : Text) (now : ℕ) (rows : Rows)
    (r : ResolvedApiKey)
    → (resolve env scrypt presented now rows).0 ≡ ok (some r)
    → (parsed : ParsedToken) × (parse_token presented ≡ some parsed)
      × (same_env parsed.env env ≡ true)
      × Vouches scrypt parsed.tenant_ref presented rows r
unfolding resolve
resolve-Vouches env scrypt presented now rows r h = elim (Option-cases (parse_token presented)) [
  | inl malformed ↦ absurd (ground arith)
  | inr (parsed, well) ↦ elim (Bool-cases (same_env parsed.env env)) [
    | inr foreign ↦ absurd (ground arith)
    | inl ours ↦ (
      parsed,
      well,
      ours,
      scan-Vouches env scrypt parsed.tenant_ref presented now rows r (ground arith),
    )
  ]
]
