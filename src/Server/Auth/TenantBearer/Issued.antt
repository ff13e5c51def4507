-- ===== src/Server/Auth/TenantBearer/Issued.antt =====
-- A key that the store has issued opens its tenant's routes.
use dokhna_tech_zatca.Prelude.{
  drop, length, ◌-◌, ℕ, zero, suc, ◌≡◌, refl, true, false, some, none, [], ◌∷◌, ◌++◌, All,
  All-append, arith, and-eq-true,
}
use dokhna_tech_zatca.Prelude.Text.{Text, text, text_eq}
use dokhna_tech_zatca.Prelude.Text.Trim.{is_space}
use dokhna_tech_zatca.Prelude.Dict.{beq_refl}
use dokhna_tech_zatca.Prelude.Exec.{ok}
use dokhna_tech_zatca.Server.ApiKeys.{
  same_env, KeyEnv, live, test, env_name, Rows, ApiKeyRow, ResolvedApiKey, is_ref_char, is_base32,
  is_tail, parse_token, token_of, issue, resolve, accepts, scan,
}
use dokhna_tech_zatca.Server.ApiKeys.Tokens.{parse_token-token_of}
use dokhna_tech_zatca.Server.Auth.AdminKeys.{extract_bearer}
use dokhna_tech_zatca.Server.Auth.AdminKeys.Bearer.{extract_bearer_lem}
use dokhna_tech_zatca.Server.Auth.TenantBearer.{verify}
use dokhna_tech_zatca.Server.Auth.TenantBearer.Laws.{scan-accepts, verify_resolved}

abbrev IsSolid : Text → Type 0
IsSolid = All (λ c. is_space c ≡ false)

ref-IsSolid : (ref : Text) → All (λ d. is_ref_char d ≡ true) ref → IsSolid ref
unfolding is_space is_ref_char
ref-IsSolid [] h = tt
ref-IsSolid (c ∷ ref) (h, hs) = (ground arith, ref-IsSolid ref hs)

base32_solid : (c : ℕ) → is_base32 c ≡ true → is_space c ≡ false
unfolding is_space is_base32
base32_solid c h = ground arith

tail-IsSolid : (n : ℕ) (tail : Text) → is_tail n tail ≡ true → IsSolid tail
unfolding is_tail
tail-IsSolid n [] h = tt
tail-IsSolid zero (c ∷ tail) h = absurd (cc)
tail-IsSolid (suc n) (c ∷ tail) h =
    let (first, rest) = and-eq-true (is_base32 c) (is_tail n tail) h in
    (base32_solid c first, tail-IsSolid n tail rest)

-- The letters in front of the reference.
front-IsSolid :
    (env : KeyEnv) (s : Text) → IsSolid s → IsSolid (text "zts_" ++ (env_name env ++ b'_' ∷ s))
unfolding text env_name is_space
front-IsSolid live s h = (refl, (refl, (refl, (refl, (refl, (refl, (refl, (refl, (refl, h)))))))))
front-IsSolid test s h = (refl, (refl, (refl, (refl, (refl, (refl, (refl, (refl, (refl, h)))))))))

module _ (env : KeyEnv) (scrypt : Text → Text → Text) where
  token-IsSolid :
      (ref tail : Text)
      → All (λ d. is_ref_char d ≡ true) ref
      → is_tail 32 tail ≡ true
      → IsSolid (token_of env scrypt ref tail)
  unfolding token_of is_space
  token-IsSolid ref tail h t =
      front-IsSolid env (ref ++ b'_' ∷ tail)
        (All-append _ ref (b'_' ∷ tail) (ref-IsSolid ref h) (refl, tail-IsSolid 32 tail t))

  -- The row that `issue` writes.
  abbrev row : (ref label tail token_id salt : Text) → (now : ℕ) → ApiKeyRow
  row ref label tail token_id salt now = record {
    token_id = token_id;
    tenant_ref = ref;
    hash = scrypt (token_of env scrypt ref tail) salt;
    salt = salt;
    label = label;
    last4 = drop (length tail - 4) tail;
    created_at = now;
    last_used_at = none;
    revoked_at = none;
  }

  row-accepts :
      (ref label tail token_id salt : Text) (now : ℕ)
      → accepts env scrypt ref (token_of env scrypt ref tail) (row ref label tail token_id salt now)
        ≡ true
  unfolding accepts
  row-accepts ref label tail token_id salt now =
      ground (arith, beq_refl ref, beq_refl (scrypt (token_of env scrypt ref tail) salt))

  extract_issued :
      (ref tail : Text)
      → IsSolid (token_of env scrypt ref tail)
      → extract_bearer (text "Bearer " ++ token_of env scrypt ref tail)
        ≡ some (token_of env scrypt ref tail)
  unfolding token_of text
  extract_issued ref tail solid = extract_bearer_lem _ _ solid

  same_env_refl : same_env env env ≡ true
  same_env_refl = elim env as (λ k. same_env k k ≡ true) [ live ↦ refl | test ↦ refl ]

  resolve_scanned :
      (ref token tail : Text) (later : ℕ) (rows : Rows) (r : ResolvedApiKey)
      → parse_token token ≡ some (record { env = env; tenant_ref = ref; tail = tail })
      → (scan env scrypt ref token later rows).0 ≡ some r
      → (resolve env scrypt token later rows).0 ≡ ok (some r)
  unfolding resolve
  resolve_scanned ref token tail later rows r parsed found =
      rw (resolve, parsed, same_env_refl, found) refl

  -- The header made of a token that the store has issued to a tenant is admitted to that tenant's
  -- routes, whatever the store held before, when the tenant's reference is not empty and of its
  -- alphabet and the random tail is 32 characters of base 32.
  pub issue-verify :
      (c : ℕ) (ref label tail token_id salt : Text) (now later : ℕ) (rows : Rows)
      → All (λ d. is_ref_char d ≡ true) (c ∷ ref)
      → is_tail 32 tail ≡ true
      → (r : ResolvedApiKey) × ((verify env scrypt
            (text "Bearer " ++ token_of env scrypt (c ∷ ref) tail)
            (c ∷ ref)
            later
            (issue env scrypt (c ∷ ref) label tail token_id salt now rows).1).0
          ≡ ok r)
        × (r.tenant_ref ≡ c ∷ ref)
  unfolding issue text
  issue-verify c ref label tail token_id salt now later rows h t =
      let token = token_of env scrypt (c ∷ ref) tail in
      let made = row (c ∷ ref) label tail token_id salt now in
      let (r, found, owner) =
        scan-accepts env scrypt (c ∷ ref) token later token_id made rows
          (row-accepts (c ∷ ref) label tail token_id salt now) in
      let kept = (issue env scrypt (c ∷ ref) label tail token_id salt now rows).1 in
      let answer =
        resolve_scanned (c ∷ ref) token tail later kept r
          (parse_token-token_of env scrypt c ref tail h t) found in
      (
        r,
        verify_resolved env scrypt _ _ (c ∷ ref) token later kept r
            (extract_issued (c ∷ ref) tail (token-IsSolid (c ∷ ref) tail h t)) answer owner,
        owner,
      )
