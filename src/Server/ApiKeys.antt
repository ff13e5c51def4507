-- ===== src/Server/ApiKeys.antt =====
-- packages/server/src/tenants/registry-memory.ts: `createMemoryApiKeyStore`.
-- The state is the Map of the rows. `scrypt` is a parameter, a function of the token and the salt;
-- what the random generator and the clock give is given to each call. `timingSafeEqual` on digests
-- of one length is equality.
pub mod Tokens
pub mod Listing
use dokhna_tech_zatca.Prelude.{
  ℕ, zero, suc, Bool, true, false, ◌&&◌, ◌||◌, Option, none, some, [], ◌∷◌, ◌++◌, length, drop, leb,
  eqb, ◌-◌, if◌then◌else◌,
}
use dokhna_tech_zatca.Prelude.Eq.{◌==◌}
use dokhna_tech_zatca.Prelude.Text.{Text, text, text_eq, is_digit}
use dokhna_tech_zatca.Prelude.Dict.{Dict, lookup, insert}
use dokhna_tech_zatca.Prelude.Exec.{ok}
use dokhna_tech_zatca.Errors.{Exec}

pub data KeyEnv : Type 0 where
  live test : KeyEnv

abbrev pub same_env : KeyEnv → KeyEnv → Bool
same_env live live = true
same_env test test = true
same_env _ _ = false

unfoldable pub env_name : KeyEnv → Text
env_name live = text "live"
env_name test = text "test"

pub record ParsedToken : Type 0 where
  pub env : KeyEnv
  pub tenant_ref : Text
  pub tail : Text

abbrev strip : Text → Text → Option Text
strip [] s = some s
strip (c ∷ p) [] = none
strip (c ∷ p) (d ∷ s) = elim (eqb c d) [ true ↦ strip p s | false ↦ none ]

-- `[a-z0-9-]`
unfoldable pub is_ref_char : ℕ → Bool
is_ref_char c = (leb b'a' c && leb c b'z') || (is_digit c || eqb c b'-')

-- `[A-Z2-7]`
unfoldable pub is_base32 : ℕ → Bool
is_base32 c = (leb b'A' c && leb c b'Z') || (leb b'2' c && leb c b'7')

-- The longest prefix of reference characters, and what is left.
unfoldable pub span_ref : Text → Text × Text
span_ref [] = ([], [])
span_ref (c ∷ s) =
    let (ref, rest) = span_ref s in if is_ref_char c then (c ∷ ref, rest) else ([], c ∷ s)

unfoldable pub is_tail : ℕ → Text → Bool
is_tail zero [] = true
is_tail zero (c ∷ s) = false
is_tail (suc n) [] = false
is_tail (suc n) (c ∷ s) = is_base32 c && is_tail n s

-- After the environment: `([a-z0-9-]+)_([A-Z2-7]{32})$`. No underscore is a reference character,
-- so the longest prefix is the only one to try.
unfoldable pub parsed_of : KeyEnv → (ref rest : Text) → Option ParsedToken
parsed_of env [] rest = none
parsed_of env (c ∷ ref) [] = none
parsed_of env (c ∷ ref) (d ∷ tail) =
    if eqb d b'_' && is_tail 32 tail
    then some (record { env = env; tenant_ref = c ∷ ref; tail = tail })
    else none

unfoldable pub parse_rest : KeyEnv → Text → Option ParsedToken
unfolding parsed_of
parse_rest env s = parsed_of env (span_ref s).0 (span_ref s).1

unfoldable pub parse_token : Text → Option ParsedToken
unfolding parse_rest
parse_token token = elim (strip (text "zts_live_") token) [
  | some rest ↦ parse_rest live rest
  | none ↦ elim (strip (text "zts_test_") token) [ some rest ↦ parse_rest test rest | none ↦ none ]
]

pub record ApiKeyRow : Type 0 where
  pub token_id : Text
  pub tenant_ref : Text
  pub hash : Text
  pub salt : Text
  pub label : Text
  pub last4 : Text
  pub created_at : ℕ
  pub last_used_at : Option ℕ
  pub revoked_at : Option ℕ

abbrev pub Rows : Type 0
Rows = Dict Text ApiKeyRow

pub record IssuedApiKey : Type 0 where
  pub token : Text
  pub token_id : Text

pub record ResolvedApiKey : Type 0 where
  pub tenant_ref : Text
  pub token_id : Text

abbrev pub is_revoked : ApiKeyRow → Bool
is_revoked row = elim row.revoked_at [ none ↦ false | some at ↦ true ]

module _ (env : KeyEnv) (scrypt : Text → Text → Text) where
  unfoldable pub token_of : Text → Text → Text
  token_of tenant_ref tail = text "zts_" ++ (env_name env ++ b'_' ∷ (tenant_ref ++ b'_' ∷ tail))

  -- `tail`, `token_id` and `salt` are made of fresh random bytes.
  unfoldable pub issue :
      Text → Text → (tail token_id salt : Text) → (now : ℕ) → Exec Rows IssuedApiKey
  unfolding token_of
  issue tenant_ref label tail token_id salt now rows = (
    ok (record { token = token_of tenant_ref tail; token_id = token_id }),
    insert token_id
        (record {
          token_id = token_id;
          tenant_ref = tenant_ref;
          hash = scrypt (token_of tenant_ref tail) salt;
          salt = salt;
          label = label;
          last4 = drop (length tail - 4) tail;
          created_at = now;
          last_used_at = none;
          revoked_at = none;
        })
        rows,
  )

  -- The tests of the scan.
  unfoldable pub accepts : Text → Text → ApiKeyRow → Bool
  accepts tenant_ref presented row =
      if is_revoked row
      then false
      else row.tenant_ref == tenant_ref && scrypt presented row.salt == row.hash

  -- The scan of `rows.values()`, which stamps the first row that is accepted.
  unfoldable pub scan : Text → Text → (now : ℕ) → Rows → Option ResolvedApiKey × Rows
  unfolding accepts
  scan tenant_ref presented now [] = (none, [])
  scan tenant_ref presented now ((k, row) ∷ rows) =
      let (found, rest) = scan tenant_ref presented now rows in
      if accepts tenant_ref presented row
      then (
        some (record { tenant_ref = row.tenant_ref; token_id = row.token_id }),
        (k, record row { last_used_at = some now }) ∷ rows,
      )
      else (found, (k, row) ∷ rest)

  unfoldable pub resolve : Text → (now : ℕ) → Exec Rows (Option ResolvedApiKey)
  unfolding scan
  resolve presented now rows = elim (parse_token presented) [
    | none ↦ (ok none, rows)
    | some parsed ↦
        if same_env parsed.env env
        then (
          ok (scan parsed.tenant_ref presented now rows).0,
          (scan parsed.tenant_ref presented now rows).1,
        )
        else (ok none, rows)
  ]

unfoldable pub revoke : Text → Text → (now : ℕ) → Exec Rows Bool
revoke tenant_ref token_id now rows = elim (lookup token_id rows) [
  | none ↦ (ok false, rows)
  | some row ↦
      if row.tenant_ref == tenant_ref
      then if is_revoked row
        then (ok false, rows)
        else (ok true, insert token_id (record row { revoked_at = some now }) rows)
      else (ok false, rows)
]

abbrev pub revoked_for : Text → ℕ → ApiKeyRow → ApiKeyRow
revoked_for tenant_ref now row =
    if row.tenant_ref == tenant_ref
    then if is_revoked row then row else record row { revoked_at = some now }
    else row

unfoldable pub revoke_all_for_tenant : Text → (now : ℕ) → Exec Rows (Unit {0})
revoke_all_for_tenant tenant_ref now rows = (ok tt, each rows)
  where
    each : Rows → Rows
    each [] = []
    each ((k, row) ∷ rest) = (k, revoked_for tenant_ref now row) ∷ each rest
