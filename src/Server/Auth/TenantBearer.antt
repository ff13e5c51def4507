-- ===== src/Server/Auth/TenantBearer.antt =====
-- packages/server/src/auth/tenant-bearer.ts: the verifier over the API-key store.
pub mod Laws
pub mod Issued
use dokhna_tech_zatca.Prelude.{ℕ, none, some, [], ◌∷◌, Option, if◌then◌else◌}
use dokhna_tech_zatca.Prelude.Eq.{◌==◌}
use dokhna_tech_zatca.Prelude.Text.{Text, text, text_eq}
use dokhna_tech_zatca.Prelude.Exec.{ok, err, pure, throw, ◌>>=◌}
use dokhna_tech_zatca.Errors.{ZatcaError, auth_error, Exec}
use dokhna_tech_zatca.Server.ApiKeys.{KeyEnv, Rows, ResolvedApiKey, resolve}
use dokhna_tech_zatca.Server.Auth.AdminKeys.{extract_bearer}

abbrev pub invalid_key : ZatcaError
invalid_key = auth_error 401 (text "Invalid or revoked API key.")

abbrev pub missing_header : ZatcaError
missing_header = auth_error 401 (text "Missing Authorization header.")

abbrev pub malformed_header : ZatcaError
malformed_header =
    auth_error 401 (text "Authorization header must be of the form 'Bearer <token>'.")

-- What the store's answer comes to; the error's `cause` is not modelled.
unfoldable pub judge :
    (expected_tenant_ref : Text) → Option ResolvedApiKey → Exec Rows ResolvedApiKey
judge expected_tenant_ref none = throw invalid_key
judge expected_tenant_ref (some resolved) =
    if resolved.tenant_ref == expected_tenant_ref then pure resolved else throw invalid_key

module _ (env : KeyEnv) (scrypt : Text → Text → Text) where
  -- An absent header and an empty one are both missing.
  unfoldable pub verify :
      (auth_header expected_tenant_ref : Text) → (now : ℕ) → Exec Rows ResolvedApiKey
  unfolding judge
  verify [] expected_tenant_ref now = throw missing_header
  verify (c ∷ s) expected_tenant_ref now = elim (extract_bearer (c ∷ s)) [
    | none ↦ throw malformed_header
    | some bearer ↦ do resolved ← resolve env scrypt bearer now; judge expected_tenant_ref resolved
  ]
