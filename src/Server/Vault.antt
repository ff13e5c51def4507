-- ===== src/Server/Vault.antt =====
-- packages/server/src/tenants/registry-memory.ts: `createMemoryCredentialVault`.
-- The cipher is an interface: `encrypt` may draw on a state of its own (random bytes) and throw.
pub mod RoundTrip
use dokhna_tech_zatca.Prelude.{Bool, Option, none, some, List, [], ◌∷◌, ◌++◌}
use dokhna_tech_zatca.Prelude.Text.{Text, text, text_eq}
use dokhna_tech_zatca.Prelude.Dict.{Dict, lookup, insert, remove}
use dokhna_tech_zatca.Prelude.Exec.{ok, err, pure, lift, ◌>>=◌, ◌>>◌}
use dokhna_tech_zatca.Errors.{ZatcaError, cipher_error, Result, Exec}
use dokhna_tech_zatca.Server.Invoices.{SignerMaterial}

pub record SecretCipher (C Envelope : Type 0) : Type 0 where
  pub encrypt : Text → Exec C Envelope
  pub decrypt : Envelope → Result Text

pub record EncryptedSignerMaterial (Envelope : Type 0) : Type 0 where
  pub private_key : Envelope
  pub production_certificate : Envelope
  pub production_binary_security_token : Envelope
  pub production_api_secret : Envelope
  pub compliance_certificate : Option Envelope
  pub compliance_binary_security_token : Option Envelope
  pub compliance_api_secret : Option Envelope

-- The Map of the vault, and the state of its cipher.
pub record Vault (C Envelope : Type 0) : Type 0 where
  pub rows : Dict Text (EncryptedSignerMaterial Envelope)
  pub cipher_state : C

-- A cipher's error is passed on, any other is wrapped in one.
unfoldable pub decrypt_failed : Text → ZatcaError → ZatcaError
decrypt_failed tenant_ref (cipher_error message) = cipher_error message
decrypt_failed tenant_ref e =
    cipher_error (text "Vault decrypt failed for tenant '" ++ (tenant_ref ++ text "'."))

module _ {C Envelope : Type 0} (cipher : SecretCipher C Envelope) where
  unfoldable pub encrypt_optional : Option Text → Exec C (Option Envelope)
  encrypt_optional none = pure none
  encrypt_optional (some value) = do envelope ← cipher.encrypt value; pure (some envelope)

  abbrev some_text : Result Text → Result (Option Text)
  some_text (ok s) = ok (some s)
  some_text (err e) = err e

  unfoldable pub decrypt_optional : Option Envelope → Result (Option Text)
  decrypt_optional none = ok none
  decrypt_optional (some envelope) = some_text (cipher.decrypt envelope)

  unfoldable pub encrypt_material : SignerMaterial → Exec C (EncryptedSignerMaterial Envelope)
  unfolding encrypt_optional
  encrypt_material m = do
    private_key ← cipher.encrypt m.private_key
    certificate ← cipher.encrypt m.production_certificate
    token ← cipher.encrypt m.production_binary_security_token
    secret ← cipher.encrypt m.production_api_secret
    compliance_certificate ← encrypt_optional m.compliance_certificate
    compliance_token ← encrypt_optional m.compliance_binary_security_token
    compliance_secret ← encrypt_optional m.compliance_api_secret
    pure (record {
      private_key = private_key;
      production_certificate = certificate;
      production_binary_security_token = token;
      production_api_secret = secret;
      compliance_certificate = compliance_certificate;
      compliance_binary_security_token = compliance_token;
      compliance_api_secret = compliance_secret;
    })

  unfoldable pub put : Text → SignerMaterial → Exec (Vault C Envelope) (Unit {0})
  unfolding encrypt_material
  put tenant_ref m v = elim (encrypt_material m v.cipher_state).0 [
    | err e ↦ (err e, record v { cipher_state = (encrypt_material m v.cipher_state).1 })
    | ok encrypted ↦ (
      ok tt,
      record v {
        rows = insert tenant_ref encrypted v.rows;
        cipher_state = (encrypt_material m v.cipher_state).1;
      },
    )
  ]

  -- In the order of the code: the optional fields first.
  unfoldable pub decrypt_material :
      EncryptedSignerMaterial Envelope → Exec (Unit {0}) SignerMaterial
  unfolding decrypt_optional
  decrypt_material row = do
    compliance_certificate ← lift (decrypt_optional row.compliance_certificate)
    compliance_token ← lift (decrypt_optional row.compliance_binary_security_token)
    compliance_secret ← lift (decrypt_optional row.compliance_api_secret)
    private_key ← lift (cipher.decrypt row.private_key)
    certificate ← lift (cipher.decrypt row.production_certificate)
    token ← lift (cipher.decrypt row.production_binary_security_token)
    secret ← lift (cipher.decrypt row.production_api_secret)
    pure (record {
      private_key = private_key;
      production_certificate = certificate;
      production_binary_security_token = token;
      production_api_secret = secret;
      compliance_certificate = compliance_certificate;
      compliance_binary_security_token = compliance_token;
      compliance_api_secret = compliance_secret;
    })

  abbrev or_failed : Text → Result SignerMaterial → Result (Option SignerMaterial)
  or_failed tenant_ref (ok m) = ok (some m)
  or_failed tenant_ref (err e) = err (decrypt_failed tenant_ref e)

  unfoldable pub get : Text → Exec (Vault C Envelope) (Option SignerMaterial)
  unfolding decrypt_material decrypt_failed
  get tenant_ref v = elim (lookup tenant_ref v.rows) [
    | none ↦ (ok none, v)
    | some row ↦ (or_failed tenant_ref (decrypt_material row tt).0, v)
  ]

  unfoldable pub delete : Text → Exec (Vault C Envelope) (Unit {0})
  delete tenant_ref v = (ok tt, record v { rows = remove tenant_ref v.rows })
