-- ===== src/Tests/Access.antt =====
-- Concrete runs of the authentication, the audit log and the vault.
use dokhna_tech_zatca.Prelude.{
  ℕ, ◌≡◌, ◌≢◌, refl, true, none, some, List, [], ◌∷◌, ◌++◌, replicate, arith,
}
use dokhna_tech_zatca.Prelude.Eq.{list_beq}
use dokhna_tech_zatca.Prelude.Text.{Text, text_eq, text}
use dokhna_tech_zatca.Prelude.Text.Trim.{trim, trim_start, trim_end, is_space}
use dokhna_tech_zatca.Prelude.Text.Parts.{split, index_of}
use dokhna_tech_zatca.Prelude.Exec.{ok}
use dokhna_tech_zatca.Json.{Json, str, obj, field, end}
use dokhna_tech_zatca.Server.ApiKeys.{
  live, is_ref_char, is_tail, is_base32, Rows, ResolvedApiKey, token_of, issue,
}
use dokhna_tech_zatca.Server.Auth.AdminKeys.{
  AdminKeyEntry, parse_admin_keys, parse_entries, parse_entry, checked_entry, entries_of,
  min_key_length,
}
use dokhna_tech_zatca.Server.Auth.AdminKeys.WellFormed.{Fine, parse_admin_keys-Fine}
use dokhna_tech_zatca.Server.Auth.TenantBearer.{verify}
use dokhna_tech_zatca.Server.Auth.TenantBearer.Laws.{Judged, verify_judges}
use dokhna_tech_zatca.Server.Auth.TenantBearer.Issued.{issue-verify}
use dokhna_tech_zatca.Server.Audit.Redact.{redact_secrets, is_sensitive_key, sensitive_keys}
use dokhna_tech_zatca.Server.Audit.Clean.{IsClean, redact_secrets-IsClean}
use dokhna_tech_zatca.Server.Audit.Log.{
  AuditEntry, AuditListFilter, system, tenant_created, fine, list,
}
use dokhna_tech_zatca.Server.Audit.List.{IsAnswer, list_lem}
use dokhna_tech_zatca.Server.Invoices.{SignerMaterial}
use dokhna_tech_zatca.Server.Vault.{
  SecretCipher, Vault, put, get, encrypt_material, encrypt_optional,
}
use dokhna_tech_zatca.Server.Vault.RoundTrip.{put-get}

-- Admin keys
abbrev long_key : Text
long_key = replicate 32 b'k'

abbrev raw : Text
raw = b'a' ∷ b':' ∷ long_key

abbrev parsed : List AdminKeyEntry
parsed = record { label = b'a' ∷ []; key = long_key } ∷ []

parses : parse_admin_keys raw ≡ ok parsed
unfolding parse_admin_keys parse_entries parse_entry checked_entry entries_of min_key_length split
    index_of trim trim_start trim_end is_space
parses = refl

parse_admin_keys-Fine_example : Fine [] parsed × (parsed ≢ [])
parse_admin_keys-Fine_example = parse_admin_keys-Fine raw parsed parses

-- Tenant keys
abbrev scrypt : Text → Text → Text
scrypt token salt = salt ++ token

abbrev acme : Text
acme = b'a' ∷ b'-' ∷ b'1' ∷ []

abbrev tail : Text
tail = replicate 32 b'A'

abbrev header : Text
header = text "Bearer " ++ token_of live scrypt acme tail

abbrev rows : Rows
rows = (issue live scrypt acme [] tail (b'k' ∷ []) (b's' ∷ []) 5 []).1

verify_judges_example : Judged live scrypt header acme 9 rows
verify_judges_example = verify_judges live scrypt header acme 9 rows

issue-verify_example :
    (r : ResolvedApiKey) × ((verify live scrypt header acme 9 rows).0 ≡ ok r)
    × (r.tenant_ref ≡ acme)
unfolding is_ref_char is_tail is_base32
issue-verify_example =
    issue-verify live scrypt b'a' (b'-' ∷ b'1' ∷ []) [] tail (b'k' ∷ []) (b's' ∷ []) 5 9 []
      (refl, (refl, (refl, tt))) refl

-- Audit
abbrev secret_payload : Text → Json
secret_payload otp = obj (field (text "reason") (str (text "x")) (field (text "otp") (str otp) end))

sensitive : is_sensitive_key (λ s. s) (text "otp") ≡ true
unfolding is_sensitive_key sensitive_keys text list_beq
sensitive = refl

redact_secrets-IsClean_example :
    IsClean (λ s. s) (redact_secrets (λ s. s) (secret_payload (text "123456")))
    × (redact_secrets (λ s. s) (secret_payload (text "123456"))
        ≡ redact_secrets (λ s. s) (secret_payload (text "654321")))
redact_secrets-IsClean_example =
    redact_secrets-IsClean (λ s. s) (secret_payload (text "123456"))
      (secret_payload (text "654321"))
      (refl, ((λ h. refl), (refl, ((λ h. absurd (ground (arith, sensitive))), tt))))

abbrev entry : ℕ → AuditEntry
entry at = record {
  id = at ∷ [];
  at = at;
  input = record {
    actor = system;
    tenant_ref = none;
    action = tenant_created;
    target_id = none;
    result = fine;
    zatca_request_id = none;
    request_id = none;
    payload = none;
  };
}

abbrev log : List AuditEntry
log = entry 3 ∷ entry 5 ∷ entry 4 ∷ []

abbrev newest_two : AuditListFilter
newest_two = record {
  tenant_ref = none;
  action = none;
  actor_type = none;
  since = none;
  until = none;
  result = some fine;
  limit = some 2;
}

list_lem_example : IsAnswer newest_two log (list newest_two log)
list_lem_example = list_lem newest_two log

-- Vault: the cipher numbers its envelopes
abbrev cipher : SecretCipher ℕ (ℕ × Text)
cipher = record { encrypt = λ s c. (ok (c, s), c); decrypt = λ x. ok x.1 }

abbrev material : SignerMaterial
material = record {
  private_key = text "key";
  production_certificate = text "cert";
  production_binary_security_token = text "token";
  production_api_secret = text "secret";
  compliance_certificate = none;
  compliance_binary_security_token = some (text "ct");
  compliance_api_secret = none;
}

abbrev vault : Vault ℕ (ℕ × Text)
vault = record { rows = []; cipher_state = 1 }

put-get_example :
    ((get cipher acme (put cipher acme material vault).1).0 ≡ ok (some material))
    × ((get cipher (b'b' ∷ []) (put cipher acme material vault).1).0
        ≡ (get cipher (b'b' ∷ []) vault).0)
unfolding put encrypt_material encrypt_optional
put-get_example =
    put-get cipher (λ s c x h. ground arith) acme (b'b' ∷ []) material vault refl (λ h. cc)
