-- ===== src/Server/Audit/Redact.antt =====
-- packages/server/src/audit/redact.ts, on payloads that are JSON: these hold no binary data, no Date,
-- Map or Set, and no cycle. `toLowerCase` and the size of a payload in bytes are parameters.
use dokhna_tech_zatca.Prelude.{
  ℕ, ◌+◌, Bool, true, false, ◌&&◌, ◌||◌, Option, none, some, List, [], ◌∷◌, leb, eqb, if◌then◌else◌,
}
use dokhna_tech_zatca.Prelude.Eq.{◌==◌}
use dokhna_tech_zatca.Prelude.Text.{Text, text, text_eq}
use dokhna_tech_zatca.Json.{Json, bool, number, str, arr, obj, Items, nil, cons, Fields, end, field}

unfoldable pub sensitive_keys : List Text
sensitive_keys =
    text "privatekey"
    ∷ text "private_key"
    ∷ text "apisecret"
    ∷ text "api_secret"
    ∷ text "complianceapisecret"
    ∷ text "productionapisecret"
    ∷ text "binarysecuritytoken"
    ∷ text "binary_security_token"
    ∷ text "compliancebinarysecuritytoken"
    ∷ text "productionbinarysecuritytoken"
    ∷ text "apikey"
    ∷ text "api_key"
    ∷ text "otp"
    ∷ text "authorization"
    ∷ text "token"
    ∷ text "bearer"
    ∷ text "masterkey"
    ∷ text "master_key"
    ∷ text "masterkeys"
    ∷ text "csr"
    ∷ text "csid"
    ∷ text "pem"
    ∷ text "pemcertificate"
    ∷ text "compliancecsidvalue"
    ∷ text "productioncsidvalue"
    ∷ text "signature"
    ∷ text "signaturevalue"
    ∷ text "signedxml"
    ∷ text "password"
    ∷ text "secret"
    ∷ []

abbrev has : Text → List Text → Bool
has key [] = false
has key (other ∷ keys) = other == key || has key keys

-- The text begins with a word of small letters, in either case.
abbrev begins : (word s : Text) → Bool
begins [] s = true
begins (c ∷ word) [] = false
begins (c ∷ word) (d ∷ s) = (eqb d c || eqb (d + 32) c) && begins word s

abbrev holds : (word s : Text) → Bool
holds word [] = begins word []
holds word (d ∷ s) = begins word (d ∷ s) || holds word s

-- `/(secret|token|password)/i`
unfoldable pub sensitive_re : Text → Bool
sensitive_re key =
    holds (text "secret") key || (holds (text "token") key || holds (text "password") key)

abbrev pub redacted : Json
redacted = str (text "[REDACTED]")

module _ (to_lower_case : Text → Text) where
  unfoldable pub is_sensitive_key : Text → Bool
  unfolding sensitive_re sensitive_keys
  is_sensitive_key key = has (to_lower_case key) sensitive_keys || sensitive_re key

  unfoldable mutual
    unfolding is_sensitive_key

    pub walk : Json → Json
    walk (arr items) = arr (walk_items items)
    walk (obj fields) = obj (walk_fields fields)
    walk v = v

    pub walk_items : Items → Items
    walk_items nil = nil
    walk_items (cons v rest) = cons (walk v) (walk_items rest)

    pub walk_fields : Fields → Fields
    walk_fields end = end
    walk_fields (field key v rest) =
        field key (elim (is_sensitive_key key) [ true ↦ redacted | false ↦ walk v ])
          (walk_fields rest)

  unfoldable pub redact_secrets : Json → Json
  unfolding walk
  redact_secrets input = walk input

unfoldable pub max_audit_payload_bytes : ℕ
max_audit_payload_bytes = 16_384

abbrev dropped_note : Text
dropped_note =
    text
      "Audit payload exceeded the configured size cap and was dropped. See server log for context."

-- `size` is the number of bytes of the payload's JSON in UTF-8.
unfoldable pub cap_audit_payload : (size : Json → ℕ) → (max_bytes : ℕ) → Option Json → Option Json
cap_audit_payload size max_bytes none = none
cap_audit_payload size max_bytes (some payload) =
    if leb (size payload) max_bytes
    then some payload
    else some (
        obj (
          field (text "_truncated") (bool true) (
            field (text "originalBytes") (number (size payload)) (
              field (text "maxBytes") (number max_bytes)
                (field (text "note") (str dropped_note) end)))))
