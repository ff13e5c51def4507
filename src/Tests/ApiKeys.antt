-- ===== src/Tests/ApiKeys.antt =====
-- Concrete runs of the API-key store.
use dokhna_tech_zatca.Prelude.{◌≡◌, refl, true, some, [], ◌∷◌, ◌++◌, replicate}
use dokhna_tech_zatca.Prelude.Eq.{list_beq}
use dokhna_tech_zatca.Prelude.Text.{Text, text}
use dokhna_tech_zatca.Prelude.Dict.{insert}
use dokhna_tech_zatca.Server.ApiKeys.{
  live, same_env, env_name, ParsedToken, Rows, is_ref_char, span_ref, is_base32, is_tail, parsed_of,
  parse_rest, parse_token, token_of, issue, accepts, scan, resolve,
}
use dokhna_tech_zatca.Server.ApiKeys.Tokens.{Vouches, parse_token-token_of, resolve-Vouches}

abbrev scrypt : Text → Text → Text
scrypt token salt = salt ++ token

abbrev acme : Text
acme = b'a' ∷ b'-' ∷ b'1' ∷ []

abbrev tail : Text
tail = replicate 32 b'A'

abbrev rows : Rows
rows = (issue live scrypt acme [] tail (b'k' ∷ []) (b's' ∷ []) 5 []).1

parse_token-token_of_example :
    parse_token (token_of live scrypt acme tail)
    ≡ some (record { env = live; tenant_ref = acme; tail = tail })
unfolding is_ref_char is_tail is_base32
parse_token-token_of_example =
    parse_token-token_of live scrypt b'a' (b'-' ∷ b'1' ∷ []) tail (refl, (refl, (refl, tt))) refl

resolve-Vouches_example :
    (parsed : ParsedToken) × (parse_token (token_of live scrypt acme tail) ≡ some parsed)
    × (same_env parsed.env live ≡ true)
    × Vouches scrypt parsed.tenant_ref
        (token_of live scrypt acme tail)
        rows
        (record { tenant_ref = acme; token_id = b'k' ∷ [] })
unfolding resolve scan accepts issue token_of env_name text parse_token parse_rest parsed_of
    span_ref is_ref_char is_tail is_base32 insert list_beq
resolve-Vouches_example =
    resolve-Vouches live scrypt (token_of live scrypt acme tail) 9 rows
      (record { tenant_ref = acme; token_id = b'k' ∷ [] }) refl
