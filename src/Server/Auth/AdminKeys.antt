-- ===== src/Server/Auth/AdminKeys.antt =====
-- packages/server/src/auth/admin-keys.ts. The SHA-256 digest of a key's UTF-8 is a parameter;
-- `timingSafeEqual` on two digests, which have one length, is equality.
pub mod WellFormed
pub mod Bearer
use dokhna_tech_zatca.Prelude.{
  ℕ, suc, ◌+◌, ◌-◌, Bool, true, false, ◌&&◌, ◌||◌, Option, none, some, List, [], ◌∷◌, ◌++◌, map,
  keep, length, take, drop, ltb, eqb, not, if◌then◌else◌,
}
use dokhna_tech_zatca.Prelude.Eq.{◌==◌}
use dokhna_tech_zatca.Prelude.Text.{Text, text, text_eq, decimal}
use dokhna_tech_zatca.Prelude.Text.Trim.{is_space, is_line_end, trim, trim_start}
use dokhna_tech_zatca.Prelude.Text.Parts.{split, index_of}
use dokhna_tech_zatca.Prelude.Exec.{ok, err}
use dokhna_tech_zatca.Prelude.Fallible.{◌>>=◌}
use dokhna_tech_zatca.Errors.{ZatcaError, server_error, auth_error, Result}

unfoldable pub min_key_length : ℕ
min_key_length = 32

pub record AdminKeyEntry : Type 0 where
  pub label : Text
  pub key : Text

abbrev is_empty : Text → Bool
is_empty [] = true
is_empty (c ∷ s) = false

-- `seenLabels.has(label)`
abbrev pub has : Text → List Text → Bool
has label [] = false
has label (other ∷ seen) = other == label || has label seen

abbrev quoted : Text → Text → Text → Text
quoted before s after = before ++ (text "'" ++ (s ++ (text "'" ++ after)))

unfoldable pub malformed_entry : Text → ZatcaError
malformed_entry entry =
    server_error none
      (quoted (text "Admin key entry ") entry (text " must be of the form 'label:key'."))

unfoldable pub too_short : Text → ℕ → ZatcaError
unfolding min_key_length
too_short label n = server_error none (
    quoted (text "Admin key for label ") label (
      text " is too short ("
      ++ (decimal n ++ (text " chars; need " ++ (decimal min_key_length ++ text "+).")))))

-- The checks on an entry's label and key.
unfoldable pub checked_entry : (seen : List Text) (entry label key : Text) → Result AdminKeyEntry
unfolding min_key_length too_short
checked_entry seen entry label key =
    if is_empty label
    then err
        (server_error none (quoted (text "Admin key entry ") entry (text " has an empty label.")))
    else if ltb (length key) min_key_length
    then err (too_short label (length key))
    else if has label seen
    then err (server_error none (quoted (text "Duplicate admin label ") label (text ".")))
    else ok (record { label = label; key = key })

-- One round of the loop, with the labels that were seen before.
unfoldable pub parse_entry : (seen : List Text) (entry : Text) → Result AdminKeyEntry
unfolding checked_entry malformed_entry
parse_entry seen entry = elim (index_of b':' entry) [
  | none ↦ err (malformed_entry entry)
  | some idx ↦
      if eqb idx 0 || eqb idx (length entry - 1)
      then err (malformed_entry entry)
      else checked_entry seen entry (trim (take idx entry)) (trim (drop (idx + 1) entry))
]

unfoldable pub parse_entries : (seen entries : List Text) → Result (List AdminKeyEntry)
unfolding parse_entry
parse_entries seen [] = ok []
parse_entries seen (entry ∷ entries) = do
  parsed ← parse_entry seen entry
  rest ← parse_entries (parsed.label ∷ seen) entries
  ok (parsed ∷ rest)

-- The parts between the commas that are not blank.
unfoldable pub entries_of : Text → List Text
entries_of raw = keep (λ s. not (is_empty s)) (map trim (split b',' raw))

unfoldable pub parse_admin_keys : Text → Result (List AdminKeyEntry)
unfolding parse_entries
parse_admin_keys raw = elim (entries_of raw) [
  | [] ↦ err (
      server_error none
        (text "Admin keys are required. Set ZATCA_SERVER_ADMIN_KEYS=label:key[,label:key...]."))
  | first ∷ rest ↦ parse_entries [] (first ∷ rest)
]

-- After `bearer`: `\s+(\S.*)$`.
abbrev token_after : Text → Option Text
token_after [] = none
token_after (c ∷ s) = if is_empty (keep is_line_end (c ∷ s)) then some (trim (c ∷ s)) else none

abbrev after_scheme : Text → Option Text
after_scheme [] = none
after_scheme (c ∷ s) = if is_space c then token_after (trim_start s) else none

-- A letter of the scheme, in either case.
abbrev same_letter : ℕ → ℕ → Bool
same_letter upper c = eqb c upper || eqb c (upper + 32)

abbrev strip_scheme : Text → Text → Option Text
strip_scheme [] s = some s
strip_scheme (u ∷ scheme) [] = none
strip_scheme (u ∷ scheme) (c ∷ s) = elim (same_letter u c) [
  | true ↦ strip_scheme scheme s
  | false ↦ none
]

unfoldable pub extract_bearer : Text → Option Text
extract_bearer auth_header = elim (strip_scheme (text "BEARER") (trim auth_header)) [
  | none ↦ none
  | some rest ↦ after_scheme rest
]

module _ (sha256 : Text → Text) where
  abbrev pub constant_time_equals : Text → Text → Bool
  constant_time_equals a b = sha256 a == sha256 b

  -- The loop over all entries: the last match stays.
  unfoldable pub verify_from : (matched : Option Text) → Text → List AdminKeyEntry → Option Text
  verify_from matched presented [] = matched
  verify_from matched presented (entry ∷ entries) =
      verify_from (if constant_time_equals presented entry.key then some entry.label else matched)
        presented entries

  unfoldable pub verify : List AdminKeyEntry → Text → Option Text
  unfolding verify_from
  verify entries presented = verify_from none presented entries

  abbrev pub unauthorized : Text → ZatcaError
  unauthorized message = auth_error 401 message

  -- An absent header and an empty one are both missing.
  unfoldable pub verify_header : List AdminKeyEntry → (auth_header : Text) → Result Text
  unfolding verify extract_bearer
  verify_header entries [] = err (unauthorized (text "Missing Authorization header."))
  verify_header entries (c ∷ s) = elim (extract_bearer (c ∷ s)) [
    | none ↦ err (unauthorized (text "Authorization header must be of the form 'Bearer <key>'."))
    | some bearer ↦ elim (verify entries bearer) [
      | none ↦ err (unauthorized (text "Unknown admin key."))
      | some label ↦ ok label
    ]
  ]
