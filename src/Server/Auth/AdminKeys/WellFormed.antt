-- ===== src/Server/Auth/AdminKeys/WellFormed.antt =====
-- What a parsed list of admin keys is, and whom the verifier lets in.
use dokhna_tech_zatca.Prelude.{
  ◌≤◌, ◌≡◌, subst, ◌≢◌, ◌⊎◌, inl, inr, refl, false, none, some, Option, List, [], ◌∷◌, ◌||◌, length,
  All, arith, Bool-cases, Option-cases, ltb, eqb, ◌+◌, ◌-◌, take, drop,
}
use dokhna_tech_zatca.Prelude.Eq.{◌==◌}
use dokhna_tech_zatca.Prelude.Text.{Text, text_eq}
use dokhna_tech_zatca.Prelude.Text.Trim.{trim}
use dokhna_tech_zatca.Prelude.Text.Parts.{index_of}
use dokhna_tech_zatca.Prelude.Exec.{ok}
use dokhna_tech_zatca.Prelude.Fallible.{fine_first}
use dokhna_tech_zatca.Server.Auth.AdminKeys.{
  min_key_length, AdminKeyEntry, has, checked_entry, parse_entry, parse_entries, entries_of,
  parse_admin_keys, constant_time_equals, verify_from, verify,
}

-- The label is new.
abbrev pub Fresh : List Text → Text → Type 0
Fresh seen label = All (λ other. other ≢ label) seen

-- What an entry must be behind labels that were seen.
abbrev pub Passed : List Text → AdminKeyEntry → Type 0
Passed seen entry = (entry.label ≢ []) × (32 ≤ length entry.key) × Fresh seen entry.label

abbrev pub Fine : List Text → List AdminKeyEntry → Type 0
Fine seen [] = Unit
Fine seen (entry ∷ entries) = Passed seen entry × Fine (entry.label ∷ seen) entries

has-Fresh : (label : Text) (seen : List Text) → has label seen ≡ false → Fresh seen label
has-Fresh label [] h = tt
has-Fresh label (other ∷ seen) h =
    let facts : ((other == label) ≡ false) × (has label seen ≡ false) = ground arith in
    ((λ same. ground (arith, text_eq.beq_iff other label)), has-Fresh label seen facts.1)

checked_entry-Passed :
    (seen : List Text) (entry label key : Text) {parsed : AdminKeyEntry}
    → checked_entry seen entry label key ≡ ok parsed
    → Passed seen parsed
unfolding checked_entry min_key_length
checked_entry-Passed seen entry [] key h = absurd (cc)
checked_entry-Passed seen entry (c ∷ label) key {parsed} h =
    elim (Bool-cases (ltb (length key) 32)) [
      | inl short ↦ absurd (ground arith)
      | inr long ↦ elim (Bool-cases (has (c ∷ label) seen)) [
        | inl twice ↦ absurd (ground arith)
        | inr once ↦
            let made : record { label = c ∷ label; key = key } ≡ parsed = ground arith in
            subst (λ p. Passed seen p) made
              ((λ e. cc), ground arith, has-Fresh (c ∷ label) seen once)
      ]
    ]

parse_entry-Passed :
    (seen : List Text) (entry : Text) {parsed : AdminKeyEntry}
    → parse_entry seen entry ≡ ok parsed
    → Passed seen parsed
unfolding parse_entry
parse_entry-Passed seen entry h = elim (Option-cases (index_of b':' entry)) [
  | inl lacking ↦ absurd (ground arith)
  | inr (idx, found) ↦ elim (Bool-cases (eqb idx 0 || eqb idx (length entry - 1))) [
    | inl outer ↦ absurd (ground arith)
    | inr inner ↦
        checked_entry-Passed seen entry (trim (take idx entry)) (trim (drop (idx + 1) entry))
          (ground arith)
  ]
]

parse_entries-Fine :
    (seen entries : List Text) (parsed : List AdminKeyEntry)
    → parse_entries seen entries ≡ ok parsed
    → Fine seen parsed × (length parsed ≡ length entries)
unfolding parse_entries
parse_entries-Fine seen [] parsed h =
    let none : [] ≡ parsed = cc in subst (λ p. Fine seen p × (length p ≡ 0)) none (tt, refl)
parse_entries-Fine seen (entry ∷ entries) parsed h =
    let (first, p, h') = fine_first (parse_entry seen entry) _ h in
    let (rest, q, h'') = fine_first (parse_entries (first.label ∷ seen) entries) _ h' in
    let (fine, n) = parse_entries-Fine (first.label ∷ seen) entries rest q in
    let made : first ∷ rest ≡ parsed = cc in
    subst (λ l. Fine seen l × (length l ≡ length (entry ∷ entries))) made
      ((parse_entry-Passed seen entry p, fine), rw n refl)

-- A parsed list of admin keys has an entry, its labels are not empty and pairwise different, and
-- every key has 32 characters or more.
pub parse_admin_keys-Fine :
    (raw : Text) (parsed : List AdminKeyEntry)
    → parse_admin_keys raw ≡ ok parsed
    → Fine [] parsed × (parsed ≢ [])
unfolding parse_admin_keys
parse_admin_keys-Fine raw parsed h = by_entries (entries_of raw) refl
  where
    by_entries : (es : List Text) → entries_of raw ≡ es → Fine [] parsed × (parsed ≢ [])
    by_entries [] e = absurd (ground arith)
    by_entries (first ∷ rest) e =
        let (fine, n) = parse_entries-Fine [] (first ∷ rest) parsed (ground arith) in
        (fine, λ empty. ground arith)

module _ (sha256 : Text → Text) where
  abbrev pub Matches : Text → AdminKeyEntry → Type 0
  Matches presented entry = sha256 presented ≡ sha256 entry.key

  -- The label of an entry whose key has the digest of the presented one.
  abbrev pub Named : Text → Text → List AdminKeyEntry → Type 0
  Named presented label [] = ⊥
  Named presented label (entry ∷ entries) =
      ((entry.label ≡ label) × Matches presented entry) ⊎ Named presented label entries

  -- What the loop ends with, behind an earlier match or none.
  abbrev Ended : Option Text → Text → List AdminKeyEntry → Type 0
  Ended matched presented entries =
      ((verify_from sha256 matched presented entries ≡ matched)
        × All (λ e. ¬ (Matches presented e)) entries)
      ⊎ ((label : Text) × (verify_from sha256 matched presented entries ≡ some label)
          × Named presented label entries)

  verify_from-Ended :
      (matched : Option Text) (presented : Text) (entries : List AdminKeyEntry)
      → Ended matched presented entries
  unfolding verify_from
  verify_from-Ended matched presented [] = inl (refl, tt)
  verify_from-Ended matched presented (entry ∷ entries) =
      elim (Bool-cases (constant_time_equals sha256 presented entry.key)) [
        | inl same ↦
            let match = (text_eq.beq_iff (sha256 presented) (sha256 entry.key)).0 same in
            elim (verify_from-Ended (some entry.label) presented entries) [
              | inl (last, _) ↦ inr (entry.label, rw same last, inl (refl, match))
              | inr (label, later, named) ↦ inr (label, rw same later, inr named)
            ]
        | inr other ↦ elim (verify_from-Ended matched presented entries) [
          | inl (kept, lacks) ↦ inl (
            rw other kept,
            (
              (λ match. ground (arith, text_eq.beq_iff (sha256 presented) (sha256 entry.key))),
              lacks,
            ),
          )
          | inr (label, later, named) ↦ inr (label, rw other later, inr named)
        ]
      ]

  -- The verifier turns a presented key down exactly where no entry's key has its digest, and
  -- otherwise names the label of an entry whose key has.
  pub verify_lem :
      (entries : List AdminKeyEntry) (presented : Text)
      → ((verify sha256 entries presented ≡ none) × All (λ e. ¬ (Matches presented e)) entries)
        ⊎ ((label : Text) × (verify sha256 entries presented ≡ some label)
            × Named presented label entries)
  unfolding verify
  verify_lem entries presented = verify_from-Ended none presented entries
