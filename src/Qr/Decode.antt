-- ===== src/Qr/Decode.antt =====
-- Reading a TLV byte string back, as a scanner of the QR code does.
use dokhna_tech_zatca.Prelude.{
  ℕ, zero, suc, ◌+◌, ◌%◌, ◌≤◌, ◌<◌, ◌≡◌, refl, Option, none, some, List, [], ◌∷◌, ◌++◌, length,
  take, drop, ltb, false, All, arith, inl, inr, Bool-cases, take_all-append, drop_all-append,
  length-append, if◌then◌else◌,
}
use dokhna_tech_zatca.Prelude.Exec.{ok, err, Result-cases}
use dokhna_tech_zatca.Qr.{
  Bytes, TlvValue, Encoding, too_long, bytes_of, segment, segments, create_tlv,
}

abbrev onto : ℕ × Bytes → Option (List (ℕ × Bytes)) → Option (List (ℕ × Bytes))
onto entry none = none
onto entry (some entries) = some (entry ∷ entries)

-- An independent reader: a tag, a length, and so many bytes. Each entry takes two bytes or more,
-- so the length of the input is enough fuel.
unfoldable pub read_entries : ℕ → Bytes → Option (List (ℕ × Bytes))
read_entries fuel [] = some []
read_entries zero (tag ∷ input) = none
read_entries (suc fuel) (tag ∷ []) = none
read_entries (suc fuel) (tag ∷ (n ∷ input)) =
    let rest = read_entries fuel (drop n input) in
    if ltb (length input) n then none else onto (tag, take n input) rest

unfoldable pub read_tlv : Bytes → Option (List (ℕ × Bytes))
unfolding read_entries
read_tlv input = read_entries (length input) input

module _ (e : Encoding) where
  abbrev pub tagged : (index : ℕ) → List TlvValue → List (ℕ × Bytes)
  tagged index [] = []
  tagged index (value ∷ values) = (index + 1, bytes_of e value) ∷ tagged (index + 1) values

  abbrev pub Fits : TlvValue → Type 0
  Fits value = length (bytes_of e value) ≤ 255

  segment_ok :
      (tag : ℕ) (b : Bytes) → length b ≤ 255 → segment e tag b ≡ ok (tag % 256 ∷ (length b ∷ b))
  unfolding segment
  segment_ok tag b h = let small : length b % 256 ≡ length b = omega arith in ground arith

  segment_err :
      (tag : ℕ) (b : Bytes) → 255 < length b → segment e tag b ≡ err (too_long tag (length b))
  unfolding segment
  segment_err tag b h = ground arith

  -- What a successful encoding of a first value is.
  abbrev Opened : ℕ → TlvValue → List TlvValue → Bytes → Type 0
  Opened index value values out =
      Fits value
      × ((rest : Bytes) × (segments e (index + 1) values ≡ ok rest)
          × (out ≡ (index + 1) % 256 ∷ (length (bytes_of e value) ∷ (bytes_of e value ++ rest))))

  segments_open :
      (index : ℕ) (value : TlvValue) (values : List TlvValue) (out : Bytes)
      → segments e index (value ∷ values) ≡ ok out
      → Opened index value values out
  unfolding segments
  segments_open index value values out h = elim (Bool-cases (ltb 255 (length (bytes_of e value)))) [
    | inl long ↦ absurd (ground (arith, segment_err (index + 1) (bytes_of e value)))
    | inr short ↦ elim (Result-cases (segments e (index + 1) values)) [
      | inl (rest, q) ↦
          (ground arith, (rest, q, ground (arith, segment_ok (index + 1) (bytes_of e value))))
      | inr (x, q) ↦ absurd (ground (arith, segment_ok (index + 1) (bytes_of e value)))
    ]
  ]

read_entry_lem :
    (fuel tag : ℕ) (b rest : Bytes)
    → read_entries (suc fuel) (tag ∷ (length b ∷ (b ++ rest)))
      ≡ onto (tag, b) (read_entries fuel rest)
unfolding read_entries
read_entry_lem fuel tag b rest =
    let enough : ltb (length (b ++ rest)) (length b) ≡ false =
      ground (arith, length-append b rest) in
    rw (enough, take_all-append b rest, drop_all-append b rest) refl

module _ (e : Encoding) where
  segments-read_entries :
      (values : List TlvValue) (index fuel : ℕ) (out : Bytes)
      → index + length values ≤ 255
      → segments e index values ≡ ok out
      → length out ≤ fuel
      → read_entries fuel out ≡ some (tagged e index values)
  unfolding segments read_entries
  segments-read_entries [] index fuel out h p f = ground arith
  segments-read_entries (value ∷ values) index zero out h p f =
      absurd (ground (arith, segments_open e index value values out p))
  segments-read_entries (value ∷ values) index (suc fuel) out h p f =
      let (fits, (rest, q, r)) = segments_open e index value values out p in
      let small : (index + 1) % 256 ≡ index + 1 = omega arith in
      let shorter : length rest ≤ fuel = ground (arith, length-append (bytes_of e value) rest) in
      rw
        (
          r,
          read_entry_lem fuel ((index + 1) % 256) (bytes_of e value) rest,
          segments-read_entries values (index + 1) fuel rest (omega arith) q shorter,
          small,
        )
        refl

  -- What `createTLV` returns for at most 255 values is read back as the values' bytes in order,
  -- each under its position counted from 1.
  pub create_tlv-read_tlv :
      (values : List TlvValue) (out : Bytes)
      → length values ≤ 255
      → create_tlv e values ≡ ok out
      → read_tlv out ≡ some (tagged e 0 values)
  unfolding create_tlv read_tlv
  create_tlv-read_tlv values out h p =
      segments-read_entries values 0 (length out) out (omega arith) p (omega arith)

  segments_total :
      (values : List TlvValue) (index : ℕ)
      → All (Fits e) values
      → (out : Bytes) × (segments e index values ≡ ok out)
  unfolding segments
  segments_total [] index fits = ([], refl)
  segments_total (value ∷ values) index (fit, fits) =
      let (rest, q) = segments_total values (index + 1) fits in
      (
        (index + 1) % 256 ∷ (length (bytes_of e value) ∷ (bytes_of e value ++ rest)),
        rw (segment_ok e (index + 1) (bytes_of e value) fit, q) refl,
      )

  segments_first :
      (front : List TlvValue) (value : TlvValue) (back : List TlvValue) (index position : ℕ)
      → All (Fits e) front
      → 255 < length (bytes_of e value)
      → position ≡ index + length front + 1
      → segments e index (front ++ value ∷ back)
        ≡ err (too_long position (length (bytes_of e value)))
  unfolding segments
  segments_first [] value back index position fits long p =
      let here : position ≡ index + 1 = omega arith in
      rw (segment_err e (index + 1) (bytes_of e value) long, here) refl
  segments_first (v ∷ front) value back index position (fit, fits) long p =
      rw
        (
          segment_ok e (index + 1) (bytes_of e v) fit,
          segments_first front value back (index + 1) position fits long (omega arith),
        )
        refl

  -- `createTLV` succeeds on values of at most 255 bytes each; behind them, a value that is longer
  -- makes it throw a RangeError that names that value's position and length, whatever follows.
  pub create_tlv_first_long :
      (front : List TlvValue) (value : TlvValue) (back : List TlvValue)
      → All (Fits e) front
      → 255 < length (bytes_of e value)
      → ((out : Bytes) × (create_tlv e front ≡ ok out))
        × (create_tlv e (front ++ value ∷ back)
            ≡ err (too_long (length front + 1) (length (bytes_of e value))))
  unfolding create_tlv
  create_tlv_first_long front value back fits long = (
    segments_total front 0 fits,
    segments_first front value back 0 (length front + 1) fits long (omega arith),
  )
