-- ===== src/Qr/Scan.antt =====
-- What a scanner reads in the QR codes of an invoice, and how the two codes relate.
use dokhna_tech_zatca.Prelude.{
  some, subst, ℕ, ◌+◌, ◌≡◌, refl, ap, ◌∙◌, List, [], ◌∷◌, ◌++◌, arith, append_assoc, inl, inr,
}
use dokhna_tech_zatca.Prelude.Text.{Text}
use dokhna_tech_zatca.Json.{Json}
use dokhna_tech_zatca.Prelude.Exec.{ok, err, Result-cases}
use dokhna_tech_zatca.Prelude.Fallible.{fine_first}
use dokhna_tech_zatca.Errors.{Result}
use dokhna_tech_zatca.Qr.{
  string, Bytes, TlvValue, Encoding, bytes_of, segment, joined, segments, create_tlv,
  encode_tlv_as_base64,
}
use dokhna_tech_zatca.Qr.Decode.{read_tlv, create_tlv-read_tlv}
use dokhna_tech_zatca.Qr.Phases.{
  read_leaf, read_vat_number, read_issue_timestamp, read_amount_text, read_vat_total,
  Phase2QrParams, invoice_values, cryptographic_values, generate_phase1_qr, generate_phase2_qr,
}

-- The five texts of an invoice, as values of the code.
abbrev pub five : (seller vat_number timestamp total vat_total : Text) → List TlvValue
five seller vat_number timestamp total vat_total =
    string seller ∷ string vat_number ∷ string timestamp ∷ string total ∷ string vat_total ∷ []

invoice_values_lem :
    (invoice : Json) {values : List TlvValue}
    → invoice_values invoice ≡ ok values
    → (a : Text) × (b : Text) × (c : Text) × (d : Text) × (f : Text) × (values ≡ five a b c d f)
unfolding invoice_values
invoice_values_lem invoice h =
    let (a, _, ha) = fine_first (read_leaf invoice _ _) _ h in
    let (b, _, hb) = fine_first (read_vat_number invoice) _ ha in
    let (c, _, hc) = fine_first (read_issue_timestamp invoice) _ hb in
    let (d, _, hd) = fine_first (read_amount_text invoice _ _) _ hc in
    let (f, _, hf) = fine_first (read_vat_total invoice) _ hd in (a, b, c, d, f, cc)

module _ (e : Encoding) where
  joined-ok :
      (s r : Result Bytes) {out : Bytes}
      → joined e s r ≡ ok out
      → (a : Bytes) × (s ≡ ok a) × ((b : Bytes) × (r ≡ ok b) × (out ≡ a ++ b))
  joined-ok (err x) r h = absurd (cc)
  joined-ok (ok a) (err x) h = absurd (cc)
  joined-ok (ok a) (ok b) h = (a, refl, (b, refl, cc))

  segments-append :
      (index : ℕ) (front back : List TlvValue) {out : Bytes}
      → segments e index (front ++ back) ≡ ok out
      → (a : Bytes) × (segments e index front ≡ ok a) × ((b : Bytes) × (out ≡ a ++ b))
  unfolding segments
  segments-append index [] back {out} h = ([], refl, (out, refl))
  segments-append index (v ∷ front) back h =
      let (s, p, (r, q, split)) =
        joined-ok (segment e (index + 1) (bytes_of e v)) (segments e (index + 1) (front ++ back))
          h in
      let (a, pa, (b, pb)) = segments-append (index + 1) front back q in
      (s ++ a, rw (p, pa) refl, (b, rw (split, pb, append_assoc) refl))

  encoded :
      (values : List TlvValue) {qr : Text}
      → encode_tlv_as_base64 e values ≡ ok qr
      → (out : Bytes) × (create_tlv e values ≡ ok out) × (qr ≡ e.base64 out)
  unfolding encode_tlv_as_base64
  encoded values h = elim (Result-cases (create_tlv e values)) [
    | inl (out, q) ↦ (out, q, ground arith)
    | inr (x, q) ↦ absurd (ground arith)
  ]

  -- Where the Phase 2 code of an invoice is made, the Phase 1 code is made too, and its bytes are
  -- the first bytes of the Phase 2 code. The base64 of bytes must decode to them.
  pub phase2-phase1_prefix :
      (unbase64 : Text → Bytes)
      → ((b : Bytes) → unbase64 (e.base64 b) ≡ b)
      → (p : Phase2QrParams) {qr : Text} → generate_phase2_qr e p ≡ ok qr
      → (first : Text) × (generate_phase1_qr e p.invoice ≡ ok first)
        × ((rest : Bytes) × (unbase64 qr ≡ unbase64 first ++ rest))
  unfolding generate_phase2_qr generate_phase1_qr
  phase2-phase1_prefix unbase64 inverse p h =
      let (values, read, made) = fine_first (invoice_values p.invoice) _ h in
      let (out, tlv, shown) = encoded (values ++ cryptographic_values e p) made in
      let (a, pa, (b, pb)) =
        segments-append 0 values (cryptographic_values e p) (unfold create_tlv in tlv) in
      (
        e.base64 a,
        rw read (unfold encode_tlv_as_base64 create_tlv in rw pa refl),
        (b, rw (shown, inverse, inverse, pb) refl),
      )

  -- A Phase 2 code that is made holds nine entries: under the tags 1 to 5 the invoice's texts in
  -- UTF-8, under 6 and 7 the UTF-8 of the hash and of the signature in base64, under 8 and 9 the raw
  -- bytes of the key and of the certificate's signature. The base64 of bytes must decode to them.
  pub phase2-read_tlv :
      (unbase64 : Text → Bytes)
      → ((b : Bytes) → unbase64 (e.base64 b) ≡ b)
      → (p : Phase2QrParams) {qr : Text} → generate_phase2_qr e p ≡ ok qr
      → (a : Text) × (b : Text) × (c : Text) × (d : Text) × (f : Text) × (invoice_values p.invoice
          ≡ ok (five a b c d f))
        × (read_tlv (unbase64 qr)
            ≡ some (
                (1, e.utf8 a)
                ∷ (2, e.utf8 b)
                ∷ (3, e.utf8 c)
                ∷ (4, e.utf8 d)
                ∷ (5, e.utf8 f)
                ∷ (6, e.utf8 p.invoice_hash)
                ∷ (7, e.utf8 p.digital_signature)
                ∷ (8, p.public_key)
                ∷ (9, p.certificate_signature)
                ∷ []))
  unfolding generate_phase2_qr
  phase2-read_tlv unbase64 inverse p h =
      let (values, read, made) = fine_first (invoice_values p.invoice) _ h in
      let (out, tlv, shown) = encoded (values ++ cryptographic_values e p) made in
      let (a, b, c, d, f, shape) = invoice_values_lem p.invoice read in
      let tlv' = subst (λ v. create_tlv e (v ++ cryptographic_values e p) ≡ ok out) shape tlv in
      (
        a,
        b,
        c,
        d,
        f,
        read ∙ ap ok shape,
        rw (shown, inverse)
            (create_tlv-read_tlv e (five a b c d f ++ cryptographic_values e p) out (omega arith)
              tlv'),
      )
