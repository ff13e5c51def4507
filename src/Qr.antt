-- ===== src/Qr.antt =====
-- packages/core/src/qr/tlv.ts: the tag-length-value bytes of a QR code.
-- Interfaces: UTF-8 and base64, the functions of Node's Buffer.
pub mod Decode
pub mod Phases
pub mod Scan
use dokhna_tech_zatca.Prelude.{
  ℕ, suc, ◌+◌, ◌%◌, ◌≡◌, refl, none, List, [], ◌∷◌, ◌++◌, length, ltb, if◌then◌else◌,
}
use dokhna_tech_zatca.Prelude.Text.{Text, text, decimal}
use dokhna_tech_zatca.Prelude.Exec.{ok, err}
use dokhna_tech_zatca.Errors.{ZatcaError, plain_error, Result}

abbrev pub Bytes : Type 0
Bytes = List ℕ

pub data TlvValue : Type 0 where
  string : Text → TlvValue
  bytes : Bytes → TlvValue

pub record Encoding : Type 0 where
  pub utf8 : Text → Bytes
  pub base64 : Bytes → Text

unfoldable pub too_long : (tag_number byte_length : ℕ) → ZatcaError
too_long tag_number byte_length = plain_error (text "RangeError") none (
    text "TLV tag "
    ++ (decimal tag_number
        ++ (text " exceeds the 255-byte length cap (got "
            ++ (decimal byte_length ++ text " bytes)."))))

module _ (e : Encoding) where
  abbrev pub bytes_of : TlvValue → Bytes
  bytes_of (string s) = e.utf8 s
  bytes_of (bytes b) = b

  -- One segment; a `Uint8Array` keeps the tag number modulo 256.
  unfoldable pub segment : (tag_number : ℕ) → Bytes → Result Bytes
  segment tag_number b =
      if ltb 255 (length b)
      then err (too_long tag_number (length b))
      else ok (tag_number % 256 ∷ (length b % 256 ∷ b))

  abbrev pub joined : Result Bytes → Result Bytes → Result Bytes
  joined (err x) rest = err x
  joined (ok s) (err x) = err x
  joined (ok s) (ok out) = ok (s ++ out)

  -- The segments from position `index` on, joined.
  unfoldable pub segments : (index : ℕ) → List TlvValue → Result Bytes
  unfolding segment
  segments index [] = ok []
  segments index (value ∷ values) =
      joined (segment (index + 1) (bytes_of value)) (segments (index + 1) values)

  unfoldable pub create_tlv : List TlvValue → Result Bytes
  unfolding segments
  create_tlv values = segments 0 values

  abbrev in_base64 : Result Bytes → Result Text
  in_base64 (ok out) = ok (e.base64 out)
  in_base64 (err x) = err x

  unfoldable pub encode_tlv_as_base64 : List TlvValue → Result Text
  unfolding create_tlv
  encode_tlv_as_base64 values = in_base64 (create_tlv values)
