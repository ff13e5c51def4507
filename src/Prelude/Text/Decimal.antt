-- ===== src/Prelude/Text/Decimal.antt =====
-- `String(n)` and `padStart`: the number that a printed text spells.
use dokhna_tech_zatca.Prelude.Tests.{ltb, Bool-cases}
use dokhna_tech_zatca.Prelude.Lists.{length, replicate}
use Prim.Native.Nat.{ℕ, zero, suc, ◌+◌, ◌-◌, ◌*◌, ◌/◌, ◌%◌, ◌<◌, ◌≤◌}
use mathlib.Core.Path.{◌≡◌, refl, ap, ◌∙◌}
use mathlib.Core.Logic.{inl, inr}
use mathlib.Core.List.{[], ◌∷◌, ◌++◌}
use native.Mathlib.Omega.{arith}
use dokhna_tech_zatca.Prelude.Text.{Text, digits, decimal, pad_start}

-- the number that decimal digits spell behind `n`
abbrev pub value : ℕ → Text → ℕ
value n [] = n
value n (c ∷ s) = value (n * 10 + (c - b'0')) s

value-digits : (f n : ℕ) (out : Text) → n < f → value 0 (digits f n out) ≡ value n out
unfolding digits
value-digits zero n out h = absurd (omega arith)
value-digits (suc f) n out h = elim (Bool-cases (ltb n 10)) [
  | inl small ↦ ground (arith, ap (λ m. value m out) (small_lem n))
  | inr large ↦
      ground (
        arith,
        value-digits f (n / 10) ((b'0' + n % 10) ∷ out),
        ap (λ m. value m out) (last_digit n),
      )
]
  where
    small_lem : (n : ℕ) → 0 * 10 + (b'0' + n - b'0') ≡ n
    small_lem n = omega arith

    last_digit : (n : ℕ) → n / 10 * 10 + (b'0' + n % 10 - b'0') ≡ n
    last_digit n = omega arith

pub value-decimal : (n : ℕ) → value 0 (decimal n) ≡ n
unfolding decimal
value-decimal n = value-digits (suc n) n [] (omega arith)

value-zeros : (n : ℕ) (s : Text) → value 0 (replicate n b'0' ++ s) ≡ value 0 s
value-zeros zero s = refl
value-zeros (suc n) s = value-zeros n s

pub value-pad_start : (w n : ℕ) → value 0 (pad_start w (decimal n)) ≡ n
unfolding pad_start
value-pad_start w n = value-zeros (w - length (decimal n)) (decimal n) ∙ value-decimal n

-- Numbers below 10 and below 10 000 print to a known number of digits.
digits_step :
    (f n : ℕ) (out : Text)
    → 10 ≤ n
    → digits (suc f) n out ≡ digits f (n / 10) ((b'0' + n % 10) ∷ out)
unfolding digits
digits_step f n out h = ground arith

digits_last : (f n : ℕ) (out : Text) → n < 10 → digits (suc f) n out ≡ (b'0' + n) ∷ out
unfolding digits
digits_last f n out h = ground arith

pub length-decimal_one : (n : ℕ) → n < 10 → length (decimal n) ≡ 1
unfolding decimal
length-decimal_one n h = ap length (digits_last n n [] h)

pub length-decimal_two : (n : ℕ) → 10 ≤ n → n < 100 → length (decimal n) ≡ 2
unfolding decimal
length-decimal_two zero lo hi = absurd (omega arith)
length-decimal_two (suc m) lo hi =
    ap length (digits_step (suc m) (suc m) [] lo ∙ digits_last m (suc m / 10) _ (omega arith))

pub length-decimal_four : (n : ℕ) → 1000 ≤ n → n < 10_000 → length (decimal n) ≡ 4
unfolding decimal
length-decimal_four (suc (suc (suc m))) lo hi =
    let n = suc (suc (suc m)) in
    ap length (
      digits_step n n [] (omega arith)
      ∙ digits_step (suc (suc m)) (n / 10) _ (omega arith)
      ∙ digits_step (suc m) (n / 10 / 10) _ (omega arith)
      ∙ digits_last m (n / 10 / 10 / 10) _ (omega arith))
length-decimal_four _ lo hi = absurd (omega arith)

-- A month prints to two characters.
pub length-pad_start_two : (n : ℕ) → n < 100 → length (pad_start 2 (decimal n)) ≡ 2
unfolding pad_start
length-pad_start_two n h = elim (Bool-cases (ltb n 10)) [
  | inl small ↦
      rw (length-decimal_one n (ground arith)) (ap suc (length-decimal_one n (ground arith)))
  | inr large ↦ rw (length-decimal_two n (ground arith) h) (length-decimal_two n (ground arith) h)
]
