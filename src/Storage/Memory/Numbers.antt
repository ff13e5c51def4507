-- ===== src/Storage/Memory/Numbers.antt =====
-- The default format of invoice numbers, `YYYYMM######`.
use dokhna_tech_zatca.Prelude.{
  ◌≤◌, ◌<◌, ◌≡◌, ap, sym, ◌∙◌, ◌++◌, length, take, drop, take_all-append, drop_all-append,
}
use dokhna_tech_zatca.Prelude.Text.{Text, decimal, pad_start}
use dokhna_tech_zatca.Prelude.Text.Decimal.{
  value, value-decimal, value-pad_start, length-decimal_four, length-pad_start_two,
}
use dokhna_tech_zatca.Storage.Memory.{FormatInput, default_formatter}

-- Texts of equal length in front are cut off in one way only.
append_unique :
    (a b : Text) {x y : Text} → length a ≡ length b → a ++ x ≡ b ++ y → (a ≡ b) × (x ≡ y)
append_unique a b {x} {y} h e = (
  sym (take_all-append a x)
      ∙ ap (λ n. take n (a ++ x)) h
      ∙ ap (take (length b)) e
      ∙ take_all-append b y,
  sym (drop_all-append a x)
      ∙ ap (λ n. drop n (a ++ x)) h
      ∙ ap (drop (length b)) e
      ∙ drop_all-append b y,
)

-- A month of a year with four digits.
pub record IsCalendar (i : FormatInput) : Type 0 where
  pub year_low : 1000 ≤ i.year
  pub year_high : i.year < 10_000
  pub month_high : i.month < 100

-- The default format never gives one number twice: years of four digits, months below 100 and
-- sequences of any size are read back from it.
pub default_formatter_injective :
    (a b : FormatInput)
    → IsCalendar a
    → IsCalendar b
    → default_formatter a ≡ default_formatter b
    → (a.year ≡ b.year) × (a.month ≡ b.month) × (a.sequence ≡ b.sequence)
unfolding default_formatter
default_formatter_injective a b ca cb e =
    let years =
      length-decimal_four a.year ca.year_low ca.year_high
      ∙ sym (length-decimal_four b.year cb.year_low cb.year_high) in
    let months =
      length-pad_start_two a.month ca.month_high
      ∙ sym (length-pad_start_two b.month cb.month_high) in
    let (y, rest) = append_unique (decimal a.year) (decimal b.year) years e in
    let (m, q) =
      append_unique (pad_start 2 (decimal a.month)) (pad_start 2 (decimal b.month)) months rest in
    (
      sym (value-decimal a.year) ∙ ap (value 0) y ∙ value-decimal b.year,
      sym (value-pad_start 2 a.month) ∙ ap (value 0) m ∙ value-pad_start 2 b.month,
      sym (value-pad_start 6 a.sequence) ∙ ap (value 0) q ∙ value-pad_start 6 b.sequence,
    )
