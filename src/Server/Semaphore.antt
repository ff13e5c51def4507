-- ===== src/Server/Semaphore.antt =====
-- packages/server/src/middleware/semaphore.ts: the counting semaphore.
-- The state is the closure's `count` and, for each release function that was handed out, its own
-- `released` flag, in the order of the acquisitions: a release function is its index.
pub mod Count
use dokhna_tech_zatca.Prelude.{
  ℕ, zero, suc, ◌+◌, ◌-◌, Bool, true, false, Option, none, some, List, [], ◌∷◌, ◌++◌, length, leb,
  if◌then◌else◌,
}
use dokhna_tech_zatca.Prelude.Text.{text, decimal}
use dokhna_tech_zatca.Prelude.Exec.{ok, err}
use dokhna_tech_zatca.Errors.{plain_error, Result, Exec}

pub record Semaphore : Type 0 where
  pub capacity : ℕ
  pub count : ℕ
  pub released : List Bool

-- The argument is a natural number, so of the guard's three tests only `capacity <= 0` is left.
unfoldable pub create_semaphore : ℕ → Result Semaphore
create_semaphore capacity =
    if leb capacity 0
    then err (
        plain_error (text "Error") none (
          text "Semaphore capacity must be a positive integer; got "
          ++ (decimal capacity ++ text ".")))
    else ok (record { capacity = capacity; count = 0; released = [] })

abbrev flag_at : ℕ → List Bool → Bool
flag_at n [] = true
flag_at zero (flag ∷ flags) = flag
flag_at (suc n) (flag ∷ flags) = flag_at n flags

abbrev set_flag : ℕ → List Bool → List Bool
set_flag n [] = []
set_flag zero (flag ∷ flags) = true ∷ flags
set_flag (suc n) (flag ∷ flags) = flag ∷ set_flag n flags

-- `none` is `null`, `some n` the release function `n`.
unfoldable pub try_acquire : Exec Semaphore (Option ℕ)
try_acquire s = if leb s.capacity s.count then (ok none, s) else (
  ok (some (length s.released)),
  record s { count = s.count + 1; released = s.released ++ false ∷ [] },
)

-- A call of the release function `n`.
unfoldable pub release : ℕ → Exec Semaphore (Unit {0})
release n s =
    if flag_at n s.released
    then (ok tt, s)
    else (ok tt, record s { count = s.count - 1; released = set_flag n s.released })
