-- ===== src/Storage/Memory/Counters.antt =====
-- The counters: their sequences only grow, and no two increments of one counter agree.
use dokhna_tech_zatca.Prelude.{ℕ, ◌+◌, ◌≤◌, ◌<◌, ◌≡◌, ap, arith, or_else}
use dokhna_tech_zatca.Prelude.Text.{Text, text_eq}
use dokhna_tech_zatca.Prelude.Dict.{lookup, lookup-insert, lookup-insert_self}
use dokhna_tech_zatca.Prelude.Exec.{ok}
use dokhna_tech_zatca.Storage.{TenantScope, Increment, InvoiceStatus}
use dokhna_tech_zatca.Storage.Memory.{
  InvoiceNumberFormatter, MemoryStorage, counter_key, year_month_for, increment_counter,
  record_invoice, update_invoice_status,
}
use dokhna_tech_zatca.Storage.Memory.Steps.{
  Step, tick, increment, recorded, updated, Reach, here, next,
}

abbrev pub counter_at : Text → MemoryStorage → ℕ
counter_at key s = or_else (lookup key s.counters) 0

-- The Map key that an increment of `scope` uses in the state `s`.
abbrev pub current_key : TenantScope → MemoryStorage → Text
current_key scope s = counter_key scope (year_month_for s.now).year_month

counters-update :
    (scope : TenantScope) (id : Text) (status : InvoiceStatus) (s : MemoryStorage)
    → (update_invoice_status scope id status s).1.counters ≡ s.counters
unfolding update_invoice_status
counters-update scope id status s = ground arith

counter_at-increment :
    (format : InvoiceNumberFormatter) (scope : TenantScope) (s : MemoryStorage) (key : Text)
    → counter_at key s ≤ counter_at key (increment_counter format scope s).1
unfolding increment_counter
counter_at-increment format scope s key = ground (
  arith,
  lookup-insert (current_key scope s) key (counter_at (current_key scope s) s + 1) s.counters,
  text_eq.beq_iff (current_key scope s) key,
)

Step-counter_at :
    {format : InvoiceNumberFormatter} {s t : MemoryStorage} (key : Text)
    → Step format s t
    → counter_at key s ≤ counter_at key t
unfolding record_invoice
Step-counter_at key (tick now) = omega arith
Step-counter_at {format} {s} key (increment scope) = counter_at-increment format scope s key
Step-counter_at key (recorded scope r) = omega arith
Step-counter_at {s} key (updated scope id status) =
    rw (counters-update scope id status s) (omega arith)

Reach-counter_at :
    {format : InvoiceNumberFormatter} {s t : MemoryStorage} (key : Text)
    → Reach format s t
    → counter_at key s ≤ counter_at key t
Reach-counter_at key here = omega arith
Reach-counter_at key (next r st) = omega (arith, Reach-counter_at key r, Step-counter_at key st)

-- An increment returns one more than the counter held, and leaves that in it.
increment_counter_lem :
    (format : InvoiceNumberFormatter) (scope : TenantScope) (s : MemoryStorage) {i : Increment}
    → (increment_counter format scope s).0 ≡ ok i
    → (i.sequence ≡ counter_at (current_key scope s) s + 1)
      × (counter_at (current_key scope s) (increment_counter format scope s).1 ≡ i.sequence)
unfolding increment_counter
increment_counter_lem format scope s {i} e = ground (
  arith,
  lookup-insert_self (current_key scope s) (counter_at (current_key scope s) s + 1) s.counters,
)

-- Whatever calls and clock changes come between, a later increment of the same scope in the same
-- month returns a larger sequence.
pub increment_counter_grows :
    (format : InvoiceNumberFormatter) (scope : TenantScope) (s t : MemoryStorage) (a b : Increment)
    → (increment_counter format scope s).0 ≡ ok a
    → Reach format (increment_counter format scope s).1 t
    → (year_month_for t.now).year_month ≡ (year_month_for s.now).year_month
    → (increment_counter format scope t).0 ≡ ok b
    → a.sequence < b.sequence
increment_counter_grows format scope s t a b first between month second =
    let key : current_key scope t ≡ current_key scope s = ap (counter_key scope) month in
    let (_, stored) = increment_counter_lem format scope s first in
    let (taken, _) = increment_counter_lem format scope t second in
    let taken' : b.sequence ≡ counter_at (current_key scope s) t + 1 = rw key at taken in
    omega (arith, Reach-counter_at (current_key scope s) between)
