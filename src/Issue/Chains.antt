-- ===== src/Issue/Chains.antt =====
-- Issuers that run one after the other keep every hash chain of the in-memory adapter.
use dokhna_tech_zatca.Prelude.{
  ◌≡◌, refl, ap, sym, ◌∙◌, true, false, some, arith, Bool-cases, Option-cases, inl, inr, [],
}
use dokhna_tech_zatca.Prelude.Eq.{option_eq}
use dokhna_tech_zatca.Prelude.Text.{Text, text_eq}
use dokhna_tech_zatca.Prelude.Dict.{lookup, lookup-insert}
use mathlib.Core.Bool.{false≢true}
use dokhna_tech_zatca.Prelude.Exec.{Result-cases}
use dokhna_tech_zatca.Storage.{
  InvoiceKind, kind_eq, InvoiceStatus, InvoiceRecord, TenantScope, base_pih,
}
use dokhna_tech_zatca.Storage.Memory.{
  Date, MemoryStorage, ScopeCell, InvoiceNumberFormatter, scope_key, put_cell, get_or_create_scope,
  records_equal, record_in_cell, update_in_cell, increment_counter, record_invoice,
  update_invoice_status, create_memory_storage_adapter,
}
use dokhna_tech_zatca.Storage.Memory.Chain.{head_of, head_of-added, IsChained-new_cell}
use dokhna_tech_zatca.Storage.Memory.Steps.{
  AllChained, cell_at, get_previous_hash-head_of, record_invoice-AllChained,
  update_invoice_status-AllChained, increment_counter-AllChained, increment_counter_ok,
}
use dokhna_tech_zatca.Issue.{
  Signing, Builders, IssueArgs, Reservation, assert_scope, finish, issue_phase2, issue_phase1,
  full_input, issued_record, issued_phase1_record,
}
use dokhna_tech_zatca.Issue.Outcome.{Answers, issue_phase2-finish}
use dokhna_tech_zatca.Issue.Dispatch.{
  IssueInvoiceArgs, issue_invoice, require_signing, is_phase2, dispatch-phase2, dispatch-phase1,
  issuer_args,
}

-- Phase 1 kinds take no part in the chain: their head stays the base hash.
abbrev HasBaseHeads : ScopeCell → Type 0
HasBaseHeads cell = (k : InvoiceKind) → is_phase2 k ≡ false → head_of (some k) cell ≡ base_pih

record_in_cell-HasBaseHeads :
    (r : InvoiceRecord) (cell : ScopeCell)
    → (is_phase2 r.kind ≡ false → r.invoice_hash ≡ base_pih)
    → HasBaseHeads cell
    → HasBaseHeads (record_in_cell r cell).1
unfolding record_in_cell
record_in_cell-HasBaseHeads r cell own h k phase1 =
    elim (Option-cases (lookup r.invoice_id cell.records)) [
      | inl fresh ↦
          rw (fresh, record_in_cell)
            (ground (
              arith,
              head_of-added r cell k,
              h k phase1,
              kind_eq.beq_iff r.kind k,
              λ (e : r.kind ≡ k). own (ap is_phase2 e ∙ phase1),
            ))
      | inr (old, there) ↦ elim (Bool-cases (records_equal old r)) [
        | inl same ↦ rw (there, record_in_cell, same) (h k phase1)
        | inr other ↦ rw (there, record_in_cell, other) (h k phase1)
      ]
    ]

update_in_cell-HasBaseHeads :
    (id : Text) (status : InvoiceStatus) (cell : ScopeCell)
    → HasBaseHeads cell
    → HasBaseHeads (update_in_cell id status cell).1
unfolding update_in_cell
update_in_cell-HasBaseHeads id status cell h k phase1 = ground (arith, h k phase1)

-- The invariant: every kind's records form a chain that ends at its head, in every scope.
pub record IsSound (s : MemoryStorage) : Type 0 where
  pub chained : AllChained s
  pub base_heads : (key : Text) → HasBaseHeads (cell_at key s)

put_cell-base_heads :
    (scope : TenantScope) (cell : ScopeCell) (s : MemoryStorage)
    → ((key : Text) → HasBaseHeads (cell_at key s))
    → HasBaseHeads cell
    → (key : Text) → HasBaseHeads (cell_at key (put_cell scope cell s))
put_cell-base_heads scope cell s h c key k phase1 =
    ground (arith, lookup-insert (scope_key scope) key cell s.scopes, h key k phase1, c k phase1)

record_invoice-IsSound :
    (scope : TenantScope) (r : InvoiceRecord) (s : MemoryStorage)
    → IsSound s
    → r.previous_invoice_hash ≡ head_of (some r.kind) (get_or_create_scope scope s)
    → (is_phase2 r.kind ≡ false → r.invoice_hash ≡ base_pih)
    → IsSound (record_invoice scope r s).1
unfolding record_invoice
record_invoice-IsSound scope r s h next own = record {
  chained = record_invoice-AllChained scope r s h.chained next;
  base_heads =
      put_cell-base_heads scope (record_in_cell r (get_or_create_scope scope s)).1 s h.base_heads (
        record_in_cell-HasBaseHeads r (get_or_create_scope scope s) own
          (h.base_heads (scope_key scope)));
}

pub update_invoice_status-IsSound :
    (scope : TenantScope) (id : Text) (status : InvoiceStatus) (s : MemoryStorage)
    → IsSound s
    → IsSound (update_invoice_status scope id status s).1
unfolding update_invoice_status
update_invoice_status-IsSound scope id status s h = record {
  chained = update_invoice_status-AllChained scope id status s h.chained;
  base_heads = elim (Option-cases (lookup (scope_key scope) s.scopes)) [
    | inl missing ↦ rw (missing, update_invoice_status) h.base_heads
    | inr (cell, there) ↦
        rw (there, update_invoice_status)
          (put_cell-base_heads scope (update_in_cell id status cell).1 s h.base_heads (
            update_in_cell-HasBaseHeads id status cell
              (rw there at (h.base_heads (scope_key scope)))))
  ];
}

increment_counter-IsSound :
    (format : InvoiceNumberFormatter) (scope : TenantScope) (s : MemoryStorage)
    → IsSound s
    → IsSound (increment_counter format scope s).1
unfolding increment_counter
increment_counter-IsSound format scope s h = record {
  chained = increment_counter-AllChained format scope s h.chained;
  base_heads = h.base_heads;
}

module _ {Details : Type 0} (format : InvoiceNumberFormatter) (builders : Builders Details)
    (kind : InvoiceKind) (args : IssueArgs Details) where
  finish-IsSound :
      (signing : Signing) (held : Reservation) (s : MemoryStorage)
      → is_phase2 kind ≡ true
      → held.previous_invoice_hash ≡ head_of (some kind) (get_or_create_scope args.scope s)
      → IsSound s
      → IsSound (finish (create_memory_storage_adapter format) builders kind args signing held s).1
  unfolding finish create_memory_storage_adapter
  finish-IsSound signing held s phase2 previous h =
      elim (Result-cases (builders.build (full_input kind args held) signing)) [
        | inr (e, thrown) ↦ rw (thrown, finish) h
        | inl (built, returned) ↦
            let r = issued_record kind args held built in
            let kept =
              record_invoice-IsSound args.scope r s h previous
                (λ phase1. absurd (false≢true (sym phase1 ∙ phase2))) in
            elim (Result-cases (record_invoice args.scope r s).0) [
              | inl (_, done) ↦ rw (returned, finish, done) kept
              | inr (_, thrown) ↦ rw (returned, finish, thrown) kept
            ]
      ]

  issue_phase2-IsSound :
      (signing : Signing) (s : MemoryStorage)
      → is_phase2 kind ≡ true
      → IsSound s
      → IsSound (issue_phase2 (create_memory_storage_adapter format) builders kind args signing s).1
  issue_phase2-IsSound signing s phase2 h =
      elim (Result-cases (assert_scope args.egs_info args.scope)) [
        | inr (e, thrown) ↦ unfold issue_phase2 in rw thrown h
        | inl (_, matched) ↦
            let s' = (increment_counter format args.scope s).1 in
            let (i, count) = increment_counter_ok format args.scope s in
            let held : Reservation = record {
              increment = i;
              previous_invoice_hash = head_of (some kind) (get_or_create_scope args.scope s);
            } in
            let answers : Answers format args.scope kind s held = record {
              counted = count;
              previous = ap (λ r. r.0) (get_previous_hash-head_of args.scope kind s);
            } in
            rw (issue_phase2-finish format builders kind args signing s held matched answers) (
              finish-IsSound signing held s' phase2 (unfold increment_counter in refl)
                (increment_counter-IsSound format args.scope s h))
      ]

  issue_phase1-IsSound :
      (s : MemoryStorage)
      → is_phase2 kind ≡ false
      → IsSound s
      → IsSound (issue_phase1 (create_memory_storage_adapter format) builders kind args s).1
  unfolding issue_phase1 create_memory_storage_adapter
  issue_phase1-IsSound s phase1 h = elim (Result-cases (assert_scope args.egs_info args.scope)) [
    | inr (e, thrown) ↦ rw thrown h
    | inl (_, matched) ↦
        let s' = (increment_counter format args.scope s).1 in
        let (i, count) = increment_counter_ok format args.scope s in
        let h' : IsSound s' = increment_counter-IsSound format args.scope s h in
        let input =
          full_input kind args (record { increment = i; previous_invoice_hash = base_pih }) in
        elim (Result-cases (builders.build_phase1 input)) [
          | inr (e, thrown) ↦ rw (matched, count, thrown) h'
          | inl (built, returned) ↦
              let r = issued_phase1_record kind args i built in
              let kept =
                record_invoice-IsSound args.scope r s' h'
                  (sym (h'.base_heads (scope_key args.scope) kind phase1)) (λ _. refl) in
              elim (Result-cases (record_invoice args.scope r s').0) [
                | inl (_, done) ↦ rw (matched, count, returned, done) kept
                | inr (_, thrown) ↦ rw (matched, count, returned, thrown) kept
              ]
        ]
  ]

-- Whatever the input, the builders, the id and the outcome (an error of any step included),
-- `issueInvoice` over the in-memory adapter keeps the invariant: the records of each kind, in the
-- order in which they were recorded, form one hash chain from the base hash to the head that the
-- next document of the kind is given, in every scope.
pub issue_invoice-IsSound :
    {Details : Type 0} (format : InvoiceNumberFormatter) (builders : Builders Details)
    (args : IssueInvoiceArgs Details) (s : MemoryStorage)
    → IsSound s
    → IsSound (issue_invoice (create_memory_storage_adapter format) builders args s).1
unfolding issue_invoice require_signing
issue_invoice-IsSound format builders args s h =
    let storage = create_memory_storage_adapter format in
    let kind = args.input.kind in
    elim (Bool-cases (is_phase2 kind)) [
      | inr phase1 ↦
          let kept = issue_phase1-IsSound format builders kind (issuer_args args) s phase1 h in
          elim (Result-cases (issue_phase1 storage builders kind (issuer_args args) s).0) [
            | inl (_, done) ↦ rw (dispatch-phase1 storage builders kind args phase1, done) kept
            | inr (_, thrown) ↦ rw (dispatch-phase1 storage builders kind args phase1, thrown) kept
          ]
      | inl phase2 ↦ elim (Option-cases args.signing) [
        | inl unsigned ↦ rw (dispatch-phase2 storage builders kind args phase2, unsigned) h
        | inr (signing, signed) ↦
            let kept =
              issue_phase2-IsSound format builders kind (issuer_args args) signing s phase2 h in
            elim (Result-cases
              (issue_phase2 storage builders kind (issuer_args args) signing s).0) [
                | inl (_, done) ↦
                    rw (dispatch-phase2 storage builders kind args phase2, signed, done) kept
                | inr (_, thrown) ↦
                    rw (dispatch-phase2 storage builders kind args phase2, signed, thrown) kept
              ]
      ]
    ]

-- A fresh adapter satisfies the invariant.
pub IsSound-init : (now : Date) → IsSound (record { counters = []; scopes = []; now = now })
unfolding lookup
IsSound-init now = record {
  chained = record { at_key = λ key. IsChained-new_cell };
  base_heads = λ key k phase1. refl;
}
