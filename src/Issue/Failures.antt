-- ===== src/Issue/Failures.antt =====
-- What an issuer that throws leaves behind over the in-memory adapter.
use dokhna_tech_zatca.Prelude.{◌≡◌, ◌⊎◌, inl, inr, refl, ap, ◌∙◌, sym, Bool-cases, some}
use dokhna_tech_zatca.Prelude.Text.{Text}
use dokhna_tech_zatca.Prelude.Exec.{ok, err, Result-cases, pure, ◌>>=◌}
use dokhna_tech_zatca.Errors.{ZatcaError, Result, Exec}
use dokhna_tech_zatca.Storage.{InvoiceKind, TenantScope, Increment, base_pih}
use dokhna_tech_zatca.Storage.Memory.{
  MemoryStorage, InvoiceNumberFormatter, increment_counter, get_previous_hash, record_invoice,
  get_or_create_scope, load_invoice, create_memory_storage_adapter,
}
use dokhna_tech_zatca.Storage.Memory.Cells.{record_invoice_thrown}
use dokhna_tech_zatca.Storage.Memory.Reads.{load_invoice-increment, get_previous_hash-increment}
use dokhna_tech_zatca.Issue.{
  Signing, Builders, BuiltPhase1Invoice, IssuedPhase1Invoice, IssueArgs, Reservation, assert_scope,
  finish, issue_phase2, issue_phase1, full_input, issued_record, issued_phase1_record,
}
use dokhna_tech_zatca.Issue.Outcome.{Answers, issued_invoice, issue_phase2-finish}
use dokhna_tech_zatca.Storage.Memory.Chain.{head_of}
use dokhna_tech_zatca.Storage.Memory.Steps.{increment_counter_ok, get_previous_hash-head_of}
use dokhna_tech_zatca.Issue.Dispatch.{
  IssueInvoiceArgs, phase1, phase2, issuer_args, require_signing, is_phase2, issue_invoice,
  dispatch-phase2, dispatch-phase1,
}

ok-is-not-err : {A : Type 0} {a : A} {e : ZatcaError} → ¬ ◌≡◌ {A = Result A} (ok a) (err e)
ok-is-not-err h = cc

abbrev issued_phase1 : Increment → BuiltPhase1Invoice → IssuedPhase1Invoice
issued_phase1 i built = record {
  invoice_xml = built.invoice_xml;
  qr_code = built.qr_code;
  sequence = i.sequence;
  invoice_number = i.invoice_number;
}

-- Code that returns, or throws and leaves its state.
abbrev OkOrKeeps : {A S : Type 0} → Result A × S → S → Type 0
OkOrKeeps {A} run s = ((a : A) × (run.0 ≡ ok a)) ⊎ (run.1 ≡ s)

module _ {Details : Type 0} (format : InvoiceNumberFormatter) (builders : Builders Details) where
  -- Nothing has happened to the state, or one increment of the scope's counter.
  abbrev pub AtMostCounted : TenantScope → MemoryStorage → MemoryStorage → Type 0
  AtMostCounted scope s t = (t ≡ s) ⊎ (t ≡ (increment_counter format scope s).1)

  abbrev OkOrCounted :
      {A : Type 0} → TenantScope → Result A × MemoryStorage → MemoryStorage → Type 0
  OkOrCounted {A} scope run s = ((a : A) × (run.0 ≡ ok a)) ⊎ AtMostCounted scope s run.1

  map-OkOrCounted :
      {A B : Type 0} (f : A → B) (scope : TenantScope) (m : Exec MemoryStorage A)
      (s : MemoryStorage)
      → OkOrCounted scope (m s) s
      → OkOrCounted scope ((do a ← m; pure (f a)) s) s
  map-OkOrCounted f scope m s (inl (a, good)) = inl (f a, rw good refl)
  map-OkOrCounted f scope m s (inr kept) = elim (Result-cases (m s).0) [
    | inl (a, good) ↦ inl (f a, rw good refl)
    | inr (e, thrown) ↦ inr (rw thrown kept)
  ]

  finish-OkOrKeeps :
      (kind : InvoiceKind) (args : IssueArgs Details) (signing : Signing) (held : Reservation)
      (s : MemoryStorage)
      → OkOrKeeps
          (finish (create_memory_storage_adapter format) builders kind args signing held s)
          s
  unfolding finish create_memory_storage_adapter
  finish-OkOrKeeps kind args signing held s =
      elim (Result-cases (builders.build (full_input kind args held) signing)) [
        | inr (e, thrown) ↦ inr (rw (finish, thrown) refl)
        | inl (built, returned) ↦
            let r = issued_record kind args held built in
            elim (Result-cases (record_invoice args.scope r s).0) [
              | inl (_, done) ↦ inl (issued_invoice held built, rw (finish, returned, done) refl)
              | inr (e, thrown) ↦
                  inr
                    (rw (finish, returned, thrown) (record_invoice_thrown args.scope r e s thrown))
            ]
      ]

  issue_phase2-OkOrCounted :
      (kind : InvoiceKind) (args : IssueArgs Details) (signing : Signing) (s : MemoryStorage)
      → OkOrCounted args.scope
          (issue_phase2 (create_memory_storage_adapter format) builders kind args signing s)
          s
  issue_phase2-OkOrCounted kind args signing s =
      elim (Result-cases (assert_scope args.egs_info args.scope)) [
        | inr (e, thrown) ↦ inr (inl (unfold issue_phase2 in rw thrown refl))
        | inl (_, matched) ↦
            let (i, count) = increment_counter_ok format args.scope s in
            let held : Reservation = record {
              increment = i;
              previous_invoice_hash = head_of (some kind) (get_or_create_scope args.scope s);
            } in
            let answers : Answers format args.scope kind s held = record {
              counted = count;
              previous = ap (λ r. r.0) (get_previous_hash-head_of args.scope kind s);
            } in
            rw (issue_phase2-finish format builders kind args signing s held matched answers)
              (elim (finish-OkOrKeeps kind args signing held
                (increment_counter format args.scope s).1) [
                  | inl good ↦ inl good
                  | inr kept ↦ inr (inr kept)
                ])
      ]

  issue_phase1-OkOrCounted :
      (kind : InvoiceKind) (args : IssueArgs Details) (s : MemoryStorage)
      → OkOrCounted args.scope
          (issue_phase1 (create_memory_storage_adapter format) builders kind args s)
          s
  unfolding issue_phase1 create_memory_storage_adapter
  issue_phase1-OkOrCounted kind args s =
      elim (Result-cases (assert_scope args.egs_info args.scope)) [
        | inr (e, thrown) ↦ inr (inl (rw thrown refl))
        | inl (_, matched) ↦
            let s' = (increment_counter format args.scope s).1 in
            let (i, count) = increment_counter_ok format args.scope s in
            let input =
              full_input kind args (record { increment = i; previous_invoice_hash = base_pih }) in
            elim (Result-cases (builders.build_phase1 input)) [
              | inr (e, thrown) ↦ inr (inr (rw (matched, count, thrown) refl))
              | inl (built, returned) ↦
                  let r = issued_phase1_record kind args i built in
                  elim (Result-cases (record_invoice args.scope r s').0) [
                    | inl (_, done) ↦
                        inl (issued_phase1 i built, rw (matched, count, returned, done) refl)
                    | inr (e, thrown) ↦ inr (
                        inr (
                          rw (matched, count, returned, thrown)
                            (record_invoice_thrown args.scope r e s' thrown)))
                  ]
            ]
      ]

  -- What reads the state returns the same after at most one increment.
  reads_same :
      (scope : TenantScope) (s t : MemoryStorage)
      → AtMostCounted scope s t
      → ((other : TenantScope) (id : Text)
          → (load_invoice other id t).0 ≡ (load_invoice other id s).0)
        × ((other : TenantScope) (kind : InvoiceKind)
            → (get_previous_hash other (some kind) t).0 ≡ (get_previous_hash other (some kind) s).0)
  reads_same scope s t (inl same) = (
    λ other id. ap (λ u. (load_invoice other id u).0) same,
    λ other kind. ap (λ u. (get_previous_hash other (some kind) u).0) same,
  )
  reads_same scope s t (inr counted) = (
    λ other id.
        ap (λ u. (load_invoice other id u).0) counted
        ∙ load_invoice-increment format scope other id s,
    λ other kind.
        ap (λ u. (get_previous_hash other (some kind) u).0) counted
        ∙ get_previous_hash-increment format scope other kind s,
  )

  issue_invoice-OkOrCounted :
      (args : IssueInvoiceArgs Details) (s : MemoryStorage)
      → OkOrCounted args.scope
          (issue_invoice (create_memory_storage_adapter format) builders args s)
          s
  unfolding issue_invoice
  issue_invoice-OkOrCounted args s = elim (Bool-cases (is_phase2 args.input.kind)) [
    | inr no_phase2 ↦
        rw
          (dispatch-phase1 (create_memory_storage_adapter format) builders args.input.kind args
            no_phase2)
          (map-OkOrCounted phase1 args.scope
            (issue_phase1 (create_memory_storage_adapter format) builders args.input.kind
              (issuer_args args))
            s (issue_phase1-OkOrCounted args.input.kind (issuer_args args) s))
    | inl is_one ↦
        rw
          (dispatch-phase2 (create_memory_storage_adapter format) builders args.input.kind args
            is_one)
          (elim (Result-cases (require_signing args.input.kind args.signing)) [
            | inr (e, thrown) ↦ inr (inl (rw thrown refl))
            | inl (signing, given) ↦ rw given (
                map-OkOrCounted phase2 args.scope
                  (issue_phase2 (create_memory_storage_adapter format) builders args.input.kind
                    (issuer_args args) signing)
                  s (issue_phase2-OkOrCounted args.input.kind (issuer_args args) signing s))
          ])
  ]

  -- However issueInvoice fails, over the in-memory adapter, for each of the eight kinds: the state
  -- is the one before, or the one that incrementing the scope's counter once makes of it. So every
  -- loadInvoice, in every scope, returns what it returned before, and so does every getPreviousHash.
  pub issue_invoice_failed :
      (args : IssueInvoiceArgs Details) (s : MemoryStorage) (e : ZatcaError)
      → (issue_invoice (create_memory_storage_adapter format) builders args s).0 ≡ err e
      → let t = (issue_invoice (create_memory_storage_adapter format) builders args s).1 in
        AtMostCounted args.scope s t
        × ((other : TenantScope) (id : Text)
            → (load_invoice other id t).0 ≡ (load_invoice other id s).0)
        × ((other : TenantScope) (kind : InvoiceKind)
            → (get_previous_hash other (some kind) t).0 ≡ (get_previous_hash other (some kind) s).0)
  issue_invoice_failed args s e failed = elim (issue_invoice-OkOrCounted args s) [
    | inl (issued, good) ↦ absurd (ok-is-not-err (sym good ∙ failed))
    | inr kept ↦ let (loads, heads) = reads_same args.scope s _ kept in (kept, loads, heads)
  ]
