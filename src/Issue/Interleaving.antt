-- ===== src/Issue/Interleaving.antt =====
-- Two issuers of one scope and kind that run at once. Every `await` is a point where the other may
-- go on; here both have made the storage handshake before either records its document.
use dokhna_tech_zatca.Prelude.{
  ◌≡◌, ◌≢◌, refl, ap, sym, ◌∙◌, true, none, some, arith, List, [], ◌∷◌, ◌++◌, append_assoc,
}
use dokhna_tech_zatca.Prelude.Eq.{◌==◌}
use dokhna_tech_zatca.Prelude.Text.{Text, text_eq}
use dokhna_tech_zatca.Prelude.Dict.{lookup, lookup-insert_self, lookup-insert_ne}
use dokhna_tech_zatca.Prelude.Exec.{ok, pure, ◌>>=◌}
use dokhna_tech_zatca.Errors.{Exec}
use dokhna_tech_zatca.Storage.{InvoiceKind, kind_eq, StorageAdapter, InvoiceRecord, base_pih}
use dokhna_tech_zatca.Storage.Memory.{
  MemoryStorage, ScopeCell, InvoiceNumberFormatter, increment_counter, scope_key,
  get_or_create_scope, put_cell, load_invoice, create_memory_storage_adapter,
}
use dokhna_tech_zatca.Storage.Memory.Chain.{
  Link, link, of_kind, Chained, IsChained, head_of, added, links, links-added, of_kind-same,
}
use dokhna_tech_zatca.Storage.Memory.Steps.{AllChained}
use dokhna_tech_zatca.Storage.Memory.Reads.{
  record_invoice_fresh, load_invoice-cell, get_previous_hash-increment,
}
use dokhna_tech_zatca.Issue.{
  Signing, Builders, BuiltInvoice, IssueArgs, IssuedInvoice, Reservation, reserve, finish,
  invoice_id_of, full_input, issued_record,
}
use dokhna_tech_zatca.Issue.Outcome.{Answers, reserve-Answers, issued_invoice}

module _ {S Details : Type 0} (storage : StorageAdapter S) (builders : Builders Details) where
  -- The steps of two calls of an issuer, past their scope checks, in this order of awaits.
  unfoldable pub interleaved :
      InvoiceKind
      → IssueArgs Details
      → IssueArgs Details
      → Signing
      → Exec S (IssuedInvoice × IssuedInvoice)
  interleaved kind a b signing = do
    held_a ← reserve storage builders kind a
    held_b ← reserve storage builders kind b
    issued_a ← finish storage builders kind a signing held_a
    issued_b ← finish storage builders kind b signing held_b
    pure (issued_a, issued_b)

-- In a chain each link's `previous` is the hash before it.
Chained-last_two :
    (start last : Text) (ls : List Link) (l m : Link)
    → Chained start (ls ++ l ∷ m ∷ []) last
    → m.previous ≡ l.hash
Chained-last_two start last [] l m h = h.1.0
Chained-last_two start last (k ∷ ls) l m h = Chained-last_two k.hash last ls l m h.1

finish_fresh :
    {Details : Type 0} (format : InvoiceNumberFormatter) (builders : Builders Details)
    (kind : InvoiceKind) (args : IssueArgs Details) (signing : Signing) (held : Reservation)
    (built : BuiltInvoice) (s : MemoryStorage)
    → builders.build (full_input kind args held) signing ≡ ok built
    → (load_invoice args.scope (invoice_id_of args) s).0 ≡ ok none
    → finish (create_memory_storage_adapter format) builders kind args signing held s ≡ (
      ok (issued_invoice held built),
      put_cell args.scope
          (added (issued_record kind args held built) (get_or_create_scope args.scope s))
          s,
    )
unfolding finish create_memory_storage_adapter
finish_fresh format builders kind args signing held built s returned fresh =
    rw (returned, record_invoice_fresh args.scope (issued_record kind args held built) s fresh)

-- The last two documents of the kind carry one previous hash: not a chain.
forked :
    (kind : InvoiceKind) (a b : InvoiceRecord) (cell : ScopeCell)
    → a.kind ≡ kind
    → b.kind ≡ kind
    → lookup a.invoice_id cell.records ≡ none
    → lookup b.invoice_id cell.records ≡ none
    → a.invoice_id ≢ b.invoice_id
    → IsChained (added b (added a cell))
    → b.previous_invoice_hash ≡ a.invoice_hash
forked kind a b cell ka kb fresh_a fresh_b differ chained =
    let fresh_b' : lookup b.invoice_id (added a cell).records ≡ none =
      lookup-insert_ne a.invoice_id b.invoice_id a cell.records differ ∙ fresh_b in
    let before = of_kind kind (links cell.records) in
    let one =
      links-added a cell kind fresh_a
      ∙ ap (λ l. before ++ l) (of_kind-same kind (link a) (is_kind ka)) in
    let both =
      links-added b (added a cell) kind fresh_b'
      ∙ ap (λ l. of_kind kind (links (added a cell).records) ++ l)
          (of_kind-same kind (link b) (is_kind kb))
      ∙ ap (λ l. l ++ link b ∷ []) one
      ∙ append_assoc before (link a ∷ []) (link b ∷ []) in
    Chained-last_two base_pih (head_of (some kind) (added b (added a cell))) before (link a)
      (link b) (rw both at (chained.at kind))
  where
    is_kind : {k j : InvoiceKind} → k ≡ j → (k == j) ≡ true
    is_kind {k} {j} e = (kind_eq.beq_iff k j).1 e

-- The arguments `b`, for the scope of `a`.
abbrev pub beside : {Details : Type 0} → IssueArgs Details → IssueArgs Details → IssueArgs Details
beside a b = record b { scope = a.scope }

module _ {Details : Type 0} (format : InvoiceNumberFormatter) (builders : Builders Details)
    (kind : InvoiceKind) (a b : IssueArgs Details) (signing : Signing) (s : MemoryStorage)
    (held_a held_b : Reservation) (built_a built_b : BuiltInvoice)
    (answers_a : Answers format a.scope kind s held_a)
    (answers_b : Answers format a.scope kind (increment_counter format a.scope s).1 held_b)
    (returned_a : builders.build (full_input kind a held_a) signing ≡ ok built_a)
    (returned_b : builders.build (full_input kind (beside a b) held_b) signing ≡ ok built_b)
    (fresh_a : (load_invoice a.scope (invoice_id_of a) s).0 ≡ ok none)
    (fresh_b : (load_invoice a.scope (invoice_id_of b) s).0 ≡ ok none)
    (differ : invoice_id_of a ≢ invoice_id_of b) where
  -- the state after the two handshakes
  abbrev reserved : MemoryStorage
  reserved = (increment_counter format a.scope (increment_counter format a.scope s).1).1

  abbrev record_a : InvoiceRecord
  record_a = issued_record kind a held_a built_a

  abbrev record_b : InvoiceRecord
  record_b = issued_record kind (beside a b) held_b built_b

  abbrev cell : ScopeCell
  cell = get_or_create_scope a.scope s

  -- the state after the first record
  abbrev half : MemoryStorage
  half = put_cell a.scope (added record_a cell) reserved

  cell-reserved : get_or_create_scope a.scope reserved ≡ cell
  unfolding increment_counter
  cell-reserved = refl

  loads_none : (id : Text) → (load_invoice a.scope id s).0 ≡ ok none → lookup id cell.records ≡ none
  loads_none id h = ground (arith, load_invoice-cell a.scope id s)

  cell-half : get_or_create_scope a.scope half ≡ added record_a cell
  cell-half = rw lookup-insert_self

  fresh_reserved : (load_invoice a.scope (invoice_id_of a) reserved).0 ≡ ok none
  fresh_reserved =
      rw (load_invoice-cell a.scope (invoice_id_of a) reserved, cell-reserved)
        (ap ok (loads_none (invoice_id_of a) fresh_a))

  fresh_half : (load_invoice a.scope (invoice_id_of b) half).0 ≡ ok none
  fresh_half =
      rw
        (
          load_invoice-cell a.scope (invoice_id_of b) half,
          cell-half,
          lookup-insert_ne (invoice_id_of a) (invoice_id_of b) record_a cell.records differ,
        )
        (ap ok (loads_none (invoice_id_of b) fresh_b))

  interleaved_lem :
      interleaved (create_memory_storage_adapter format) builders kind a (beside a b) signing s ≡ (
        ok (issued_invoice held_a built_a, issued_invoice held_b built_b),
        put_cell a.scope (added record_b (added record_a cell)) half,
      )
  unfolding interleaved
  interleaved_lem = rw (
    reserve-Answers format builders kind a s held_a answers_a,
    reserve-Answers format builders kind (beside a b) _ held_b answers_b,
    finish_fresh format builders kind a signing held_a built_a reserved returned_a fresh_reserved,
    cell-reserved,
    finish_fresh format builders kind (beside a b) signing held_b built_b half returned_b
        fresh_half,
    cell-half,
  )

  -- Two Phase 2 issuers of one scope and kind that are past their scope checks, the second of which
  -- makes its storage handshake before the first records. If both builders return, and the two
  -- document ids differ and neither is taken: both succeed, both documents carry the same previous
  -- hash, and, unless the first document's hash is that very hash, the scope's records are no hash
  -- chain.
  pub interleaved_forks :
      let (result, t) =
        interleaved (create_memory_storage_adapter format) builders kind a (beside a b) signing s in
      (result ≡ ok (issued_invoice held_a built_a, issued_invoice held_b built_b))
      × (held_b.previous_invoice_hash ≡ held_a.previous_invoice_hash)
      × (built_a.invoice_hash ≢ held_a.previous_invoice_hash → ¬ AllChained t)
  interleaved_forks =
      let previous : held_b.previous_invoice_hash ≡ held_a.previous_invoice_hash = ground (
        arith,
        answers_a.previous,
        answers_b.previous,
        get_previous_hash-increment format a.scope a.scope kind s,
      ) in
      rw interleaved_lem (
        refl,
        previous,
        λ other chained. other (
            sym (
              forked kind record_a record_b cell refl refl (loads_none (invoice_id_of a) fresh_a)
                (loads_none (invoice_id_of b) fresh_b) differ
                (rw lookup-insert_self at (chained.at_key (scope_key a.scope))))
            ∙ previous),
      )
