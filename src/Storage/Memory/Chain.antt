-- ===== src/Storage/Memory/Chain.antt =====
-- The hash chain of each kind within one scope's cell.
use dokhna_tech_zatca.Prelude.{
  ◌≡◌, refl, sym, ap, ◌∙◌, true, false, some, none, arith, List, [], ◌∷◌, ◌++◌, keep, keep-append,
  or_else, Bool-cases, Option-cases, inl, inr, map, map-append, append-nil, if◌then◌else◌,
}
use dokhna_tech_zatca.Prelude.Eq.{◌==◌, option_eq}
use dokhna_tech_zatca.Prelude.Text.{Text, text_eq}
use dokhna_tech_zatca.Prelude.Dict.{Dict, lookup, insert, lookup-insert, values, values-insert_new}
use dokhna_tech_zatca.Storage.{InvoiceKind, kind_eq, InvoiceStatus, InvoiceRecord, base_pih}
use dokhna_tech_zatca.Storage.Memory.{
  ChainKey, ScopeCell, new_cell, record_in_cell, update_in_cell, records_equal,
}

-- What a record contributes to the chain of its kind.
pub record Link : Type 0 where
  pub kind : InvoiceKind
  pub previous : Text
  pub hash : Text

abbrev pub link : InvoiceRecord → Link
link r = record { kind = r.kind; previous = r.previous_invoice_hash; hash = r.invoice_hash }

abbrev pub links : Dict Text InvoiceRecord → List Link
links records = map link (values records)

abbrev pub of_kind : InvoiceKind → List Link → List Link
of_kind k = keep (λ l. l.kind == k)

-- Each link's `previous` is the hash of the one before it, from `start` to `last`.
abbrev pub Chained : Text → List Link → Text → Type 0
Chained start [] last = start ≡ last
Chained start (l ∷ ls) last = (l.previous ≡ start) × Chained l.hash ls last

abbrev pub head_of : ChainKey → ScopeCell → Text
head_of key cell = or_else (lookup key cell.chain_head) base_pih

-- The records of every kind, in the order in which they were recorded, form one chain from the
-- base hash to the head that `getPreviousHash` reads.
pub record IsChained (cell : ScopeCell) : Type 0 where
  pub at :
      (k : InvoiceKind) → Chained base_pih (of_kind k (links cell.records)) (head_of (some k) cell)

pub Chained-snoc :
    (start : Text) (ls : List Link) (l : Link) {last : Text}
    → Chained start ls last
    → l.previous ≡ last
    → Chained start (ls ++ l ∷ []) l.hash
Chained-snoc start [] l h e = (e ∙ sym h, refl)
Chained-snoc start (m ∷ ls) l (p, h) e = (p, Chained-snoc m.hash ls l h e)

links-insert_new :
    (id : Text) (r : InvoiceRecord) (m : Dict Text InvoiceRecord)
    → lookup id m ≡ none
    → links (insert id r m) ≡ links m ++ link r ∷ []
links-insert_new id r m h = rw (values-insert_new id r m h) (map-append link (values m) (r ∷ []))

links-insert_same :
    (id : Text) (old r : InvoiceRecord) (m : Dict Text InvoiceRecord)
    → lookup id m ≡ some old
    → link r ≡ link old
    → links (insert id r m) ≡ links m
unfolding lookup insert
links-insert_same id old r [] h e = cc
links-insert_same id old r ((j, w) ∷ m) h e = ground (arith, links-insert_same id old r m)

pub IsChained-new_cell : IsChained new_cell
unfolding lookup
IsChained-new_cell = record { at = λ k. refl }

pub of_kind-same : (k : InvoiceKind) (l : Link) → (l.kind == k) ≡ true → of_kind k (l ∷ []) ≡ l ∷ []
of_kind-same k l h = ground arith

of_kind-other : (k : InvoiceKind) (l : Link) → (l.kind == k) ≡ false → of_kind k (l ∷ []) ≡ []
of_kind-other k l h = ground arith

-- A record under a new id is appended, and becomes the head of its kind's chain.
abbrev pub added : InvoiceRecord → ScopeCell → ScopeCell
added r cell = record {
  records = insert r.invoice_id r cell.records;
  chain_head = insert (some r.kind) r.invoice_hash (insert none r.invoice_hash cell.chain_head);
}

pub head_of-added :
    (r : InvoiceRecord) (cell : ScopeCell) (k : InvoiceKind)
    → head_of (some k) (added r cell)
      ≡ (if r.kind == k then r.invoice_hash else head_of (some k) cell)
head_of-added r cell k = ground (
  arith,
  lookup-insert (some r.kind) (some k) r.invoice_hash (insert none r.invoice_hash cell.chain_head),
  lookup-insert none (some k) r.invoice_hash cell.chain_head,
)

pub links-added :
    (r : InvoiceRecord) (cell : ScopeCell) (k : InvoiceKind)
    → lookup r.invoice_id cell.records ≡ none
    → of_kind k (links (added r cell).records)
      ≡ of_kind k (links cell.records) ++ of_kind k (link r ∷ [])
links-added r cell k h =
    rw (links-insert_new r.invoice_id r cell.records h)
      (keep-append (λ l. l.kind == k) (links cell.records) (link r ∷ []))

module _ (r : InvoiceRecord) (cell : ScopeCell) (c : IsChained cell)
    (next : r.previous_invoice_hash ≡ head_of (some r.kind) cell)
    (fresh : lookup r.invoice_id cell.records ≡ none) where
  chain-added_same :
      (k : InvoiceKind)
      → (r.kind == k) ≡ true
      → Chained base_pih
          (of_kind k (links (added r cell).records))
          (head_of (some k) (added r cell))
  chain-added_same k same =
      let e : r.kind ≡ k = (kind_eq.beq_iff r.kind k).0 same in
      rw (links-added r cell k fresh, of_kind-same k (link r) same, head_of-added r cell k, same)
        (Chained-snoc base_pih (of_kind k (links cell.records)) (link r) (c.at k)
          (next ∙ ap (λ j. head_of (some j) cell) e))

  chain-added_other :
      (k : InvoiceKind)
      → (r.kind == k) ≡ false
      → Chained base_pih
          (of_kind k (links (added r cell).records))
          (head_of (some k) (added r cell))
  chain-added_other k other =
      rw
        (
          links-added r cell k fresh,
          of_kind-other k (link r) other,
          head_of-added r cell k,
          other,
          append-nil,
        )
        (c.at k)

  IsChained-added : IsChained (added r cell)
  IsChained-added = record {
    at = λ k. elim (Bool-cases (r.kind == k)) [
      | inl same ↦ chain-added_same k same
      | inr other ↦ chain-added_other k other
    ];
  }

-- A record that continues the chain of its kind, or that is refused, keeps every chain.
pub record_in_cell-IsChained :
    (r : InvoiceRecord) (cell : ScopeCell)
    → IsChained cell
    → r.previous_invoice_hash ≡ head_of (some r.kind) cell
    → IsChained (record_in_cell r cell).1
unfolding record_in_cell
record_in_cell-IsChained r cell c e = elim (Option-cases (lookup r.invoice_id cell.records)) [
  | inl fresh ↦ rw (fresh, record_in_cell) (IsChained-added r cell c e fresh)
  | inr (old, there) ↦ elim (Bool-cases (records_equal old r)) [
    | inl same ↦ rw (there, record_in_cell, same) c
    | inr other ↦ rw (there, record_in_cell, other) c
  ]
]

-- A change of status keeps every chain.
pub update_in_cell-IsChained :
    (id : Text) (status : InvoiceStatus) (cell : ScopeCell)
    → IsChained cell
    → IsChained (update_in_cell id status cell).1
unfolding update_in_cell
update_in_cell-IsChained id status cell c = elim (Option-cases (lookup id cell.records)) [
  | inl missing ↦ rw (missing, update_in_cell) c
  | inr (old, there) ↦
      let e = links-insert_same id old (record old { status = status }) cell.records there refl in
      rw (there, update_in_cell) (record { at = λ k. rw e (c.at k) })
]
