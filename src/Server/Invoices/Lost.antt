-- ===== src/Server/Invoices/Lost.antt =====
-- A submitted invoice over the in-memory adapter: the status is set under the invoice's number,
-- while the record stands under its id.
use dokhna_tech_zatca.Prelude.{
  ◌≡◌, ◌∙◌, refl, ap, true, none, some, Option, Option-cases, inl, inr, arith, ◌∷◌, [], ◌++◌,
}
use dokhna_tech_zatca.Prelude.Text.{Text, text_eq}
use dokhna_tech_zatca.Prelude.Dict.{lookup, insert_same}
use dokhna_tech_zatca.Prelude.Exec.{ok, err}
use dokhna_tech_zatca.Json.{Json}
use dokhna_tech_zatca.Errors.{ZatcaError, storage_error, Exec}
use dokhna_tech_zatca.Storage.{TenantScope, InvoiceStatus, accepted}
use dokhna_tech_zatca.Storage.Memory.{
  MemoryStorage, InvoiceNumberFormatter, scope_key, update_in_cell, load_invoice,
  update_invoice_status, unknown_invoice, create_memory_storage_adapter,
}
use dokhna_tech_zatca.Issue.{IssuedInvoice}
use dokhna_tech_zatca.Issue.Dispatch.{phase2, issue_invoice, is_phase2}
use dokhna_tech_zatca.Server.Tenants.{to_tenant_scope}
use dokhna_tech_zatca.Server.Idempotency.{claimed, begin, release}
use dokhna_tech_zatca.Server.Invoices.{
  Authenticated, IssueBody, Request, RouteDeps, RouteState, Reply, read_idempotency_key,
  require_submittable, ttl, cache_key_of, release_idempotency, submit, submission_of, submit_issued,
  issue_args, work, guarded, or_release, post_invoice,
}
use dokhna_tech_zatca.Server.Invoices.Replay.{begun, post_invoice-claimed}

update_unknown :
    (scope : TenantScope) (id : Text) (status : InvoiceStatus) (s : MemoryStorage)
    → (load_invoice scope id s).0 ≡ ok none
    → update_invoice_status scope id status s ≡ (err (storage_error (unknown_invoice id)), s)
unfolding update_invoice_status load_invoice update_in_cell
update_unknown scope id status s h = elim (Option-cases (lookup (scope_key scope) s.scopes)) [
  | inl missing ↦ rw (update_invoice_status, missing) refl
  | inr (cell, there) ↦ ground (arith, insert_same (scope_key scope) cell s.scopes)
]

or_release_err :
    {S Details : Type 0} (deps : RouteDeps S Details) (ck : Option Text)
    (m : Exec (RouteState S) Reply) (u v : RouteState S) (e : ZatcaError)
    → m u ≡ (err e, v)
    → or_release deps ck m u ≡ (err e, (release_idempotency deps ck v).1)
unfolding or_release
or_release_err deps ck m u v e h =
    ap
      (λ r. elim r.0 [
        | ok reply ↦ (ok reply, r.1)
        | err e ↦ (err e, (release_idempotency deps ck r.1).1)
      ])
      h

abbrev pub over_memory :
    {Details : Type 0}
    → InvoiceNumberFormatter
    → RouteDeps MemoryStorage Details
    → RouteDeps MemoryStorage Details
over_memory format deps = record deps { storage = create_memory_storage_adapter format }

module _ {Details : Type 0} (format : InvoiceNumberFormatter)
    (given : RouteDeps MemoryStorage Details) (req : Request Details) (auth : Authenticated)
    (body : IssueBody Details) (key : Text) (authenticated : req.auth ≡ ok auth)
    (parsed : req.body ≡ ok body) (keyed : read_idempotency_key req.idempotency_key ≡ ok (some key))
    (s : RouteState MemoryStorage) (issued : IssuedInvoice) (t : MemoryStorage)
    (answer : Option Json) (asked : body.submit ≡ true) (kind : is_phase2 body.input.kind ≡ true)
    (first : (begin
        (cache_key_of (over_memory format given) req.tenant_ref key)
        (ttl (over_memory format given))
        req.begin_read_at
        req.begin_set_at
        s.entries).0
      ≡ ok claimed)
    (made : issue_invoice
        (create_memory_storage_adapter format)
        given.builders
        (issue_args (over_memory format given) auth req body)
        s.stored
      ≡ (ok (phase2 issued), t))
    (cleared : given.submit_invoice issued.signed_xml issued.invoice_hash ≡ ok answer)
    (unnumbered : (load_invoice (to_tenant_scope auth.tenant) issued.invoice_number t).0
      ≡ ok none) where
  abbrev deps : RouteDeps MemoryStorage Details
  deps = over_memory format given

  abbrev ck : Text
  ck = cache_key_of deps req.tenant_ref key

  work_lost :
      (u : RouteState MemoryStorage)
      → u.stored ≡ s.stored
      → work deps auth req body u ≡ (
        err (storage_error (unknown_invoice issued.invoice_number)),
        record u { stored = t; submissions = u.submissions ++ issued.signed_xml ∷ [] },
      )
  unfolding work submit_issued submit submission_of require_submittable
      create_memory_storage_adapter
  work_lost u same =
      rw
        (
          asked,
          kind,
          same,
          made,
          cleared,
          update_unknown (to_tenant_scope auth.tenant) issued.invoice_number accepted t unnumbered,
        )
        refl

  guarded_lost : guarded deps auth req body (some ck) (begun deps req key s) ≡ (
    err (storage_error (unknown_invoice issued.invoice_number)),
    record (begun deps req key s) {
      stored = t;
      submissions = s.submissions ++ issued.signed_xml ∷ [];
    },
  )
  unfolding guarded
  guarded_lost = rw (work_lost (begun deps req key s) refl) refl

  -- An invoice that the gateway accepts is lost to the server when no record stands under its
  -- number, as none does while ids are random UUIDs: the route has issued and submitted it, then
  -- throws a storage error, commits no response and frees the idempotency key.
  pub post_invoice_lost : post_invoice (over_memory format given) req s ≡ (
    err (storage_error (unknown_invoice issued.invoice_number)),
    record s {
      stored = t;
      entries =
          (release
            (cache_key_of (over_memory format given) req.tenant_ref key)
            (begun (over_memory format given) req key s).entries).1;
      submissions = s.submissions ++ issued.signed_xml ∷ [];
    },
  )
  unfolding release_idempotency
  post_invoice_lost =
      post_invoice-claimed deps req auth body key authenticated parsed keyed s first
      ∙ or_release_err deps (some ck) (guarded deps auth req body (some ck)) (begun deps req key s)
          _ (storage_error (unknown_invoice issued.invoice_number)) guarded_lost
