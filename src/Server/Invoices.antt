-- ===== src/Server/Invoices.antt =====
-- packages/server/src/routes/tenant-invoices.ts: POST /v1/tenants/:ref/invoices.
-- Interfaces: what `authTenant` and the zod schema make of the request, the builders, the digest of
-- a key, the gateway's answer to a submitted invoice, the audit log and `JSON.stringify`. The state
-- holds the invoice storage, the idempotency store, and the traces of the submissions and of the
-- audit rows that were written. The metrics counter is left out. `body.input`, which the schema
-- leaves open, is taken to be an invoice input; a value of another form is not modelled.
pub mod Replay
pub mod Lost
use dokhna_tech_zatca.Prelude.{
  ℕ, Bool, true, false, ◌&&◌, ◌||◌, not, Option, none, some, List, [], ◌∷◌, ◌++◌, length, ltb, leb,
  eqb, if◌then◌else◌,
}
use dokhna_tech_zatca.Prelude.Text.{Text, text, text_eq}
use dokhna_tech_zatca.Prelude.Text.Trim.{trim_start, trim_end}
use dokhna_tech_zatca.Prelude.Exec.{ok, err, pure, lift, ◌>>=◌, ◌>>◌}
use dokhna_tech_zatca.Json.{Json, null}
use dokhna_tech_zatca.Errors.{validation_error, api_error, Result, Exec}
use dokhna_tech_zatca.Storage.{
  StorageAdapter, TenantScope, InvoiceStatus, pending, accepted, rejected, InvoiceKind,
}
use dokhna_tech_zatca.Issue.{InvoiceInput, Builders}
use dokhna_tech_zatca.Issue.Dispatch.{
  IssueInvoiceArgs, Issued, phase2, phase1, issue_invoice, kind_name, is_phase2,
}
use dokhna_tech_zatca.Server.Tenants.{TenantRecord, to_tenant_scope}
use dokhna_tech_zatca.Server.Idempotency.{
  Entries, CachedResponse, BeginResult, claimed, in_flight, replay, begin, commit, release,
  default_idempotency_ttl_ms, build_idempotency_cache_key,
}

pub record SignerMaterial : Type 0 where
  pub private_key : Text
  pub production_certificate : Text
  pub production_binary_security_token : Text
  pub production_api_secret : Text
  pub compliance_certificate : Option Text
  pub compliance_binary_security_token : Option Text
  pub compliance_api_secret : Option Text

-- What `authTenant` returns.
pub record Authenticated : Type 0 where
  pub tenant : TenantRecord
  pub signing : SignerMaterial
  pub token_id : Text

-- The `idempotency-key` header, as Fastify gives it.
pub data HeaderValue : Type 0 where
  absent repeated : HeaderValue
  single : Text → HeaderValue

pub record IssueBody (Details : Type 0) : Type 0 where
  pub input : InvoiceInput Details
  pub submit : Bool

pub record InvoiceResponse : Type 0 where
  pub invoice_number : Text
  pub sequence : ℕ
  pub invoice_hash : Option Text
  pub signed_xml : Option Text
  pub qr_code : Option Text
  pub status : InvoiceStatus
  pub zatca_response : Option Json

pub record AuditEntry : Type 0 where
  pub token_id : Text
  pub tenant_ref : Text
  pub target_id : Text
  pub is_error : Bool
  pub zatca_request_id : Option Text
  pub kind : InvoiceKind
  pub submitted : Bool
  pub status : InvoiceStatus

-- One request, with the readings of clocks and of `randomUUID()` that it takes.
pub record Request (Details : Type 0) : Type 0 where
  pub tenant_ref : Text
  pub auth : Result Authenticated
  pub body : Result (IssueBody Details)
  pub idempotency_key : HeaderValue
  pub random_uuid : Text
  pub now : ℕ
  pub begin_read_at : ℕ
  pub begin_set_at : ℕ
  pub commit_at : ℕ

pub record RouteDeps (S Details : Type 0) : Type 0 where
  pub storage : StorageAdapter S
  pub builders : Builders Details
  pub digest : Text → Text
  pub idempotency_window_ms : ℕ
  pub submit_invoice : (signed_xml invoice_hash : Text) → Result (Option Json)
  pub write_audit : AuditEntry → Result (Unit {0})
  pub stringify : InvoiceResponse → Text

pub record RouteState (S : Type 0) : Type 0 where
  pub stored : S
  pub entries : Entries
  pub submissions : List Text
  pub audited : List AuditEntry

pub data Reply : Type 0 where
  issued_reply : InvoiceResponse → (zatca_request_id : Option Text) → Reply
  replayed : CachedResponse → Reply
  in_flight_conflict : Reply

unfoldable pub read_idempotency_key : HeaderValue → Result (Option Text)
read_idempotency_key absent = ok none
read_idempotency_key repeated =
    err (validation_error (text "Idempotency-Key header must not be repeated."))
read_idempotency_key (single raw) =
    let trimmed = trim_end (trim_start raw) in
    if eqb (length trimmed) 0
    then ok none
    else if ltb 200 (length trimmed)
    then err (validation_error (text "Idempotency-Key header is too long (max 200 chars)."))
    else ok (some trimmed)

unfoldable pub incompatible_kind : InvoiceKind → Text
incompatible_kind kind =
    text "submit=true is incompatible with Phase 1 invoice kind '"
    ++ (kind_name kind
        ++ text
            "'. Phase 1 invoices have no signed XML to clear/report; pass submit=false or use a Phase 2 kind (e.g. 'simplified-tax-invoice').")

-- `if (body.submit && PHASE_1_KINDS.has(inputKind))`
unfoldable pub require_submittable : Bool → InvoiceKind → Result (Unit {0})
require_submittable submit kind =
    if submit && not (is_phase2 kind)
    then err (validation_error (incompatible_kind kind))
    else ok tt

module _ {S A : Type 0} where
  abbrev pub on_storage : Exec S A → Exec (RouteState S) A
  on_storage m s = ((m s.stored).0, record s { stored = (m s.stored).1 })

  abbrev pub on_entries : Exec Entries A → Exec (RouteState S) A
  on_entries m s = ((m s.entries).0, record s { entries = (m s.entries).1 })

-- Whether the route goes on, with the cache key that it has claimed, or has replied.
pub data Opened : Type 0 where
  proceed : (cache_key : Option Text) → Opened
  replied : Reply → Opened

-- What became of a submission: the gateway's answer, its request id and the new status.
pub record Submission : Type 0 where
  pub zatca_response : Option Json
  pub zatca_request_id : Option Text
  pub status : InvoiceStatus

abbrev pub unsubmitted : Submission
unsubmitted = record { zatca_response = some null; zatca_request_id = none; status = pending }

abbrev pub route : Text
route = text "/v1/tenants/:ref/invoices"

module _ {S Details : Type 0} (deps : RouteDeps S Details) where
  unfoldable pub ttl : ℕ
  ttl =
      if ltb 0 deps.idempotency_window_ms
      then deps.idempotency_window_ms
      else default_idempotency_ttl_ms

  abbrev pub cache_key_of : Text → Text → Text
  cache_key_of tenant_ref key = build_idempotency_cache_key deps.digest (some tenant_ref) route key

  abbrev opened : Text → BeginResult → Opened
  opened key claimed = proceed (some key)
  opened key in_flight = replied in_flight_conflict
  opened key (replay response) = replied (replayed response)

  unfoldable pub begin_idempotency : Request Details → Option Text → Exec (RouteState S) Opened
  begin_idempotency req none = pure (proceed none)
  begin_idempotency req (some key) = do
    let cache_key = cache_key_of req.tenant_ref key
    result ← on_entries (begin cache_key ttl req.begin_read_at req.begin_set_at)
    pure (opened cache_key result)

  unfoldable pub commit_idempotency :
      Option Text → CachedResponse → (now : ℕ) → Exec (RouteState S) (Unit {0})
  commit_idempotency none response now = pure tt
  commit_idempotency (some key) response now = on_entries (commit key response ttl now)

  unfoldable pub release_idempotency : Option Text → Exec (RouteState S) (Unit {0})
  release_idempotency none = pure tt
  release_idempotency (some key) = on_entries (release key)

  -- `singleInvoiceReportingOrClearanceStatus`
  unfoldable pub submit : Text → Text → Exec (RouteState S) (Option Json)
  submit signed_xml invoice_hash s = (
    deps.submit_invoice signed_xml invoice_hash,
    record s { submissions = s.submissions ++ signed_xml ∷ [] },
  )

  -- The inner try: an API error is a rejection, any other error is thrown on.
  unfoldable pub submission_of : Result (Option Json) → Result Submission
  submission_of (ok result) =
      ok (record { zatca_response = result; zatca_request_id = none; status = accepted })
  submission_of (err (api_error e)) = ok (record {
    zatca_response = e.validation_results;
    zatca_request_id = e.request_id;
    status = rejected;
  })
  submission_of (err e) = err e

  -- `if (body.submit && isPhase2)`: no issued document has an `invoiceId`, so the status is set
  -- under its number.
  unfoldable pub submit_issued : TenantScope → Bool → Issued → Exec (RouteState S) Submission
  unfolding submit submission_of
  submit_issued scope true (phase2 issued) s =
      let (answer, sent) = submit issued.signed_xml issued.invoice_hash s in
      (do
        submission ← lift (submission_of answer)
        on_storage
            (deps.storage.update_invoice_status scope issued.invoice_number submission.status)
        pure submission)
        sent
  submit_issued scope _ issued s = (ok unsubmitted, s)

  abbrev pub response_of : Issued → Submission → InvoiceResponse
  response_of (phase2 i) submission = record {
    invoice_number = i.invoice_number;
    sequence = i.sequence;
    invoice_hash = some i.invoice_hash;
    signed_xml = some i.signed_xml;
    qr_code = some i.qr_code;
    status = submission.status;
    zatca_response = submission.zatca_response;
  }
  response_of (phase1 i) submission = record {
    invoice_number = i.invoice_number;
    sequence = i.sequence;
    invoice_hash = none;
    signed_xml = none;
    qr_code = some i.qr_code;
    status = submission.status;
    zatca_response = submission.zatca_response;
  }

  abbrev number_of : Issued → Text
  number_of (phase2 i) = i.invoice_number
  number_of (phase1 i) = i.invoice_number

  abbrev is_rejected : InvoiceStatus → Bool
  is_rejected rejected = true
  is_rejected _ = false

  unfoldable pub audit : AuditEntry → Exec (RouteState S) (Unit {0})
  audit entry s = elim (deps.write_audit entry) [
    | ok done ↦ (ok tt, record s { audited = s.audited ++ entry ∷ [] })
    | err e ↦ (err e, s)
  ]

  abbrev pub issue_args :
      Authenticated → Request Details → IssueBody Details → IssueInvoiceArgs Details
  issue_args auth req body = record {
    input = body.input;
    scope = to_tenant_scope auth.tenant;
    signing = some (record {
      certificate = auth.signing.production_certificate;
      private_key = auth.signing.private_key;
    });
    random_uuid = req.random_uuid;
    now = req.now;
  }

  -- The route's work, up to and with the audit row.
  unfoldable pub work :
      Authenticated
      → Request Details
      → IssueBody Details
      → Exec (RouteState S) (InvoiceResponse × Option Text)
  unfolding submit_issued audit require_submittable
  work auth req body = do
    lift (require_submittable body.submit body.input.kind)
    issued ← on_storage (issue_invoice deps.storage deps.builders (issue_args auth req body))
    submission ← submit_issued (to_tenant_scope auth.tenant) body.submit issued
    audit (record {
      token_id = auth.token_id;
      tenant_ref = auth.tenant.tenant_ref;
      target_id = number_of issued;
      is_error = is_rejected submission.status;
      zatca_request_id = submission.zatca_request_id;
      kind = body.input.kind;
      submitted = body.submit;
      status = submission.status;
    })
    pure (response_of issued submission, submission.zatca_request_id)

  abbrev request_id_header : Option Text → List (Text × Text)
  request_id_header none = []
  request_id_header (some id) = (text "X-Zatca-Request-Id", id) ∷ []

  -- What is kept for a replay.
  abbrev pub cached : InvoiceResponse → Option Text → CachedResponse
  cached response id = record {
    status_code = 200;
    headers = (text "content-type", text "application/json; charset=utf-8") ∷ request_id_header id;
    body = deps.stringify response;
  }

  -- The outer try.
  unfoldable pub guarded :
      Authenticated → Request Details → IssueBody Details → Option Text → Exec (RouteState S) Reply
  unfolding commit_idempotency
  guarded auth req body cache_key = do
    made ← work auth req body
    commit_idempotency cache_key (cached made.0 made.1) req.commit_at
    pure (issued_reply made.0 made.1)

  -- The catch block of the outer try.
  unfoldable pub or_release : Option Text → Exec (RouteState S) Reply → Exec (RouteState S) Reply
  unfolding release_idempotency
  or_release cache_key m s = elim (m s).0 [
    | ok reply ↦ (ok reply, (m s).1)
    | err e ↦ (err e, (release_idempotency cache_key (m s).1).1)
  ]

  unfoldable pub proceed_with :
      Authenticated → Request Details → IssueBody Details → Opened → Exec (RouteState S) Reply
  unfolding guarded or_release
  proceed_with auth req body (replied reply) = pure reply
  proceed_with auth req body (proceed cache_key) =
      or_release cache_key (guarded auth req body cache_key)

  unfoldable pub post_invoice : Request Details → Exec (RouteState S) Reply
  unfolding begin_idempotency proceed_with
  post_invoice req = do
    auth ← lift req.auth
    body ← lift req.body
    key ← lift (read_idempotency_key req.idempotency_key)
    opened ← begin_idempotency req key
    proceed_with auth req body opened
