-- ===== src/Server/Audit/Log.antt =====
-- packages/server/src/audit/log.ts: `createMemoryAuditLog`. The state is the list of the rows; the
-- id and the time of an entry, and the size of a payload, are given to each call.
use dokhna_tech_zatca.Prelude.{
  ℕ, Bool, true, false, ◌&&◌, Option, none, some, List, [], ◌∷◌, ◌++◌, take, ltb, leb, or_else,
  if◌then◌else◌,
}
use dokhna_tech_zatca.Prelude.Eq.{◌==◌}
use dokhna_tech_zatca.Prelude.Text.{Text, text, text_eq}
use dokhna_tech_zatca.Prelude.Exec.{ok}
use dokhna_tech_zatca.Json.{Json}
use dokhna_tech_zatca.Errors.{Exec}
use dokhna_tech_zatca.Server.Audit.Redact.{cap_audit_payload, max_audit_payload_bytes}

pub data AuditActor : Type 0 where
  admin : (label : Text) → AuditActor
  tenant : (tenant_ref token_id : Text) → AuditActor
  system : AuditActor

-- `actor.type`
unfoldable pub actor_type : AuditActor → Text
actor_type (admin label) = text "admin"
actor_type (tenant tenant_ref token_id) = text "tenant"
actor_type system = text "system"

pub data AuditAction : Type 0 where
  tenant_created tenant_patched tenant_soft_deleted tenant_onboarded tenant_credentials_rotated
        tenant_unlocked tenant_state_transitioned invoice_issued invoice_cancelled
        invoice_status_checked invoice_compliance_checked api_key_issued api_key_revoked :
      AuditAction

unfoldable pub action_name : AuditAction → Text
action_name tenant_created = text "tenant.created"
action_name tenant_patched = text "tenant.patched"
action_name tenant_soft_deleted = text "tenant.softDeleted"
action_name tenant_onboarded = text "tenant.onboarded"
action_name tenant_credentials_rotated = text "tenant.credentialsRotated"
action_name tenant_unlocked = text "tenant.unlocked"
action_name tenant_state_transitioned = text "tenant.stateTransitioned"
action_name invoice_issued = text "invoice.issued"
action_name invoice_cancelled = text "invoice.cancelled"
action_name invoice_status_checked = text "invoice.statusChecked"
action_name invoice_compliance_checked = text "invoice.complianceChecked"
action_name api_key_issued = text "apiKey.issued"
action_name api_key_revoked = text "apiKey.revoked"

pub data AuditResult : Type 0 where
  fine error : AuditResult

abbrev same_result : AuditResult → AuditResult → Bool
same_result fine fine = true
same_result error error = true
same_result _ _ = false

pub record AuditEntryInput : Type 0 where
  pub actor : AuditActor
  pub tenant_ref : Option Text
  pub action : AuditAction
  pub target_id : Option Text
  pub result : AuditResult
  pub zatca_request_id : Option Text
  pub request_id : Option Text
  pub payload : Option Json

pub record AuditEntry : Type 0 where
  pub id : Text
  pub at : ℕ
  pub input : AuditEntryInput

pub record AuditListFilter : Type 0 where
  pub tenant_ref : Option Text
  pub action : Option AuditAction
  pub actor_type : Option Text
  pub since : Option ℕ
  pub until : Option ℕ
  pub result : Option AuditResult
  pub limit : Option ℕ

-- `id` is what `randomUUID()` gives.
unfoldable pub write :
    (size : Json → ℕ)
    → AuditEntryInput
    → (id : Text) → (now : ℕ) → Exec (List AuditEntry) AuditEntry
write size input id now rows =
    let entry : AuditEntry = record {
      id = id;
      at = now;
      input = record input {
        payload = cap_audit_payload size max_audit_payload_bytes input.payload;
      };
    } in
    (ok entry, rows ++ entry ∷ [])

abbrev agrees {ℓ} : {A : Type ℓ} → Option A → (A → Bool) → Bool
agrees none test = true
agrees (some a) test = test a

abbrev is_some : Text → Option Text → Bool
is_some wanted none = false
is_some wanted (some s) = s == wanted

-- The tests of the walk over the rows.
unfoldable pub matches : AuditListFilter → AuditEntry → Bool
matches filter row =
    agrees filter.tenant_ref (λ ref. is_some ref row.input.tenant_ref)
    && (agrees filter.action (λ a. action_name row.input.action == action_name a)
        && (agrees filter.actor_type (λ t. actor_type row.input.actor == t)
            && (agrees filter.result (λ r. same_result row.input.result r)
                && (agrees filter.since (λ t. leb t row.at)
                    && agrees filter.until (λ t. leb row.at t)))))

-- The walk from the last row to the first.
unfoldable pub walk_back : AuditListFilter → List AuditEntry → List AuditEntry → List AuditEntry
unfolding matches
walk_back filter [] out = out
walk_back filter (row ∷ rows) out =
    walk_back filter rows (if matches filter row then row ∷ out else out)

-- A stable sort by falling time, as `sort` is: a row goes in front of those that are not newer.
unfoldable pub insert_row : AuditEntry → List AuditEntry → List AuditEntry
insert_row row [] = row ∷ []
insert_row row (other ∷ rows) =
    let rest = insert_row row rows in
    if ltb row.at other.at then other ∷ rest else row ∷ other ∷ rows

unfoldable pub sort_rows : List AuditEntry → List AuditEntry
unfolding insert_row
sort_rows [] = []
sort_rows (row ∷ rows) = insert_row row (sort_rows rows)

unfoldable pub list : AuditListFilter → List AuditEntry → List AuditEntry
unfolding walk_back sort_rows
list filter rows = take (or_else filter.limit 100) (sort_rows (walk_back filter rows []))
