-- ===== src/Onboarding/Runner.antt =====
-- packages/core/src/compliance/run-tests.ts. The state of a run is the storage, the world behind the
-- gateway and the progress hook, and the run's two variables `results` and `lastInvoiceHash`.
pub mod Report
pub mod Keeps
use dokhna_tech_zatca.Prelude.{
  ℕ, Bool, true, false, ◌&&◌, ◌||◌, Option, none, some, List, [], ◌∷◌, ◌++◌, length, or_else,
}
use dokhna_tech_zatca.Prelude.Text.{Text, text, decimal}
use dokhna_tech_zatca.Prelude.Exec.{ok, err, pure, lift, ◌>>=◌, ◌>>◌}
use dokhna_tech_zatca.Prelude.Fallible
use dokhna_tech_zatca.Json.{Json, null, arr, obj, Items, nil, cons}
use dokhna_tech_zatca.Errors.{
  ZatcaError, validation_error, api_error, signing_error, certificate_error, onboarding_error,
  storage_error, zatca_error, server_error, cipher_error, registry_error, auth_error, audit_error,
  plain_error, not_an_error, Result, Exec,
}
use dokhna_tech_zatca.Xml.{js_string, child}
use dokhna_tech_zatca.Egs.{EgsUnitInfo}
use dokhna_tech_zatca.Storage.{
  InvoiceKind, simplified_tax_invoice, standard_tax_invoice, simplified_credit_note,
  standard_credit_note, simplified_debit_note, standard_debit_note, TenantScope, StorageAdapter,
}
use dokhna_tech_zatca.Issue.{
  Signing, Builders, IssueArgs, IssuedInvoice, issue_simplified_tax_invoice,
  issue_standard_tax_invoice, issue_simplified_credit_note, issue_standard_credit_note,
  issue_simplified_debit_note, issue_standard_debit_note,
}
use dokhna_tech_zatca.Issue.Dispatch.{kind_name}
use dokhna_tech_zatca.Server.Tenants.{ZatcaEnvironment}
use dokhna_tech_zatca.Api.{is_empty, Platform, Gateway}
use dokhna_tech_zatca.Api.Invoices.{check_invoice_compliance}
use dokhna_tech_zatca.Onboarding.Scenarios.{
  ScenarioInput, ScenarioDateOverrides, make_simplified_invoice_scenario,
  make_standard_invoice_scenario, make_simplified_credit_note_scenario,
  make_standard_credit_note_scenario, make_simplified_debit_note_scenario,
  make_standard_debit_note_scenario,
}

-- What one scenario reads of the clock and of the random generator.
pub record Readings : Type 0 where
  pub submitted_at : ℕ
  pub random_uuid : Text
  pub issued_at : ℕ

pub record RunComplianceTestsArgs : Type 0 where
  pub egs_info : EgsUnitInfo
  pub environment : ZatcaEnvironment
  pub signing : Signing
  pub binary_security_token : Text
  pub api_secret : Text
  pub scope : Option TenantScope
  pub date_overrides : ScenarioDateOverrides
  pub readings : InvoiceKind → Readings

pub record ComplianceProgressEvent : Type 0 where
  pub scenario_name : Text
  pub invoice_kind : InvoiceKind
  pub passed : Bool
  pub errors : List Text
  pub completed_count : ℕ
  pub total_count : ℕ

pub record ComplianceTestScenarioResult : Type 0 where
  pub invoice_kind : InvoiceKind
  pub scenario_name : Text
  pub invoice_number : Text
  pub invoice_hash : Text
  pub submitted_at : ℕ
  pub response : Option Json
  pub passed : Bool
  pub errors : List Text

pub data OverallStatus : Type 0 where
  passed failed : OverallStatus

pub record ComplianceTestReport : Type 0 where
  pub overall_status : OverallStatus
  pub results : List ComplianceTestScenarioResult
  pub final_invoice_hash : Text

abbrev type_error : Text → ZatcaError
type_error message = plain_error (text "TypeError") none message

-- `String(e[key])`, where `e` is not `null`.
abbrev shown : Text → Json → Text
shown key e = elim (child key e) [ none ↦ text "undefined" | some v ↦ js_string v ]

abbrev message_of : Json → Result Text
message_of null = err (type_error (text "Cannot read properties of null (reading 'code')"))
message_of e = ok (shown (text "code") e ++ (text ": " ++ shown (text "message") e))

unfoldable pub messages_of : Items → Result (List Text)
messages_of nil = ok []
messages_of (cons e rest) = elim (message_of e) [
  | err x ↦ err x
  | ok message ↦ elim (messages_of rest) [ err x ↦ err x | ok messages ↦ ok (message ∷ messages) ]
]

abbrev error_messages : Option Json → Option Json
error_messages none = none
error_messages (some results) = child (text "errorMessages") results

-- `classifyResponse`: the error messages; the response passes iff there are none.
unfoldable pub classify_response : Option Json → Result (List Text)
unfolding messages_of
classify_response none =
    err (type_error (text "Cannot read properties of undefined (reading 'validationResults')"))
classify_response (some null) =
    err (type_error (text "Cannot read properties of null (reading 'validationResults')"))
classify_response (some response) =
    elim (error_messages (child (text "validationResults") response)) [
      | none ↦ ok []
      | some null ↦ ok []
      | some (arr errs) ↦ messages_of errs
      | some other ↦ err (type_error (text "errs.map is not a function"))
    ]

abbrev named : Text → Text → Text
named name message = name ++ (text ": " ++ message)

unfoldable pub describe_error : ZatcaError → Text
describe_error (api_error e) =
    text "ZatcaApiError (status " ++ (decimal e.status_code ++ (text "): " ++ e.message))
describe_error (validation_error m) = named (text "ZatcaValidationError") m
describe_error (signing_error m) = named (text "ZatcaSigningError") m
describe_error (certificate_error m) = named (text "ZatcaCertificateError") m
describe_error (onboarding_error m) = named (text "ZatcaOnboardingError") m
describe_error (storage_error m) = named (text "ZatcaStorageError") m
describe_error (zatca_error m) = named (text "ZatcaError") m
describe_error (server_error status m) = named (text "ZatcaServerError") m
describe_error (cipher_error m) = named (text "ZatcaCipherError") m
describe_error (registry_error code m) = named (text "ZatcaRegistryError") m
describe_error (auth_error status m) = named (text "ZatcaAuthError") m
describe_error (audit_error m) = named (text "ZatcaAuditError") m
describe_error (plain_error name status m) = named name m
describe_error not_an_error = text "Unknown error"

pub record Run (S W : Type 0) : Type 0 where
  pub stored : S
  pub world : W
  pub results : List ComplianceTestScenarioResult
  pub last_invoice_hash : Option Text

module _ {S W A : Type 0} where
  abbrev pub on_stored : Exec S A → Exec (Run S W) A
  on_stored m r = ((m r.stored).0, record r { stored = (m r.stored).1 })

  abbrev pub on_world : Exec W A → Exec (Run S W) A
  on_world m r = ((m r.world).0, record r { world = (m r.world).1 })

-- The issuer and the input of each scenario.
pub record Scenario (S : Type 0) : Type 0 where
  pub kind : InvoiceKind
  pub make : ScenarioDateOverrides → ScenarioInput
  pub issue : IssueArgs ScenarioInput → Signing → Exec S IssuedInvoice

abbrev pub all_passed : List ComplianceTestScenarioResult → Bool
all_passed [] = true
all_passed (r ∷ rest) = r.passed && all_passed rest

module _ {S W : Type 0} (storage : StorageAdapter S) (builders : Builders ScenarioInput)
    (platform : Platform) (gateway : Gateway W)
    (on_progress : Option (ComplianceProgressEvent → Exec W (Unit {0})))
    (args : RunComplianceTestsArgs) where
  abbrev scope : TenantScope
  scope =
      or_else args.scope
        (record { vat_number = args.egs_info.vat_number; egs_uuid = args.egs_info.uuid })

  abbrev issue_args : Scenario S → IssueArgs ScenarioInput
  issue_args scenario = record {
    input = scenario.make args.date_overrides;
    egs_info = args.egs_info;
    scope = scope;
    invoice_id = none;
    random_uuid = (args.readings scenario.kind).random_uuid;
    now = (args.readings scenario.kind).issued_at;
  }

  abbrev set_last_hash : Text → Exec (Run S W) (Unit {0})
  set_last_hash hash r = (ok tt, record r { last_invoice_hash = some hash })

  abbrev push : ComplianceTestScenarioResult → Exec (Run S W) (Unit {0})
  push row r = (ok tt, record r { results = r.results ++ row ∷ [] })

  -- The row of a scenario that was answered.
  abbrev answered :
      InvoiceKind → IssuedInvoice → Option Json → List Text → ComplianceTestScenarioResult
  answered kind issued response errors = record {
    invoice_kind = kind;
    scenario_name = kind_name kind;
    invoice_number = issued.invoice_number;
    invoice_hash = issued.invoice_hash;
    submitted_at = (args.readings kind).submitted_at;
    response = response;
    passed = elim errors [ [] ↦ true | e ∷ rest ↦ false ];
    errors = errors;
  }

  -- The row of a scenario that threw.
  abbrev threw : InvoiceKind → ZatcaError → ComplianceTestScenarioResult
  threw kind e = record {
    invoice_kind = kind;
    scenario_name = kind_name kind;
    invoice_number = [];
    invoice_hash = [];
    submitted_at = (args.readings kind).submitted_at;
    response = none;
    passed = false;
    errors = describe_error e ∷ [];
  }

  -- The `try` block of a scenario.
  unfoldable pub try_scenario : Scenario S → Exec (Run S W) ComplianceTestScenarioResult
  unfolding classify_response
  try_scenario scenario = do
    issued ← on_stored (scenario.issue (issue_args scenario) args.signing)
    set_last_hash issued.invoice_hash
    response ← on_world (
        check_invoice_compliance platform gateway (record {
          signed_invoice_xml = issued.signed_xml;
          invoice_hash = issued.invoice_hash;
          egs_uuid = args.egs_info.uuid;
          binary_security_token = args.binary_security_token;
          api_secret = args.api_secret;
          environment = args.environment;
        }))
    errors ← lift (classify_response response)
    pure (answered scenario.kind issued response errors)

  -- The `catch` block.
  abbrev settled : InvoiceKind → Result ComplianceTestScenarioResult → ComplianceTestScenarioResult
  settled kind (ok row) = row
  settled kind (err e) = threw kind e

  abbrev pub row_of : Scenario S → Run S W → ComplianceTestScenarioResult
  row_of scenario r = settled scenario.kind (try_scenario scenario r).0

  unfoldable pub run_scenario : Scenario S → Exec (Run S W) (Unit {0})
  unfolding try_scenario describe_error
  run_scenario scenario r = push (row_of scenario r) (try_scenario scenario r).1

  abbrev event_of :
      List ComplianceTestScenarioResult → ComplianceTestScenarioResult → ComplianceProgressEvent
  event_of results last = record {
    scenario_name = last.scenario_name;
    invoice_kind = last.invoice_kind;
    passed = last.passed;
    errors = last.errors;
    completed_count = length results;
    total_count = 6;
  }

  abbrev last_of : List ComplianceTestScenarioResult → Option ComplianceTestScenarioResult
  last_of [] = none
  last_of (row ∷ []) = some row
  last_of (row ∷ next_row ∷ rows) = last_of (next_row ∷ rows)

  -- What the hook throws is swallowed.
  unfoldable pub fire_latest_progress : Exec (Run S W) (Unit {0})
  fire_latest_progress r = elim on_progress [
    | none ↦ (ok tt, r)
    | some hook ↦ elim (last_of r.results) [
      | none ↦ (ok tt, r)
      | some last ↦ (ok tt, record r { world = (hook (event_of r.results last) r.world).1 })
    ]
  ]

  unfoldable pub run_scenarios : List (Scenario S) → Exec (Run S W) (Unit {0})
  unfolding run_scenario fire_latest_progress
  run_scenarios [] = pure tt
  run_scenarios (scenario ∷ rest) = do
    run_scenario scenario
    fire_latest_progress
    run_scenarios rest

  unfoldable pub scenarios : List (Scenario S)
  scenarios =
      record {
        kind = simplified_tax_invoice;
        make = make_simplified_invoice_scenario;
        issue = issue_simplified_tax_invoice storage builders;
      }
      ∷ record {
        kind = standard_tax_invoice;
        make = make_standard_invoice_scenario;
        issue = issue_standard_tax_invoice storage builders;
      }
      ∷ record {
        kind = simplified_credit_note;
        make = make_simplified_credit_note_scenario;
        issue = issue_simplified_credit_note storage builders;
      }
      ∷ record {
        kind = standard_credit_note;
        make = make_standard_credit_note_scenario;
        issue = issue_standard_credit_note storage builders;
      }
      ∷ record {
        kind = simplified_debit_note;
        make = make_simplified_debit_note_scenario;
        issue = issue_simplified_debit_note storage builders;
      }
      ∷ record {
        kind = standard_debit_note;
        make = make_standard_debit_note_scenario;
        issue = issue_standard_debit_note storage builders;
      }
      ∷ []

  abbrev pub report_of : Run S W → ComplianceTestReport
  report_of r = record {
    overall_status = elim (all_passed r.results) [ true ↦ passed | false ↦ failed ];
    results = r.results;
    final_invoice_hash = or_else r.last_invoice_hash [];
  }

  -- The two checks of the credentials.
  abbrev pub require_credentials : Result (Unit {0})
  require_credentials =
      elim (is_empty args.signing.certificate || is_empty args.signing.private_key) [
        | true ↦ err (
            onboarding_error
              (text "runComplianceTests requires `signing.certificate` + `signing.privateKey`."))
        | false ↦ elim (is_empty args.binary_security_token || is_empty args.api_secret) [
          | true ↦ err (
              onboarding_error (
                text
                  "runComplianceTests requires `apiCredentials.binarySecurityToken` + `apiCredentials.apiSecret`."))
          | false ↦ ok tt
        ]
      ]

  abbrev pub begin_run : S → W → Run S W
  begin_run s w = record { stored = s; world = w; results = []; last_invoice_hash = none }

  -- On a storage and a world; both come back.
  unfoldable pub run_compliance_tests : S → W → Result ComplianceTestReport × (S × W)
  unfolding run_scenarios scenarios
  run_compliance_tests s w = elim require_credentials [
    | err e ↦ (err e, (s, w))
    | ok done ↦
        let r = (run_scenarios scenarios (begin_run s w)).1 in
        (ok (report_of r), (r.stored, r.world))
  ]
