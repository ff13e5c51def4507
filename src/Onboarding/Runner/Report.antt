-- ===== src/Onboarding/Runner/Report.antt =====
-- What the compliance runner reports, whatever the storage, the builders and the gateway do.
use dokhna_tech_zatca.Prelude.{
  ◌≡◌, ◌↔◌, ◌⊎◌, inl, inr, refl, ap, ◌∙◌, sym, subst, Bool, true, false, Option, List, [], ◌∷◌,
  ◌++◌, arith, append_assoc, append-nil, All,
}
use dokhna_tech_zatca.Prelude.Text.{Text}
use dokhna_tech_zatca.Prelude.Exec.{ok, err, Result-cases}
use dokhna_tech_zatca.Json.{Json}
use dokhna_tech_zatca.Errors.{ZatcaError, Result, Exec}
use dokhna_tech_zatca.Storage.{
  InvoiceKind, simplified_tax_invoice, standard_tax_invoice, simplified_credit_note,
  standard_credit_note, simplified_debit_note, standard_debit_note, StorageAdapter,
}
use dokhna_tech_zatca.Issue.{Builders, IssuedInvoice}
use dokhna_tech_zatca.Issue.Dispatch.{kind_name}
use dokhna_tech_zatca.Api.{Platform, Gateway}
use dokhna_tech_zatca.Api.Invoices.{check_invoice_compliance}
use dokhna_tech_zatca.Onboarding.Scenarios.{ScenarioInput}
use dokhna_tech_zatca.Onboarding.Runner.{
  RunComplianceTestsArgs, ComplianceProgressEvent, ComplianceTestScenarioResult, OverallStatus,
  passed, failed, ComplianceTestReport, Run, Scenario, settled, all_passed, classify_response,
  issue_args, answered, threw, try_scenario, row_of, run_scenario, fire_latest_progress,
  run_scenarios, scenarios, report_of, require_credentials, begin_run, run_compliance_tests,
}

-- A row that belongs to a kind; it passes exactly where it lists no error.
pub record IsRow (kind : InvoiceKind) (row : ComplianceTestScenarioResult) : Type 0 where
  pub of_kind : row.invoice_kind ≡ kind
  pub by_name : row.scenario_name ≡ kind_name kind
  pub clean : (row.passed ≡ true) ↔ (row.errors ≡ [])

abbrev pub Rows : List InvoiceKind → List ComplianceTestScenarioResult → Type 0
Rows [] [] = Unit
Rows (kind ∷ kinds) (row ∷ rows) = IsRow kind row × Rows kinds rows
Rows _ _ = ⊥

abbrev pub six_kinds : List InvoiceKind
six_kinds =
    simplified_tax_invoice ∷ standard_tax_invoice ∷ simplified_credit_note ∷ standard_credit_note
    ∷ simplified_debit_note ∷ standard_debit_note ∷ []

module _ {S W : Type 0} (storage : StorageAdapter S) (builders : Builders ScenarioInput)
    (platform : Platform) (gateway : Gateway W)
    (on_progress : Option (ComplianceProgressEvent → Exec W (Unit {0})))
    (args : RunComplianceTestsArgs) where
  abbrev try_it : Scenario S → Exec (Run S W) ComplianceTestScenarioResult
  try_it = try_scenario storage builders platform gateway on_progress args

  abbrev Tried : Scenario S → Run S W → Type 0
  Tried scenario r =
      (((e : ZatcaError) × ((try_it scenario r).0 ≡ err e))
        ⊎ ((issued : IssuedInvoice) × (response : Option Json) × (errors : List Text) × ((try_it
                scenario r).0
              ≡ ok (
                  answered storage builders platform gateway on_progress args scenario.kind issued
                    response errors))))
      × ((try_it scenario r).1.results ≡ r.results)

  try_scenario_lem : (scenario : Scenario S) (r : Run S W) → Tried scenario r
  unfolding try_scenario
  try_scenario_lem scenario r =
      elim (Result-cases
        (scenario.issue (issue_args storage builders platform gateway on_progress args scenario)
          args.signing r.stored).0) [
            | inr (e, refused) ↦
                (inl (e, rw (try_scenario, refused) refl), rw (try_scenario, refused) refl)
            | inl (issued, made) ↦
                elim (Result-cases
                  (check_invoice_compliance platform gateway
                    (record {
                      signed_invoice_xml = issued.signed_xml;
                      invoice_hash = issued.invoice_hash;
                      egs_uuid = args.egs_info.uuid;
                      binary_security_token = args.binary_security_token;
                      api_secret = args.api_secret;
                      environment = args.environment;
                    })
                    r.world).0) [
                      | inr (e, refused) ↦ (
                        inl (e, rw (try_scenario, made, refused) refl),
                        rw (try_scenario, made, refused) refl,
                      )
                      | inl (response, got) ↦ elim (Result-cases (classify_response response)) [
                        | inr (e, strange) ↦ (
                          inl (e, rw (try_scenario, made, got, strange) refl),
                          rw (try_scenario, made, got, strange) refl,
                        )
                        | inl (errors, read) ↦ (
                          inr (issued, response, errors, rw (try_scenario, made, got, read) refl),
                          rw (try_scenario, made, got, read) refl,
                        )
                      ]
                    ]
          ]

  answered-IsRow :
      (kind : InvoiceKind) (issued : IssuedInvoice) (response : Option Json) (errors : List Text)
      → IsRow kind
          (answered storage builders platform gateway on_progress args kind issued response errors)
  answered-IsRow kind issued response [] = record {
    of_kind = refl;
    by_name = refl;
    clean = (λ _. refl, λ _. refl);
  }
  answered-IsRow kind issued response (e ∷ errors) = record {
    of_kind = refl;
    by_name = refl;
    clean = (λ h. cc, λ h. cc);
  }

  threw-IsRow :
      (kind : InvoiceKind) (e : ZatcaError)
      → IsRow kind (threw storage builders platform gateway on_progress args kind e)
  threw-IsRow kind e = record { of_kind = refl; by_name = refl; clean = (λ h. cc, λ h. cc) }

  abbrev row : Scenario S → Run S W → ComplianceTestScenarioResult
  row = row_of storage builders platform gateway on_progress args

  row-IsRow : (scenario : Scenario S) (r : Run S W) → IsRow scenario.kind (row scenario r)
  row-IsRow scenario r = elim ((try_scenario_lem scenario r).0) [
    | inl (e, thrown) ↦ subst IsSettled (sym thrown) (threw-IsRow scenario.kind e)
    | inr (issued, response, errors, done) ↦
        subst IsSettled (sym done) (answered-IsRow scenario.kind issued response errors)
  ]
    where
      IsSettled : Result ComplianceTestScenarioResult → Type 0
      IsSettled x =
          IsRow scenario.kind
            (settled storage builders platform gateway on_progress args scenario.kind x)

  fire_keeps_results :
      (r : Run S W)
      → (fire_latest_progress storage builders platform gateway on_progress args r).1.results
        ≡ r.results
  unfolding fire_latest_progress
  fire_keeps_results r = ground arith

  fire_ok :
      (r : Run S W)
      → (fire_latest_progress storage builders platform gateway on_progress args r).0 ≡ ok tt
  unfolding fire_latest_progress
  fire_ok r = ground arith

  abbrev kinds_of : List (Scenario S) → List InvoiceKind
  kinds_of [] = []
  kinds_of (scenario ∷ rest) = scenario.kind ∷ kinds_of rest

  -- The rows that the scenarios add.
  Added : List (Scenario S) → Run S W → Type 0
  Added list r =
      (rows : List ComplianceTestScenarioResult) × ((run_scenarios storage builders platform gateway
          on_progress args list r).1.results
        ≡ r.results ++ rows)
      × Rows (kinds_of list) rows

  run_scenarios-Added : (list : List (Scenario S)) (r : Run S W) → Added list r
  unfolding run_scenarios run_scenario Added
  run_scenarios-Added [] r = ([], sym (append-nil r.results), tt)
  run_scenarios-Added (scenario ∷ rest) r =
      let ran = (run_scenario storage builders platform gateway on_progress args scenario r).1 in
      let fired = (fire_latest_progress storage builders platform gateway on_progress args ran).1 in
      let (rows, more, right) = run_scenarios-Added rest fired in
      (
        row scenario r ∷ rows,
        rw (run_scenarios, fire_ok ran)
            (more
              ∙ ap (λ l. l ++ rows)
                  (fire_keeps_results ran
                    ∙ ap (λ l. l ++ row scenario r ∷ []) (try_scenario_lem scenario r).1)
              ∙ append_assoc r.results (row scenario r ∷ []) rows),
        (row-IsRow scenario r, right),
      )

  all_passed_iff :
      (kinds : List InvoiceKind) (rows : List ComplianceTestScenarioResult)
      → Rows kinds rows
      → (all_passed rows ≡ true) ↔ All (λ r. r.errors ≡ []) rows
  all_passed_iff [] [] h = (λ _. tt, λ _. refl)
  all_passed_iff [] (r ∷ rows) h = absurd h
  all_passed_iff (k ∷ kinds) [] h = absurd h
  all_passed_iff (k ∷ kinds) (r ∷ rows) (h, hs) =
      ground (arith, h.clean, all_passed_iff kinds rows hs)

  overall_iff :
      (b : Bool)
      → (elim b as (λ _. OverallStatus) [ true ↦ passed | false ↦ failed ] ≡ passed) ↔ (b ≡ true)
  overall_iff true = (λ _. refl, λ _. refl)
  overall_iff false = (λ h. cc, λ h. cc)

  -- With all credentials given the runner returns a report, whatever the storage, the builders, the
  -- gateway and the progress hook do: one row for each of the six kinds, in the fixed order, whose
  -- flag tells whether it lists no error, and an overall status that is `passed` exactly where no
  -- row lists an error.
  pub run_compliance_tests_report :
      (s : S) (w : W)
      → require_credentials storage builders platform gateway on_progress args ≡ ok tt
      → (report : ComplianceTestReport) × ((run_compliance_tests storage builders platform gateway
            on_progress args s w).0
          ≡ ok report)
        × Rows six_kinds report.results
        × ((report.overall_status ≡ passed) ↔ All (λ r. r.errors ≡ []) report.results)
  unfolding run_compliance_tests scenarios Added
  run_compliance_tests_report s w given =
      let begun = begin_run storage builders platform gateway on_progress args s w in
      let (rows, more, right) =
        run_scenarios-Added (scenarios storage builders platform gateway on_progress args) begun in
      let ended =
        (run_scenarios storage builders platform gateway on_progress args
          (scenarios storage builders platform gateway on_progress args) begun).1 in
      let rows_right = subst (λ l. Rows six_kinds l) (sym more) right in
      let (a, b) = overall_iff (all_passed ended.results) in
      let (c, d) = all_passed_iff six_kinds ended.results rows_right in
      (
        report_of storage builders platform gateway on_progress args ended,
        rw (run_compliance_tests, given) refl,
        rows_right,
        (λ h. c (a h), λ h. b (d h)),
      )
