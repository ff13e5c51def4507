-- ===== src/Onboarding/Runner/Keeps.antt =====
-- What the gateway and the progress hook leave as it is, a run of the scenarios leaves as it is.
use dokhna_tech_zatca.Prelude.{inl, inr, Option, Option-cases, none, some, List, [], ◌∷◌}
use dokhna_tech_zatca.Prelude.Exec.{ok, Result-cases, Keeps, bind-Keeps, lift-Keeps}
use dokhna_tech_zatca.Json.{Json}
use dokhna_tech_zatca.Errors.{Exec}
use dokhna_tech_zatca.Storage.{StorageAdapter}
use dokhna_tech_zatca.Issue.{Builders, IssuedInvoice}
use dokhna_tech_zatca.Api.{Platform, HttpRequest, Gateway}
use dokhna_tech_zatca.Api.Invoices.{check_invoice_compliance}
use dokhna_tech_zatca.Api.Keeps.{check_invoice_compliance-Keeps}
use dokhna_tech_zatca.Onboarding.Scenarios.{ScenarioInput}
use dokhna_tech_zatca.Onboarding.Runner.{
  RunComplianceTestsArgs, ComplianceProgressEvent, Run, Scenario, classify_response, issue_args,
  answered, try_scenario, run_scenario, fire_latest_progress, run_scenarios, scenarios,
  require_credentials, begin_run, run_compliance_tests, on_world, on_stored, set_last_hash, last_of,
  event_of,
}

module _ {W : Type 0} (P : W → Type 0) where
  -- Of the hook, where there is one.
  abbrev pub HookKeeps : Option (ComplianceProgressEvent → Exec W (Unit {0})) → Type 0
  HookKeeps none = Unit
  HookKeeps (some hook) = (event : ComplianceProgressEvent) → Keeps P (hook event)

module _ {S W : Type 0} {P : W → Type 0} (storage : StorageAdapter S)
    (builders : Builders ScenarioInput) (platform : Platform) (gateway : Gateway W)
    (on_progress : Option (ComplianceProgressEvent → Exec W (Unit {0})))
    (args : RunComplianceTestsArgs)
    (send-Keeps : (call : HttpRequest) → Keeps P (gateway.send call))
    (hook-Keeps : HookKeeps P on_progress) where
  abbrev InWorld : Run S W → Type 0
  InWorld r = P r.world

  abbrev checked : IssuedInvoice → Exec W (Option Json)
  checked issued = check_invoice_compliance platform gateway (record {
    signed_invoice_xml = issued.signed_xml;
    invoice_hash = issued.invoice_hash;
    egs_uuid = args.egs_info.uuid;
    binary_security_token = args.binary_security_token;
    api_secret = args.api_secret;
    environment = args.environment;
  })

  try_scenario-Keeps :
      (scenario : Scenario S)
      → Keeps InWorld (try_scenario storage builders platform gateway on_progress args scenario)
  unfolding try_scenario
  try_scenario-Keeps scenario =
      bind-Keeps
        {m = on_stored (
          scenario.issue (issue_args storage builders platform gateway on_progress args scenario)
            args.signing)}
        (record { kept = λ r h. h })
        (λ issued.
          bind-Keeps
            {m = set_last_hash storage builders platform gateway on_progress args
              issued.invoice_hash}
            (record { kept = λ r h. h })
            (λ _.
              bind-Keeps {m = on_world (checked issued)}
                (record {
                  kept = λ r h.
                      (check_invoice_compliance-Keeps platform gateway send-Keeps _).kept r.world h;
                })
                (λ response. bind-Keeps (lift-Keeps (classify_response response)) (λ errors.
                  lift-Keeps (
                    ok (
                      answered storage builders platform gateway on_progress args scenario.kind
                        issued response errors))))))

  fired :
      (o : Option (ComplianceProgressEvent → Exec W (Unit {0})))
      → HookKeeps P o
      → Keeps InWorld (fire_latest_progress storage builders platform gateway o args)
  unfolding fire_latest_progress
  fired none harmless = record { kept = λ r h. h }
  fired (some hook) harmless = record {
    kept = λ r h.
        elim (Option-cases (last_of storage builders platform gateway (some hook) args r.results)) [
          | inl nothing ↦ rw (fire_latest_progress, nothing) h
          | inr (last, there) ↦
              rw (fire_latest_progress, there)
                ((harmless (
                    event_of storage builders platform gateway (some hook) args r.results
                      last)).kept
                  r.world h)
        ];
  }

  run_scenarios-Keeps :
      (list : List (Scenario S))
      → Keeps InWorld (run_scenarios storage builders platform gateway on_progress args list)
  unfolding run_scenarios run_scenario
  run_scenarios-Keeps [] = lift-Keeps (ok tt)
  run_scenarios-Keeps (scenario ∷ rest) =
      bind-Keeps {m = run_scenario storage builders platform gateway on_progress args scenario}
        (record { kept = λ r h. (try_scenario-Keeps scenario).kept r h })
        (λ _. bind-Keeps (fired on_progress hook-Keeps) (λ _. run_scenarios-Keeps rest))

  pub run_compliance_tests-Keeps :
      (s : S) (w : W)
      → P w
      → P (run_compliance_tests storage builders platform gateway on_progress args s w).1.1
  unfolding run_compliance_tests
  run_compliance_tests-Keeps s w h =
      elim (Result-cases (require_credentials storage builders platform gateway on_progress args)) [
        | inr (e, refused) ↦ rw (run_compliance_tests, refused) h
        | inl (_, given) ↦
            rw (run_compliance_tests, given)
              ((run_scenarios-Keeps
                  (scenarios storage builders platform gateway on_progress args)).kept
                (begin_run storage builders platform gateway on_progress args s w) h)
      ]
