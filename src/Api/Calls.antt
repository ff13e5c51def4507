-- ===== src/Api/Calls.antt =====
-- What goes out to the gateway, seen by a gateway that writes every call down.
use dokhna_tech_zatca.Prelude.{
  subst, ◌≡◌, ◌⊎◌, inl, inr, refl, Bool, Option, some, List, [], ◌∷◌, ◌++◌, if◌then◌else◌,
}
use dokhna_tech_zatca.Prelude.Text.{Text, text, text_eq}
use dokhna_tech_zatca.Prelude.Eq.{list_beq}
use dokhna_tech_zatca.Prelude.Dict.{lookup}
use dokhna_tech_zatca.Prelude.Exec.{ok, err, Result-cases}
use dokhna_tech_zatca.Json.{Json}
use dokhna_tech_zatca.Errors.{ZatcaError, Result}
use dokhna_tech_zatca.Api.{
  Platform, Headers, post, zatca_endpoints, HttpRequest, Gateway, get_zatca_endpoints,
  build_base_headers, build_auth_headers, build_clearance_headers,
}
use dokhna_tech_zatca.Api.Invoices.{
  InvoiceParams, SubmissionResult, reporting, clearance, simplified_invoice, standard_invoice,
  require_invoice, is_simplified_invoice, single_invoice_reporting_or_clearance_status,
  submission_path, invoice_body,
}
use dokhna_tech_zatca.Server.Tenants.{ZatcaEnvironment, sandbox, simulation, production}

unfoldable pub recording : (HttpRequest → Result (Option Json)) → Gateway (List HttpRequest)
recording answer = record { send = λ call sent. (answer call, sent ++ call ∷ []) }

-- A call with these credentials as HTTP Basic, to the gateway of the environment.
pub record IsAuthorized (platform : Platform) (base token secret : Text) (call : HttpRequest)
    : Type 0 where
  pub to_base : call.base_url ≡ base
  pub basic :
      lookup (text "Authorization") call.headers
      ≡ some (text "Basic " ++ platform.base64 (token ++ b':' ∷ secret))

ok_path : {a b : Headers} → ◌≡◌ {A = Result Headers} (ok a) (ok b) → a ≡ b
ok_path h = cc

auth_lem :
    (platform : Platform) (token secret : Text) (headers : Headers)
    → build_clearance_headers platform token secret ≡ ok headers
    → lookup (text "Authorization") headers
      ≡ some (text "Basic " ++ platform.base64 (token ++ b':' ∷ secret))
unfolding build_clearance_headers build_auth_headers build_base_headers text lookup list_beq
auth_lem platform [] secret headers h = absurd (cc)
auth_lem platform (c ∷ token) [] headers h = absurd (cc)
auth_lem platform (c ∷ token) (d ∷ secret) headers h =
    subst
      (λ l.
        lookup (text "Authorization") l
        ≡ some (text "Basic " ++ platform.base64 ((c ∷ token) ++ b':' ∷ d ∷ secret)))
      (ok_path h) refl

module _ (platform : Platform) (parse_xml : Text → Json)
    (answer : HttpRequest → Result (Option Json)) where
  abbrev pub submitted :
      InvoiceParams → List HttpRequest → Result SubmissionResult × List HttpRequest
  submitted p sent =
      single_invoice_reporting_or_clearance_status platform (recording answer) parse_xml p sent

  -- Where an invoice of the kind that the flag tells goes, and what the call's answer becomes.
  pub record IsRouted (p : InvoiceParams) (simplified : Bool) (call : HttpRequest)
      (result : Result SubmissionResult) : Type 0 where
    pub kind : is_simplified_invoice (parse_xml p.signed_invoice_xml) ≡ ok simplified
    pub path : call.path ≡ (
        if simplified then text "/invoices/reporting/single" else text "/invoices/clearance/single")
    pub authorized :
        IsAuthorized platform
          (get_zatca_endpoints p.environment).base
          p.binary_security_token
          p.api_secret
          call
    pub passed_on :
        ((r : SubmissionResult) × (result ≡ ok r)
          × (answer call ≡ ok r.response)
          × (r.endpoint ≡ (if simplified then reporting else clearance))
          × (r.invoice_type ≡ (if simplified then simplified_invoice else standard_invoice)))
        ⊎ ((e : ZatcaError) × (result ≡ err e) × (answer call ≡ err e))

  abbrev call_of : InvoiceParams → Bool → Headers → HttpRequest
  call_of p simplified headers = record {
    base_url = (get_zatca_endpoints p.environment).base;
    method = post;
    path = submission_path platform (recording answer) p.environment simplified;
    query = [];
    headers = headers;
    body = some (invoice_body platform p);
  }

  submission_path_lem :
      (environment : ZatcaEnvironment) (simplified : Bool)
      → submission_path platform (recording answer) environment simplified ≡ (
          if simplified
          then text "/invoices/reporting/single"
          else text "/invoices/clearance/single")
  unfolding get_zatca_endpoints zatca_endpoints
  submission_path_lem sandbox simplified = refl
  submission_path_lem simulation simplified = refl
  submission_path_lem production simplified = refl

  routed :
      (p : InvoiceParams) (sent : List HttpRequest) (done : Unit {0}) (simplified : Bool)
      (headers : Headers)
      → require_invoice (text "invoice submission") p ≡ ok done
      → is_simplified_invoice (parse_xml p.signed_invoice_xml) ≡ ok simplified
      → build_clearance_headers platform p.binary_security_token p.api_secret ≡ ok headers
      → ((submitted p sent).1 ≡ sent ++ call_of p simplified headers ∷ [])
        × IsRouted p simplified (call_of p simplified headers) (submitted p sent).0
  unfolding single_invoice_reporting_or_clearance_status recording
  routed p sent done simplified headers complete kind built =
      elim (Result-cases (answer (call_of p simplified headers))) [
        | inl (response, good) ↦ (
          rw (single_invoice_reporting_or_clearance_status, complete, kind, built, good) refl,
          record {
            kind = kind;
            path = submission_path_lem p.environment simplified;
            authorized = record { to_base = refl; basic = auth_lem platform _ _ headers built };
            passed_on = inl (
              record {
                endpoint = if simplified then reporting else clearance;
                invoice_type = if simplified then simplified_invoice else standard_invoice;
                response = response;
              },
              rw (single_invoice_reporting_or_clearance_status, complete, kind, built, good) refl,
              good,
              refl,
              refl,
            );
          },
        )
        | inr (e, bad) ↦ (
          rw (single_invoice_reporting_or_clearance_status, complete, kind, built, bad) refl,
          record {
            kind = kind;
            path = submission_path_lem p.environment simplified;
            authorized = record { to_base = refl; basic = auth_lem platform _ _ headers built };
            passed_on = inr (
              e,
              rw (single_invoice_reporting_or_clearance_status, complete, kind, built, bad) refl,
              bad,
            );
          },
        )
      ]

  -- A submission either throws before anything is sent, or sends exactly one call: to reporting if
  -- the invoice's type code says that it is simplified and to clearance if not, under the base URL
  -- of the environment and with the given credentials, and passes on what the gateway answers.
  pub submission_routes :
      (p : InvoiceParams) (sent : List HttpRequest)
      → ((e : ZatcaError) × (submitted p sent ≡ (err e, sent)))
        ⊎ ((simplified : Bool) × (call : HttpRequest) × ((submitted p sent).1 ≡ sent ++ call ∷ [])
            × IsRouted p simplified call (submitted p sent).0)
  unfolding single_invoice_reporting_or_clearance_status recording
  submission_routes p sent = elim (Result-cases (require_invoice (text "invoice submission") p)) [
    | inr (e, refused) ↦ inl (e, rw (single_invoice_reporting_or_clearance_status, refused) refl)
    | inl (_, complete) ↦
        elim (Result-cases (is_simplified_invoice (parse_xml p.signed_invoice_xml))) [
          | inr (e, unknown) ↦
              inl (e, rw (single_invoice_reporting_or_clearance_status, complete, unknown) refl)
          | inl (simplified, kind) ↦
              elim (Result-cases
                (build_clearance_headers platform p.binary_security_token p.api_secret)) [
                  | inr (e, bare) ↦ inl (
                    e,
                    rw (single_invoice_reporting_or_clearance_status, complete, kind, bare) refl,
                  )
                  | inl (headers, built) ↦
                      let (gone, route) = routed p sent _ simplified headers complete kind built in
                      inr (simplified, call_of p simplified headers, gone, route)
                ]
        ]
  ]
