-- ===== src/Api/Keeps.antt =====
-- What the calls of the gateway leave as it is, `send` leaves as it is.
use dokhna_tech_zatca.Prelude.{Option, subst, sym, ◌≡◌, arith}
use dokhna_tech_zatca.Prelude.Text.{Text, text}
use dokhna_tech_zatca.Prelude.Exec.{lift, Keeps, bind-Keeps, lift-Keeps}
use dokhna_tech_zatca.Json.{Json}
use dokhna_tech_zatca.Api.{
  require, api_failure, Platform, HttpRequest, Gateway, build_otp_headers, build_auth_headers,
}
use dokhna_tech_zatca.Api.Certificates.{
  IssueComplianceCertificateParams, IssueCsidsParams, wrap_certificate_pem, issued_csid,
  issue_compliance_certificate, issue_csids,
}
use dokhna_tech_zatca.Api.Invoices.{InvoiceParams, require_invoice, check_invoice_compliance}

module _ {W : Type 0} {P : W → Type 0} (platform : Platform) (gateway : Gateway W)
    (send-Keeps : (call : HttpRequest) → Keeps P (gateway.send call)) where
  issued_csid_unchanged :
      (wrap : Text → Text) (endpoint : Text) (answer : Option Json) (w : W)
      → (issued_csid platform gateway wrap endpoint answer w).1 ≡ w
  unfolding issued_csid
  issued_csid_unchanged wrap endpoint answer w = ground arith

  issued_csid-Keeps :
      (wrap : Text → Text) (endpoint : Text) (answer : Option Json)
      → Keeps P (issued_csid platform gateway wrap endpoint answer)
  issued_csid-Keeps wrap endpoint answer = record {
    kept = λ w h. subst P (sym (issued_csid_unchanged wrap endpoint answer w)) h;
  }

  required-Keeps :
      (value message : Text) → Keeps P (lift {S = W} (require value (api_failure message)))
  required-Keeps value message = lift-Keeps (require value (api_failure message))

  pub check_invoice_compliance-Keeps :
      (p : InvoiceParams) → Keeps P (check_invoice_compliance platform gateway p)
  unfolding check_invoice_compliance
  check_invoice_compliance-Keeps p =
      bind-Keeps (lift-Keeps (require_invoice (text "compliance check") p)) (λ _.
        bind-Keeps (lift-Keeps (build_auth_headers platform p.binary_security_token p.api_secret))
          (λ headers. send-Keeps _))

  pub issue_compliance_certificate-Keeps :
      (p : IssueComplianceCertificateParams)
      → Keeps P (issue_compliance_certificate platform gateway p)
  unfolding issue_compliance_certificate
  issue_compliance_certificate-Keeps p =
      bind-Keeps (required-Keeps p.csr (text "csr is required to issue a compliance certificate"))
        (λ _.
          bind-Keeps
            (required-Keeps p.otp (text "otp is required to issue a compliance certificate"))
            (λ _. bind-Keeps (lift-Keeps (build_otp_headers p.otp)) (λ headers.
              bind-Keeps (send-Keeps _) (λ answer.
                issued_csid-Keeps (wrap_certificate_pem platform) (text "ZATCA compliance")
                  answer))))

  pub issue_csids-Keeps : (p : IssueCsidsParams) → Keeps P (issue_csids platform gateway p)
  unfolding issue_csids
  issue_csids-Keeps p =
      bind-Keeps
        (required-Keeps p.compliance_request_id
          (text "complianceRequestId is required for CSID issuance"))
        (λ _.
          bind-Keeps
            (required-Keeps p.binary_security_token
              (text "binarySecurityToken is required for CSID issuance"))
            (λ _.
              bind-Keeps
                (required-Keeps p.api_secret (text "apiSecret is required for CSID issuance"))
                (λ _.
                  bind-Keeps
                    (lift-Keeps (build_auth_headers platform p.binary_security_token p.api_secret))
                    (λ headers. bind-Keeps (send-Keeps _) (λ answer.
                      issued_csid-Keeps platform.base64_decode (text "ZATCA CSIDS") answer)))))
