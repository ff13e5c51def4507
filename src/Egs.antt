-- ===== src/Egs.antt =====
-- packages/core/src/types/egs.ts: the metadata of an EGS unit.
use dokhna_tech_zatca.Prelude.{Option}
use dokhna_tech_zatca.Prelude.Text.{Text}

pub record EgsUnitLocation : Type 0 where
  pub city_name : Text
  pub city_subdivision : Text
  pub street : Text
  pub plot_identification : Text
  pub building : Text
  pub postal_zone : Text

pub record EgsCertificate : Type 0 where
  pub private_key : Option Text
  pub csr : Option Text
  pub compliance_certificate : Option Text
  pub compliance_api_secret : Option Text
  pub production_certificate : Option Text
  pub production_api_secret : Option Text

pub record EgsUnitInfo : Type 0 where
  pub uuid : Text
  pub custom_id : Text
  pub model : Text
  pub crn_number : Text
  pub vat_name : Text
  pub vat_number : Text
  pub branch_name : Text
  pub branch_industry : Text
  pub location : EgsUnitLocation
  pub certificate : Option EgsCertificate
