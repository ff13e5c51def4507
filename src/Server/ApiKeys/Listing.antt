-- ===== src/Server/ApiKeys/Listing.antt =====
-- packages/server/src/tenants/registry-memory.ts: the `list` of the API-key store.
use dokhna_tech_zatca.Prelude.{ℕ, ◌≡◌, Option, List, map, keep, ltb, length}
use dokhna_tech_zatca.Prelude.Eq.{◌==◌}
use dokhna_tech_zatca.Prelude.Text.{Text, text_eq}
use dokhna_tech_zatca.Prelude.Sort.{sort_by, length-sort_by}
use dokhna_tech_zatca.Server.ApiKeys.{ApiKeyRow, Rows}

pub record ApiKeyListEntry : Type 0 where
  pub token_id : Text
  pub tenant_ref : Text
  pub label : Text
  pub last4 : Text
  pub created_at : ℕ
  pub last_used_at : Option ℕ
  pub revoked_at : Option ℕ

abbrev pub entry_of : ApiKeyRow → ApiKeyListEntry
entry_of row = record {
  token_id = row.token_id;
  tenant_ref = row.tenant_ref;
  label = row.label;
  last4 = row.last4;
  created_at = row.created_at;
  last_used_at = row.last_used_at;
  revoked_at = row.revoked_at;
}

abbrev of_tenant : Text → Rows → List ApiKeyListEntry
of_tenant tenant_ref rows =
    map entry_of (keep (λ row. row.tenant_ref == tenant_ref) (map (λ e. e.1) rows))

unfoldable pub list : Text → Rows → List ApiKeyListEntry
list tenant_ref rows = sort_by (λ a b. ltb a.created_at b.created_at) (of_tenant tenant_ref rows)

-- A listing has an entry for each of the tenant's keys, the revoked ones too.
pub length-list :
    (tenant_ref : Text) (rows : Rows)
    → length (list tenant_ref rows) ≡ length (of_tenant tenant_ref rows)
unfolding list
length-list tenant_ref rows =
    length-sort_by (λ a b. ltb a.created_at b.created_at) (of_tenant tenant_ref rows)
