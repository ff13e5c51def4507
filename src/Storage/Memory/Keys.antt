-- ===== src/Storage/Memory/Keys.antt =====
-- The keys of the two Maps, `scopeKey` and `counterKey`.
use dokhna_tech_zatca.Prelude.{◌≡◌, sym, ◌∙◌, ◌∷◌, ◌++◌, append_assoc}
use dokhna_tech_zatca.Prelude.Text.Split.{Lacks, split_unique}
use dokhna_tech_zatca.Prelude.Text.{Text}
use dokhna_tech_zatca.Storage.{TenantScope}
use dokhna_tech_zatca.Storage.Memory.{scope_key, counter_key}

-- A scope whose parts hold no colon, as every valid VAT number and UUID.
pub record IsPlain (scope : TenantScope) : Type 0 where
  pub vat : Lacks b':' scope.vat_number
  pub egs : Lacks b':' scope.egs_uuid

pub scope_key_injective :
    (a b : TenantScope) → IsPlain a → IsPlain b → scope_key a ≡ scope_key b → a ≡ b
unfolding scope_key
scope_key_injective a b ha hb e =
    let (p, q) = split_unique b':' a.vat_number b.vat_number ha.vat hb.vat e in
    λ i. record { vat_number = p i; egs_uuid = q i }

pub counter_key_injective :
    (a b : TenantScope) (m n : Text)
    → IsPlain a
    → IsPlain b
    → counter_key a m ≡ counter_key b n
    → (a ≡ b) × (m ≡ n)
unfolding scope_key counter_key
counter_key_injective a b m n ha hb e =
    let e' : a.vat_number ++ b':' ∷ (a.egs_uuid ++ b':' ∷ m)
        ≡ b.vat_number ++ b':' ∷ (b.egs_uuid ++ b':' ∷ n) =
      sym (append_assoc a.vat_number (b':' ∷ a.egs_uuid) (b':' ∷ m))
      ∙ e
      ∙ append_assoc b.vat_number (b':' ∷ b.egs_uuid) (b':' ∷ n) in
    let (p, rest) = split_unique b':' a.vat_number b.vat_number ha.vat hb.vat e' in
    let (q, r) = split_unique b':' a.egs_uuid b.egs_uuid ha.egs hb.egs rest in
    ((λ i. record { vat_number = p i; egs_uuid = q i }), r)
