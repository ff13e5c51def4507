-- ===== src/Server/Vault/RoundTrip.antt =====
-- What was put into the vault is what comes out, and nobody else's material changes.
use dokhna_tech_zatca.Prelude.{
  subst, Option-cases, ◌≡◌, ◌≢◌, inl, inr, refl, ap, Option, none, some, arith,
}
use dokhna_tech_zatca.Prelude.Text.{Text, text_eq}
use dokhna_tech_zatca.Prelude.Dict.{lookup, lookup-insert_self, lookup-insert_ne}
use dokhna_tech_zatca.Prelude.Exec.{ok, Result-cases, bind-ok, ok-injective, pure}
use dokhna_tech_zatca.Server.Invoices.{SignerMaterial}
use dokhna_tech_zatca.Server.Vault.{
  SecretCipher, EncryptedSignerMaterial, Vault, encrypt_optional, decrypt_optional, some_text,
  encrypt_material, decrypt_material, put, get,
}

module _ {C Envelope : Type 0} (cipher : SecretCipher C Envelope)
    (inverse : (s : Text) (c : C) (x : Envelope)
      → (cipher.encrypt s c).0 ≡ ok x
      → cipher.decrypt x ≡ ok s) where
  optional_back :
      (o : Option Text) (c : C) (x : Option Envelope)
      → (encrypt_optional cipher o c).0 ≡ ok x
      → decrypt_optional cipher x ≡ ok o
  unfolding encrypt_optional decrypt_optional
  optional_back none c x h = let empty : none ≡ x = cc in rw (← empty) refl
  optional_back (some s) c x h =
      let (envelope, made, shape) = bind-ok (cipher.encrypt s) (λ e. pure (some e)) c h in
      let full : some envelope ≡ x = cc in
      rw (← full) (ap (some_text cipher) (inverse s c envelope made))

  material_back :
      (m : SignerMaterial) (c : C) (row : EncryptedSignerMaterial Envelope)
      → (encrypt_material cipher m c).0 ≡ ok row
      → (decrypt_material cipher row tt).0 ≡ ok m
  unfolding encrypt_material decrypt_material
  material_back m c row h =
      let (a, ha, h1) = bind-ok (cipher.encrypt m.private_key) _ c h in
      let (b, hb, h2) = bind-ok (cipher.encrypt m.production_certificate) _ _ h1 in
      let (d, hd, h3) = bind-ok (cipher.encrypt m.production_binary_security_token) _ _ h2 in
      let (f, hf, h4) = bind-ok (cipher.encrypt m.production_api_secret) _ _ h3 in
      let (g, hg, h5) = bind-ok (encrypt_optional cipher m.compliance_certificate) _ _ h4 in
      let (i, hi, h6) =
        bind-ok (encrypt_optional cipher m.compliance_binary_security_token) _ _ h5 in
      let (j, hj, h7) = bind-ok (encrypt_optional cipher m.compliance_api_secret) _ _ h6 in
      let made : record {
        private_key = a;
        production_certificate = b;
        production_binary_security_token = d;
        production_api_secret = f;
        compliance_certificate = g;
        compliance_binary_security_token = i;
        compliance_api_secret = j;
      }
          ≡ row =
        ok-injective h7 in
      subst (λ r. (decrypt_material cipher r tt).0 ≡ ok m) made
        (rw
          (
            decrypt_material,
            optional_back m.compliance_certificate _ g hg,
            optional_back m.compliance_binary_security_token _ i hi,
            optional_back m.compliance_api_secret _ j hj,
            inverse m.private_key _ a ha,
            inverse m.production_certificate _ b hb,
            inverse m.production_binary_security_token _ d hd,
            inverse m.production_api_secret _ f hf,
          )
          refl)

  get_same :
      (tenant_ref : Text) (v v' : Vault C Envelope)
      → lookup tenant_ref v.rows ≡ lookup tenant_ref v'.rows
      → (get cipher tenant_ref v).0 ≡ (get cipher tenant_ref v').0
  unfolding get
  get_same tenant_ref v v' same = elim (Option-cases (lookup tenant_ref v'.rows)) [
    | inl missing ↦ rw (get, same, missing) refl
    | inr (row, found) ↦ rw (get, same, found) refl
  ]

  -- Material that was put into the vault without an error is what the vault gives back, and what it
  -- gives for any other tenant does not change. The cipher must decrypt what it has encrypted.
  pub put-get :
      (tenant_ref other : Text) (m : SignerMaterial) (v : Vault C Envelope)
      → (put cipher tenant_ref m v).0 ≡ ok tt
      → tenant_ref ≢ other
      → ((get cipher tenant_ref (put cipher tenant_ref m v).1).0 ≡ ok (some m))
        × ((get cipher other (put cipher tenant_ref m v).1).0 ≡ (get cipher other v).0)
  unfolding put get
  put-get tenant_ref other m v h differ =
      elim (Result-cases (encrypt_material cipher m v.cipher_state).0) [
        | inr (e, refused) ↦ absurd (ground arith)
        | inl (row, made) ↦ (
          rw
              (
                put,
                made,
                get,
                lookup-insert_self tenant_ref row v.rows,
                material_back m v.cipher_state row made,
              )
              refl,
          get_same other (put cipher tenant_ref m v).1 v
              (rw (put, made) (lookup-insert_ne tenant_ref other row v.rows differ)),
        )
      ]
