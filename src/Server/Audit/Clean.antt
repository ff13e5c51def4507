-- ===== src/Server/Audit/Clean.antt =====
-- No value under a sensitive key survives the redaction, at any depth.
use dokhna_tech_zatca.Prelude.{◌≡◌, refl, ap, true, false, Bool, Bool-cases, inl, inr}
use dokhna_tech_zatca.Prelude.Text.{Text}
use dokhna_tech_zatca.Json.{Json, arr, obj, Items, nil, cons, Fields, end, field}
use dokhna_tech_zatca.Server.Audit.Redact.{
  redacted, is_sensitive_key, walk, walk_items, walk_fields, redact_secrets,
}

module _ (to_lower_case : Text → Text) where
  abbrev mutual
    -- Every value under a sensitive key is the placeholder.
    pub IsClean : Json → Type 0
    IsClean (arr items) = IsCleanItems items
    IsClean (obj fields) = IsCleanFields fields
    IsClean v = Unit

    pub IsCleanItems : Items → Type 0
    IsCleanItems nil = Unit
    IsCleanItems (cons v rest) = IsClean v × IsCleanItems rest

    pub IsCleanFields : Fields → Type 0
    IsCleanFields end = Unit
    IsCleanFields (field key v rest) =
        (is_sensitive_key to_lower_case key ≡ true → v ≡ redacted)
        × (IsClean v × IsCleanFields rest)

  abbrev mutual
    -- Two payloads that differ at most below sensitive keys.
    pub Alike : Json → Json → Type 0
    Alike (arr a) (arr b) = AlikeItems a b
    Alike (obj a) (obj b) = AlikeFields a b
    Alike a b = a ≡ b

    pub AlikeItems : Items → Items → Type 0
    AlikeItems nil nil = Unit
    AlikeItems (cons a xs) (cons b ys) = Alike a b × AlikeItems xs ys
    AlikeItems _ _ = ⊥

    pub AlikeFields : Fields → Fields → Type 0
    AlikeFields end end = Unit
    AlikeFields (field k a xs) (field j b ys) =
        (k ≡ j) × ((is_sensitive_key to_lower_case k ≡ false → Alike a b) × AlikeFields xs ys)
    AlikeFields _ _ = ⊥

  mutual
    unfolding walk walk_items walk_fields

    walk-IsClean : (v : Json) → IsClean (walk to_lower_case v)
    walk-IsClean (arr items) = walk_items-IsClean items
    walk-IsClean (obj fields) = walk_fields-IsClean fields
    walk-IsClean _ = tt

    walk_items-IsClean : (items : Items) → IsCleanItems (walk_items to_lower_case items)
    walk_items-IsClean nil = tt
    walk_items-IsClean (cons v rest) = (walk-IsClean v, walk_items-IsClean rest)

    walk_fields-IsClean : (fields : Fields) → IsCleanFields (walk_fields to_lower_case fields)
    walk_fields-IsClean end = tt
    walk_fields-IsClean (field key v rest) =
        elim (Bool-cases (is_sensitive_key to_lower_case key)) [
          | inl secret ↦ rw secret ((λ _. refl), (tt, walk_fields-IsClean rest))
          | inr open_key ↦ rw open_key ((λ h. cc), (walk-IsClean v, walk_fields-IsClean rest))
        ]

  field_path :
      {k j : Text} {a b : Json} {xs ys : Fields}
      → k ≡ j
      → a ≡ b
      → xs ≡ ys
      → field k a xs ≡ field j b ys
  field_path p q r = λ i. field (p i) (q i) (r i)

  abbrev shown_value : Bool → Json → Json
  shown_value secret v = elim secret [ true ↦ redacted | false ↦ walk to_lower_case v ]

  mutual
    unfolding walk walk_items walk_fields

    walk-Alike : (a b : Json) → Alike a b → walk to_lower_case a ≡ walk to_lower_case b
    walk-Alike (arr a) (arr b) h = ap arr (walk_items-Alike a b h)
    walk-Alike (obj a) (obj b) h = ap obj (walk_fields-Alike a b h)
    walk-Alike a b h = ap (walk to_lower_case) h

    walk_items-Alike :
        (a b : Items) → AlikeItems a b → walk_items to_lower_case a ≡ walk_items to_lower_case b
    walk_items-Alike nil nil h = refl
    walk_items-Alike (cons a xs) (cons b ys) (h, hs) =
        λ i. cons (walk-Alike a b h i) (walk_items-Alike xs ys hs i)
    walk_items-Alike _ _ h = absurd h

    walk_fields-Alike :
        (a b : Fields) → AlikeFields a b → walk_fields to_lower_case a ≡ walk_fields to_lower_case b
    walk_fields-Alike end end h = refl
    walk_fields-Alike (field k a xs) (field j b ys) (same, (h, hs)) =
        elim (Bool-cases (is_sensitive_key to_lower_case k)) [
          | inl secret ↦
              let secret' : is_sensitive_key to_lower_case j ≡ true = rw (← same) secret in
              rw (secret, secret') (field_path same refl (walk_fields-Alike xs ys hs))
          | inr plain ↦
              let plain' : is_sensitive_key to_lower_case j ≡ false = rw (← same) plain in
              rw (plain, plain')
                (field_path same (walk-Alike a b (h plain)) (walk_fields-Alike xs ys hs))
        ]
    walk_fields-Alike _ _ h = absurd h

  -- The redacted payload holds the placeholder under every sensitive key, at any depth, and does
  -- not depend on what stood there: payloads that differ only below sensitive keys become equal.
  pub redact_secrets-IsClean :
      (a b : Json)
      → Alike a b
      → IsClean (redact_secrets to_lower_case a)
        × (redact_secrets to_lower_case a ≡ redact_secrets to_lower_case b)
  unfolding redact_secrets
  redact_secrets-IsClean a b h = (walk-IsClean a, walk-Alike a b h)
