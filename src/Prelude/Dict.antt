-- ===== src/Prelude/Dict.antt =====
-- JavaScript's `Map` as the list of its entries in insertion order: a write to a key that is
-- there keeps its place, a write to a new key goes to the end.
use mathlib.Core.Path.{◌≡◌, refl}
use mathlib.Core.Bool.{true}
use mathlib.Core.Option.{Option, none, some}
use mathlib.Core.List.{List, [], ◌∷◌, ◌++◌}
use native.Mathlib.Omega.{arith}
use dokhna_tech_zatca.Prelude.Tests.{if◌then◌else◌}
use dokhna_tech_zatca.Prelude.Eq.{Eq, ◌==◌}

abbrev pub Dict {ℓ} : Type ℓ → Type ℓ → Type ℓ
Dict K V = List (K × V)

-- The values in insertion order, `map.values()`.
abbrev pub values {ℓ} : {K V : Type ℓ} → Dict K V → List V
values [] = []
values ((k, v) ∷ m) = v ∷ values m

pub beq_refl {ℓ} : {K : Type ℓ} ⦃e : Eq K⦄ (k : K) → (k == k) ≡ true
beq_refl ⦃e⦄ k = (e.beq_iff k k).1 refl

module _ {ℓ} {K V : Type ℓ} ⦃e : Eq K⦄ where
  unfoldable pub lookup : K → Dict K V → Option V
  lookup k [] = none
  lookup k ((j, v) ∷ m) = if j == k then some v else lookup k m

  unfoldable pub insert : K → V → Dict K V → Dict K V
  insert key value [] = (key, value) ∷ []
  insert key value ((other, old) ∷ rest) =
      if other == key then (other, value) ∷ rest else (other, old) ∷ insert key value rest

  unfoldable pub remove : K → Dict K V → Dict K V
  remove k [] = []
  remove k ((j, v) ∷ m) = let rest = remove k m in if j == k then rest else (j, v) ∷ rest

  pub lookup-insert :
      (written read : K) (value : V) (m : Dict K V)
      → lookup read (insert written value m)
        ≡ (if written == read then some value else lookup read m)
  unfolding lookup insert
  lookup-insert written read value [] = refl
  lookup-insert written read value ((i, old) ∷ m) = ground (
    arith,
    lookup-insert written read value m,
    e.beq_iff i written,
    e.beq_iff i read,
    e.beq_iff written read,
  )

  pub lookup-remove :
      (k j : K) (m : Dict K V) → lookup j (remove k m) ≡ (if k == j then none else lookup j m)
  unfolding lookup remove
  lookup-remove k j [] = ground arith
  lookup-remove k j ((i, v) ∷ m) =
      ground (arith, lookup-remove k j m, e.beq_iff i k, e.beq_iff i j, e.beq_iff k j)

  pub lookup-insert_self : (k : K) (v : V) (m : Dict K V) → lookup k (insert k v m) ≡ some v
  lookup-insert_self k v m = ground (arith, lookup-insert k k v m, beq_refl k)

  pub lookup-insert_ne :
      (k j : K) (v : V) (m : Dict K V) → ¬ (k ≡ j) → lookup j (insert k v m) ≡ lookup j m
  lookup-insert_ne k j v m h = ground (arith, lookup-insert k j v m, e.beq_iff k j)

  -- A new key goes behind all others.
  pub values-insert_new :
      (k : K) (v : V) (m : Dict K V)
      → lookup k m ≡ none
      → values (insert k v m) ≡ values m ++ v ∷ []
  unfolding lookup insert
  values-insert_new k v [] h = refl
  values-insert_new k v ((j, w) ∷ m) h = ground (arith, values-insert_new k v m)

  -- Writing what is there already changes nothing.
  pub insert_same : (k : K) (v : V) (m : Dict K V) → lookup k m ≡ some v → insert k v m ≡ m
  unfolding lookup insert
  insert_same k v [] h = cc
  insert_same k v ((j, w) ∷ m) h = ground (arith, insert_same k v m)

  pub insert_twice : (k : K) (v : V) (m : Dict K V) → insert k v (insert k v m) ≡ insert k v m
  insert_twice k v m = insert_same k v (insert k v m) (lookup-insert_self k v m)
