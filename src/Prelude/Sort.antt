-- ===== src/Prelude/Sort.antt =====
-- `Array.prototype.sort`, which is stable, on a comparison that says strictly before.
use dokhna_tech_zatca.Prelude.{
  suc, ◌≡◌, refl, ap, ◌∙◌, Bool, Bool-cases, inl, inr, List, [], ◌∷◌, length, All, arith,
  if◌then◌else◌,
}

module _ {A : Type 0} (before : A → A → Bool) where
  unfoldable pub insert_by : A → List A → List A
  insert_by a [] = a ∷ []
  insert_by a (b ∷ l) = let rest = insert_by a l in if before b a then b ∷ rest else a ∷ b ∷ l

  unfoldable pub sort_by : List A → List A
  unfolding insert_by
  sort_by [] = []
  sort_by (a ∷ l) = insert_by a (sort_by l)

  length-insert_by : (a : A) (l : List A) → length (insert_by a l) ≡ suc (length l)
  unfolding insert_by
  length-insert_by a [] = refl
  length-insert_by a (b ∷ l) = ground (arith, length-insert_by a l)

  pub length-sort_by : (l : List A) → length (sort_by l) ≡ length l
  unfolding sort_by
  length-sort_by [] = refl
  length-sort_by (a ∷ l) = length-insert_by a (sort_by l) ∙ ap suc (length-sort_by l)

  module _ (P : A → Type 0) where
    insert_by-All : (a : A) (l : List A) → P a → All P l → All P (insert_by a l)
    unfolding insert_by
    insert_by-All a [] h hs = (h, tt)
    insert_by-All a (b ∷ l) h (hb, hs) = elim (Bool-cases (before b a)) [
      | inl good ↦ rw (insert_by, good) (hb, insert_by-All a l h hs)
      | inr bad ↦ rw (insert_by, bad) (h, (hb, hs))
    ]

    pub sort_by-All : (l : List A) → All P l → All P (sort_by l)
    unfolding sort_by
    sort_by-All [] h = tt
    sort_by-All (a ∷ l) (h, hs) = insert_by-All a (sort_by l) h (sort_by-All l hs)
