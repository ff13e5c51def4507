-- ===== src/Server/Audit/List.antt =====
-- What a query of the audit log returns.
use Prim.Native.Nat.{min}
use dokhna_tech_zatca.Prelude.{
  keep, ap, ◌∙◌, ◌+◌, ℕ, zero, suc, ◌≤◌, ◌≡◌, refl, Bool-cases, inl, inr, List, [], ◌∷◌, ◌++◌, sym,
  subst, eqb, drop, take, length, or_else, arith, ltb, All,
}
use mathlib.Core.List.{reverse, reverse_aux}
use dokhna_tech_zatca.Server.Audit.Log.{
  AuditEntry, AuditListFilter, matches, walk_back, insert_row, sort_rows, list,
}

-- The newest first.
abbrev pub IsFalling : List AuditEntry → Type 0
IsFalling [] = Unit
IsFalling (row ∷ rows) = All (λ other. other.at ≤ row.at) rows × IsFalling rows

module _ {ℓ} (P : AuditEntry → Type ℓ) where
  insert_row-All :
      (row : AuditEntry) (rows : List AuditEntry) → P row → All P rows → All P (insert_row row rows)
  unfolding insert_row
  insert_row-All row [] h hs = (h, tt)
  insert_row-All row (other ∷ rows) h (k, hs) = elim (Bool-cases (ltb row.at other.at)) [
    | inl older ↦ rw older (k, insert_row-All row rows h hs)
    | inr newer ↦ rw newer (h, (k, hs))
  ]

falling_head :
    (row other : AuditEntry) (rows : List AuditEntry)
    → other.at ≤ row.at
    → All (λ r. r.at ≤ other.at) rows
    → All (λ r. r.at ≤ row.at) rows
falling_head row other [] h hs = tt
falling_head row other (r ∷ rows) h (k, hs) = (omega arith, falling_head row other rows h hs)

insert_row-IsFalling :
    (row : AuditEntry) (rows : List AuditEntry) → IsFalling rows → IsFalling (insert_row row rows)
unfolding insert_row
insert_row-IsFalling row [] h = (tt, tt)
insert_row-IsFalling row (other ∷ rows) (h, hs) = elim (Bool-cases (ltb row.at other.at)) [
  | inl older ↦ rw older (
    insert_row-All (λ r. r.at ≤ other.at) row rows (ground arith) h,
    insert_row-IsFalling row rows hs,
  )
  | inr newer ↦
      let le : other.at ≤ row.at = ground arith in
      rw newer ((le, falling_head row other rows le h), (h, hs))
]

sort_rows-IsFalling : (rows : List AuditEntry) → IsFalling (sort_rows rows)
unfolding sort_rows
sort_rows-IsFalling [] = tt
sort_rows-IsFalling (row ∷ rows) =
    insert_row-IsFalling row (sort_rows rows) (sort_rows-IsFalling rows)

-- What was written at the time `t`.
abbrev pub at_time : ℕ → List AuditEntry → List AuditEntry
at_time t = keep (λ r. eqb r.at t)

walk_back-reverse_aux :
    (filter : AuditListFilter) (rows out : List AuditEntry)
    → walk_back filter rows out ≡ reverse_aux (keep (matches filter) rows) out
unfolding walk_back reverse_aux
walk_back-reverse_aux filter [] out = refl
walk_back-reverse_aux filter (row ∷ rows) out = elim (Bool-cases (matches filter row)) [
  | inl good ↦ rw (good, walk_back, keep) (walk_back-reverse_aux filter rows (row ∷ out))
  | inr bad ↦ rw (bad, walk_back, keep) (walk_back-reverse_aux filter rows out)
]

-- The sort does not change the order of the rows of one time.
at_time-insert_row :
    (t : ℕ) (row : AuditEntry) (rows : List AuditEntry)
    → at_time t (insert_row row rows) ≡ at_time t (row ∷ rows)
unfolding insert_row
at_time-insert_row t row [] = refl
at_time-insert_row t row (other ∷ rows) = ground (arith, at_time-insert_row t row rows)

at_time-sort_rows : (t : ℕ) (rows : List AuditEntry) → at_time t (sort_rows rows) ≡ at_time t rows
unfolding sort_rows
at_time-sort_rows t [] = refl
at_time-sort_rows t (row ∷ rows) =
    at_time-insert_row t row (sort_rows rows) ∙ ground (arith, at_time-sort_rows t rows)

length-insert_row :
    (row : AuditEntry) (rows : List AuditEntry) → length (insert_row row rows) ≡ suc (length rows)
unfolding insert_row
length-insert_row row [] = refl
length-insert_row row (other ∷ rows) = ground (arith, length-insert_row row rows)

length-sort_rows : (rows : List AuditEntry) → length (sort_rows rows) ≡ length rows
unfolding sort_rows
length-sort_rows [] = refl
length-sort_rows (row ∷ rows) =
    length-insert_row row (sort_rows rows) ∙ ap suc (length-sort_rows rows)

length-walk_back :
    (filter : AuditListFilter) (rows out : List AuditEntry)
    → length (walk_back filter rows out) ≡ length (keep (matches filter) rows) + length out
unfolding walk_back
length-walk_back filter [] out = omega arith
length-walk_back filter (row ∷ rows) out =
    ground (arith, length-walk_back filter rows (row ∷ out), length-walk_back filter rows out)

length-take-min : (n : ℕ) (rows : List AuditEntry) → length (take n rows) ≡ min n (length rows)
length-take-min zero rows = omega arith
length-take-min (suc n) [] = omega arith
length-take-min (suc n) (row ∷ rows) = omega (arith, length-take-min n rows)

take-drop : (n : ℕ) (rows : List AuditEntry) → take n rows ++ drop n rows ≡ rows
take-drop zero rows = refl
take-drop (suc n) [] = refl
take-drop (suc n) (row ∷ rows) = ap (λ l. row ∷ l) (take-drop n rows)

-- What a query returns, and what its limit cuts off, put behind it: all the rows that the filter
-- lets through, each as often as the log holds it, the newest first, and of rows of one time the
-- one first that was written last.
pub record IsAnswer (filter : AuditListFilter) (rows answer : List AuditEntry) : Type 0 where
  pub cut : List AuditEntry
  pub falling : IsFalling (answer ++ cut)
  pub all : (t : ℕ) → at_time t (answer ++ cut) ≡ at_time t (reverse (keep (matches filter) rows))
  pub many : length answer ≡ min (or_else filter.limit 100) (length (keep (matches filter) rows))

-- A query returns the newest of the rows that the filter lets through, as many as its limit allows,
-- which is 100 by default. With the rows that the limit cuts off behind them they are exactly the
-- rows that the filter lets through, each as often as the log holds it, by falling time, and for
-- each time in the reverse of the order in which they were written.
pub list_lem :
    (filter : AuditListFilter) (rows : List AuditEntry) → IsAnswer filter rows (list filter rows)
unfolding list
list_lem filter rows =
    let found = walk_back filter rows [] in
    let limit = or_else filter.limit 100 in
    let whole = take-drop limit (sort_rows found) in
    record {
      cut = drop limit (sort_rows found);
      falling = subst IsFalling (sym whole) (sort_rows-IsFalling found);
      all = λ t.
          ap (at_time t) whole
          ∙ at_time-sort_rows t found
          ∙ ap (at_time t) (walk_back-reverse_aux filter rows []);
      many =
          length-take-min limit (sort_rows found)
          ∙ ap (λ n. min limit n)
              (omega (arith, length-sort_rows found, length-walk_back filter rows []));
    }
