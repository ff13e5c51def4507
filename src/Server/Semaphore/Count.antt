-- ===== src/Server/Semaphore/Count.antt =====
-- The count is the number of slots that are held.
use dokhna_tech_zatca.Prelude.{
  ℕ, zero, suc, ◌≤◌, ◌≡◌, ◌↔◌, refl, Bool, true, false, none, List, [], ◌∷◌, ◌++◌, arith,
}
use dokhna_tech_zatca.Prelude.Exec.{ok}
use dokhna_tech_zatca.Server.Semaphore.{
  Semaphore, create_semaphore, try_acquire, release, flag_at, set_flag,
}

-- the slots whose release function has not been called
abbrev pub held : List Bool → ℕ
held [] = 0
held (true ∷ flags) = held flags
held (false ∷ flags) = suc (held flags)

held-append : (flags : List Bool) → held (flags ++ false ∷ []) ≡ suc (held flags)
held-append [] = refl
held-append (true ∷ flags) = held-append flags
held-append (false ∷ flags) = omega (arith, held-append flags)

held-set_flag :
    (n : ℕ) (flags : List Bool)
    → flag_at n flags ≡ false
    → suc (held (set_flag n flags)) ≡ held flags
held-set_flag n [] h = cc
held-set_flag zero (true ∷ flags) h = cc
held-set_flag zero (false ∷ flags) h = refl
held-set_flag (suc n) (true ∷ flags) h = held-set_flag n flags h
held-set_flag (suc n) (false ∷ flags) h = omega (arith, held-set_flag n flags h)

pub data Reach (s : Semaphore) : Semaphore → Type 0 where
  here : Reach s s
  acquired : {t : Semaphore} → Reach s t → Reach s (try_acquire t).1
  released : {t : Semaphore} (n : ℕ) → Reach s t → Reach s (release n t).1

pub record IsCounted (capacity : ℕ) (s : Semaphore) : Type 0 where
  pub counted : s.count ≡ held s.released
  pub within : s.count ≤ capacity
  pub fixed : s.capacity ≡ capacity

try_acquire-IsCounted :
    {capacity : ℕ} (s : Semaphore) → IsCounted capacity s → IsCounted capacity (try_acquire s).1
unfolding try_acquire
try_acquire-IsCounted s h = record {
  counted = ground (arith, h.counted, held-append s.released);
  within = ground (arith, h.within, h.fixed);
  fixed = ground (arith, h.fixed);
}

release-IsCounted :
    (n : ℕ) {capacity : ℕ} (s : Semaphore)
    → IsCounted capacity s
    → IsCounted capacity (release n s).1
unfolding release
release-IsCounted n s h = record {
  counted = ground (arith, h.counted, held-set_flag n s.released);
  within = ground (arith, h.within, h.fixed);
  fixed = ground (arith, h.fixed);
}

Reach-IsCounted :
    {capacity : ℕ} {s t : Semaphore} → IsCounted capacity s → Reach s t → IsCounted capacity t
Reach-IsCounted h here = h
Reach-IsCounted h (acquired r) = try_acquire-IsCounted _ (Reach-IsCounted h r)
Reach-IsCounted h (released n r) = release-IsCounted n _ (Reach-IsCounted h r)

create_semaphore-IsCounted :
    (capacity : ℕ) (s : Semaphore) → create_semaphore capacity ≡ ok s → IsCounted capacity s
unfolding create_semaphore
create_semaphore-IsCounted capacity s h = record {
  counted = ground arith;
  within = ground arith;
  fixed = ground arith;
}

-- From its creation on, after any acquisitions and any calls of release functions, repeated and
-- out of order included, the count is the number of slots acquired and not released, and is at
-- most the capacity; so `tryAcquire` gives `null` exactly when that many slots are held.
pub try_acquire_iff :
    (capacity : ℕ) (s t : Semaphore)
    → create_semaphore capacity ≡ ok s
    → Reach s t
    → (t.count ≡ held t.released)
      × (held t.released ≤ capacity)
      × (((try_acquire t).0 ≡ ok none) ↔ (held t.released ≡ capacity))
unfolding try_acquire
try_acquire_iff capacity s t made r =
    let h = Reach-IsCounted (create_semaphore-IsCounted capacity s made) r in
    (
      h.counted,
      omega (arith, h.counted, h.within),
      (
        λ e. ground (arith, h.counted, h.within, h.fixed),
        λ e. ground (arith, h.counted, h.within, h.fixed),
      ),
    )
