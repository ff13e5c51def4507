-- ===== src/Server/Auth/AdminKeys/Bearer.antt =====
-- Every token without white space is taken out of its header.
use dokhna_tech_zatca.Prelude.{ℕ, ◌≡◌, refl, false, some, [], ◌∷◌, ◌++◌, All, arith, keep}
use dokhna_tech_zatca.Prelude.Text.{Text, text}
use dokhna_tech_zatca.Prelude.Text.Trim.{is_space, is_line_end, trim, trim_start, trim_end}
use dokhna_tech_zatca.Server.Auth.AdminKeys.{extract_bearer}

abbrev pub IsSolid : Text → Type 0
IsSolid = All (λ c. is_space c ≡ false)

line_end_space : (c : ℕ) → is_space c ≡ false → is_line_end c ≡ false
unfolding is_space
line_end_space c h = ground arith

trim_start-IsSolid : (s : Text) → IsSolid s → trim_start s ≡ s
unfolding trim_start
trim_start-IsSolid [] h = refl
trim_start-IsSolid (c ∷ s) (h, hs) = rw h refl

trim_end-IsSolid : (s : Text) → IsSolid s → trim_end s ≡ s
unfolding trim_end
trim_end-IsSolid [] h = refl
trim_end-IsSolid (c ∷ []) (h, hs) = rw h refl
trim_end-IsSolid (c ∷ d ∷ s) (h, hs) = rw (trim_end-IsSolid (d ∷ s) hs) refl

trim_end-append :
    (front : Text) (c : ℕ) (s : Text)
    → trim_end (c ∷ s) ≡ c ∷ s
    → trim_end (front ++ c ∷ s) ≡ front ++ c ∷ s
unfolding trim_end
trim_end-append [] c s h = h
trim_end-append (f ∷ []) c s h = rw h refl
trim_end-append (f ∷ g ∷ front) c s h = rw (trim_end-append (g ∷ front) c s h) refl

lacks_line_end : (s : Text) → IsSolid s → keep is_line_end s ≡ []
lacks_line_end [] h = refl
lacks_line_end (c ∷ s) (h, hs) = ground (arith, line_end_space c h, lacks_line_end s hs)

-- A token that is not empty and holds no white space is read out of the header `Bearer <token>`.
pub extract_bearer_lem :
    (c : ℕ) (token : Text)
    → All (λ d. is_space d ≡ false) (c ∷ token)
    → extract_bearer (text "Bearer " ++ c ∷ token) ≡ some (c ∷ token)
unfolding extract_bearer trim text trim_start is_space
extract_bearer_lem c token solid =
    rw
      (
        trim_end-append (text "Bearer ") c token (trim_end-IsSolid (c ∷ token) solid),
        trim_start-IsSolid (c ∷ token) solid,
        lacks_line_end (c ∷ token) solid,
        trim_start-IsSolid (c ∷ token) solid,
        trim_end-IsSolid (c ∷ token) solid,
      )
      refl
