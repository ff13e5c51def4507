-- ===== src/Server/Tenants/Listing.antt =====
-- packages/server/src/tenants/registry-memory.ts: the `list` of the tenant store.
-- `localeCompare` is a parameter: whether it puts one text strictly before another.
use dokhna_tech_zatca.Prelude.{
  ℕ, ◌≡◌, refl, Bool, true, false, ◌+◌, ◌*◌, ◌&&◌, ◌||◌, Option, none, some, List, [], ◌∷◌, map,
  keep, length, All, eqb, ltb, leb,
}
use dokhna_tech_zatca.Prelude.Eq.{◌==◌}
use dokhna_tech_zatca.Prelude.Text.{Text}
use dokhna_tech_zatca.Prelude.Sort.{sort_by, sort_by-All, length-sort_by}
use dokhna_tech_zatca.Server.Tenants.{
  TenantState, TenantRecord, ZatcaEnvironment, sandbox, simulation, production, state_eq,
}
use dokhna_tech_zatca.Server.Tenants.Store.{Tenants}

pub record TenantListFilter : Type 0 where
  pub state : Option TenantState
  pub environment : Option ZatcaEnvironment
  pub expiring_within_days : Option ℕ
  pub include_deleted : Bool

abbrev same_environment : ZatcaEnvironment → ZatcaEnvironment → Bool
same_environment sandbox sandbox = true
same_environment simulation simulation = true
same_environment production production = true
same_environment _ _ = false

abbrev wanted {ℓ} : {A : Type ℓ} → Option A → (A → Bool) → Bool
wanted none test = true
wanted (some a) test = test a

abbrev expires_before : ℕ → TenantRecord → Bool
expires_before limit r = elim r.production_certificate_expires_at [
  | none ↦ false
  | some at ↦ leb at limit
]

-- What the loop lets through.
unfoldable pub is_listed : TenantListFilter → (now : ℕ) → TenantRecord → Bool
is_listed filter now r =
    elim r.deleted_at [ none ↦ true | some at ↦ filter.include_deleted ]
    && (wanted filter.state (λ s. r.state == s)
        && (wanted filter.environment (λ e. same_environment r.environment e)
            && wanted filter.expiring_within_days
                (λ days. expires_before (now + days * 86_400_000) r)))

unfoldable pub listed_before :
    (locale_before : Text → Text → Bool) → TenantRecord → TenantRecord → Bool
listed_before locale_before a b =
    ltb a.created_at b.created_at
    || (eqb a.created_at b.created_at && locale_before a.tenant_ref b.tenant_ref)

abbrev records : Tenants → List TenantRecord
records t = map (λ e. e.1) t

unfoldable pub list :
    (locale_before : Text → Text → Bool)
    → TenantListFilter
    → (now : ℕ) → Tenants
    → List TenantRecord
list locale_before filter now t =
    sort_by (listed_before locale_before) (keep (is_listed filter now) (records t))

keep-All : (p : TenantRecord → Bool) (l : List TenantRecord) → All (λ r. p r ≡ true) (keep p l)
keep-All p [] = tt
keep-All p (r ∷ l) = decided (p r) refl (keep-All p l)
  where
    decided :
        (b : Bool)
        → p r ≡ b
        → All (λ x. p x ≡ true) (keep p l)
        → All (λ x. p x ≡ true) (elim b [ true ↦ r ∷ keep p l | false ↦ keep p l ])
    decided true good rest = (good, rest)
    decided false bad rest = rest

-- A listing is of the records that the filter lets through, and misses none of them.
pub is_listed-list :
    (locale_before : Text → Text → Bool) (filter : TenantListFilter) (now : ℕ) (t : Tenants)
    → (length (list locale_before filter now t) ≡ length (keep (is_listed filter now) (records t)))
      × All (λ r. is_listed filter now r ≡ true) (list locale_before filter now t)
unfolding list
is_listed-list locale_before filter now t = (
  length-sort_by (listed_before locale_before) (keep (is_listed filter now) (records t)),
  sort_by-All (listed_before locale_before) (λ r. is_listed filter now r ≡ true)
      (keep (is_listed filter now) (records t)) (keep-All (is_listed filter now) (records t)),
)
