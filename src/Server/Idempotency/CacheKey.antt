-- ===== src/Server/Idempotency/CacheKey.antt =====
-- Cache keys of different tenants.
use dokhna_tech_zatca.Prelude.{◌≡◌, ap, Option, ◌∷◌, ◌++◌, or_else, drop}
use dokhna_tech_zatca.Prelude.Text.{Text, text}
use dokhna_tech_zatca.Prelude.Text.Split.{Lacks, split_unique}
use dokhna_tech_zatca.Server.Idempotency.{build_idempotency_cache_key}

-- The tenant that a key is built for, with the placeholder of admin routes.
abbrev pub tenant_of : Option Text → Text
tenant_of tenant_ref = or_else tenant_ref (text "_admin_")

-- Whatever the digest, the routes and the keys that the callers present, tenants whose references
-- hold no colon never share a cache key, and within one tenant equal cache keys have one tail of
-- route and digest.
pub build_idempotency_cache_key_injective :
    (digest : Text → Text) (a b : Option Text) (route_a route_b key_a key_b : Text)
    → Lacks b':' (tenant_of a)
    → Lacks b':' (tenant_of b)
    → build_idempotency_cache_key digest a route_a key_a
      ≡ build_idempotency_cache_key digest b route_b key_b
    → (tenant_of a ≡ tenant_of b)
      × (route_a ++ b':' ∷ digest key_a ≡ route_b ++ b':' ∷ digest key_b)
unfolding build_idempotency_cache_key text
build_idempotency_cache_key_injective digest a b route_a route_b key_a key_b plain_a plain_b e =
    split_unique b':' (tenant_of a) (tenant_of b) plain_a plain_b (ap (drop 5) e)
