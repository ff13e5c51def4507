-- ===== src/Tests/Server.antt =====
-- Concrete runs of the server's parts.
use dokhna_tech_zatca.Prelude.{◌<◌, ◌≤◌, ◌≡◌, ◌≢◌, ◌↔◌, refl, none, some, [], ◌∷◌, arith}
use dokhna_tech_zatca.Prelude.Eq.{list_beq}
use dokhna_tech_zatca.Prelude.Text.{Text, text_eq, text}
use dokhna_tech_zatca.Prelude.Dict.{lookup, insert}
use dokhna_tech_zatca.Prelude.Exec.{ok}
use dokhna_tech_zatca.Errors.{ApiError, api_error}
use dokhna_tech_zatca.Server.Idempotency.{
  Entries, Entry, CachedResponse, claimed, in_flight, replay, expires_at, begin, commit, read_fresh,
}
use dokhna_tech_zatca.Server.Idempotency.Protocol.{
  at_rest, after, began, begin_exclusive, commit_replays, begin_claims_iff,
}
use dokhna_tech_zatca.Server.Idempotency.CacheKey.{tenant_of, build_idempotency_cache_key_injective}
use dokhna_tech_zatca.Server.Semaphore.{Semaphore, create_semaphore, try_acquire}
use dokhna_tech_zatca.Server.Semaphore
use dokhna_tech_zatca.Server.Semaphore.Count.{here, acquired, released, held, try_acquire_iff}
use dokhna_tech_zatca.Server.ErrorResponses.{map_error_to_response}
use dokhna_tech_zatca.Server.ErrorResponses.Statuses.{map_error_to_response-bounds}

abbrev key : Text
key = b'k' ∷ []

abbrev response : CachedResponse
response = record { status_code = 200; headers = []; body = b'x' ∷ [] }

abbrev claim : Entries
claim = (begin key 100 5 6 []).1

-- a second caller is refused at 50, a third at 60
begin_exclusive_example :
    begin key 100 60 60 (begin key 100 50 50 claim).1
    ≡ (ok in_flight, (begin key 100 50 50 claim).1)
unfolding begin read_fresh lookup
begin_exclusive_example =
    begin_exclusive key 100 5 6 [] (begin key 100 50 50 claim).1 100 60 60 refl
      (after at_rest (began key 100 50 50 (λ e. ground arith))) (ground arith)

commit_replays_example :
    begin key 100 60 60 (commit key response 100 20 claim).1
    ≡ (ok (replay response), (commit key response 100 20 claim).1)
unfolding begin read_fresh lookup insert commit list_beq
commit_replays_example =
    commit_replays key response 100 20 claim (commit key response 100 20 claim).1 100 60 60 refl
      at_rest (ground arith)

begin_claims_iff_example :
    ((begin key 100 200 200 claim).0 ≡ ok claimed)
    ↔ ((e : Entry) → lookup key claim ≡ some e → expires_at e ≤ 200)
begin_claims_iff_example = begin_claims_iff key 100 200 200 claim

abbrev acme : Text
acme = b'a' ∷ []

abbrev no_digest : Text → Text
no_digest k = k

build_idempotency_cache_key_injective_example :
    (tenant_of (some acme) ≡ tenant_of (some acme))
    × (b'r' ∷ b':' ∷ no_digest key ≡ b'r' ∷ b':' ∷ no_digest key)
build_idempotency_cache_key_injective_example =
    build_idempotency_cache_key_injective no_digest (some acme) (some acme) (b'r' ∷ []) (b'r' ∷ [])
      key key (ground arith) (ground arith) refl

abbrev one_slot : Semaphore
one_slot = record { capacity = 1; count = 0; released = [] }

-- one slot, acquired, refused once, released twice
try_acquire_iff_example :
    let t =
      (Semaphore.release 0 (Semaphore.release 0 (try_acquire (try_acquire one_slot).1).1).1).1 in
    (t.count ≡ held t.released)
    × (held t.released ≤ 1)
    × (((try_acquire t).0 ≡ ok none) ↔ (held t.released ≡ 1))
unfolding create_semaphore
try_acquire_iff_example =
    try_acquire_iff 1 one_slot
      (Semaphore.release 0 (Semaphore.release 0 (try_acquire (try_acquire one_slot).1).1).1).1 refl
      (released 0 (released 0 (acquired (acquired here))))

abbrev throttled : ApiError
throttled = record {
  message = text "slow down";
  status_code = 429;
  validation_results = none;
  request_id = none;
  raw_response = none;
}

map_error_to_response-bounds_example :
    let status = (map_error_to_response (api_error throttled)).status_code in
    (400 ≤ status)
    × (status < 600)
    × ((a : ApiError)
        → api_error throttled ≡ api_error a
        → (status ≢ 401) × (status ≢ 403) × (status ≢ 429))
map_error_to_response-bounds_example = map_error_to_response-bounds (api_error throttled) tt
