-- ===== src/Server/Idempotency.antt =====
-- packages/server/src/middleware/idempotency.ts: the in-memory idempotency store.
-- The state is the Map of the closure. Each call is given what `Date.now()` returns in it, once for
-- each place that reads it. No call awaits between its reads and its writes, so it is one step.
pub mod Protocol
pub mod CacheKey
use dokhna_tech_zatca.Prelude.{
  ℕ, ◌+◌, ◌*◌, Option, none, some, List, ◌∷◌, ◌++◌, leb, if◌then◌else◌, or_else,
}
use dokhna_tech_zatca.Prelude.Text.{Text, text, text_eq}
use dokhna_tech_zatca.Prelude.Dict.{Dict, lookup, insert, remove}
use dokhna_tech_zatca.Prelude.Exec.{ok, err}
use dokhna_tech_zatca.Errors.{plain_error, Exec}

pub record CachedResponse : Type 0 where
  pub status_code : ℕ
  pub headers : List (Text × Text)
  pub body : Text

pub data BeginResult : Type 0 where
  claimed in_flight : BeginResult
  replay : CachedResponse → BeginResult

pub data Entry : Type 0 where
  in_flight_entry : (expires_at : ℕ) → Entry
  committed_entry : CachedResponse → (expires_at : ℕ) → Entry

abbrev pub expires_at : Entry → ℕ
expires_at (in_flight_entry at) = at
expires_at (committed_entry response at) = at

abbrev pub Entries : Type 0
Entries = Dict Text Entry

unfoldable pub read_fresh : Text → ℕ → Entries → Option Entry × Entries
read_fresh key now entries = elim (lookup key entries) [
  | none ↦ (none, entries)
  | some entry ↦
      if leb (expires_at entry) now then (none, remove key entries) else (some entry, entries)
]

-- `read_at` and `set_at` are the readings of `readFresh` and of the write.
unfoldable pub begin : Text → ℕ → (read_at set_at : ℕ) → Exec Entries BeginResult
begin key ttl_ms read_at set_at entries =
    let (existing, swept) = read_fresh key read_at entries in
    elim existing [
      | none ↦ (ok claimed, insert key (in_flight_entry (set_at + ttl_ms)) swept)
      | some entry ↦ elim entry [
        | in_flight_entry at ↦ (ok in_flight, swept)
        | committed_entry response at ↦ (ok (replay response), swept)
      ]
    ]

unfoldable pub unclaimed : Text → Text
unclaimed key =
    text "IdempotencyStore.commit called for unclaimed key '"
    ++ (key ++ text "' — missing a prior begin(). This is a programming error in the caller.")

unfoldable pub commit : Text → CachedResponse → ℕ → (now : ℕ) → Exec Entries (Unit {0})
commit key response ttl_ms now entries = elim (lookup key entries) [
  | none ↦ (err (plain_error (text "Error") none (unclaimed key)), entries)
  | some existing ↦ (ok tt, insert key (committed_entry response (now + ttl_ms)) entries)
]

unfoldable pub release : Text → Exec Entries (Unit {0})
release key entries = (ok tt, remove key entries)

unfoldable pub default_idempotency_ttl_ms : ℕ
default_idempotency_ttl_ms = 24 * 60 * 60 * 1000

-- `digest` is the first 32 characters of the key's SHA-256 in base64url.
module _ (digest : Text → Text) where
  unfoldable pub build_idempotency_cache_key : Option Text → Text → Text → Text
  build_idempotency_cache_key tenant_ref route presented_key =
      text "idem:"
      ++ (or_else tenant_ref (text "_admin_") ++ b':' ∷ (route ++ b':' ∷ digest presented_key))
