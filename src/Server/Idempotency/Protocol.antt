-- ===== src/Server/Idempotency/Protocol.antt =====
-- The protocol that the store keeps: one claimant, then exact replays.
use dokhna_tech_zatca.Prelude.{
  ℕ, ◌+◌, ◌<◌, ◌≤◌, ◌≡◌, ◌≢◌, ◌↔◌, ◌∙◌, inl, inr, none, some, arith, Option-cases, Bool-cases,
}
use dokhna_tech_zatca.Prelude.Eq.{◌==◌}
use dokhna_tech_zatca.Prelude.Text.{Text, text, text_eq}
use dokhna_tech_zatca.Prelude.Dict.{
  lookup, remove, lookup-insert, lookup-remove, lookup-insert_self, beq_refl,
}
use dokhna_tech_zatca.Prelude.Exec.{ok, err}
use dokhna_tech_zatca.Errors.{plain_error}
use dokhna_tech_zatca.Server.Idempotency.{
  Entries, Entry, CachedResponse, BeginResult, claimed, in_flight, replay, in_flight_entry,
  committed_entry, expires_at, read_fresh, begin, commit, release, unclaimed,
}

-- A call that leaves the entry of `key` alone until `deadline`: any `begin` that reads the clock
-- before it, and any `commit` or `release` of another key.
pub data Quiet (key : Text) (deadline : ℕ) (s : Entries) : Entries → Type 0 where
  began :
      (k : Text) (ttl read_at set_at : ℕ)
      → (k ≡ key → read_at < deadline)
      → Quiet key deadline s (begin k ttl read_at set_at s).1
  committed :
      (k : Text) (response : CachedResponse) (ttl now : ℕ)
      → k ≢ key
      → Quiet key deadline s (commit k response ttl now s).1
  released : (k : Text) → k ≢ key → Quiet key deadline s (release k s).1

pub data Quiets (key : Text) (deadline : ℕ) (s : Entries) : Entries → Type 0 where
  at_rest : Quiets key deadline s s
  after :
      {t u : Entries} → Quiets key deadline s t → Quiet key deadline t u → Quiets key deadline s u

begin-lookup_ne :
    (key k : Text) (ttl read_at set_at : ℕ) (s : Entries)
    → k ≢ key
    → lookup key (begin k ttl read_at set_at s).1 ≡ lookup key s
unfolding begin read_fresh
begin-lookup_ne key k ttl read_at set_at s differ = ground (
  arith,
  text_eq.beq_iff k key,
  lookup-remove k key s,
  lookup-insert k key (in_flight_entry (set_at + ttl)) s,
  lookup-insert k key (in_flight_entry (set_at + ttl)) (remove k s),
)

-- What `begin` answers while the entry is fresh.
abbrev pub answer : Entry → BeginResult
answer (in_flight_entry at) = in_flight
answer (committed_entry response at) = replay response

begin_fresh :
    (key : Text) (ttl read_at set_at : ℕ) (s : Entries) (e : Entry)
    → lookup key s ≡ some e
    → read_at < expires_at e
    → begin key ttl read_at set_at s ≡ (ok (answer e), s)
unfolding begin read_fresh
begin_fresh key ttl read_at set_at s (in_flight_entry at) there early = ground arith
begin_fresh key ttl read_at set_at s (committed_entry response at) there early = ground arith

Quiet-lookup :
    {key : Text} {s t : Entries} (e : Entry)
    → lookup key s ≡ some e
    → Quiet key (expires_at e) s t
    → lookup key t ≡ some e
unfolding commit release
Quiet-lookup {key} {s} e there (began k ttl read_at set_at early) = elim (Bool-cases (k == key)) [
  | inl same ↦
      let k≡key = (text_eq.beq_iff k key).0 same in
      rw (k≡key, begin_fresh key ttl read_at set_at s e there (early k≡key)) there
  | inr other ↦
      begin-lookup_ne key k ttl read_at set_at s
        (λ e. absurd (ground (arith, text_eq.beq_iff k key)))
      ∙ there
]
Quiet-lookup {key} {s} e there (committed k response ttl now differ) =
    ground
      (arith, text_eq.beq_iff k key, lookup-insert k key (committed_entry response (now + ttl)) s)
Quiet-lookup {key} {s} e there (released k differ) =
    ground (arith, text_eq.beq_iff k key, lookup-remove k key s)

Quiets-lookup :
    {key : Text} {s : Entries} (e : Entry) {t : Entries}
    → lookup key s ≡ some e
    → Quiets key (expires_at e) s t
    → lookup key t ≡ some e
Quiets-lookup e there at_rest = there
Quiets-lookup e there (after before step) = Quiet-lookup e (Quiets-lookup e there before) step

begin_claimed-lookup :
    (key : Text) (ttl read_at set_at : ℕ) (s : Entries)
    → (begin key ttl read_at set_at s).0 ≡ ok claimed
    → lookup key (begin key ttl read_at set_at s).1 ≡ some (in_flight_entry (set_at + ttl))
unfolding begin read_fresh
begin_claimed-lookup key ttl read_at set_at s h = ground (
  arith,
  lookup-insert_self key (in_flight_entry (set_at + ttl)) s,
  lookup-insert_self key (in_flight_entry (set_at + ttl)) (remove key s),
)

-- Once a `begin` has claimed a key, every further `begin` of it that reads the clock before the
-- claim's expiry is told `in-flight` and changes nothing, whatever happens to other keys and
-- however often the key is begun in between, until its `commit` or `release`.
pub begin_exclusive :
    (key : Text) (ttl read_at set_at : ℕ) (s t : Entries) (ttl' read_at' set_at' : ℕ)
    → (begin key ttl read_at set_at s).0 ≡ ok claimed
    → Quiets key (set_at + ttl) (begin key ttl read_at set_at s).1 t
    → read_at' < set_at + ttl
    → begin key ttl' read_at' set_at' t ≡ (ok in_flight, t)
begin_exclusive key ttl read_at set_at s t ttl' read_at' set_at' won between early =
    let claim = in_flight_entry (set_at + ttl) in
    begin_fresh key ttl' read_at' set_at' t claim
      (Quiets-lookup claim (begin_claimed-lookup key ttl read_at set_at s won) between) early

commit_ok-lookup :
    (key : Text) (response : CachedResponse) (ttl now : ℕ) (s : Entries)
    → (commit key response ttl now s).0 ≡ ok tt
    → lookup key (commit key response ttl now s).1 ≡ some (committed_entry response (now + ttl))
unfolding commit
commit_ok-lookup key response ttl now s h =
    ground (arith, lookup-insert_self key (committed_entry response (now + ttl)) s)

-- Once a `commit` of a key has not thrown, every `begin` of it that reads the clock before the
-- commit's expiry replays exactly the committed response and changes nothing, whatever happens to
-- other keys and however often the key is begun in between.
pub commit_replays :
    (key : Text) (response : CachedResponse) (ttl now : ℕ) (s t : Entries)
    (ttl' read_at' set_at' : ℕ)
    → (commit key response ttl now s).0 ≡ ok tt
    → Quiets key (now + ttl) (commit key response ttl now s).1 t
    → read_at' < now + ttl
    → begin key ttl' read_at' set_at' t ≡ (ok (replay response), t)
commit_replays key response ttl now s t ttl' read_at' set_at' done between early =
    let entry = committed_entry response (now + ttl) in
    begin_fresh key ttl' read_at' set_at' t entry
      (Quiets-lookup entry (commit_ok-lookup key response ttl now s done) between) early

-- A `begin` claims the key exactly when no entry of it is fresh: there is none, as after a
-- `release`, or the one there expired at or before the reading.
pub begin_claims_iff :
    (key : Text) (ttl read_at set_at : ℕ) (s : Entries)
    → ((begin key ttl read_at set_at s).0 ≡ ok claimed)
      ↔ ((e : Entry) → lookup key s ≡ some e → expires_at e ≤ read_at)
unfolding begin read_fresh
begin_claims_iff key ttl read_at set_at s = elim (Option-cases (lookup key s)) [
  | inl missing ↦ (λ h e there. absurd (ground arith), λ h. ground arith)
  | inr (e, there) ↦ (λ h f there'. ground arith, λ h. ground (arith, h e there))
]

-- A `commit` after a `release` of its key, with no `begin` between, throws and changes nothing.
pub commit_released :
    (key : Text) (response : CachedResponse) (ttl now : ℕ) (s : Entries)
    → let t = (release key s).1 in
      commit key response ttl now t ≡ (err (plain_error (text "Error") none (unclaimed key)), t)
unfolding commit release
commit_released key response ttl now s = ground (arith, lookup-remove key key s, beq_refl key)
