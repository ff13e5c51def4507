-- ===== src/Server/Invoices/Replay.antt =====
-- What a retry with the same idempotency key is told.
use dokhna_tech_zatca.Prelude.{
  ℕ, ◌+◌, ◌<◌, ◌≡◌, ◌∙◌, ◌⊎◌, inl, inr, refl, ap, none, some, Option, Option-cases, arith,
}
use dokhna_tech_zatca.Prelude.Text.{Text, text_eq}
use dokhna_tech_zatca.Prelude.Dict.{lookup, lookup-remove, beq_refl}
use dokhna_tech_zatca.Prelude.Exec.{ok, err, Result-cases}
use dokhna_tech_zatca.Errors.{ZatcaError}
use dokhna_tech_zatca.Server.Idempotency.{
  Entries, in_flight_entry, committed_entry, read_fresh, BeginResult, CachedResponse, claimed,
  in_flight, replay, begin, commit, release,
}
use dokhna_tech_zatca.Server.Idempotency.Protocol.{at_rest, commit_replays}
use dokhna_tech_zatca.Server.Invoices.{
  Authenticated, IssueBody, Request, RouteDeps, RouteState, InvoiceResponse, issued_reply, replayed,
  in_flight_conflict, read_idempotency_key, ttl, cache_key_of, begin_idempotency,
  commit_idempotency, release_idempotency, work, cached, guarded, or_release, proceed_with,
  post_invoice,
}

module _ {S Details : Type 0} (deps : RouteDeps S Details) where
  -- The state after the store has Answered to the request's key.
  abbrev pub begun : Request Details → Text → RouteState S → RouteState S
  begun req key s = record s {
    entries =
        (begin (cache_key_of deps req.tenant_ref key) (ttl deps) req.begin_read_at req.begin_set_at
          s.entries).1;
  }

  module _ (req : Request Details) (auth : Authenticated) (body : IssueBody Details) (key : Text)
      (authenticated : req.auth ≡ ok auth) (parsed : req.body ≡ ok body)
      (keyed : read_idempotency_key req.idempotency_key ≡ ok (some key)) (s : RouteState S) where
    abbrev Answered : BeginResult → Type 0
    Answered b =
        (begin (cache_key_of deps req.tenant_ref key) (ttl deps) req.begin_read_at req.begin_set_at
          s.entries).0
        ≡ ok b

    pub post_invoice-claimed :
        Answered claimed
        → post_invoice deps req s
          ≡ or_release deps
              (some (cache_key_of deps req.tenant_ref key))
              (guarded deps auth req body (some (cache_key_of deps req.tenant_ref key)))
              (begun req key s)
    unfolding post_invoice begin_idempotency proceed_with
    post_invoice-claimed h = rw (authenticated, parsed, keyed, h) refl

    post_invoice-in_flight :
        Answered in_flight → post_invoice deps req s ≡ (ok in_flight_conflict, begun req key s)
    unfolding post_invoice begin_idempotency proceed_with
    post_invoice-in_flight h = rw (authenticated, parsed, keyed, h) refl

    post_invoice-replay :
        (response : CachedResponse)
        → Answered (replay response)
        → post_invoice deps req s ≡ (ok (replayed response), begun req key s)
    unfolding post_invoice begin_idempotency proceed_with
    post_invoice-replay response h = rw (authenticated, parsed, keyed, h) refl

    -- A request that claims its key and fails, at whatever point, leaves the key free: the
    -- next request with it executes again.
    pub post_invoice_error_releases :
        (e : ZatcaError)
        → Answered claimed
        → (post_invoice deps req s).0 ≡ err e
        → lookup (cache_key_of deps req.tenant_ref key) (post_invoice deps req s).1.entries ≡ none
    unfolding or_release release_idempotency release
    post_invoice_error_releases e h failed =
        let ck = cache_key_of deps req.tenant_ref key in
        let run = guarded deps auth req body (some ck) (begun req key s) in
        elim (Result-cases run.0) [
          | inl (reply, done) ↦
              absurd (ground (arith, rw (post_invoice-claimed h, or_release, done) at failed))
          | inr (thrown, e') ↦
              rw (post_invoice-claimed h, or_release, e', lookup-remove)
                (ground (arith, beq_refl ck))
        ]

    -- Of a run that made a document, the response is committed.
    made_commit :
        (ck : Text) (u : RouteState S) (response : InvoiceResponse) (id : Option Text)
        → (guarded deps auth req body (some ck) u).0 ≡ ok (issued_reply response id)
        → (v : RouteState S) × ((commit ck
              (cached deps response id)
              (ttl deps)
              req.commit_at
              v.entries).0
            ≡ ok tt)
          × ((guarded deps auth req body (some ck) u).1 ≡ record v {
            entries = (commit ck (cached deps response id) (ttl deps) req.commit_at v.entries).1;
          })
    unfolding guarded commit_idempotency
    made_commit ck u response id done = elim (Result-cases (work deps auth req body u).0) [
      | inr (e, thrown) ↦ absurd (ground (arith, rw (guarded, thrown) at done))
      | inl (made, worked) ↦
          let v = (work deps auth req body u).1 in
          elim (Result-cases
            (commit ck (cached deps made.0 made.1) (ttl deps) req.commit_at v.entries).0) [
              | inr (e, thrown) ↦ absurd (ground (arith, rw (guarded, worked, thrown) at done))
              | inl (_, committed) ↦
                  let same = rw (guarded, worked, committed) at done in
                  let response≡ : made.0 ≡ response = cc in
                  let id≡ : made.1 ≡ id = cc in
                  (
                    v,
                    rw (response≡, id≡) at committed,
                    rw (guarded, worked, committed, response≡, id≡) refl,
                  )
            ]
    ]

BeginResult-cases :
    (b : BeginResult) → (b ≡ claimed) ⊎ ((b ≡ in_flight) ⊎ ((r : CachedResponse) × (b ≡ replay r)))
BeginResult-cases claimed = inl refl
BeginResult-cases in_flight = inr (inl refl)
BeginResult-cases (replay r) = inr (inr (r, refl))

begin_returns :
    (key : Text) (ttl read_at set_at : ℕ) (s : Entries)
    → (b : BeginResult) × ((begin key ttl read_at set_at s).0 ≡ ok b)
unfolding begin read_fresh
begin_returns key ttl read_at set_at s = elim (Option-cases (read_fresh key read_at s).0) [
  | inl missing ↦ (claimed, rw (begin, missing) refl)
  | inr (in_flight_entry at, found) ↦ (in_flight, rw (begin, found) refl)
  | inr (committed_entry r at, found) ↦ (replay r, rw (begin, found) refl)
]

module _ {S Details : Type 0} (deps : RouteDeps S Details) where
  -- A run that made a document under a key has claimed the key.
  made_claimed :
      (req : Request Details) (auth : Authenticated) (body : IssueBody Details) (key : Text)
      (s : RouteState S) (response : InvoiceResponse) (id : Option Text)
      → req.auth ≡ ok auth
      → req.body ≡ ok body
      → read_idempotency_key req.idempotency_key ≡ ok (some key)
      → (post_invoice deps req s).0 ≡ ok (issued_reply response id)
      → (begin
          (cache_key_of deps req.tenant_ref key)
          (ttl deps)
          req.begin_read_at
          req.begin_set_at
          s.entries).0
        ≡ ok claimed
  made_claimed req auth body key s response id authenticated parsed keyed done =
      let (b, e) =
        begin_returns (cache_key_of deps req.tenant_ref key) (ttl deps) req.begin_read_at
          req.begin_set_at s.entries in
      elim (BeginResult-cases b) [
        | inl c ↦ e ∙ ap ok c
        | inr (inl c) ↦
            let other =
              post_invoice-in_flight deps req auth body key authenticated parsed keyed s
                (e ∙ ap ok c) in
            absurd (ground (arith, rw other at done))
        | inr (inr (r, c)) ↦
            let other =
              post_invoice-replay deps req auth body key authenticated parsed keyed s r
                (e ∙ ap ok c) in
            absurd (ground (arith, rw other at done))
      ]

  replayed_at :
      (req : Request Details) (auth : Authenticated) (body : IssueBody Details) (key : Text)
      (response : CachedResponse) (t : RouteState S) (ck : Text)
      → cache_key_of deps req.tenant_ref key ≡ ck
      → req.auth ≡ ok auth
      → req.body ≡ ok body
      → read_idempotency_key req.idempotency_key ≡ ok (some key)
      → begin ck (ttl deps) req.begin_read_at req.begin_set_at t.entries
        ≡ (ok (replay response), t.entries)
      → post_invoice deps req t ≡ (ok (replayed response), t)
  replayed_at req auth body key response t ck same authenticated parsed keyed answer =
      let answer' =
        ap (λ k. begin k (ttl deps) req.begin_read_at req.begin_set_at t.entries) same ∙ answer in
      post_invoice-replay deps req auth body key authenticated parsed keyed t response
        (ap (λ r. r.0) answer')
      ∙ ap (λ e. (ok (replayed response), record t { entries = e })) (ap (λ r. r.1) answer')

  -- Exactly-once under retries: when a request with a key has made a document, a later request of
  -- the tenant with the same key and any body, which reads the clock before the cached response
  -- expires, is told that response with status 200, and nothing is issued, submitted, audited or
  -- otherwise changed.
  pub post_invoice_replays :
      (req retry : Request Details) (auth auth' : Authenticated) (body body' : IssueBody Details)
      (key : Text) (s : RouteState S) (response : InvoiceResponse) (id : Option Text)
      → req.auth ≡ ok auth
      → req.body ≡ ok body
      → read_idempotency_key req.idempotency_key ≡ ok (some key)
      → (post_invoice deps req s).0 ≡ ok (issued_reply response id)
      → retry.auth ≡ ok auth'
      → retry.body ≡ ok body'
      → read_idempotency_key retry.idempotency_key ≡ ok (some key)
      → retry.tenant_ref ≡ req.tenant_ref
      → retry.begin_read_at < req.commit_at + ttl deps
      → post_invoice deps retry (post_invoice deps req s).1
        ≡ (ok (replayed (cached deps response id)), (post_invoice deps req s).1)
  unfolding or_release
  post_invoice_replays req retry auth auth' body body' key s response id authenticated parsed keyed
        done authenticated' parsed' keyed' tenant early =
      let ck = cache_key_of deps req.tenant_ref key in
      let run = guarded deps auth req body (some ck) (begun deps req key s) in
      let first =
        post_invoice-claimed deps req auth body key authenticated parsed keyed s
          (made_claimed req auth body key s response id authenticated parsed keyed done) in
      elim (Result-cases run.0) [
        | inr (e, thrown) ↦ absurd (ground (arith, rw (first, or_release, thrown) at done))
        | inl (reply, returned) ↦
            let reply≡ : reply ≡ issued_reply response id =
              (let h = rw (first, or_release, returned) at done in cc) in
            let (v, committed, state) =
              made_commit deps req auth body key authenticated parsed keyed s ck
                (begun deps req key s) response id (returned ∙ ap ok reply≡) in
            let final : (post_invoice deps req s).1 ≡ run.1 =
              rw (first, or_release, returned) refl in
            let t = record v {
              entries = (commit ck (cached deps response id) (ttl deps) req.commit_at v.entries).1;
            } in
            let answer =
              commit_replays ck (cached deps response id) (ttl deps) req.commit_at v.entries
                t.entries (ttl deps) retry.begin_read_at retry.begin_set_at committed at_rest
                early in
            rw (final, state)
              (replayed_at retry auth' body' key (cached deps response id) t ck
                (ap (λ r. cache_key_of deps r key) tenant) authenticated' parsed' keyed' answer)
      ]
