-- ===== src/Lifecycle/Pending.antt =====
-- Which request is pending, and that it is applied once.
use build_your_own_durable_a.Common.{
  ℕ, ◌≤◌, String, ◌≡◌, refl, ◌⊎◌, true, false, not, ◌||◌, none, some, List, [], ◌∷◌, any, all, leb,
  Any, arith, Bool-cases, inl, inr,
}
use build_your_own_durable_a.Common.Result.{ok, err, concurrency_conflict_error}
use build_your_own_durable_a.Lifecycle.{World, Kind, LifecycleRequest, requests, with_requests}
use build_your_own_durable_a.Lifecycle.Requests.{
  waits_for, oldest, pending_lifecycle_request, awaits, apply_row, apply_where,
  apply_lifecycle_request,
}

-- A row that waits, and that was there no later than any other that waits.
pub record IsOldest (run_id : String) (rows : List LifecycleRequest) (r : LifecycleRequest)
    : Type 0 where
  pub listed : Any (λ x. x ≡ r) rows
  pub waiting : waits_for run_id r ≡ true
  pub least : all (λ x. not (waits_for run_id x) || leb r.created_at x.created_at) rows ≡ true

later_too :
    (run_id : String) (a b : ℕ) (rows : List LifecycleRequest)
    → a ≤ b
    → all (λ (x : LifecycleRequest). not (waits_for run_id x) || leb b x.created_at) rows ≡ true
    → all (λ (x : LifecycleRequest). not (waits_for run_id x) || leb a x.created_at) rows ≡ true
later_too run_id a b [] h k = refl
later_too run_id a b (r ∷ rows) h k = ground (arith, later_too run_id a b rows h)

none_waits :
    (run_id : String) (a : ℕ) (rows : List LifecycleRequest)
    → any (waits_for run_id) rows ≡ false
    → all (λ (x : LifecycleRequest). not (waits_for run_id x) || leb a x.created_at) rows ≡ true
none_waits run_id a [] h = refl
none_waits run_id a (r ∷ rows) h = ground (arith, none_waits run_id a rows)

oldest_cases :
    (run_id : String) (rows : List LifecycleRequest)
    → ((oldest (waits_for run_id) rows ≡ none) × (any (waits_for run_id) rows ≡ false))
      ⊎ ((r : LifecycleRequest) × (oldest (waits_for run_id) rows ≡ some r)
          × IsOldest run_id rows r)
unfolding oldest
oldest_cases run_id [] = inl (refl, refl)
oldest_cases run_id (x ∷ rows) = elim (Bool-cases (waits_for run_id x)) [
  | inr w ↦ elim (oldest_cases run_id rows) [
    | inl (e, n) ↦ inl (rw (w, e) refl, rw (w, n) refl)
    | inr (r, e, o) ↦ inr (
      r,
      rw (w, e) refl,
      record { listed = inr o.listed; waiting = o.waiting; least = ground (arith, w, o.least) },
    )
  ]
  | inl w ↦ elim (oldest_cases run_id rows) [
    | inl (e, n) ↦ inr (
      x,
      rw (w, e) refl,
      record {
        listed = inl refl;
        waiting = w;
        least = ground (arith, w, none_waits run_id x.created_at rows n);
      },
    )
    | inr (r, e, o) ↦ elim (Bool-cases (leb x.created_at r.created_at)) [
      | inl b ↦ inr (
        x,
        rw (w, e, b) refl,
        record {
          listed = inl refl;
          waiting = w;
          least =
              ground
                (arith, w, later_too run_id x.created_at r.created_at rows (ground arith) o.least);
        },
      )
      | inr b ↦ inr (
        r,
        rw (w, e, b) refl,
        record {
          listed = inr o.listed;
          waiting = o.waiting;
          least = ground (arith, w, o.least, b);
        },
      )
    ]
  ]
]

-- A pending cancellation of the run is returned before any pending pause, and of several the one that
-- was there first; a pending pause only if no cancellation is pending; nothing only if no request of
-- the run is pending.
pub pending_lifecycle_request_lem :
    (run_id : String) (w : World)
    → ((r : LifecycleRequest) × (pending_lifecycle_request run_id w ≡ some r)
        × IsOldest run_id w.cancellations r)
      ⊎ (((r : LifecycleRequest) × (pending_lifecycle_request run_id w ≡ some r)
            × (any (waits_for run_id) w.cancellations ≡ false)
            × IsOldest run_id w.pauses r)
          ⊎ ((pending_lifecycle_request run_id w ≡ none)
              × (any (waits_for run_id) w.cancellations ≡ false)
              × (any (waits_for run_id) w.pauses ≡ false)))
unfolding pending_lifecycle_request
pending_lifecycle_request_lem run_id w = elim (oldest_cases run_id w.cancellations) [
  | inr (r, e, o) ↦ inl (r, rw (pending_lifecycle_request, e) refl, o)
  | inl (e, n) ↦ elim (oldest_cases run_id w.pauses) [
    | inr (r, f, o) ↦ inr (inl (r, rw (pending_lifecycle_request, e, f) refl, n, o))
    | inl (f, m) ↦ inr (inr (rw (pending_lifecycle_request, e, f) refl, n, m))
  ]
]

apply_where-done :
    (request_id : String) (now : ℕ) (rows : List LifecycleRequest)
    → any (awaits request_id) (apply_where request_id now rows) ≡ false
apply_where-done request_id now [] = refl
apply_where-done request_id now (r ∷ rows) = elim (Bool-cases (awaits request_id r)) [
  | inl b ↦ rw b (ground (arith, apply_where-done request_id now rows))
  | inr b ↦ rw b (ground (arith, b, apply_where-done request_id now rows))
]

requests-with_requests :
    (kind : Kind) (rows : List LifecycleRequest) (w : World)
    → requests kind (with_requests kind rows w) ≡ rows
requests-with_requests Kind.pause rows w = refl
requests-with_requests Kind.cancel rows w = refl

-- A request that was applied cannot be applied again.
pub apply_lifecycle_request_once :
    (request r : LifecycleRequest) (w w1 : World)
    → apply_lifecycle_request request w ≡ ok (r, w1)
    → apply_lifecycle_request request w1 ≡ err concurrency_conflict_error
unfolding apply_lifecycle_request
apply_lifecycle_request_once request r w w1 h =
    let rows = requests request.kind w in
    elim (Bool-cases (any (awaits request.request_id) rows)) [
      | inr b ↦ absurd (cc (rw b at h))
      | inl b ↦
          let applied = apply_where request.request_id w.store.now rows in
          let out : ok (apply_row w.store.now request, with_requests request.kind applied w)
              ≡ ok (r, w1) =
            rw b at h in
          let end : w1 ≡ with_requests request.kind applied w = cc out in
          rw
            (
              end,
              requests-with_requests request.kind applied w,
              apply_where-done request.request_id w.store.now rows,
            )
            refl
    ]
