-- ===== src/Lifecycle/Replay.antt =====
-- `AgentService.pause` and `AgentService.cancel` called again.
use Prim.Native.String.{count}
use build_your_own_durable_a.Common.{
  String, ◌≡◌, refl, ap, ◌∙◌, true, false, none, some, List, [], ◌∷◌, eq_iff, arith, ◌==◌, find,
  eq_refl, Bool-cases, Option-cases, inl, inr,
}
use build_your_own_durable_a.Common.Exec.{Exec, pure, ◌>>=◌, ◌>>◌}
use build_your_own_durable_a.Common.Result.{ok, Result-cases}
use build_your_own_durable_a.Domain.Models.{RunRecord, within}
use build_your_own_durable_a.Domain.Enums.{RunState}
use build_your_own_durable_a.Store.{next_id, drop_id}
use build_your_own_durable_a.Lifecycle.{
  World, Kind, LifecycleRequest, IdempotencyKey, requests, has_id,
}
use build_your_own_durable_a.Lifecycle.Requests.{
  request_pk, request_of_key, create_lifecycle_request, find_idempotent_lifecycle_request,
}
use build_your_own_durable_a.Lifecycle.Service.{
  Hashes, owned_run, accept_request, announce, request_lifecycle, accepts, request_of,
}
use build_your_own_durable_a.Lifecycle.Kept.{
  with_both, with_both-requests, entry_of, create_lifecycle_request-eq-ok, owned_run-eq-ok,
  announce-keeps, Owns,
}

find-has_id :
    (k : String) (rows : List LifecycleRequest) (r : LifecycleRequest)
    → find (has_id k) rows ≡ some r
    → r.request_id ≡ k
find-has_id k [] r e = absurd (cc e)
find-has_id k (q ∷ rows) r e = ground (arith, find-has_id k rows r, eq_iff q.request_id k)

module _ (h : Hashes) (kind : Kind) (run_id owner_id reason key : String) where
  abbrev pub pk : String
  pk = request_pk h.digest owner_id kind run_id key

  -- The request is on record under the key.
  record Accepted (request : LifecycleRequest) (w : World) : Type 0 where
    entry : IdempotencyKey
    recorded : w.keys pk ≡ some entry
    same_hash : (entry.request_hash == h.request_hash run_id reason) ≡ true
    names : entry.resource_id ≡ request.request_id

  Accepted-replay :
      (request later : LifecycleRequest) (run : RunRecord) (w w2 : World)
      → h.blank key ≡ false
      → Accepted request w
      → w2.keys pk ≡ w.keys pk
      → find (has_id request.request_id) (requests kind w2) ≡ some later
      → owned_run run_id owner_id w2 ≡ ok run
      → request_lifecycle h kind run_id owner_id reason key w2 ≡ (ok later, w2)
  unfolding request_lifecycle find_idempotent_lifecycle_request request_of_key
  Accepted-replay request later run w w2 b a k f o =
      let recorded : w2.keys pk ≡ some a.entry = k ∙ a.recorded in
      let found : find (has_id a.entry.resource_id) (requests kind w2) ≡ some later =
        ap (λ i. find (has_id i) (requests kind w2)) a.names ∙ f in
      rw (o, b, recorded, a.same_hash, found) refl

  accept_request-Accepted :
      (state : RunState) (request : LifecycleRequest) (w w1 : World)
      → (key == "") ≡ false
      → w.keys pk ≡ none
      → accept_request h kind state run_id owner_id reason key w ≡ (ok request, w1)
      → (w1.store.runs ≡ w.store.runs) × Accepted request w1
  unfolding accept_request
  accept_request-Accepted state request w w1 filled fresh e =
      elim (Bool-cases (accepts kind state)) [
        | inr c ↦ absurd (cc (rw c at e))
        | inl c ↦ elim (Bool-cases (within 1 4000 (count reason))) [
          | inr n ↦ absurd (cc (rw (c, n) at e))
          | inl n ↦
              let q = request_of (next_id w.store) run_id kind reason owner_id w.store.now in
              let w2 : World = record w { store = drop_id w.store } in
              let hash = h.request_hash run_id reason in
              elim (Result-cases (create_lifecycle_request h.digest q (some key) (some hash) w2)) [
                | inl (x, f) ↦ absurd (cc (rw (c, n, f) at e))
                | inr ((r, w3), f) ↦
                    let (same, made) =
                      create_lifecycle_request-eq-ok h.digest q r key hash w2 w3 filled fresh f in
                    let out : (ok r, w3) ≡ (ok request, w1) = rw (c, n, f) at e in
                    let is_q : request ≡ q = cc (out, same) in
                    let end : w1
                        ≡ with_both kind (q ∷ requests kind w2) pk (entry_of q key hash) w2 =
                      cc (out, made) in
                    let (rows, keyed, kept) =
                      with_both-requests kind (q ∷ requests kind w2) pk (entry_of q key hash) w2 in
                    rw end (
                      ap (λ s. s.runs) kept,
                      record {
                        entry = entry_of q key hash;
                        recorded = keyed;
                        same_hash = eq_refl hash;
                        names = cc is_q;
                      },
                    )
              ]
        ]
      ]

  -- What the service does where no request is on record.
  abbrev make : RunRecord → Exec World LifecycleRequest
  make run = do
    request ← accept_request h kind run.state run_id owner_id reason key
    announce h kind run run_id
    pure request

  make-Accepted :
      (request : LifecycleRequest) (run : RunRecord) (w w1 : World)
      → (key == "") ≡ false
      → owned_run run_id owner_id w ≡ ok run
      → w.keys pk ≡ none
      → make run w ≡ (ok request, w1)
      → Accepted request w1
  make-Accepted request run w w1 filled o k e =
      let w2 = (accept_request h kind run.state run_id owner_id reason key w).1 in
      elim (Result-cases (accept_request h kind run.state run_id owner_id reason key w).0) [
        | inl (x, a) ↦ absurd (cc (rw a at e))
        | inr (r, a) ↦
            let accepted : accept_request h kind run.state run_id owner_id reason key w
                ≡ (ok r, w2) =
              ap (λ q. (q, w2)) a in
            let (runs, on_record) = accept_request-Accepted run.state r w w2 filled k accepted in
            let (stored, own) = owned_run-eq-ok run_id owner_id w run o in
            let before : Owns run_id owner_id w2.store =
              (run, ap (λ t. t run_id) runs ∙ stored, own) in
            elim (Result-cases (announce h kind run run_id w2).0) [
              | inl (x, n) ↦ absurd (cc (rw (a, n) at e))
              | inr (done, n) ↦
                  let w3 = (announce h kind run run_id w2).1 in
                  let told : announce h kind run run_id w2 ≡ (ok tt, w3) = ap (λ q. (q, w3)) n in
                  let (same, owns) =
                    announce-keeps h kind run_id owner_id run w2 w3 before own told in
                  let out : (ok r, w3) ≡ (ok request, w1) = rw (a, n) at e in
                  let is_r : request ≡ r = cc out in
                  let end : w1 ≡ w3 = cc out in
                  rw (is_r, end)
                    (record {
                      entry = on_record.entry;
                      recorded = ap (λ t. t pk) same.keys ∙ on_record.recorded;
                      same_hash = on_record.same_hash;
                      names = on_record.names;
                    })
            ]
      ]

  request_lifecycle-Accepted :
      (request : LifecycleRequest) (w w1 : World)
      → h.blank "" ≡ true
      → request_lifecycle h kind run_id owner_id reason key w ≡ (ok request, w1)
      → (h.blank key ≡ false) × Accepted request w1
  unfolding request_lifecycle find_idempotent_lifecycle_request request_of_key
  request_lifecycle-Accepted request w w1 empty e =
      elim (Result-cases (owned_run run_id owner_id w)) [
        | inl (x, o) ↦ absurd (cc (rw o at e))
        | inr (run, o) ↦ elim (Bool-cases (h.blank key)) [
          | inl b ↦ absurd (cc (rw (o, b) at e))
          | inr b ↦ elim (Option-cases (w.keys pk)) [
            | inr (entry, k) ↦
                let hash = h.request_hash run_id reason in
                elim (Bool-cases (entry.request_hash == hash)) [
                  | inr s ↦ absurd (cc (rw (o, b, k, s) at e))
                  | inl s ↦
                      elim (Option-cases (find (has_id entry.resource_id) (requests kind w))) [
                        | inl f ↦ absurd (cc (rw (o, b, k, s, f) at e))
                        | inr (r, f) ↦
                            let out : (ok r, w) ≡ (ok request, w1) = rw (o, b, k, s, f) at e in
                            let end : w1 ≡ w = cc out in
                            let is_r : request ≡ r = cc out in
                            (
                              b,
                              rw (end, is_r)
                                  (record {
                                    entry = entry;
                                    recorded = k;
                                    same_hash = s;
                                    names =
                                        cc (find-has_id entry.resource_id (requests kind w) r f);
                                  }),
                            )
                      ]
                ]
            | inl k ↦
                let filled : (key == "") ≡ false = ground (arith, eq_iff key "", empty, b) in
                (b, make-Accepted request run w w1 filled o k (rw (o, b, k) at e))
          ]
        ]
      ]

  -- Once `pause` or `cancel` has returned a request, the same call under the same key, in any later
  -- world in which the key's entry is unchanged, the request is still stored (`later` is its row by
  -- then) and the run is still the owner's, returns that row and changes nothing, whatever the run's
  -- state is by then. The empty text counts as blank.
  pub request_lifecycle_again :
      (request later : LifecycleRequest) (run : RunRecord) (w w1 w2 : World)
      → h.blank "" ≡ true
      → request_lifecycle h kind run_id owner_id reason key w ≡ (ok request, w1)
      → w2.keys pk ≡ w1.keys pk
      → find (has_id request.request_id) (requests kind w2) ≡ some later
      → owned_run run_id owner_id w2 ≡ ok run
      → request_lifecycle h kind run_id owner_id reason key w2 ≡ (ok later, w2)
  request_lifecycle_again request later run w w1 w2 empty e k f o =
      let (b, a) = request_lifecycle-Accepted request w w1 empty e in
      Accepted-replay request later run w1 w2 b a k f o
