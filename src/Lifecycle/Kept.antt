-- ===== src/Lifecycle/Kept.antt =====
-- What `create_lifecycle_request` and the steps behind it leave in the tables.
use Prim.Native.String.{◌++◌}
use build_your_own_durable_a.Common.{
  ℕ, ◌+◌, String, ◌≡◌, refl, ap, ◌∙◌, true, false, none, some, List, ◌∷◌, ◌==◌, any, arith,
  Bool-cases, Option-cases, inl, inr,
}
use build_your_own_durable_a.Common.Table.{insert, insert_self}
use build_your_own_durable_a.Common.Exec.{Exec, pure, commit, ◌>>=◌}
use build_your_own_durable_a.Common.Result.{ok, Result-cases}
use build_your_own_durable_a.Domain.Models.{RunRecord}
use build_your_own_durable_a.Domain.Enums.{RunState}
use build_your_own_durable_a.Domain.StateMachine.{transition_run}
use build_your_own_durable_a.Store.{Store, update_run, publish, get_run}
use build_your_own_durable_a.Lifecycle.{
  World, Kind, LifecycleRequest, IdempotencyKey, requests, with_requests, with_key, has_id,
  kind_text,
}
use build_your_own_durable_a.Lifecycle.Requests.{
  request_pk, create_lifecycle_request, create_keyed, add_request,
}
use build_your_own_durable_a.Lifecycle.Service.{
  Hashes, owned_run, on_store, mark_paused, announce, is_running_state,
}

-- A row added to the table of its kind, and a key beside it.
abbrev pub with_both : Kind → List LifecycleRequest → String → IdempotencyKey → World → World
with_both kind rows pk entry w = with_key pk entry (with_requests kind rows w)

pub with_both-requests :
    (kind : Kind) (rows : List LifecycleRequest) (pk : String) (entry : IdempotencyKey) (w : World)
    → (requests kind (with_both kind rows pk entry w) ≡ rows)
      × ((with_both kind rows pk entry w).keys pk ≡ some entry)
      × ((with_both kind rows pk entry w).store ≡ w.store)
with_both-requests Kind.pause rows pk entry w = (refl, insert_self pk entry w.keys, refl)
with_both-requests Kind.cancel rows pk entry w = (refl, insert_self pk entry w.keys, refl)

abbrev pub entry_of : LifecycleRequest → String → String → IdempotencyKey
entry_of request idempotency_key request_hash = record {
  owner_id = request.requested_by;
  action = kind_text request.kind ++ ":" ++ request.run_id;
  idempotency_key = idempotency_key;
  request_hash = request_hash;
  resource_id = request.request_id;
}

pub create_lifecycle_request-eq-ok :
    (digest : String → String) (q r : LifecycleRequest) (key request_hash : String) (w w1 : World)
    → (key == "") ≡ false
    → w.keys (request_pk digest q.requested_by q.kind q.run_id key) ≡ none
    → create_lifecycle_request digest q (some key) (some request_hash) w ≡ ok (r, w1)
    → (r ≡ q)
      × (w1
          ≡ with_both q.kind
              (q ∷ requests q.kind w)
              (request_pk digest q.requested_by q.kind q.run_id key)
              (entry_of q key request_hash)
              w)
unfolding create_lifecycle_request create_keyed add_request
create_lifecycle_request-eq-ok digest q r key request_hash w w1 filled fresh e =
    elim (Bool-cases (any (has_id q.request_id) (requests q.kind w))) [
      | inl b ↦ absurd (ground (arith, filled, fresh, b))
      | inr b ↦
          let made =
            with_both q.kind (q ∷ requests q.kind w)
              (request_pk digest q.requested_by q.kind q.run_id key) (entry_of q key request_hash)
              w in
          let out : create_lifecycle_request digest q (some key) (some request_hash) w
              ≡ ok (q, made) =
            rw (create_lifecycle_request, filled, create_keyed, fresh, add_request, b) refl in
          (cc (out, e), cc (out, e))
    ]

pub owned_run-eq-ok :
    (run_id owner_id : String) (w : World) (run : RunRecord)
    → owned_run run_id owner_id w ≡ ok run
    → (w.store.runs run_id ≡ some run) × ((run.owner_id == owner_id) ≡ true)
unfolding owned_run get_run
owned_run-eq-ok run_id owner_id w run o = elim (Option-cases (w.store.runs run_id)) [
  | inl e ↦ absurd (ground (arith, e))
  | inr (row, e) ↦ ground (arith, e)
]

-- The run that is stored under the ID is the owner's.
abbrev pub Owns : String → String → Store → Type 0
Owns run_id owner_id s =
    (run : RunRecord) × (s.runs run_id ≡ some run) × ((run.owner_id == owner_id) ≡ true)

pub owned_run-of-Owns :
    (run_id owner_id : String) (w : World)
    → Owns run_id owner_id w.store
    → (run : RunRecord) × (owned_run run_id owner_id w ≡ ok run)
unfolding owned_run get_run
owned_run-of-Owns run_id owner_id w (run, e, o) = (run, rw (owned_run, get_run, e, o) refl)

-- An update that keeps the owner of the row it read.
update_run-Owns :
    (run_id owner_id : String) (run run' : RunRecord) (n : ℕ) (s s' : Store)
    → Owns run_id owner_id s
    → (run.owner_id == owner_id) ≡ true
    → update_run run n s ≡ ok (run', s')
    → Owns run_id owner_id s'
unfolding update_run insert
update_run-Owns run_id owner_id run run' n s s' (old, e, o) same h =
    elim (Bool-cases (run_id == run.run_id)) [
      | inl b ↦ (record run { version = n + 1 }, ground (arith, b), same)
      | inr b ↦ (old, ground (arith, b, e), o)
    ]

publish-Owns :
    (run_id owner_id to event_type : String) (id : String) (s s' : Store)
    → Owns run_id owner_id s
    → publish to event_type none s ≡ ok (id, s')
    → Owns run_id owner_id s'
unfolding publish
publish-Owns run_id owner_id to event_type id s s' (old, e, o) h = (old, ground (arith, e), o)

-- The tables of keys and requests, which the store's transactions leave.
pub record Same (w w1 : World) : Type 0 where
  pub keys : w1.keys ≡ w.keys
  pub pauses : w1.pauses ≡ w.pauses
  pub cancellations : w1.cancellations ≡ w.cancellations

mark_paused-keeps :
    (h : Hashes) (run_id owner_id : String) (run : RunRecord) (w w1 : World)
    → Owns run_id owner_id w.store
    → (run.owner_id == owner_id) ≡ true
    → mark_paused h run w ≡ (ok tt, w1)
    → Same w w1 × Owns run_id owner_id w1.store
unfolding mark_paused
mark_paused-keeps h run_id owner_id run w w1 o same e =
    elim (Bool-cases (is_running_state run.state)) [
      | inr b ↦
          let end : w1 ≡ w = cc (rw b at e) in
          rw end (record { keys = refl; pauses = refl; cancellations = refl }, o)
      | inl b ↦ elim (Result-cases (transition_run run.state RunState.pause_requested)) [
        | inl (x, t) ↦ absurd (cc (rw (b, t) at e))
        | inr (state, t) ↦
            let written : RunRecord = record run { state = state } in
            elim (Result-cases (update_run written run.version w.store)) [
              | inl (x, u) ↦ absurd (cc (rw (b, t, u) at e))
              | inr ((run', s'), u) ↦
                  let end : w1 ≡ record w { store = s' } = cc (rw (b, t, u) at e) in
                  rw end (
                    record { keys = refl; pauses = refl; cancellations = refl },
                    update_run-Owns run_id owner_id written run' run.version w.store s' o same u,
                  )
            ]
      ]
    ]

abbrev published : String → String → Exec World (Unit {0})
published run_id event_type = do _ ← commit (on_store (publish run_id event_type none)); pure tt

published-keeps :
    (run_id owner_id event_type : String) (w w1 : World)
    → Owns run_id owner_id w.store
    → published run_id event_type w ≡ (ok tt, w1)
    → Same w w1 × Owns run_id owner_id w1.store
published-keeps run_id owner_id event_type w w1 o e =
    elim (Result-cases (publish run_id event_type none w.store)) [
      | inl (x, p) ↦ absurd (ground (arith, p))
      | inr ((id, s'), p) ↦
          let end : w1 ≡ record w { store = s' } = ground (arith, p) in
          rw end (
            record { keys = refl; pauses = refl; cancellations = refl },
            publish-Owns run_id owner_id run_id event_type id w.store s' o p,
          )
    ]

pub announce-keeps :
    (h : Hashes) (kind : Kind) (run_id owner_id : String) (run : RunRecord) (w w1 : World)
    → Owns run_id owner_id w.store
    → (run.owner_id == owner_id) ≡ true
    → announce h kind run run_id w ≡ (ok tt, w1)
    → Same w w1 × Owns run_id owner_id w1.store
unfolding announce
announce-keeps h Kind.cancel run_id owner_id run w w1 o same e =
    published-keeps run_id owner_id "cancellation.requested" w w1 o e
announce-keeps h Kind.pause run_id owner_id run w w1 o same e =
    elim (Result-cases (mark_paused h run w).0) [
      | inl (x, m) ↦ absurd (cc (rw m at e))
      | inr (done, m) ↦
          let w2 = (mark_paused h run w).1 in
          let marked : mark_paused h run w ≡ (ok tt, w2) = ap (λ r. (r, w2)) m in
          let (kept, owns) = mark_paused-keeps h run_id owner_id run w w2 o same marked in
          let (kept', owns') =
            published-keeps run_id owner_id "pause.requested" w2 w1 owns (rw m at e) in
          (
            record {
              keys = kept'.keys ∙ kept.keys;
              pauses = kept'.pauses ∙ kept.pauses;
              cancellations = kept'.cancellations ∙ kept.cancellations;
            },
            owns',
          )
    ]

pub Same-requests : (kind : Kind) (w w1 : World) → Same w w1 → requests kind w1 ≡ requests kind w
Same-requests Kind.pause w w1 s = s.pauses
Same-requests Kind.cancel w w1 s = s.cancellations
