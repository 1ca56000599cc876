-- ===== src/Lifecycle/Requests.antt =====
-- persistence/store.py: pause and cancellation requests.
use Prim.Native.String.{◌++◌}
use build_your_own_durable_a.Common.{
  ℕ, String, Bool, not, ◌&&◌, Option, none, some, List, [], ◌∷◌, ◌==◌, any, find, leb,
  if◌then◌else◌,
}
use build_your_own_durable_a.Common.Exec.{Txn}
use build_your_own_durable_a.Common.Result.{
  Result, ok, err, integrity_error, idempotency_conflict_error, database_error,
  concurrency_conflict_error, value_error,
}
use build_your_own_durable_a.Lifecycle.{
  World, Kind, LifecycleRequest, IdempotencyKey, RequestStatus, is_pending, requests, with_requests,
  kind_text, has_id, with_key, idempotency_pk,
}

module _ (digest : String → String) where
  abbrev pub request_pk : String → Kind → String → String → String
  request_pk owner_id kind run_id idempotency_key =
      idempotency_pk digest owner_id (kind_text kind ++ ":" ++ run_id) idempotency_key

  -- The request on record under a key.
  unfoldable pub request_of_key : Kind → String → IdempotencyKey → World → Result LifecycleRequest
  request_of_key kind request_hash existing w =
      if not (existing.request_hash == request_hash)
      then err idempotency_conflict_error
      else elim (find (has_id existing.resource_id) (requests kind w)) [
        | none ↦ err database_error
        | some row ↦ ok row
      ]

  -- The request's ID is the primary key of its table.
  unfoldable pub add_request : LifecycleRequest → Txn World (Unit {0})
  add_request request w =
      if any (has_id request.request_id) (requests request.kind w)
      then err integrity_error
      else ok (tt, with_requests request.kind (request ∷ requests request.kind w) w)

  -- With a key: both rows are inserted or none; a key wants its hash.
  unfoldable pub create_keyed :
      LifecycleRequest → String → Option String → Txn World LifecycleRequest
  unfolding request_of_key add_request
  create_keyed request idempotency_key none w =
      let pk = request_pk request.requested_by request.kind request.run_id idempotency_key in
      elim (w.keys pk) [ some existing ↦ err idempotency_conflict_error | none ↦ err value_error ]
  create_keyed request idempotency_key (some request_hash) w =
      let pk = request_pk request.requested_by request.kind request.run_id idempotency_key in
      elim (w.keys pk) [
        | some existing ↦ elim (request_of_key request.kind request_hash existing w) [
          | err e ↦ err e
          | ok row ↦ ok (row, w)
        ]
        | none ↦ elim (add_request request w) [
          | err e ↦ err e
          | ok (_, w') ↦ ok (
            request,
            with_key pk
                (record {
                  owner_id = request.requested_by;
                  action = kind_text request.kind ++ ":" ++ request.run_id;
                  idempotency_key = idempotency_key;
                  request_hash = request_hash;
                  resource_id = request.request_id;
                })
                w',
          )
        ]
      ]

  unfoldable pub create_unkeyed : LifecycleRequest → Txn World LifecycleRequest
  unfolding add_request
  create_unkeyed request w = elim (add_request request w) [
    | err e ↦ err e
    | ok (_, w') ↦ ok (request, w')
  ]

  -- `if idempotency_key`: an empty key is none.
  unfoldable pub create_lifecycle_request :
      LifecycleRequest → Option String → Option String → Txn World LifecycleRequest
  unfolding create_keyed create_unkeyed
  create_lifecycle_request request none request_hash w = create_unkeyed request w
  create_lifecycle_request request (some idempotency_key) request_hash w =
      if idempotency_key == ""
      then create_unkeyed request w
      else create_keyed request idempotency_key request_hash w

  unfoldable pub find_idempotent_lifecycle_request :
      String → String → Kind → String → String → World → Result (Option LifecycleRequest)
  unfolding request_of_key
  find_idempotent_lifecycle_request owner_id run_id kind idempotency_key request_hash w =
      elim (w.keys (request_pk owner_id kind run_id idempotency_key)) [
        | none ↦ ok none
        | some existing ↦ elim (request_of_key kind request_hash existing w) [
          | err e ↦ err e
          | ok row ↦ ok (some row)
        ]
      ]

abbrev pub waits_for : String → LifecycleRequest → Bool
waits_for run_id r = r.run_id == run_id && is_pending r.status

-- ORDER BY created_at LIMIT 1, of the rows that pass the test.
unfoldable pub oldest : (LifecycleRequest → Bool) → List LifecycleRequest → Option LifecycleRequest
oldest p [] = none
oldest p (r ∷ rs) =
    let rest = oldest p rs in
    if p r
    then elim rest [
      | none ↦ some r
      | some later ↦ if leb r.created_at later.created_at then some r else some later
    ]
    else rest

unfoldable pub pending_lifecycle_request : String → World → Option LifecycleRequest
unfolding oldest
pending_lifecycle_request run_id w = elim (oldest (waits_for run_id) w.cancellations) [
  | some cancel ↦ some cancel
  | none ↦ oldest (waits_for run_id) w.pauses
]

abbrev pub awaits : String → LifecycleRequest → Bool
awaits request_id r = r.request_id == request_id && is_pending r.status

abbrev pub apply_row : ℕ → LifecycleRequest → LifecycleRequest
apply_row now r = record r { status = RequestStatus.applied; applied_at = some now }

abbrev pub apply_where : String → ℕ → List LifecycleRequest → List LifecycleRequest
apply_where request_id now [] = []
apply_where request_id now (r ∷ rs) =
    (if awaits request_id r then apply_row now r else r) ∷ apply_where request_id now rs

-- UPDATE .. WHERE request_id = .. AND status = 'PENDING'; the ID is a primary key.
unfoldable pub apply_lifecycle_request : LifecycleRequest → Txn World LifecycleRequest
apply_lifecycle_request request w =
    if any (awaits request.request_id) (requests request.kind w)
    then ok (
      apply_row w.store.now request,
      with_requests request.kind
          (apply_where request.request_id w.store.now (requests request.kind w)) w,
    )
    else err concurrency_conflict_error
