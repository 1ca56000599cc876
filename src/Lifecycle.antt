-- ===== src/Lifecycle.antt =====
-- persistence/store.py: the creation of runs and the lifecycle requests under idempotency keys
-- (`create_run`, `create_lifecycle_request`, ..). The tables stand beside the store of Store.antt.

pub mod Requests
pub mod Service
pub mod Once
pub mod Replay
pub mod Kept
pub mod Pending
pub mod Turn
pub mod Written
pub mod Ends
use Prim.Native.String.{◌++◌}
use build_your_own_durable_a.Common.{
  ℕ, String, Bool, true, false, not, ◌&&◌, Option, none, some, List, ◌==◌, is_some, if◌then◌else◌,
}
use build_your_own_durable_a.Common.Exec.{Txn}
use build_your_own_durable_a.Common.Result.{
  Result, ok, err, idempotency_conflict_error, database_error, concurrency_conflict_error,
}
use build_your_own_durable_a.Common.Table.{Table, insert}
use build_your_own_durable_a.Domain.Models.{RunRecord}
use build_your_own_durable_a.Store.{Store}

pub record IdempotencyKey : Type 0 where
  pub owner_id : String
  pub action : String
  pub idempotency_key : String
  pub request_hash : String
  pub resource_id : String

pub data Kind : Type 0 where
  pause cancel : Kind

pub data RequestStatus : Type 0 where
  pending applied rejected : RequestStatus

-- The kind says which table a row stands in.
pub record LifecycleRequest : Type 0 where
  pub request_id : String
  pub run_id : String
  pub kind : Kind
  pub reason : String
  pub requested_by : String
  pub status : RequestStatus
  pub created_at : ℕ
  pub applied_at : Option ℕ

-- The keys are under the digest of their scope; the requests in order of insertion.
pub record World : Type 0 where
  pub store : Store
  pub keys : Table IdempotencyKey
  pub pauses : List LifecycleRequest
  pub cancellations : List LifecycleRequest

abbrev pub is_pending : RequestStatus → Bool
is_pending RequestStatus.pending = true
is_pending _ = false

-- The rows of `row_type`.
abbrev pub requests : Kind → World → List LifecycleRequest
requests Kind.pause w = w.pauses
requests Kind.cancel w = w.cancellations

abbrev pub with_requests : Kind → List LifecycleRequest → World → World
with_requests Kind.pause rows w = record w { pauses = rows }
with_requests Kind.cancel rows w = record w { cancellations = rows }

abbrev pub kind_text : Kind → String
kind_text Kind.pause = "pause"
kind_text Kind.cancel = "cancel"

abbrev pub has_id : String → LifecycleRequest → Bool
has_id request_id r = r.request_id == request_id

abbrev pub with_key : String → IdempotencyKey → World → World
with_key pk key w = record w { keys = insert pk key w.keys }

-- `sha256_digest` of a text.
module _ (digest : String → String) where
  unfoldable pub idempotency_pk : String → String → String → String
  idempotency_pk owner action key = digest (owner ++ ":" ++ action ++ ":" ++ key)

  -- The row that an idempotency record names.
  unfoldable pub run_of_key : IdempotencyKey → World → Result RunRecord
  run_of_key key w = elim (w.store.runs key.resource_id) [
    | none ↦ err database_error
    | some run ↦ ok run
  ]

  -- The clean transaction that follows an IntegrityError.
  unfoldable pub reload_run : String → String → Txn World RunRecord
  reload_run pk request_hash w = elim (w.keys pk) [
    | none ↦ err concurrency_conflict_error
    | some existing ↦
        if existing.request_hash == request_hash
        then elim (w.store.runs existing.resource_id) [
          | none ↦ err concurrency_conflict_error
          | some run ↦ ok (run, w)
        ]
        else err concurrency_conflict_error
  ]

  abbrev pub created : RunRecord → String → String → String → World → World
  created run pk idempotency_key request_hash w =
      with_key pk
        (record {
          owner_id = run.owner_id;
          action = "create_run";
          idempotency_key = idempotency_key;
          request_hash = request_hash;
          resource_id = run.run_id;
        })
        (record w { store = record w.store { runs = insert run.run_id run w.store.runs } })

  -- `create_run` after it read `seen` under the key: others may have committed since.
  unfoldable pub create_run_seen :
      Option IdempotencyKey → RunRecord → String → String → Txn World RunRecord
  unfolding run_of_key reload_run
  create_run_seen (some existing) run idempotency_key request_hash w =
      if not (existing.request_hash == request_hash)
      then err idempotency_conflict_error
      else elim (run_of_key existing w) [ err e ↦ err e | ok row ↦ ok (row, w) ]
  create_run_seen none run idempotency_key request_hash w =
      let pk = idempotency_pk run.owner_id "create_run" idempotency_key in
      if is_some (w.store.runs run.run_id)
      then reload_run pk request_hash w
      else if is_some (w.keys pk)
      then reload_run pk request_hash w
      else ok (run, created run pk idempotency_key request_hash w)

  unfoldable pub create_run : RunRecord → String → String → Txn World RunRecord
  unfolding create_run_seen
  create_run run idempotency_key request_hash w =
      create_run_seen (w.keys (idempotency_pk run.owner_id "create_run" idempotency_key)) run
        idempotency_key request_hash w

  unfoldable pub find_idempotent_run : String → String → String → World → Result (Option RunRecord)
  unfolding run_of_key
  find_idempotent_run owner_id idempotency_key request_hash w =
      elim (w.keys (idempotency_pk owner_id "create_run" idempotency_key)) [
        | none ↦ ok none
        | some existing ↦
            if not (existing.request_hash == request_hash)
            then err idempotency_conflict_error
            else elim (run_of_key existing w) [ err e ↦ err e | ok row ↦ ok (some row) ]
      ]

  -- `claim_idempotent_action` after it read `seen`.
  unfoldable pub claim_seen :
      Option IdempotencyKey → String → String → String → String → String → Txn World Bool
  claim_seen (some existing) owner_id action idempotency_key request_hash resource_id w =
      if not (existing.request_hash == request_hash)
      then err idempotency_conflict_error
      else if not (existing.resource_id == resource_id)
      then err database_error
      else ok (false, w)
  claim_seen none owner_id action idempotency_key request_hash resource_id w =
      let pk = idempotency_pk owner_id action idempotency_key in
      elim (w.keys pk) [
        | some existing ↦
            if existing.request_hash == request_hash && existing.resource_id == resource_id
            then ok (false, w)
            else err concurrency_conflict_error
        | none ↦ ok (
          true,
          with_key pk
              (record {
                owner_id = owner_id;
                action = action;
                idempotency_key = idempotency_key;
                request_hash = request_hash;
                resource_id = resource_id;
              })
              w,
        )
      ]

  unfoldable pub claim_idempotent_action :
      String → String → String → String → String → Txn World Bool
  unfolding claim_seen
  claim_idempotent_action owner_id action idempotency_key request_hash resource_id w =
      claim_seen (w.keys (idempotency_pk owner_id action idempotency_key)) owner_id action
        idempotency_key request_hash resource_id w
