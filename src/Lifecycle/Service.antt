-- ===== src/Lifecycle/Service.antt =====
-- application/service.py: `pause` and `cancel` of `AgentService`, and the ownership that each
-- use case checks.
use Prim.Native.String.{count}
use build_your_own_durable_a.Common.{
  ℕ, String, Bool, true, false, not, none, some, ◌==◌, if◌then◌else◌,
}
use build_your_own_durable_a.Common.Exec.{Exec, Txn, pure, commit, lift, ◌>>=◌, ◌>>◌}
use build_your_own_durable_a.Common.Result.{
  Result, ok, err, domain_validation_error, validation_error, security_policy_error, refuse_if,
}
use build_your_own_durable_a.Domain.Enums.{RunState}
use build_your_own_durable_a.Domain.Models.{RunRecord, within}
use build_your_own_durable_a.Domain.StateMachine.{transition_run}
use build_your_own_durable_a.Store.{Store, get_run, update_run, publish, next_id, drop_id}
use build_your_own_durable_a.Lifecycle.{World, Kind, LifecycleRequest, RequestStatus}
use build_your_own_durable_a.Lifecycle.Requests.{
  create_lifecycle_request, find_idempotent_lifecycle_request,
}

-- A transaction on the tables of Store.antt.
abbrev pub on_store {ℓ} : {A : Type ℓ} → Txn Store A → Txn World A
on_store t w = elim (t w.store) [ err e ↦ err e | ok (a, s) ↦ ok (a, record w { store = s }) ]

unfoldable pub owned_run : String → String → World → Result RunRecord
unfolding get_run
owned_run run_id owner_id w = elim (get_run run_id w.store) [
  | err e ↦ err e
  | ok run ↦ if not (run.owner_id == owner_id) then err security_policy_error else ok run
]

-- `self._ids.new(..)`.
abbrev pub new_id : Exec World String
new_id w = (ok (next_id w.store), record w { store = drop_id w.store })

-- The states that accept a request of a kind.
abbrev pub accepts : Kind → RunState → Bool
accepts Kind.pause RunState.running = true
accepts Kind.pause RunState.pause_requested = true
accepts Kind.pause _ = false
accepts Kind.cancel RunState.completed = false
accepts Kind.cancel RunState.failed = false
accepts Kind.cancel RunState.cancelled = false
accepts Kind.cancel _ = true

abbrev pub is_running_state : RunState → Bool
is_running_state RunState.running = true
is_running_state _ = false

abbrev pub request_of : String → String → Kind → String → String → ℕ → LifecycleRequest
request_of request_id run_id kind reason owner_id now = record {
  request_id = request_id;
  run_id = run_id;
  kind = kind;
  reason = reason;
  requested_by = owner_id;
  status = RequestStatus.pending;
  created_at = now;
  applied_at = none;
}

-- `sha256_digest` of a text, the digest of the canonical JSON of a run's ID and a reason, and
-- `not value.strip()`.
pub record Hashes : Type 0 where
  pub digest : String → String
  pub request_hash : String → String → String
  pub blank : String → Bool

module _ (h : Hashes) where
  open h use {digest, request_hash, blank}

  -- `pause` sets a running run to PAUSE_REQUESTED.
  unfoldable pub mark_paused : RunRecord → Exec World (Unit {0})
  unfolding update_run
  mark_paused run =
      if is_running_state run.state
      then (do
        state ← lift (transition_run run.state RunState.pause_requested)
        _ ← commit (on_store (update_run (record run { state = state }) run.version))
        pure tt)
      else pure tt

  -- From the test of the run's state to the stored request. `LifecycleRequest` bounds the length of the
  -- reason.
  unfoldable pub accept_request :
      Kind → RunState → String → String → String → String → Exec World LifecycleRequest
  unfolding create_lifecycle_request
  accept_request kind state run_id owner_id reason idempotency_key = do
    lift (refuse_if (not (accepts kind state)) domain_validation_error)
    request_id ← new_id
    now ← (λ w. (ok w.store.now, w))
    lift (refuse_if (not (within 1 4000 (count reason))) validation_error)
    commit (
        create_lifecycle_request digest (request_of request_id run_id kind reason owner_id now)
          (some idempotency_key) (some (request_hash run_id reason)))

  abbrev pub event_of : Kind → String
  event_of Kind.pause = "pause.requested"
  event_of Kind.cancel = "cancellation.requested"

  -- What follows a request that is new: only `pause` touches the run.
  unfoldable pub announce : Kind → RunRecord → String → Exec World (Unit {0})
  unfolding mark_paused publish
  announce kind run run_id = do
    elim kind [ Kind.pause ↦ mark_paused run | Kind.cancel ↦ pure tt ]
    _ ← commit (on_store (publish run_id (event_of kind) none))
    pure tt

  -- `AgentService.pause` and `AgentService.cancel`.
  unfoldable pub request_lifecycle :
      Kind → String → String → String → String → Exec World LifecycleRequest
  unfolding owned_run find_idempotent_lifecycle_request accept_request announce
  request_lifecycle kind run_id owner_id reason idempotency_key = do
    run ← (λ w. (owned_run run_id owner_id w, w))
    lift (refuse_if (blank idempotency_key) domain_validation_error)
    existing ← (λ w. (
      find_idempotent_lifecycle_request digest owner_id run_id kind idempotency_key
          (request_hash run_id reason) w,
      w,
    ))
    elim existing [
      | some request ↦ pure request
      | none ↦ do
        request ← accept_request kind run.state run_id owner_id reason idempotency_key
        announce kind run run_id
        pure request
    ]
