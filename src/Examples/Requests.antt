-- ===== src/Examples/Requests.antt =====
-- A run that is created, asked to pause and to stop, and the round of the loop that follows.
use Prim.Native.String.{◌++◌}
use build_your_own_durable_a.Common.{
  String, ◌≡◌, refl, ◌⊎◌, true, false, none, some, List, [], ◌∷◌, any, ◌==◌,
}
use build_your_own_durable_a.Common.Result.{Result, ok, err}
use build_your_own_durable_a.Common.Table.{empty, insert}
use build_your_own_durable_a.Domain.Enums.{TaskState, FailurePolicy, RunState}
use build_your_own_durable_a.Domain.Models.{RunRecord, TaskRecord}
use build_your_own_durable_a.Domain.StateMachine.{transition_run, transition_task}
use build_your_own_durable_a.Store.{
  get_run, update_run, update_task, publish, cancel_task_and_open_attempts,
}
use build_your_own_durable_a.Orchestrator.Handlers.{cancel_tasks}
use build_your_own_durable_a.Lifecycle.{
  World, Kind, RequestStatus, LifecycleRequest, create_run, create_run_seen, idempotency_pk,
}
use build_your_own_durable_a.Lifecycle.Requests.{
  pending_lifecycle_request, oldest, create_lifecycle_request, create_keyed,
  find_idempotent_lifecycle_request, add_request, apply_lifecycle_request, waits_for,
}
use build_your_own_durable_a.Lifecycle.Service.{
  Hashes, request_lifecycle, owned_run, accept_request, announce,
}
use build_your_own_durable_a.Lifecycle.Once.{create_run_once}
use build_your_own_durable_a.Lifecycle.Replay.{request_lifecycle_again}
use build_your_own_durable_a.Lifecycle.Pending.{IsOldest, pending_lifecycle_request_lem}
use build_your_own_durable_a.Lifecycle.Turn.{Turn, turn, handle_kind, cancel_run}
use build_your_own_durable_a.Lifecycle.Ends.{EndedByRequest, EndedByTasks, turn_ends}
use build_your_own_durable_a.Examples.Data.{spec_of, task_of, run, store_with}

abbrev ready_task : TaskRecord
ready_task = task_of (spec_of "a" [] FailurePolicy.retry true) TaskState.ready 0

abbrev nothing_asked : World
nothing_asked = record {
  store = store_with ready_task;
  keys = empty;
  pauses = [];
  cancellations = [];
}

abbrev same_text_digest : String → String
same_text_digest s = s

abbrev hashes : Hashes
hashes = record {
  digest = same_text_digest;
  request_hash = λ run_id reason. run_id ++ "/" ++ reason;
  blank = λ s. s == "";
}

abbrev another_run : RunRecord
another_run = record run { run_id = "run-2"; state = RunState.created }

abbrev a_third_run : RunRecord
a_third_run = record run { run_id = "run-3"; state = RunState.created }

abbrev got_world : {A : Type 0} → World → Result (A × World) → World
got_world w (ok (a, w')) = w'
got_world w (err _) = w

abbrev with_run : World
with_run =
    got_world nothing_asked (create_run same_text_digest another_run "key" "hash" nothing_asked)

create_run_once_example :
    (create_run same_text_digest a_third_run "key" "hash" with_run ≡ ok (another_run, with_run))
    × (create_run_seen same_text_digest none a_third_run "key" "hash" with_run
        ≡ ok (another_run, with_run))
unfolding create_run create_run_seen idempotency_pk insert
create_run_once_example =
    create_run_once same_text_digest another_run another_run a_third_run "key" "hash" nothing_asked
      with_run refl refl

abbrev asked : Result LifecycleRequest × World
asked = request_lifecycle hashes Kind.cancel "run" "owner" "stop" "key" nothing_asked

abbrev request : LifecycleRequest
request = record {
  request_id = "id-0";
  run_id = "run";
  kind = Kind.cancel;
  reason = "stop";
  requested_by = "owner";
  status = RequestStatus.pending;
  created_at = 7;
  applied_at = none;
}

-- The run was cancelled since, and the request applied: a new request would be refused.
abbrev ended_run : RunRecord
ended_run = record run { state = RunState.cancelled; version = 6 }

abbrev applied_request : LifecycleRequest
applied_request = record request { status = RequestStatus.applied; applied_at = some 9 }

abbrev after_the_end : World
after_the_end = record asked.1 {
  store = record asked.1.store { runs = insert "run" ended_run empty };
  cancellations = applied_request ∷ [];
}

request_lifecycle_again_example :
    request_lifecycle hashes Kind.cancel "run" "owner" "stop" "key" after_the_end
    ≡ (ok applied_request, after_the_end)
unfolding request_lifecycle owned_run get_run find_idempotent_lifecycle_request accept_request
    create_lifecycle_request create_keyed add_request announce publish idempotency_pk insert
request_lifecycle_again_example =
    request_lifecycle_again hashes Kind.cancel "run" "owner" "stop" "key" request applied_request
      ended_run nothing_asked asked.1 after_the_end refl refl refl refl refl

pending_lifecycle_request_lem_example :
    ((r : LifecycleRequest) × (pending_lifecycle_request "run" asked.1 ≡ some r)
      × IsOldest "run" asked.1.cancellations r)
    ⊎ (((r : LifecycleRequest) × (pending_lifecycle_request "run" asked.1 ≡ some r)
          × (any (waits_for "run") asked.1.cancellations ≡ false)
          × IsOldest "run" asked.1.pauses r)
        ⊎ ((pending_lifecycle_request "run" asked.1 ≡ none)
            × (any (waits_for "run") asked.1.cancellations ≡ false)
            × (any (waits_for "run") asked.1.pauses ≡ false)))
pending_lifecycle_request_lem_example = pending_lifecycle_request_lem "run" asked.1

abbrev stopped_run : RunRecord
stopped_run = record run {
  state = RunState.cancelled;
  active_task_id = none;
  finished_at = some 7;
  version = 5;
}

abbrev stopped_tasks : List TaskRecord
stopped_tasks =
    record ready_task { state = TaskState.cancelled; finished_at = some 7; version = 2 } ∷ []

abbrev turned : Result Turn × World
turned = turn 2 none 0 "run" (ready_task ∷ []) asked.1

turn_ends_example :
    ((r : LifecycleRequest) × (pending_lifecycle_request "run" asked.1 ≡ some r)
      × EndedByRequest r.kind stopped_run stopped_tasks)
    ⊎ ((pending_lifecycle_request "run" asked.1 ≡ none) × EndedByTasks stopped_run stopped_tasks)
unfolding turn handle_kind cancel_run cancel_tasks pending_lifecycle_request oldest
    apply_lifecycle_request request_lifecycle owned_run get_run update_run update_task
    cancel_task_and_open_attempts transition_run transition_task find_idempotent_lifecycle_request
    accept_request create_lifecycle_request create_keyed add_request announce publish idempotency_pk
    insert
turn_ends_example =
    turn_ends 2 none 0 "run" (ready_task ∷ []) stopped_tasks stopped_run asked.1 turned.1 refl
