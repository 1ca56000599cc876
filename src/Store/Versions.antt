-- ===== src/Store/Versions.antt =====
-- Optimistic versions: of two writers that read one version, one succeeds; and an attempt is closed
-- once.
use build_your_own_durable_a.Common.{
  ℕ, ◌+◌, String, ◌≡◌, refl, false, Option, List, [], ◌∷◌, any, arith, eq_iff,
}
use build_your_own_durable_a.Common.Result.{ok, err, concurrency_conflict_error}
use build_your_own_durable_a.Common.Table.{insert}
use build_your_own_durable_a.Domain.Enums.{TaskState}
use build_your_own_durable_a.Domain.Models.{RunRecord, TaskRecord}
use build_your_own_durable_a.Store.{
  Store, TaskAttempt, update_run, update_task, finish_task_attempt, update_task_and_finish_attempt,
  pk_of, is_open, close_where, close_attempt,
}

-- A run that was written at a version has the next one, and a second writer that expects the first
-- version is refused.
pub lost_run_update_refused :
    (s s' : Store) (n : ℕ) (run run' other : RunRecord)
    → update_run run n s ≡ ok (run', s')
    → other.run_id ≡ run.run_id
    → (run'.version ≡ n + 1) × (update_run other n s' ≡ err concurrency_conflict_error)
unfolding update_run insert
lost_run_update_refused s s' n run run' other h same =
    ground (arith, eq_iff other.run_id run.run_id)

-- A task that was written at a version has the next one, and a second writer that expects the first
-- version is refused.
pub lost_task_update_refused :
    (s s' : Store) (n : ℕ) (task task' other : TaskRecord)
    → update_task task n s ≡ ok (task', s')
    → pk_of other ≡ pk_of task
    → (task'.version ≡ n + 1) × (update_task other n s' ≡ err concurrency_conflict_error)
unfolding update_task insert
lost_task_update_refused s s' n task task' other h same =
    ground (arith, eq_iff (pk_of other) (pk_of task))

nothing_open :
    (attempt_id : String) (now : ℕ) (state : TaskState) (error_id : Option String)
    (xs : List TaskAttempt)
    → any
        (is_open attempt_id)
        (close_where (is_open attempt_id) (close_attempt now state error_id) xs)
      ≡ false
nothing_open attempt_id now state error_id [] = refl
nothing_open attempt_id now state error_id (a ∷ as') =
    ground (arith, nothing_open attempt_id now state error_id as')

-- An attempt that was closed together with its task can be closed neither with a task again nor alone.
pub attempt_closes_once :
    (s s' : Store) (attempt_id : String) (state state' : TaskState) (e e' : Option String)
    (task task' other : TaskRecord) (n m : ℕ)
    → update_task_and_finish_attempt task n attempt_id state e s ≡ ok (task', s')
    → (update_task_and_finish_attempt other m attempt_id state' e' s'
        ≡ err concurrency_conflict_error)
      × (finish_task_attempt attempt_id state' e' s' ≡ err concurrency_conflict_error)
unfolding finish_task_attempt update_task_and_finish_attempt
attempt_closes_once s s' attempt_id state state' e e' task task' other n m h = (
  ground (arith, nothing_open attempt_id s.now state e s.attempts),
  ground (arith, nothing_open attempt_id s.now state e s.attempts),
)
