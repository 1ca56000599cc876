-- ===== src/Store.antt =====
-- persistence/store.py: runs, tasks and task attempts. Each method is a transaction.
pub mod Versions
pub mod Writes
use Prim.Native.String.{◌++◌}
use build_your_own_durable_a.Common.{
  ℕ, ◌+◌, String, Bool, not, ◌&&◌, Option, none, some, List, [], ◌∷◌, ◌==◌, eqb, any, find, max,
  same_text, is_some, if◌then◌else◌,
}
use build_your_own_durable_a.Common.Exec.{Txn}
use build_your_own_durable_a.Common.Result.{
  Error, ErrorCategory, Result, ok, err, category, retryable, not_found_error,
  concurrency_conflict_error,
}
use build_your_own_durable_a.Common.Table.{Table, insert}
use build_your_own_durable_a.Domain.Enums.{TaskState}
use build_your_own_durable_a.Domain.Models.{RunRecord, TaskRecord, validate_task_record}

pub record TaskAttempt : Type 0 where
  pub attempt_id : String
  pub run_id : String
  pub task_id : String
  pub attempt_number : ℕ
  pub state : TaskState
  pub error_id : Option String
  pub finished_at : Option ℕ

pub record ErrorRow : Type 0 where
  pub error_id : String
  pub run_id : String
  pub task_id : Option String
  pub category : ErrorCategory
  pub retryable : Bool

-- An event's payload repeats what its writer has at hand, and is left out.
pub record Event : Type 0 where
  pub event_id : String
  pub run_id : String
  pub sequence : ℕ
  pub event_type : String
  pub task_id : Option String

-- The tables, the identifiers that the generator will give, and the time.
pub record Store : Type 0 where
  pub runs : Table RunRecord
  pub tasks : Table TaskRecord
  pub attempts : List TaskAttempt
  pub errors : List ErrorRow
  pub events : List Event
  pub identifiers : ℕ → String
  pub now : ℕ

abbrev pub task_pk : String → String → String → String
task_pk run_id plan_id task_id = run_id ++ ":" ++ plan_id ++ ":" ++ task_id

abbrev pub pk_of : TaskRecord → String
pk_of t = task_pk t.run_id t.plan_id t.spec.task_id

-- IdentifierGenerator.new
abbrev pub next_id : Store → String
next_id s = s.identifiers 0

abbrev pub drop_id : Store → Store
drop_id s = record s { identifiers = λ n. s.identifiers (n + 1) }

unfoldable pub get_run : String → Store → Result RunRecord
get_run run_id s = elim (s.runs run_id) [ none ↦ err not_found_error | some run ↦ ok run ]

-- UPDATE runs .. WHERE run_id = .. AND version = ..
unfoldable pub update_run : RunRecord → ℕ → Txn Store RunRecord
update_run run expected_version s = elim (s.runs run.run_id) [
  | none ↦ err concurrency_conflict_error
  | some row ↦
      if eqb row.version expected_version
      then ok (
        record run { version = expected_version + 1 },
        record s {
          runs = insert run.run_id (record run { version = expected_version + 1 }) s.runs;
        },
      )
      else err concurrency_conflict_error
]

-- `_task_from_row`: a row that breaks a validator cannot be read.
unfoldable pub read_task : String → Store → Result TaskRecord
read_task pk s = elim (s.tasks pk) [
  | none ↦ err not_found_error
  | some row ↦ validate_task_record row
]

-- The columns that `update_task` sets; the spec stays as it was inserted.
abbrev pub task_values : TaskRecord → ℕ → TaskRecord → TaskRecord
task_values task expected_version row = record row {
  state = task.state;
  attempt_count = task.attempt_count;
  last_error_id = task.last_error_id;
  started_at = task.started_at;
  finished_at = task.finished_at;
  version = expected_version + 1;
}

unfoldable pub update_task : TaskRecord → ℕ → Txn Store TaskRecord
update_task task expected_version s = elim (s.tasks (pk_of task)) [
  | none ↦ err concurrency_conflict_error
  | some row ↦
      if eqb row.version expected_version
      then ok (
        record task { version = expected_version + 1 },
        record s { tasks = insert (pk_of task) (task_values task expected_version row) s.tasks },
      )
      else err concurrency_conflict_error
]

-- (run_id, task_id, attempt_number) is unique.
unfoldable pub start_task_attempt : String → String → ℕ → Txn Store String
start_task_attempt run_id task_id attempt_number s =
    if any
      (λ (a : TaskAttempt).
        a.run_id == run_id && a.task_id == task_id && eqb a.attempt_number attempt_number)
      s.attempts
    then err concurrency_conflict_error
    else ok (
      next_id s,
      record (drop_id s) {
        attempts =
            record {
              attempt_id = next_id s;
              run_id = run_id;
              task_id = task_id;
              attempt_number = attempt_number;
              state = TaskState.running;
              error_id = none;
              finished_at = none;
            }
            ∷ s.attempts;
      },
    )

abbrev pub close_attempt : ℕ → TaskState → Option String → TaskAttempt → TaskAttempt
close_attempt now state error_id a = record a {
  state = state;
  error_id = error_id;
  finished_at = some now;
}

-- An attempt that is still open.
abbrev pub is_open : String → TaskAttempt → Bool
is_open attempt_id a = a.attempt_id == attempt_id && not (is_some a.finished_at)

abbrev pub close_where :
    (TaskAttempt → Bool) → (TaskAttempt → TaskAttempt) → List TaskAttempt → List TaskAttempt
close_where p f [] = []
close_where p f (a ∷ as') = (if p a then f a else a) ∷ close_where p f as'

unfoldable pub finish_task_attempt : String → TaskState → Option String → Txn Store (Unit {0})
finish_task_attempt attempt_id state error_id s =
    if any (is_open attempt_id) s.attempts
    then ok (
      tt,
      record s {
        attempts = close_where (is_open attempt_id) (close_attempt s.now state error_id) s.attempts;
      },
    )
    else err concurrency_conflict_error

-- Both rows change, or the transaction is rolled back.
unfoldable pub update_task_and_finish_attempt :
    TaskRecord → ℕ → String → TaskState → Option String → Txn Store TaskRecord
unfolding update_task finish_task_attempt
update_task_and_finish_attempt task expected_version attempt_id attempt_state error_id s =
    elim (update_task task expected_version s) [
      | err e ↦ err e
      | ok (task', s') ↦ elim (finish_task_attempt attempt_id attempt_state error_id s') [
        | err e ↦ err e
        | ok (_, s'') ↦ ok (task', s'')
      ]
    ]

abbrev pub is_open_for : String → String → TaskAttempt → Bool
is_open_for run_id task_id a =
    a.run_id == run_id && a.task_id == task_id && not (is_some a.finished_at)

unfoldable pub finish_open_task_attempts :
    String → String → TaskState → String → Txn Store (Unit {0})
finish_open_task_attempts run_id task_id state error_id s = ok (
  tt,
  record s {
    attempts =
        close_where (is_open_for run_id task_id) (close_attempt s.now state (some error_id))
          s.attempts;
  },
)

-- The attempt's error stays as it was.
unfoldable pub cancel_task_and_open_attempts : TaskRecord → ℕ → Txn Store TaskRecord
unfolding update_task
cancel_task_and_open_attempts task expected_version s = elim (update_task task expected_version s) [
  | err e ↦ err e
  | ok (task', s') ↦ ok (
    task',
    record s' {
      attempts =
          close_where (is_open_for task.run_id task.spec.task_id)
            (λ a. record a { state = TaskState.cancelled; finished_at = some s.now }) s'.attempts;
    },
  )
]

abbrev pub with_error : String → Option String → Error → Store → Store
with_error run_id task_id error s = record (drop_id s) {
  errors =
      record {
        error_id = next_id s;
        run_id = run_id;
        task_id = task_id;
        category = category error;
        retryable = retryable error;
      }
      ∷ s.errors;
}

unfoldable pub record_error : String → Option String → Error → Txn Store String
record_error run_id task_id error s = ok (next_id s, with_error run_id task_id error s)

-- The greatest sequence of the run's events, 0 where there is none.
abbrev pub last_sequence : String → List Event → ℕ
last_sequence run_id [] = 0
last_sequence run_id (e ∷ es) =
    let rest = last_sequence run_id es in if e.run_id == run_id then max e.sequence rest else rest

-- One attempt of the loop: the others repeat it after an error of the database. An event that is on
-- record under the ID is returned if it is the same, and refused if not.
unfoldable pub publish : String → String → Option String → Txn Store String
publish run_id event_type task_id s =
    elim (find (λ (e : Event). e.event_id == next_id s) s.events) [
      | some e ↦
          if e.run_id == run_id && e.event_type == event_type && same_text e.task_id task_id
          then ok (next_id s, drop_id s)
          else err concurrency_conflict_error
      | none ↦ ok (
        next_id s,
        record (drop_id s) {
          events =
              record {
                event_id = next_id s;
                run_id = run_id;
                sequence = last_sequence run_id s.events + 1;
                event_type = event_type;
                task_id = task_id;
              }
              ∷ s.events;
        },
      )
    ]
