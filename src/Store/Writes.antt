-- ===== src/Store/Writes.antt =====
-- persistence/store.py: what a write to the tasks leaves in the store when it succeeds.
use build_your_own_durable_a.Common.{
  ℕ, ◌+◌, String, ◌≡◌, ap, ◌∙◌, Option, some, arith, inl, inr, Option-cases,
}
use build_your_own_durable_a.Common.Result.{ok, Result-cases}
use build_your_own_durable_a.Common.Table.{insert, insert_self}
use build_your_own_durable_a.Domain.Enums.{TaskState}
use build_your_own_durable_a.Domain.Models.{TaskRecord}
use build_your_own_durable_a.Store.{
  Store, pk_of, task_values, update_task, finish_task_attempt, update_task_and_finish_attempt,
  start_task_attempt, publish,
}

-- The stored row: the columns of the task, with the spec of the old row.
pub record Wrote (task : TaskRecord) (n : ℕ) (s s' : Store) : Type 0 where
  pub row : TaskRecord
  pub old : s.tasks (pk_of task) ≡ some row
  pub tasks : s'.tasks ≡ insert (pk_of task) (task_values task n row) s.tasks

pub update_task-eq-ok :
    (task task' : TaskRecord) (n : ℕ) (s s' : Store)
    → update_task task n s ≡ ok (task', s')
    → (task' ≡ record task { version = n + 1 }) × Wrote task n s s' × (s'.attempts ≡ s.attempts)
unfolding update_task
update_task-eq-ok task task' n s s' h = elim (Option-cases (s.tasks (pk_of task))) [
  | inl e ↦ absurd (ground arith)
  | inr (row, e) ↦ (ground arith, record { row = row; old = e; tasks = ground arith }, ground arith)
]

pub update_task_and_finish_attempt-eq-ok :
    (task task' : TaskRecord) (n : ℕ) (attempt_id : String) (state : TaskState) (e : Option String)
    (s s' : Store)
    → update_task_and_finish_attempt task n attempt_id state e s ≡ ok (task', s')
    → (task' ≡ record task { version = n + 1 }) × Wrote task n s s'
unfolding update_task_and_finish_attempt finish_task_attempt
update_task_and_finish_attempt-eq-ok task task' n attempt_id state e s s' h =
    elim (Result-cases (update_task task n s)) [
      | inl (x, q) ↦ absurd (ground arith)
      | inr ((t, s1), q) ↦
          let (same, wrote, kept) = update_task-eq-ok task t n s s1 q in
          (
            ground (arith, same),
            record {
              row = wrote.row;
              old = wrote.old;
              tasks = let k : s'.tasks ≡ s1.tasks = ground arith in cc (k, wrote.tasks);
            },
          )
    ]

pub start_task_attempt-tasks :
    (run_id task_id : String) (n : ℕ) (a : String) (s s' : Store)
    → start_task_attempt run_id task_id n s ≡ ok (a, s')
    → s'.tasks ≡ s.tasks
unfolding start_task_attempt
start_task_attempt-tasks run_id task_id n a s s' h = ground arith

-- The row that a write leaves.
pub Wrote-stored :
    {task : TaskRecord} {n : ℕ} {s s' : Store} (w : Wrote task n s s')
    → s'.tasks (pk_of task) ≡ some (task_values task n w.row)
Wrote-stored {task} {n} {s} w =
    ap (λ u. u (pk_of task)) w.tasks ∙ insert_self (pk_of task) (task_values task n w.row) s.tasks

pub publish-keeps :
    (run_id event_type : String) (task_id : Option String) (event_id : String) (s s' : Store)
    → publish run_id event_type task_id s ≡ ok (event_id, s')
    → (s'.tasks ≡ s.tasks) × (s'.attempts ≡ s.attempts)
unfolding publish
publish-keeps run_id event_type task_id event_id s s' h = ground arith
