-- ===== src/Orchestrator/Settled.antt =====
-- `_cancel` of orchestration/orchestrator.py over tasks that nobody wrote since they were read.
use build_your_own_durable_a.Common.{
  suc, ◌+◌, String, ◌≡◌, refl, ap, ◌∙◌, inl, inr, true, false, some, List, [], ◌∷◌, ◌==◌, length,
  All, elem, distinct, eq_iff, arith, Bool-cases,
}
use build_your_own_durable_a.Common.Result.{ok}
use build_your_own_durable_a.Common.Table.{insert, insert_self}
use build_your_own_durable_a.Domain.Enums.{TaskState}
use build_your_own_durable_a.Domain.Models.{TaskRecord}
use build_your_own_durable_a.Store.{
  Store, pk_of, task_values, close_where, is_open_for, cancel_task_and_open_attempts, update_task,
}
use build_your_own_durable_a.Orchestrator.Handlers.{cancel_tasks, is_settled}
use build_your_own_durable_a.Orchestrator.Cancelled.{can_cancel}

abbrev pub primary_keys : List TaskRecord → List String
primary_keys [] = []
primary_keys (t ∷ ts) = pk_of t ∷ primary_keys ts

-- The stored row has the version and the state that were read.
pub record Current (s : Store) (t : TaskRecord) : Type 0 where
  pub row : TaskRecord
  pub there : s.tasks (pk_of t) ≡ some row
  pub version : row.version ≡ t.version
  pub state : row.state ≡ t.state

-- The stored row is in a state that is final.
pub record Stored (s : Store) (t : TaskRecord) : Type 0 where
  pub row : TaskRecord
  pub there : s.tasks (pk_of t) ≡ some row
  pub settled : is_settled row.state ≡ true

-- What the loop leaves.
pub record Cancels (ts : List TaskRecord) (s : Store) : Type 0 where
  pub done : List TaskRecord
  pub after : Store
  pub ran : cancel_tasks ts s ≡ (ok done, after)
  pub count : length done ≡ length ts
  pub settled : All (λ t. is_settled t.state ≡ true) done
  pub stored : All (Stored after) ts
  pub others : (pk : String) → elem pk (primary_keys ts) ≡ false → after.tasks pk ≡ s.tasks pk

record Step (t : TaskRecord) (s : Store) : Type 0 where
  task : TaskRecord
  next : Store
  row : TaskRecord
  ran :
      cancel_task_and_open_attempts
        (record t { state = TaskState.cancelled; finished_at = some s.now })
        t.version
        s
      ≡ ok (task, next)
  settled : is_settled task.state ≡ true
  final : is_settled row.state ≡ true
  written : next.tasks ≡ insert (pk_of t) row s.tasks

cancel_one : (t : TaskRecord) (s : Store) → Current s t → Step t s
unfolding cancel_task_and_open_attempts update_task
cancel_one t s c =
    let asked : TaskRecord = record t { state = TaskState.cancelled; finished_at = some s.now } in
    let there = c.there in
    let version = c.version in
    record {
      task = record asked { version = t.version + 1 };
      next = record s {
        tasks = insert (pk_of t) (task_values asked t.version c.row) s.tasks;
        attempts =
            close_where (is_open_for t.run_id t.spec.task_id)
              (λ a. record a { state = TaskState.cancelled; finished_at = some s.now }) s.attempts;
      };
      row = task_values asked t.version c.row;
      ran = ground (arith, there, version);
      settled = refl;
      final = refl;
      written = refl;
    }

insert-other :
    (t : TaskRecord) (row : TaskRecord) (s s1 : Store) (pk : String)
    → s1.tasks ≡ insert (pk_of t) row s.tasks
    → (pk == pk_of t) ≡ false
    → s1.tasks pk ≡ s.tasks pk
unfolding insert
insert-other t row s s1 pk w n = ap (λ u. u pk) w ∙ rw n refl

still_Current :
    (t : TaskRecord) (ts : List TaskRecord) (row : TaskRecord) (s s1 : Store)
    → s1.tasks ≡ insert (pk_of t) row s.tasks
    → elem (pk_of t) (primary_keys ts) ≡ false
    → All (Current s) ts
    → All (Current s1) ts
still_Current t [] row s s1 w n a = tt
still_Current t (u ∷ ts) row s s1 w n a =
    let apart : (pk_of u == pk_of t) ≡ false =
      ground (arith, eq_iff (pk_of u) (pk_of t), eq_iff (pk_of t) (pk_of u)) in
    let c = a.0 in
    (
      record {
        row = c.row;
        there = insert-other t row s s1 (pk_of u) w apart ∙ c.there;
        version = c.version;
        state = c.state;
      },
      still_Current t ts row s s1 w (ground arith) a.1,
    )

keep_one :
    (t : TaskRecord) (ts : List TaskRecord) (s : Store)
    → is_settled t.state ≡ true
    → elem (pk_of t) (primary_keys ts) ≡ false
    → Current s t
    → Cancels ts s
    → Cancels (t ∷ ts) s
unfolding cancel_tasks
keep_one t ts s settled n c r =
    let ran = r.ran in
    record {
      done = t ∷ r.done;
      after = r.after;
      ran = rw (settled, cancel_tasks) (rw ran refl);
      count = ap suc r.count;
      settled = (settled, r.settled);
      stored = (
        record {
          row = c.row;
          there = r.others (pk_of t) n ∙ c.there;
          settled = ap is_settled c.state ∙ settled;
        },
        r.stored,
      );
      others = λ pk e. r.others pk (ground arith);
    }

cancel_first :
    (t : TaskRecord) (ts : List TaskRecord) (s : Store)
    → is_settled t.state ≡ false
    → elem (pk_of t) (primary_keys ts) ≡ false
    → (f : Step t s) → Cancels ts f.next
    → Cancels (t ∷ ts) s
unfolding cancel_tasks insert
cancel_first t ts s live n f r =
    let go = can_cancel t.state live in
    let one = f.ran in
    let ran = r.ran in
    record {
      done = f.task ∷ r.done;
      after = r.after;
      ran = rw (live, cancel_tasks) (rw (go, one, ran) refl);
      count = ap suc r.count;
      settled = (f.settled, r.settled);
      stored = (
        record {
          row = f.row;
          there =
              r.others (pk_of t) n
              ∙ ap (λ u. u (pk_of t)) f.written
              ∙ insert_self (pk_of t) f.row s.tasks;
          settled = f.final;
        },
        r.stored,
      );
      others = λ pk e.
          r.others pk (ground arith) ∙ insert-other t f.row s f.next pk f.written (ground arith);
    }

-- If every task is stored in the version and the state in which it was read, and no two have one
-- primary key, the loop returns as many tasks, every one of them in a final state; and the row of
-- each is stored in a final state too, while the rows of other tasks stay.
pub cancel_tasks_settles :
    (ts : List TaskRecord) (s : Store)
    → distinct (primary_keys ts) ≡ true
    → All (Current s) ts
    → Cancels ts s
unfolding cancel_tasks
cancel_tasks_settles [] s d a = record {
  done = [];
  after = s;
  ran = refl;
  count = refl;
  settled = tt;
  stored = tt;
  others = λ pk e. refl;
}
cancel_tasks_settles (t ∷ ts) s d a =
    let apart : elem (pk_of t) (primary_keys ts) ≡ false = ground arith in
    let later : distinct (primary_keys ts) ≡ true = ground arith in
    elim (Bool-cases (is_settled t.state)) [
      | inl settled ↦ keep_one t ts s settled apart a.0 (cancel_tasks_settles ts s later a.1)
      | inr live ↦
          let f = cancel_one t s a.0 in
          cancel_first t ts s live apart f (
            cancel_tasks_settles ts f.next later
              (still_Current t ts f.row s f.next f.written apart a.1))
    ]
