-- ===== src/Recovery/Tasks.antt =====
-- recovery/manager.py: `_recover_abandoned_task` closes the dead worker's attempt and disposes of the
-- task.
use build_your_own_durable_a.Common.{
  ℕ, ◌≡◌, refl, ap, String, false, some, List, [], ◌∷◌, any, ltb, arith, inl, inr, Bool-cases,
  if◌then◌else◌,
}
use build_your_own_durable_a.Common.Result.{Result, ok, Result-cases, concurrency_conflict_error}
use build_your_own_durable_a.Domain.Enums.{TaskState}
use build_your_own_durable_a.Domain.Models.{TaskRecord}
use build_your_own_durable_a.Domain.StateMachine.{transition_task}
use build_your_own_durable_a.Store.{
  Store, TaskAttempt, next_id, with_error, update_task, finish_open_task_attempts, record_error,
  publish, is_open_for, close_where, close_attempt,
}
use build_your_own_durable_a.Store.Writes.{update_task-eq-ok, publish-keeps}
use build_your_own_durable_a.Orchestrator.{make_ready}
use build_your_own_durable_a.Recovery.{
  has_attempts, abandoned_target, abandoned_task, recover_abandoned_task,
}

nothing_open_for :
    (run_id task_id e : String) (now : ℕ) (state : TaskState) (xs : List TaskAttempt)
    → any
        (is_open_for run_id task_id)
        (close_where (is_open_for run_id task_id) (close_attempt now state (some e)) xs)
      ≡ false
nothing_open_for run_id task_id e now state [] = refl
nothing_open_for run_id task_id e now state (a ∷ as') =
    ground (arith, nothing_open_for run_id task_id e now state as')

make_ready-attempts :
    (task task' : TaskRecord) (s s' : Store)
    → make_ready task s ≡ (ok task', s')
    → (s'.attempts ≡ s.attempts) × (task'.attempt_count ≡ task.attempt_count)
unfolding make_ready
make_ready-attempts task task' s s' h =
    elim (Result-cases (transition_task task.state TaskState.ready)) [
      | inl (x, e) ↦ absurd (ground (arith, e))
      | inr (state, e) ↦
          elim (Result-cases (update_task (record task { state = state }) task.version s)) [
            | inl (x, q) ↦ absurd (ground (arith, e, q))
            | inr ((t, s1), q) ↦
                let (same, _, kept) =
                  update_task-eq-ok (record task { state = state }) t task.version s s1 q in
                let out : task' ≡ t = ground (arith, e, q) in
                (ground (arith, e, q, kept), cc (out, same))
          ]
    ]

make_ready-state :
    (task task' : TaskRecord) (s s' : Store)
    → task.state ≡ TaskState.failed_retryable
    → make_ready task s ≡ (ok task', s')
    → task'.state ≡ TaskState.ready
unfolding make_ready transition_task
make_ready-state task task' s s' r h =
    elim (Result-cases (update_task (record task { state = TaskState.ready }) task.version s)) [
      | inl (x, q) ↦ absurd (ground (arith, q, r))
      | inr ((t, s1), q) ↦
          let (same, _, _) =
            update_task-eq-ok (record task { state = TaskState.ready }) t task.version s s1 q in
          let out : task' ≡ t = ground (arith, q, r) in cc (out, same)
    ]

abandoned_step :
    (t : TaskRecord)
    → t.state ≡ TaskState.running
    → transition_task t.state (abandoned_target t) ≡ ok (abandoned_target t)
unfolding transition_task
abandoned_step t r = ground arith

abbrev recovered_event : TaskRecord → Store → Result (String × Store)
recovered_event t s = publish t.run_id "recovery.abandoned_attempt" (some t.spec.task_id) s

-- Where it returns, recovery leaves no open attempt of an abandoned task, makes the task ready while
-- attempts are left, and fails it for good otherwise, whatever its failure policy; the count of
-- attempts stays.
pub recover_abandoned_task_lem :
    (t t' : TaskRecord) (s s' : Store)
    → t.state ≡ TaskState.running
    → recover_abandoned_task t s ≡ (ok t', s')
    → (t'.state ≡ (
        if ltb t.attempt_count t.spec.maximum_attempts
        then TaskState.ready
        else TaskState.failed_terminal))
      × (t'.attempt_count ≡ t.attempt_count)
      × (any (is_open_for t.run_id t.spec.task_id) s'.attempts ≡ false)
unfolding recover_abandoned_task record_error finish_open_task_attempts
recover_abandoned_task_lem t t' s s' r h =
    let s1 = with_error t.run_id (some t.spec.task_id) concurrency_conflict_error s in
    let closed =
      close_where (is_open_for t.run_id t.spec.task_id)
        (close_attempt s.now (abandoned_target t) (some (next_id s))) s.attempts in
    let s2 : Store = record s1 { attempts = closed } in
    let none_open =
      nothing_open_for t.run_id t.spec.task_id (next_id s) s.now (abandoned_target t) s.attempts in
    let written = abandoned_task t (abandoned_target t) s.now (next_id s) in
    let step = abandoned_step t r in
    elim (Result-cases (update_task written t.version s2)) [
      | inl (x, e) ↦ absurd (ground (arith, e, step))
      | inr ((failed, s3), e) ↦
          let (same, _, kept) = update_task-eq-ok written failed t.version s2 s3 e in
          elim (Bool-cases (has_attempts t)) [
            | inl more ↦
                let retryable : failed.state ≡ TaskState.failed_retryable = cc (
                  same,
                  ap (λ b. if b then TaskState.failed_retryable else TaskState.failed_terminal)
                      more,
                ) in
                elim (Result-cases (make_ready failed s3).0) [
                  | inl (x, m) ↦ absurd (ground (arith, e, step, more, m))
                  | inr (task, m) ↦
                      let made : make_ready failed s3 ≡ (ok task, (make_ready failed s3).1) =
                        ap (λ q. (q, (make_ready failed s3).1)) m in
                      let (left, count) =
                        make_ready-attempts failed task s3 (make_ready failed s3).1 made in
                      elim (Result-cases (recovered_event task (make_ready failed s3).1)) [
                        | inl (x, p) ↦ absurd (ground (arith, e, step, more, m, p))
                        | inr ((id, s4), p) ↦
                            let out : (t' ≡ task) × (s'.attempts ≡ s4.attempts) =
                              ground (arith, e, step, more, m, p) in
                            let (_, events) =
                              publish-keeps task.run_id "recovery.abandoned_attempt"
                                (some task.spec.task_id) id (make_ready failed s3).1 s4 p in
                            (
                              rw more (
                                  cc (
                                    out.0,
                                    make_ready-state failed task s3 (make_ready failed s3).1
                                        retryable made,
                                  )),
                              cc (out.0, count, same),
                              rw (out.1, events, left, kept) none_open,
                            )
                      ]
                ]
            | inr done ↦
                let terminal : failed.state ≡ TaskState.failed_terminal = cc (
                  same,
                  ap (λ b. if b then TaskState.failed_retryable else TaskState.failed_terminal)
                      done,
                ) in
                elim (Result-cases (recovered_event failed s3)) [
                  | inl (x, p) ↦ absurd (ground (arith, e, step, done, p))
                  | inr ((id, s4), p) ↦
                      let out : (t' ≡ failed) × (s'.attempts ≡ s4.attempts) =
                        ground (arith, e, step, done, p) in
                      let (_, events) =
                        publish-keeps failed.run_id "recovery.abandoned_attempt"
                          (some failed.spec.task_id) id s3 s4 p in
                      (
                        rw done (cc (out.0, terminal)),
                        cc (out.0, same),
                        rw (out.1, events, kept) none_open,
                      )
                ]
          ]
    ]
