-- ===== src/Lifecycle/Written.antt =====
-- The state of the run that pausing, cancelling, completing or failing it hands back.
use build_your_own_durable_a.Common.{
  ℕ, String, ◌≡◌, ap, ◌∙◌, true, none, some, List, All, arith, Option-cases, inl, inr,
}
use build_your_own_durable_a.Common.Exec.{Exec, pure, commit, ◌>>=◌}
use build_your_own_durable_a.Common.Result.{ok, Result-cases}
use build_your_own_durable_a.Domain.Enums.{RunState}
use build_your_own_durable_a.Domain.Models.{RunRecord, TaskRecord}
use build_your_own_durable_a.Domain.StateMachine.{transition_run}
use build_your_own_durable_a.Store.{Store, get_run, update_run}
use build_your_own_durable_a.Orchestrator.Handlers.{cancel_tasks, is_settled}
use build_your_own_durable_a.Orchestrator.Cancelled.{cancel_tasks_lem}
use build_your_own_durable_a.Lifecycle.{World, LifecycleRequest}
use build_your_own_durable_a.Lifecycle.Requests.{apply_lifecycle_request}
use build_your_own_durable_a.Lifecycle.Turn.{
  pause_run, cancel_run, complete_run, fail_stuck_run, write_run, tell, end_run, in_store, pausing,
}

transition_run-eq-ok : (x y z : RunState) → transition_run x y ≡ ok z → z ≡ y
unfolding transition_run
transition_run-eq-ok x y z h = ground arith

update_run-state :
    (run run' : RunRecord) (n : ℕ) (s s' : Store)
    → update_run run n s ≡ ok (run', s')
    → run'.state ≡ run.state
unfolding update_run
update_run-state run run' n s s' h = elim (Option-cases (s.runs run.run_id)) [
  | inl e ↦ absurd (ground (arith, e))
  | inr (row, e) ↦ ground (arith, e)
]

write_run-state :
    (run run' : RunRecord) (n : ℕ) (w w1 : World)
    → write_run run n w ≡ (ok run', w1)
    → run'.state ≡ run.state
write_run-state run run' n w w1 h = elim (Result-cases (update_run run n w.store)) [
  | inl (x, e) ↦ absurd (ground (arith, e))
  | inr ((r, s), e) ↦
      let same : run' ≡ r = ground (arith, e) in
      ap (λ q. q.state) same ∙ update_run-state run r n w.store s e
]

end_run-state :
    (run run' : RunRecord) (target : RunState) (w w1 : World)
    → end_run run target w ≡ (ok run', w1)
    → run'.state ≡ target
end_run-state run run' target w w1 h = elim (Result-cases (transition_run run.state target)) [
  | inl (x, e) ↦ absurd (ground (arith, e))
  | inr (state, e) ↦
      let written : RunRecord = record run {
        state = state;
        active_task_id = none;
        finished_at = some w.store.now;
      } in
      let out : write_run written run.version w ≡ (ok run', w1) = rw e at h in
      write_run-state written run' run.version w w1 out
      ∙ transition_run-eq-ok run.state target state e
]

-- A run that was written, the transactions after it, and the run that comes back.
announced :
    {A B : Type 0} (value out : A) (m : Exec World B) (w w1 : World)
    → (do _ ← m; pure value) w ≡ (ok out, w1)
    → out ≡ value
announced value out m w w1 h = elim (Result-cases (m w).0) [
  | inl (x, e) ↦ absurd (cc (rw e at h))
  | inr (b, e) ↦ cc (rw e at h)
]

applied :
    {A B C : Type 0} (value out : A) (m : Exec World B) (n : Exec World C) (w w1 : World)
    → (do _ ← m; _ ← n; pure value) w ≡ (ok out, w1)
    → out ≡ value
applied value out m n w w1 h = elim (Result-cases (m w).0) [
  | inl (x, e) ↦ absurd (cc (rw e at h))
  | inr (b, e) ↦ announced value out n (m w).1 w1 (rw e at h)
]

pub complete_run-state :
    (run_id : String) (run : RunRecord) (w w1 : World)
    → complete_run run_id w ≡ (ok run, w1)
    → run.state ≡ RunState.completed
unfolding complete_run
complete_run-state run_id run w w1 h = elim (Result-cases (get_run run_id w.store)) [
  | inl (x, e) ↦ absurd (cc (rw e at h))
  | inr (old, e) ↦
      let end = end_run old RunState.completed w in
      elim (Result-cases end.0) [
        | inl (x, f) ↦ absurd (cc (rw (e, f) at h))
        | inr (r, f) ↦
            let same = announced r run (tell run_id "run.completed") end.1 w1 (rw (e, f) at h) in
            let written : end ≡ (ok r, end.1) = ap (λ q. (q, end.1)) f in
            ap (λ q. q.state) same ∙ end_run-state old r RunState.completed w end.1 written
      ]
]

pub fail_stuck_run-state :
    (run_id : String) (run : RunRecord) (w w1 : World)
    → fail_stuck_run run_id w ≡ (ok run, w1)
    → run.state ≡ RunState.failed
unfolding fail_stuck_run
fail_stuck_run-state run_id run w w1 h = elim (Result-cases (get_run run_id w.store)) [
  | inl (x, e) ↦ absurd (cc (rw e at h))
  | inr (old, e) ↦ elim (Result-cases (transition_run old.state RunState.failed)) [
    | inl (x, t) ↦ absurd (cc (rw (e, t) at h))
    | inr (state, t) ↦
        let new : RunRecord = record old { state = state; finished_at = some w.store.now } in
        let end = write_run new old.version w in
        elim (Result-cases end.0) [
          | inl (x, f) ↦ absurd (cc (rw (e, t, f) at h))
          | inr (r, f) ↦
              let same = announced r run (tell run_id "run.failed") end.1 w1 (rw (e, t, f) at h) in
              let written : end ≡ (ok r, end.1) = ap (λ q. (q, end.1)) f in
              ap (λ q. q.state) same
              ∙ write_run-state new r old.version w end.1 written
              ∙ transition_run-eq-ok old.state RunState.failed state t
        ]
  ]
]

pub pause_run-state :
    (run_id : String) (request : LifecycleRequest) (run : RunRecord) (w w1 : World)
    → pause_run run_id request w ≡ (ok run, w1)
    → run.state ≡ RunState.paused
unfolding pause_run
pause_run-state run_id request run w w1 h = elim (Result-cases (get_run run_id w.store)) [
  | inl (x, e) ↦ absurd (cc (rw e at h))
  | inr (old, e) ↦ elim (Result-cases (pausing old.state)) [
    | inl (x, p) ↦ absurd (cc (rw (e, p) at h))
    | inr (state, p) ↦ elim (Result-cases (transition_run state RunState.paused)) [
      | inl (x, t) ↦ absurd (cc (rw (e, p, t) at h))
      | inr (paused, t) ↦
          let new : RunRecord = record old { state = paused; active_task_id = none } in
          let end = write_run new old.version w in
          elim (Result-cases end.0) [
            | inl (x, f) ↦ absurd (cc (rw (e, p, t, f) at h))
            | inr (r, f) ↦
                let same =
                  applied r run (commit (apply_lifecycle_request request))
                    (tell run_id "run.paused") end.1 w1 (rw (e, p, t, f) at h) in
                let written : end ≡ (ok r, end.1) = ap (λ q. (q, end.1)) f in
                ap (λ q. q.state) same
                ∙ write_run-state new r old.version w end.1 written
                ∙ transition_run-eq-ok state RunState.paused paused t
          ]
    ]
  ]
]

pub cancel_run-state :
    (run_id : String) (tasks tasks' : List TaskRecord) (request : LifecycleRequest)
    (run : RunRecord) (w w1 : World)
    → cancel_run run_id tasks request w ≡ (ok (run, tasks'), w1)
    → (run.state ≡ RunState.cancelled) × All (λ t. is_settled t.state ≡ true) tasks'
unfolding cancel_run
cancel_run-state run_id tasks tasks' request run w w1 h = elim (cancel_tasks_lem tasks w.store) [
  | inl e ↦ absurd (cc (rw e at h))
  | inr (done, e, settled, n) ↦
      let w2 = (in_store (cancel_tasks tasks) w).1 in
      elim (Result-cases (get_run run_id w2.store)) [
        | inl (x, g) ↦ absurd (cc (rw (e, g) at h))
        | inr (old, g) ↦
            let end = end_run old RunState.cancelled w2 in
            elim (Result-cases end.0) [
              | inl (x, f) ↦ absurd (cc (rw (e, g, f) at h))
              | inr (r, f) ↦
                  let same : (run, tasks') ≡ (r, done) =
                    applied (r, done) (run, tasks') (commit (apply_lifecycle_request request))
                      (tell run_id "run.cancelled") end.1 w1 (rw (e, g, f) at h) in
                  let written : end ≡ (ok r, end.1) = ap (λ q. (q, end.1)) f in
                  let is_r : run ≡ r = cc same in
                  let is_done : tasks' ≡ done = cc same in
                  (
                    ap (λ q. q.state) is_r
                        ∙ end_run-state old r RunState.cancelled w2 end.1 written,
                    rw is_done settled,
                  )
            ]
      ]
]
