-- ===== src/Lifecycle/Ends.antt =====
-- In what state a round of the loop ends a run.
use build_your_own_durable_a.Common.{
  ℕ, String, ◌≡◌, refl, ap, ◌∙◌, ◌⊎◌, true, false, Option, none, some, List, all, All, Bool-cases,
  Option-cases, inl, inr,
}
use build_your_own_durable_a.Common.Result.{ok, Result-cases}
use build_your_own_durable_a.Domain.Enums.{RunState}
use build_your_own_durable_a.Domain.Models.{RunRecord, TaskRecord}
use build_your_own_durable_a.Plan.Ready.{ready_tasks}
use build_your_own_durable_a.Orchestrator.{select_batch}
use build_your_own_durable_a.Orchestrator.Handlers.{promote_ready, is_settled}
use build_your_own_durable_a.Lifecycle.{World, Kind, LifecycleRequest}
use build_your_own_durable_a.Lifecycle.Requests.{pending_lifecycle_request}
use build_your_own_durable_a.Lifecycle.Turn.{
  ended, turn, settle_run, handle_kind, start_or_settle, pause_run, cancel_run, complete_run,
  fail_stuck_run, is_done, is_enough,
}
use build_your_own_durable_a.Lifecycle.Written.{
  complete_run-state, fail_stuck_run-state, pause_run-state, cancel_run-state,
}

-- How a request of a kind ends a run.
abbrev pub EndedByRequest : Kind → RunRecord → List TaskRecord → Type 0
EndedByRequest kind run tasks =
    ((kind ≡ Kind.pause) × (run.state ≡ RunState.paused))
    ⊎ ((kind ≡ Kind.cancel)
        × (run.state ≡ RunState.cancelled)
        × All (λ t. is_settled t.state ≡ true) tasks)

-- How a run ends where no task is ready.
abbrev pub EndedByTasks : RunRecord → List TaskRecord → Type 0
EndedByTasks run tasks =
    ((run.state ≡ RunState.completed) × (all is_done tasks ≡ true))
    ⊎ ((run.state ≡ RunState.failed) × (all is_done tasks ≡ false))

handle_kind-ends :
    (kind : Kind) (run_id : String) (tasks tasks' : List TaskRecord) (r : LifecycleRequest)
    (run : RunRecord) (w w1 : World)
    → handle_kind kind run_id tasks r w ≡ (ok (ended run tasks'), w1)
    → EndedByRequest kind run tasks'
unfolding handle_kind
handle_kind-ends Kind.pause run_id tasks tasks' r run w w1 h =
    let end = pause_run run_id r w in
    elim (Result-cases end.0) [
      | inl (x, e) ↦ absurd (cc (rw e at h))
      | inr (paused, e) ↦
          let out : (ok (ended paused tasks), end.1) ≡ (ok (ended run tasks'), w1) = rw e at h in
          let same : run ≡ paused = cc out in
          let made : end ≡ (ok paused, end.1) = ap (λ q. (q, end.1)) e in
          inl (refl, ap (λ q. q.state) same ∙ pause_run-state run_id r paused w end.1 made)
    ]
handle_kind-ends Kind.cancel run_id tasks tasks' r run w w1 h =
    let end = cancel_run run_id tasks r w in
    elim (Result-cases end.0) [
      | inl (x, e) ↦ absurd (cc (rw e at h))
      | inr ((last, left), e) ↦
          let out : (ok (ended last left), end.1) ≡ (ok (ended run tasks'), w1) = rw e at h in
          let same : run ≡ last = cc out in
          let rest : tasks' ≡ left = cc out in
          let made : end ≡ (ok (last, left), end.1) = ap (λ q. (q, end.1)) e in
          let (state, settled) = cancel_run-state run_id tasks left r last w end.1 made in
          inr (refl, ap (λ q. q.state) same ∙ state, rw rest settled)
    ]

settle_run-ends :
    (run_id : String) (tasks tasks' : List TaskRecord) (run : RunRecord) (w w1 : World)
    → settle_run run_id tasks w ≡ (ok (ended run tasks'), w1)
    → EndedByTasks run tasks'
unfolding settle_run
settle_run-ends run_id tasks tasks' run w w1 h =
    elim (Option-cases (pending_lifecycle_request run_id w)) [
      | inr (r, p) ↦ absurd (cc (rw p at h))
      | inl p ↦ elim (Bool-cases (all is_done tasks)) [
        | inl d ↦
            let end = complete_run run_id w in
            elim (Result-cases end.0) [
              | inl (x, e) ↦ absurd (cc (rw (p, d, e) at h))
              | inr (last, e) ↦
                  let out : (ok (ended last tasks), end.1) ≡ (ok (ended run tasks'), w1) =
                    rw (p, d, e) at h in
                  let same : run ≡ last = cc out in
                  let rest : tasks' ≡ tasks = cc out in
                  let made : end ≡ (ok last, end.1) = ap (λ q. (q, end.1)) e in
                  inl (
                    ap (λ q. q.state) same ∙ complete_run-state run_id last w end.1 made,
                    ap (all is_done) rest ∙ d,
                  )
            ]
        | inr d ↦
            let end = fail_stuck_run run_id w in
            elim (Result-cases end.0) [
              | inl (x, e) ↦ absurd (cc (rw (p, d, e) at h))
              | inr (last, e) ↦
                  let out : (ok (ended last tasks), end.1) ≡ (ok (ended run tasks'), w1) =
                    rw (p, d, e) at h in
                  let same : run ≡ last = cc out in
                  let rest : tasks' ≡ tasks = cc out in
                  let made : end ≡ (ok last, end.1) = ap (λ q. (q, end.1)) e in
                  inr (
                    ap (λ q. q.state) same ∙ fail_stuck_run-state run_id last w end.1 made,
                    ap (all is_done) rest ∙ d,
                  )
            ]
      ]
    ]

start_or_settle-ends :
    (concurrency : ℕ) (maximum_tasks : Option ℕ) (executed : ℕ) (run_id : String)
    (tasks tasks' candidates : List TaskRecord) (run : RunRecord) (w w1 : World)
    → start_or_settle concurrency maximum_tasks executed run_id tasks candidates w
      ≡ (ok (ended run tasks'), w1)
    → EndedByTasks run tasks'
unfolding start_or_settle
start_or_settle-ends concurrency maximum_tasks executed run_id tasks tasks' candidates run w w1 h =
    elim (Option-cases (select_batch concurrency candidates executed maximum_tasks)) [
      | inr (chosen, g) ↦ absurd (cc (rw (start_or_settle, g) at h))
      | inl g ↦ settle_run-ends run_id tasks tasks' run w w1 (rw (start_or_settle, g) at h)
    ]

-- Where a round of the loop of `advance` ends the run: with a pending request it is PAUSED or
-- CANCELLED as that request asks, even if every task is done, and a cancelled run leaves every task in a final state; with none
-- it is COMPLETED if every task has succeeded or was skipped, and FAILED if not.
pub turn_ends :
    (concurrency : ℕ) (maximum_tasks : Option ℕ) (executed : ℕ) (run_id : String)
    (tasks tasks' : List TaskRecord) (run : RunRecord) (w w1 : World)
    → turn concurrency maximum_tasks executed run_id tasks w ≡ (ok (ended run tasks'), w1)
    → ((r : LifecycleRequest) × (pending_lifecycle_request run_id w ≡ some r)
        × EndedByRequest r.kind run tasks')
      ⊎ ((pending_lifecycle_request run_id w ≡ none) × EndedByTasks run tasks')
unfolding turn
turn_ends concurrency maximum_tasks executed run_id tasks tasks' run w w1 h =
    elim (Option-cases (pending_lifecycle_request run_id w)) [
      | inr (r, p) ↦ inl (r, p, handle_kind-ends r.kind run_id tasks tasks' r run w w1 (rw p at h))
      | inl p ↦ elim (Bool-cases (is_enough maximum_tasks executed)) [
        | inl b ↦ absurd (cc (rw (p, b) at h))
        | inr b ↦
            let promoted = promote_ready tasks w.store in
            elim (Result-cases promoted.0) [
              | inl (x, e) ↦ absurd (cc (rw (p, b, e) at h))
              | inr (ts, e) ↦ elim (Result-cases (ready_tasks ts)) [
                | inl (x, f) ↦ absurd (cc (rw (p, b, e, f) at h))
                | inr (candidates, f) ↦ inr (
                  p,
                  start_or_settle-ends concurrency maximum_tasks executed run_id ts tasks'
                      candidates run (record w { store = promoted.1 }) w1 (rw (p, b, e, f) at h),
                )
              ]
            ]
      ]
    ]
