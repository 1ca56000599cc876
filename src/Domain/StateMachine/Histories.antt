-- ===== src/Domain/StateMachine/Histories.antt =====
-- What the tables of domain/state_machine.py allow a run or a task to live through.
use build_your_own_durable_a.Common.{
  ◌≡◌, refl, ◌∙◌, ◌⊎◌, inl, inr, ◌↔◌, Bool, true, false, List, [], ◌∷◌, Any, arith,
}
use build_your_own_durable_a.Common.Result.{Result, ok, ◌>>=◌, >>=-eq-ok}
use build_your_own_durable_a.Domain.Enums.{RunState, TaskState}
use build_your_own_durable_a.Domain.StateMachine.{transition_run, transition_task}

-- A history: each target is requested in turn, and the first refusal ends it.
abbrev pub run_history : RunState → List RunState → Result RunState
run_history s [] = ok s
run_history s (t ∷ ts) = transition_run s t >>= λ u. run_history u ts

abbrev pub is_terminal_run : RunState → Bool
is_terminal_run RunState.completed = true
is_terminal_run RunState.failed = true
is_terminal_run RunState.cancelled = true
is_terminal_run _ = false

abbrev pub is_terminal_task : TaskState → Bool
is_terminal_task TaskState.succeeded = true
is_terminal_task TaskState.failed_terminal = true
is_terminal_task TaskState.cancelled = true
is_terminal_task TaskState.skipped = true
is_terminal_task _ = false

terminal_step :
    (s t : RunState) {u : RunState} → is_terminal_run s ≡ true → transition_run s t ≡ ok u → u ≡ s
unfolding transition_run
terminal_step s t h e = ground arith

-- A run in a terminal state stays in it, through every history that the table accepts.
pub run_history_terminal :
    (s : RunState) (ts : List RunState) {u : RunState}
    → is_terminal_run s ≡ true
    → run_history s ts ≡ ok u
    → u ≡ s
run_history_terminal s [] h e = cc e
run_history_terminal s (t ∷ ts) h e =
    let (v, p, q) = >>=-eq-ok (transition_run s t) (λ v. run_history v ts) e in
    let stays : v ≡ s = terminal_step s t h p in run_history_terminal v ts (rw stays h) q ∙ stays

-- How far a run has come towards COMPLETED.
abbrev before_planning : RunState → Bool
before_planning RunState.created = true
before_planning RunState.failed = true
before_planning RunState.cancelled = true
before_planning _ = false

abbrev before_running : RunState → Bool
before_running RunState.planning = true
before_running s = before_planning s

planning_step :
    (s t : RunState) {u : RunState}
    → before_planning s ≡ true
    → transition_run s t ≡ ok u
    → (t ≡ RunState.planning) ⊎ (before_planning u ≡ true)
unfolding transition_run
planning_step s t h e = ground arith

running_step :
    (s t : RunState) {u : RunState}
    → before_running s ≡ true
    → transition_run s t ≡ ok u
    → ((t ≡ RunState.running) ⊎ (t ≡ RunState.pause_requested)) ⊎ (before_running u ≡ true)
unfolding transition_run
running_step s t h e = ground arith

module _ {u : RunState} (done : u ≡ RunState.completed) where
  passes_planning :
      (s : RunState) (ts : List RunState)
      → before_planning s ≡ true
      → run_history s ts ≡ ok u
      → Any (λ t. t ≡ RunState.planning) ts
  passes_planning s [] h e = ground arith
  passes_planning s (t ∷ ts) h e =
      let (v, p, q) = >>=-eq-ok (transition_run s t) (λ v. run_history v ts) e in
      elim (planning_step s t h p) [
        | inl now ↦ inl now
        | inr later ↦ inr (passes_planning v ts later q)
      ]

  passes_running :
      (s : RunState) (ts : List RunState)
      → before_running s ≡ true
      → run_history s ts ≡ ok u
      → Any (λ t. (t ≡ RunState.running) ⊎ (t ≡ RunState.pause_requested)) ts
  passes_running s [] h e = ground arith
  passes_running s (t ∷ ts) h e =
      let (v, p, q) = >>=-eq-ok (transition_run s t) (λ v. run_history v ts) e in
      elim (running_step s t h p) [
        | inl now ↦ inl now
        | inr later ↦ inr (passes_running v ts later q)
      ]

-- A run that was created and is completed has been planned, and has been running or had a pause
-- requested.
pub completed_passes_planning :
    (ts : List RunState)
    → run_history RunState.created ts ≡ ok RunState.completed
    → Any (λ t. t ≡ RunState.planning) ts
      × Any (λ t. (t ≡ RunState.running) ⊎ (t ≡ RunState.pause_requested)) ts
completed_passes_planning ts e = (
  passes_planning refl RunState.created ts refl e,
  passes_running refl RunState.created ts refl e,
)

-- Cancellation is accepted in exactly the states that are not terminal, and in CANCELLED itself,
-- for runs and for tasks.
pub cancel_accepted :
    ((s : RunState)
      → (transition_run s RunState.cancelled ≡ ok RunState.cancelled)
        ↔ ((is_terminal_run s ≡ false) ⊎ (s ≡ RunState.cancelled)))
    × ((s : TaskState)
        → (transition_task s TaskState.cancelled ≡ ok TaskState.cancelled)
          ↔ ((is_terminal_task s ≡ false) ⊎ (s ≡ TaskState.cancelled)))
unfolding transition_run transition_task
cancel_accepted = (λ s. ground arith, λ s. ground arith)
