-- ===== src/Orchestrator/Disposition.antt =====
-- `_handle_batch_failures` of orchestration/orchestrator.py: the state that it gives the run.
use build_your_own_durable_a.Common.{◌≡◌, ◌⊎◌, Bool, arith, if◌then◌else◌}
use build_your_own_durable_a.Common.Result.{ok}
use build_your_own_durable_a.Domain.Enums.{RunState}
use build_your_own_durable_a.Domain.StateMachine.{transition_run}
use build_your_own_durable_a.Orchestrator.{disposed}

-- While a run is worked on, also with a pause requested, no disposition is refused: a failure that
-- fails the run outweighs one that asks for review, which pauses it; other failures leave its state.
pub disposed_lem :
    (fails asks_review : Bool) (current : RunState)
    → (current ≡ RunState.running) ⊎ (current ≡ RunState.pause_requested)
    → disposed fails asks_review current
      ≡ ok (if fails then RunState.failed else if asks_review then RunState.paused else current)
unfolding disposed transition_run
disposed_lem fails asks_review current h = ground arith
