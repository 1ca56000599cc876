-- ===== src/Planner/Falls.antt =====
-- An answer that is no valid plan is never the end: `validate_plan` fails with the one error that the
-- repair loop handles.
use build_your_own_durable_a.Common.{String}
use build_your_own_durable_a.Common.Result.{Result}
