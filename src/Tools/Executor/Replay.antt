-- ===== src/Tools/Executor/Replay.antt =====
-- `ToolExecutor.execute` of tools/executor.py: when a tool runs, and what a repeated request gets.
use build_your_own_durable_a.Common.{
  ◌≡◌, refl, ◌⊎◌, inl, inr, true, Option, some, eq_iff, arith, Option-cases,
}
use build_your_own_durable_a.Common.Dict.{Dict, lookup}
use build_your_own_durable_a.Common.Result.{Result, ok, err, Result-cases}
use build_your_own_durable_a.Domain.Models.{
  ToolCall, ToolResult, is_non_idempotent, validate_tool_definition,
}
use build_your_own_durable_a.Tools.Journal.{get_by_idempotency_key}
use build_your_own_durable_a.Tools.Executor.{
  Tool, ToolPolicy, Platform, State, Request, permitted, dispatch, execute,
}
use build_your_own_durable_a.Tools.Executor.Effects.{RanOnce}
use build_your_own_durable_a.Tools.Executor.Branches.{
  Allowed, Quiet, Answered, permitted-Allowed, RanOnce-Answered, quiet, dispatch_new, dispatch_old,
}

module _ {J W : Type 0} (p : Platform J) (policy : ToolPolicy) (registry : Dict (Tool J W)) where
  -- A request either leaves the world as it was, and then a result that it returns was on record and
  -- the journal is unchanged; or its tool is registered and allowed for these arguments, the tool ran
  -- once on the world, and the journal holds the call under the key, with the result that is returned.
  pub execute_cases :
      (q : Request J) (s : State J W)
      → let out : Result (ToolResult J) × State J W = execute p policy registry q s in
        Quiet p policy registry q s out.0 out.1
        ⊎ ((tool : Tool J W) × Allowed p policy registry q tool
            × RanOnce p policy registry q tool s out.0 out.1)
  unfolding execute
  execute_cases q s = elim (Result-cases (permitted p policy registry q)) [
    | inl (x, f) ↦ rw (f, execute) (inl (quiet p policy registry q s (err x, s) refl (λ r h. cc h)))
    | inr (tool, f) ↦
        rw (f, execute)
          (elim (Option-cases (get_by_idempotency_key q.idempotency_key s.journal)) [
            | inl e ↦ rw e (elim (dispatch_new p policy registry q tool s e) [
              | inl k ↦ inl k
              | inr k ↦ inr (tool, permitted-Allowed p policy registry q tool f, k)
            ])
            | inr ((call, found), e) ↦
                rw e (elim (dispatch_old p policy registry q tool s call found e) [
                  | inl k ↦ inl k
                  | inr k ↦ inr (tool, permitted-Allowed p policy registry q tool f, k)
                ])
          ])
  ]

  answered :
      (q : Request J) (s : State J W) (r : ToolResult J) (s' : State J W)
      → execute p policy registry q s ≡ (ok r, s')
      → Answered p policy registry q r s'.journal
  answered q s r s' e = elim (rw e at (execute_cases q s)) [
    | inl k ↦ let (same, a) = k.known r refl in rw same a
    | inr (tool, a, ran) ↦ RanOnce-Answered p policy registry q tool s s' r ran
  ]

  -- After a request has returned a result, the same tool with the same arguments under the same key
  -- returns that result and changes nothing.
  pub execute_again :
      (q q' : Request J) (s s' : State J W) (r : ToolResult J)
      → execute p policy registry q s ≡ (ok r, s')
      → q'.tool_name ≡ q.tool_name
      → q'.arguments ≡ q.arguments
      → q'.idempotency_key ≡ q.idempotency_key
      → execute p policy registry q' s' ≡ (ok r, s')
  unfolding execute permitted dispatch
  execute_again q q' s s' r e n a k =
      let w : Answered p policy registry q r s'.journal = answered q s r s' e in
      ground (
        arith,
        w.found,
        w.name_ok,
        w.hash_ok,
        eq_iff w.call.tool_name q'.tool_name,
        eq_iff w.call.arguments_hash (p.digest q'.arguments),
      )

  -- A tool whose definition is valid and declares a non-idempotent effect never runs under a key
  -- that the journal holds already.
  pub non_idempotent_runs_once :
      (q : Request J) (s : State J W) (tool : Tool J W) (entry : ToolCall J × Option (ToolResult J))
      → lookup q.tool_name registry ≡ some tool
      → validate_tool_definition tool.definition ≡ ok tool.definition
      → is_non_idempotent tool.definition.side_effect_class ≡ true
      → get_by_idempotency_key q.idempotency_key s.journal ≡ some entry
      → (execute p policy registry q s).1 ≡ s
  unfolding execute permitted dispatch validate_tool_definition
  non_idempotent_runs_once q s tool entry l v n e = ground arith
