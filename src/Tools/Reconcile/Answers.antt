-- ===== src/Tools/Reconcile/Answers.antt =====
-- `ToolExecutor.reconcile_uncertain` of tools/executor.py never passes over a call that needs review.
use build_your_own_durable_a.Common.{
  ℕ, String, ◌≡◌, refl, ◌⊎◌, true, false, Option, none, some, List, [], ◌∷◌, All, arith, inl, inr,
  Option-cases,
}
use build_your_own_durable_a.Common.Dict.{Dict, lookup}
use build_your_own_durable_a.Common.Result.{Result, ok, err}
use build_your_own_durable_a.Domain.Models.{ToolCall, ToolResult, is_non_idempotent}
use build_your_own_durable_a.Tools.Journal.{Journal, uncertain_calls}
use build_your_own_durable_a.Tools.Executor.{Tool}
use build_your_own_durable_a.Tools.Reconcile.{
  settle_answer, reconcile_call, reconcile_all, reconcile_uncertain,
}
use build_your_own_durable_a.Tools.Reconcile.Outcome.{reconcile_all-eq-ok}

module _ {J W : Type 0} (registry : Dict (Tool J W)) (now : ℕ) where
  -- The tool tells the result of the call; or it tells that there is none, and the call may be made
  -- again: its effect is not of the non-idempotent kind and the tool is safe to retry.
  abbrev pub IsAnswered : Tool J W → ToolCall J → Type 0
  IsAnswered tool call =
      ((r : ToolResult J) × (tool.reconcile call ≡ ok (some r)))
      ⊎ ((tool.reconcile call ≡ ok none)
          × (is_non_idempotent call.side_effect_class ≡ false)
          × (tool.definition.retry_safe ≡ true))

  answer-IsAnswered :
      (tool : Tool J W) (call : ToolCall J) (answer : Result (Option (ToolResult J)))
      (j j' : Journal J) (o : Option (ToolResult J))
      → settle_answer registry now tool call answer j ≡ (ok o, j')
      → ((r : ToolResult J) × (answer ≡ ok (some r)))
        ⊎ ((answer ≡ ok none)
            × (is_non_idempotent call.side_effect_class ≡ false)
            × (tool.definition.retry_safe ≡ true))
  unfolding settle_answer
  answer-IsAnswered tool call (err x) j j' o h = absurd (ground arith)
  answer-IsAnswered tool call (ok (some r)) j j' o h = inl (r, refl)
  answer-IsAnswered tool call (ok none) j j' o h = inr (refl, ground arith, ground arith)

  -- The call's tool is registered and the call is answered.
  abbrev pub IsSettleable : ToolCall J → Type 0
  IsSettleable call =
      (tool : Tool J W) × (lookup call.tool_name registry ≡ some tool) × IsAnswered tool call

  reconcile_call-IsSettleable :
      (call : ToolCall J) (j j' : Journal J) (o : Option (ToolResult J))
      → reconcile_call registry now call j ≡ (ok o, j')
      → IsSettleable call
  unfolding reconcile_call
  reconcile_call-IsSettleable call j j' o h = elim (Option-cases (lookup call.tool_name registry)) [
    | inl e ↦ absurd (cc (rw (e, reconcile_call) at h))
    | inr (tool, e) ↦ (
      tool,
      e,
      answer-IsAnswered tool call (tool.reconcile call) j j' o (rw (e, reconcile_call) at h),
    )
  ]

  reconcile_all-IsSettleable :
      (calls : List (ToolCall J)) (j j' : Journal J) (rs : List (ToolResult J))
      → reconcile_all registry now calls j ≡ (ok rs, j')
      → All IsSettleable calls
  reconcile_all-IsSettleable [] j j' rs h = tt
  reconcile_all-IsSettleable (call ∷ calls) j j' rs h =
      let (o, middle, ts, first, rest) = reconcile_all-eq-ok registry now call calls j j' rs h in
      (
        reconcile_call-IsSettleable call j middle o first,
        reconcile_all-IsSettleable calls middle j' ts rest,
      )

  -- Reconciliation returns only if every call of the run that was uncertain has a registered tool
  -- that tells its result, or tells that there is none where the call is retry-safe and its effect is
  -- not non-idempotent; with any other call among them it fails.
  pub reconcile_uncertain_answers :
      (run_id : String) (j j' : Journal J) (rs : List (ToolResult J))
      → reconcile_uncertain registry now run_id j ≡ (ok rs, j')
      → All IsSettleable (uncertain_calls run_id j)
  unfolding reconcile_uncertain
  reconcile_uncertain_answers run_id j j' rs h =
      reconcile_all-IsSettleable (uncertain_calls run_id j) j j' rs h
