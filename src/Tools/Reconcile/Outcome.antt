-- ===== src/Tools/Reconcile/Outcome.antt =====
-- `ToolExecutor.reconcile_uncertain` of tools/executor.py where it returns: what settles a call.
use build_your_own_durable_a.Common.{
  ℕ, String, ◌≡◌, refl, true, false, Option, none, some, List, [], ◌∷◌, arith, distinct, inl, inr,
  Option-cases, if◌then◌else◌, keep,
}
use build_your_own_durable_a.Common.Dict.{Dict, lookup}
use build_your_own_durable_a.Common.Result.{Result, ok, err, Result-cases}
use build_your_own_durable_a.Domain.Enums.{ToolCallStatus}
use build_your_own_durable_a.Domain.Models.{ToolCall, ToolResult}
use build_your_own_durable_a.Tools.Journal.{
  Journal, update_call, with_status, update_status, record_result, uncertain_calls, is_uncertain,
}
use build_your_own_durable_a.Tools.Journal.Laws.{
  KeepsIdentity, call_ids, is_open, call_ids-update_call, settle_first,
}
use build_your_own_durable_a.Tools.Executor.{Tool}
use build_your_own_durable_a.Tools.Reconcile.{
  settle_answer, reconcile_call, reconcile_all, reconcile_uncertain,
}

-- The write that settles a call: it keeps the identity and ends the uncertainty.
record Settles {J : Type 0} (target : String) (j j' : Journal J) : Type 0 where
  write : ToolCall J → ToolCall J
  keeps : KeepsIdentity write
  ends : (c : ToolCall J) → is_uncertain (write c).status ≡ false
  calls : j'.calls ≡ update_call target write j.calls

module _ {J : Type 0} where
  failed-Settles :
      (now : ℕ) (target : String) (j j' : Journal J)
      → update_status now target ToolCallStatus.failed j ≡ ok j'
      → Settles target j j'
  unfolding update_status
  failed-Settles now target j j' e = record {
    write = with_status now ToolCallStatus.failed;
    keeps = record {
      key = λ c. refl;
      name = λ c. refl;
      hash = λ c. refl;
      id = λ c. refl;
      owner = λ c. refl;
    };
    ends = λ c. refl;
    calls = ground arith;
  }

  result-Settles :
      (now : ℕ) (r : ToolResult J) (j j' : Journal J)
      → record_result now r j ≡ ok j'
      → Settles r.tool_call_id j j'
  unfolding record_result
  result-Settles now r j j' e = record {
    write = λ call. record call {
      status = if r.success then ToolCallStatus.succeeded else ToolCallStatus.failed;
      finished_at = some now;
    };
    keeps = record {
      key = λ c. refl;
      name = λ c. refl;
      hash = λ c. refl;
      id = λ c. refl;
      owner = λ c. refl;
    };
    ends = λ c. ground arith;
    calls = ground arith;
  }

module _ {J W : Type 0} (registry : Dict (Tool J W)) (now : ℕ) where
  -- A tool that finds the result of a call returns it as the result of that call.
  abbrev pub AnswersForCall : Type 0
  AnswersForCall =
      (name : String) (tool : Tool J W) (call : ToolCall J) (r : ToolResult J)
      → lookup name registry ≡ some tool
      → tool.reconcile call ≡ ok (some r)
      → r.tool_call_id ≡ call.tool_call_id

  answer-Settles :
      (tool : Tool J W) (call : ToolCall J) (answer : Result (Option (ToolResult J)))
      (j j' : Journal J) (o : Option (ToolResult J))
      → ((r : ToolResult J) → answer ≡ ok (some r) → r.tool_call_id ≡ call.tool_call_id)
      → settle_answer registry now tool call answer j ≡ (ok o, j')
      → Settles call.tool_call_id j j'
  unfolding settle_answer
  answer-Settles tool call (err x) j j' o answers h = absurd (ground arith)
  answer-Settles tool call (ok (some r)) j j' o answers h =
      rw (answers r refl) at (result-Settles now r j j' (ground arith))
  answer-Settles tool call (ok none) j j' o answers h =
      failed-Settles now call.tool_call_id j j' (ground arith)

  call-Settles :
      (call : ToolCall J) (j j' : Journal J) (o : Option (ToolResult J))
      → AnswersForCall
      → reconcile_call registry now call j ≡ (ok o, j')
      → Settles call.tool_call_id j j'
  call-Settles call j j' o answers h = elim (Option-cases (lookup call.tool_name registry)) [
    | inl e ↦ absurd (unregistered e)
    | inr (tool, e) ↦
        answer-Settles tool call (tool.reconcile call) j j' o
          (λ r told. answers call.tool_name tool call r e told) (registered tool e)
  ]
    where
      unregistered : lookup call.tool_name registry ≡ none → ⊥
      unregistered e = unfold reconcile_call in ground arith

      registered :
          (tool : Tool J W)
          → lookup call.tool_name registry ≡ some tool
          → settle_answer registry now tool call (tool.reconcile call) j ≡ (ok o, j')
      registered tool e = unfold reconcile_call in rw (e, reconcile_call) at h

  Settles-first :
      (run_id : String) (call : ToolCall J) (calls : List (ToolCall J)) (j j' : Journal J)
      → Settles call.tool_call_id j j'
      → distinct (call_ids j.calls) ≡ true
      → keep (is_open run_id) j.calls ≡ call ∷ calls
      → (keep (is_open run_id) j'.calls ≡ calls) × (distinct (call_ids j'.calls) ≡ true)
  Settles-first run_id call calls j j' s d e = (
    rw (s.calls) (settle_first s.write run_id j.calls calls call s.keeps s.ends d e),
    rw (s.calls) (rw (call_ids-update_call s.write call.tool_call_id j.calls s.keeps) d),
  )

  -- A loop that ends without an error did so call by call.
  pub reconcile_all-eq-ok :
      (call : ToolCall J) (calls : List (ToolCall J)) (j j' : Journal J) (rs : List (ToolResult J))
      → reconcile_all registry now (call ∷ calls) j ≡ (ok rs, j')
      → (o : Option (ToolResult J)) × (middle : Journal J) × (ts : List (ToolResult J))
        × (reconcile_call registry now call j ≡ (ok o, middle))
        × (reconcile_all registry now calls middle ≡ (ok ts, j'))
  unfolding reconcile_all
  reconcile_all-eq-ok call calls j j' rs h =
      let middle : Journal J = (reconcile_call registry now call j).1 in
      elim (Result-cases (reconcile_call registry now call j).0) [
        | inl (x, e) ↦ absurd (ground arith)
        | inr (o, e) ↦ elim (Result-cases (reconcile_all registry now calls middle).0) [
          | inl (x, f) ↦ absurd (ground arith)
          | inr (ts, f) ↦ (o, middle, ts, ground arith, ground arith)
        ]
      ]

  reconcile_all_settles :
      (run_id : String) (calls : List (ToolCall J)) (j j' : Journal J) (rs : List (ToolResult J))
      → AnswersForCall
      → distinct (call_ids j.calls) ≡ true
      → keep (is_open run_id) j.calls ≡ calls
      → reconcile_all registry now calls j ≡ (ok rs, j')
      → keep (is_open run_id) j'.calls ≡ []
  reconcile_all_settles run_id [] j j' rs answers d e h =
      let same : j' ≡ j = unfold reconcile_all in ground arith in rw same e
  reconcile_all_settles run_id (call ∷ calls) j j' rs answers d e h =
      let (o, middle, ts, first, rest) = reconcile_all-eq-ok call calls j j' rs h in
      let (unopened, d') =
        Settles-first run_id call calls j middle (call-Settles call j middle o answers first) d e in
      reconcile_all_settles run_id calls middle j' ts answers d' unopened rest

  -- If reconciliation returns, no call of the run is uncertain any more, where the journal's call IDs
  -- are unique and each tool answers for the call that it is asked about.
  pub reconcile_uncertain_settles :
      (run_id : String) (j j' : Journal J) (rs : List (ToolResult J))
      → AnswersForCall
      → distinct (call_ids j.calls) ≡ true
      → reconcile_uncertain registry now run_id j ≡ (ok rs, j')
      → uncertain_calls run_id j' ≡ []
  unfolding reconcile_uncertain uncertain_calls
  reconcile_uncertain_settles run_id j j' rs answers d h =
      reconcile_all_settles run_id (uncertain_calls run_id j) j j' rs answers d refl h
