-- ===== src/Tools/Executor/Effects.antt =====
-- Lemmas on the parts of `ToolExecutor.execute` of tools/executor.py: the call stays on record.
use build_your_own_durable_a.Common.{
  ℕ, String, ◌≡◌, refl, inl, inr, some, arith, Option-cases, if◌then◌else◌,
}
use build_your_own_durable_a.Common.Dict.{Dict}
use build_your_own_durable_a.Common.Result.{Result, ok, err, Result-cases}
use build_your_own_durable_a.Domain.Enums.{ToolCallStatus}
use build_your_own_durable_a.Domain.Models.{ToolCall, ToolResult}
use build_your_own_durable_a.Tools.Journal.{
  Journal, update_call, find_result, update_status, prepare_retry, record_result, with_status,
  reopened,
}
use build_your_own_durable_a.Tools.Journal.Laws.{
  OnRecord, KeepsIdentity, OnRecord-update_call, find_result-append,
}
use build_your_own_durable_a.Tools.Executor.{
  Tool, ToolPolicy, Platform, State, Request, attempt_tool, conclude, result_of,
}

module _ {J : Type 0} where
  with_status-KeepsIdentity :
      (now : ℕ) (status : ToolCallStatus) → KeepsIdentity (with_status {J = J} now status)
  with_status-KeepsIdentity now status = record {
    key = λ c. refl;
    name = λ c. refl;
    hash = λ c. refl;
    id = λ c. refl;
    owner = λ c. refl;
  }

  pub update_status-OnRecord :
      {key name hash call_id : String} (now : ℕ) (target : String) (status : ToolCallStatus)
      (j j' : Journal J)
      → update_status now target status j ≡ ok j'
      → OnRecord key name hash call_id j.calls
      → OnRecord key name hash call_id j'.calls
  unfolding update_status
  update_status-OnRecord now target status j j' e r =
      let eq : j'.calls ≡ update_call target (with_status now status) j.calls = ground arith in
      rw eq (OnRecord-update_call _ target (with_status-KeepsIdentity now status) r)

  pub prepare_retry-OnRecord :
      {key name hash call_id : String} (target : String) (j j' : Journal J)
      → prepare_retry target j ≡ ok j'
      → OnRecord key name hash call_id j.calls
      → OnRecord key name hash call_id j'.calls
  unfolding prepare_retry
  prepare_retry-OnRecord target j j' e r =
      let eq : j'.calls ≡ update_call target reopened j.calls = ground arith in
      let same : KeepsIdentity (reopened {J = J}) = record {
        key = λ c. refl;
        name = λ c. refl;
        hash = λ c. refl;
        id = λ c. refl;
        owner = λ c. refl;
      } in
      rw eq (OnRecord-update_call _ target same r)

  record_result-OnRecord :
      {key name hash call_id : String} (now : ℕ) (r : ToolResult J) (j j' : Journal J)
      → record_result now r j ≡ ok j'
      → OnRecord key name hash call_id j.calls
      → OnRecord key name hash call_id j'.calls
  unfolding record_result
  record_result-OnRecord now r j j' e o =
      let status : ToolCallStatus =
        if r.success then ToolCallStatus.succeeded else ToolCallStatus.failed in
      let f : ToolCall J → ToolCall J =
        λ call. record call { status = status; finished_at = some now } in
      let eq : j'.calls ≡ update_call r.tool_call_id f j.calls = ground arith in
      let same : KeepsIdentity f = record {
        key = λ c. refl;
        name = λ c. refl;
        hash = λ c. refl;
        id = λ c. refl;
        owner = λ c. refl;
      } in
      rw eq (OnRecord-update_call f r.tool_call_id same o)

  record_result-found :
      (now : ℕ) (r : ToolResult J) (j j' : Journal J)
      → record_result now r j ≡ ok j'
      → find_result r.tool_call_id j'.results ≡ some r
  unfolding record_result
  record_result-found now r j j' e = ground (
    arith,
    Option-cases (find_result r.tool_call_id j.results),
    find_result-append r.tool_call_id j.results r,
  )

module _ {J W : Type 0} (p : Platform J) (policy : ToolPolicy) (registry : Dict (Tool J W)) where
  pub conclude-OnRecord :
      {key name hash call_id : String} (q : Request J) (id : String) (j : Journal J)
      (out : Result J × W)
      → OnRecord key name hash call_id j.calls
      → OnRecord key name hash call_id (conclude p policy registry q id j out).1.journal.calls
  unfolding conclude
  conclude-OnRecord q id j (err e, w) r =
      elim (Result-cases (update_status q.finished id ToolCallStatus.failed j)) [
        | inl (x, f) ↦ rw (f, conclude) r
        | inr (j', f) ↦
            rw (f, conclude) (update_status-OnRecord q.finished id ToolCallStatus.failed j j' f r)
      ]
  conclude-OnRecord q id j (ok raw, w) r =
      elim (Result-cases (record_result q.finished (result_of p policy registry q id raw) j)) [
        | inl (x, f) ↦ rw (f, conclude) r
        | inr (j', f) ↦
            rw (f, conclude)
              (record_result-OnRecord q.finished (result_of p policy registry q id raw) j j' f r)
      ]

  pub conclude-world :
      (q : Request J) (id : String) (j : Journal J) (out : Result J × W)
      → (conclude p policy registry q id j out).1.world ≡ out.1
  unfolding conclude
  conclude-world q id j (err e, w) = ground arith
  conclude-world q id j (ok raw, w) = ground arith

  pub conclude-found :
      (q : Request J) (id : String) (j : Journal J) (out : Result J × W) (r : ToolResult J)
      → (conclude p policy registry q id j out).0 ≡ ok r
      → find_result id (conclude p policy registry q id j out).1.journal.results ≡ some r
  unfolding conclude
  conclude-found q id j (err e, w) r h = ground arith
  conclude-found q id j (ok raw, w) r h =
      elim (Result-cases (record_result q.finished (result_of p policy registry q id raw) j)) [
        | inl (x, f) ↦ ground arith
        | inr (j', f) ↦
            ground
              (arith, record_result-found q.finished (result_of p policy registry q id raw) j j' f)
      ]

  -- What a run of the tool leaves: its effect, the call on record, and a result if it returned one.
  pub record RanOnce (q : Request J) (tool : Tool J W) (s : State J W)
      (reply : Result (ToolResult J)) (s' : State J W) : Type 0 where
    pub call_id : String
    pub effect : s'.world ≡ (tool.run q.arguments s.world).1
    pub on_record :
        OnRecord q.idempotency_key q.tool_name (p.digest q.arguments) call_id s'.journal.calls
    pub result_kept :
        (r : ToolResult J) → reply ≡ ok r → find_result call_id s'.journal.results ≡ some r

  pub attempt_tool-world :
      (tool : Tool J W) (a : J) (w : W)
      → (attempt_tool p policy registry tool a w).1 ≡ (tool.run a w).1
  unfolding attempt_tool
  attempt_tool-world tool a w = refl
