-- ===== src/Tools/Executor/Branches.antt =====
-- The branches of `ToolExecutor.execute` of tools/executor.py: what each does to the world and to the
-- journal.
use build_your_own_durable_a.Common.{
  String, ◌≡◌, ◌≢◌, refl, ◌⊎◌, inl, inr, Bool, true, false, Option, none, some, eq_iff, arith,
  subset, elem, Bool-cases, not, ◌&&◌, ◌||◌, ◌==◌,
}
use build_your_own_durable_a.Common.Dict.{Dict, lookup}
use build_your_own_durable_a.Common.Result.{
  Result, ok, err, Result-cases, security_policy_error, manual_review_required_error,
}
use build_your_own_durable_a.Domain.Enums.{ToolCallStatus}
use build_your_own_durable_a.Domain.Models.{ToolCall, ToolResult, is_non_idempotent}
use build_your_own_durable_a.Tools.Journal.{
  Journal, is_failed, get_by_idempotency_key, record_intent, update_status, prepare_retry,
}
use build_your_own_durable_a.Tools.Journal.Laws.{OnRecord, find_key-append}
use build_your_own_durable_a.Tools.Executor.{
  Tool, ToolPolicy, Platform, State, Request, permitted, attempt_tool, run_call, dispatch, new_call,
}
use build_your_own_durable_a.Tools.Executor.Effects.{
  RanOnce, conclude-OnRecord, conclude-world, conclude-found, attempt_tool-world,
  update_status-OnRecord, prepare_retry-OnRecord,
}

module _ {J W : Type 0} (p : Platform J) (policy : ToolPolicy) (registry : Dict (Tool J W)) where
  -- The tool that a request names, with what the policy asks of it.
  pub record Allowed (q : Request J) (tool : Tool J W) : Type 0 where
    pub registered : lookup q.tool_name registry ≡ some tool
    pub permissions : subset tool.definition.required_permissions policy.allowed_permissions ≡ true
    pub approval :
        is_non_idempotent tool.definition.side_effect_class ≡ true
        → elem q.tool_name policy.approved_high_impact_tools ≡ true
    pub input : p.conforms tool.definition.input_schema q.arguments ≡ true

  pub permitted-Allowed :
      (q : Request J) (tool : Tool J W) → permitted p policy registry q ≡ ok tool → Allowed q tool
  unfolding permitted
  permitted-Allowed q tool h = ground arith

  abbrev Outcome : Request J → Tool J W → State J W → Result (ToolResult J) × State J W → Type 0
  Outcome q tool s out = RanOnce p policy registry q tool s out.0 out.1

  -- Either nothing is done to the world and the journal keeps its results, or the tool ran once.
  run_call-Outcome :
      (q : Request J) (tool : Tool J W) (id : String) (s : State J W) (j : Journal J)
      → OnRecord q.idempotency_key q.tool_name (p.digest q.arguments) id j.calls
      → (((run_call p policy registry q tool id j s.world).1.world ≡ s.world)
          × ((r : ToolResult J) → (run_call p policy registry q tool id j s.world).0 ≢ ok r))
        ⊎ Outcome q tool s (run_call p policy registry q tool id j s.world)
  unfolding run_call
  run_call-Outcome q tool id s j r =
      elim (Result-cases (update_status q.started id ToolCallStatus.running j)) [
        | inl (x, f) ↦ inl (ground arith, λ r h. ground arith)
        | inr (j', f) ↦
            let out : Result J × W = attempt_tool p policy registry tool q.arguments s.world in
            rw (f, run_call)
              (inr (record {
                call_id = id;
                effect = cc (
                  conclude-world p policy registry q id j' out,
                  attempt_tool-world p policy registry tool q.arguments s.world,
                );
                on_record =
                    conclude-OnRecord p policy registry q id j' out
                      (update_status-OnRecord q.started id ToolCallStatus.running j j' f r);
                result_kept = λ t h. conclude-found p policy registry q id j' out t h;
              }))
      ]

  -- The key has a result on record, for this tool and these arguments.
  pub record Answered (q : Request J) (r : ToolResult J) (j : Journal J) : Type 0 where
    pub call : ToolCall J
    pub found : get_by_idempotency_key q.idempotency_key j ≡ some (call, some r)
    pub name_ok : call.tool_name ≡ q.tool_name
    pub hash_ok : call.arguments_hash ≡ p.digest q.arguments

  pub RanOnce-Answered :
      (q : Request J) (tool : Tool J W) (s s' : State J W) (r : ToolResult J)
      → RanOnce p policy registry q tool s (ok r) s'
      → Answered q r s'.journal
  unfolding get_by_idempotency_key
  RanOnce-Answered q tool s s' r h =
      let o : OnRecord q.idempotency_key q.tool_name (p.digest q.arguments) h.call_id
          s'.journal.calls =
        h.on_record in
      record {
        call = o.call;
        found = ground (arith, o.found, o.id_ok, h.result_kept r refl);
        name_ok = o.name_ok;
        hash_ok = o.hash_ok;
      }

  -- Nothing was done to the world, and a result that is returned was on record before.
  pub record Quiet (q : Request J) (s : State J W) (reply : Result (ToolResult J)) (s' : State J W)
      : Type 0 where
    pub untouched : s'.world ≡ s.world
    pub known : (r : ToolResult J) → reply ≡ ok r → (s' ≡ s) × Answered q r s.journal

  pub quiet :
      (q : Request J) (s : State J W) (out : Result (ToolResult J) × State J W)
      → out.1.world ≡ s.world
      → ((r : ToolResult J) → out.0 ≢ ok r)
      → Quiet q s out.0 out.1
  quiet q s out w no_result = record { untouched = w; known = λ r h. absurd (no_result r h) }

  run_call_cases :
      (q : Request J) (tool : Tool J W) (id : String) (s : State J W) (j : Journal J)
      → OnRecord q.idempotency_key q.tool_name (p.digest q.arguments) id j.calls
      → Quiet q s
          (run_call p policy registry q tool id j s.world).0
          (run_call p policy registry q tool id j s.world).1
        ⊎ Outcome q tool s (run_call p policy registry q tool id j s.world)
  run_call_cases q tool id s j r = elim (run_call-Outcome q tool id s j r) [
    | inl (w, n) ↦ inl (quiet q s (run_call p policy registry q tool id j s.world) w n)
    | inr o ↦ inr o
  ]

  record_intent-OnRecord :
      (q : Request J) (tool : Tool J W) (j j' : Journal J)
      → get_by_idempotency_key q.idempotency_key j ≡ none
      → record_intent (new_call p policy registry q tool) j ≡ ok j'
      → OnRecord q.idempotency_key q.tool_name (p.digest q.arguments) q.new_call_id j'.calls
  unfolding get_by_idempotency_key record_intent
  record_intent-OnRecord q tool j j' e h =
      let call : ToolCall J = new_call p policy registry q tool in
      record {
        call = call;
        found = ground (arith, find_key-append q.idempotency_key j.calls call);
        name_ok = refl;
        hash_ok = refl;
        id_ok = refl;
      }

  pub dispatch_new :
      (q : Request J) (tool : Tool J W) (s : State J W)
      → get_by_idempotency_key q.idempotency_key s.journal ≡ none
      → Quiet q s
          (dispatch p policy registry q tool none s).0
          (dispatch p policy registry q tool none s).1
        ⊎ Outcome q tool s (dispatch p policy registry q tool none s)
  unfolding dispatch
  dispatch_new q tool s e =
      elim (Result-cases (record_intent (new_call p policy registry q tool) s.journal)) [
        | inl (x, f) ↦ rw (f, dispatch) (inl (quiet q s (err x, s) refl (λ r h. cc h)))
        | inr (j, f) ↦
            rw (f, dispatch)
              (run_call_cases q tool q.new_call_id s j
                (record_intent-OnRecord q tool s.journal j e f))
      ]

  abbrev differs : Request J → ToolCall J → Bool
  differs q call =
      not (call.tool_name == q.tool_name) || not (call.arguments_hash == p.digest q.arguments)

  module _ (q : Request J) (tool : Tool J W) (s : State J W) (call : ToolCall J) where
    same_request :
        differs q call ≡ false
        → (call.tool_name ≡ q.tool_name) × (call.arguments_hash ≡ p.digest q.arguments)
    same_request m = ground (
      arith,
      eq_iff call.tool_name q.tool_name,
      eq_iff call.arguments_hash (p.digest q.arguments),
    )

    get_by_key-OnRecord :
        differs q call ≡ false
        → get_by_idempotency_key q.idempotency_key s.journal ≡ some (call, none)
        → OnRecord q.idempotency_key q.tool_name
            (p.digest q.arguments)
            call.tool_call_id
            s.journal.calls
    unfolding get_by_idempotency_key
    get_by_key-OnRecord m e = record {
      call = call;
      found = ground arith;
      name_ok = (same_request m).0;
      hash_ok = (same_request m).1;
      id_ok = refl;
    }

    dispatch_unfinished :
        differs q call ≡ false
        → get_by_idempotency_key q.idempotency_key s.journal ≡ some (call, none)
        → Quiet q s
            (dispatch p policy registry q tool (some (call, none)) s).0
            (dispatch p policy registry q tool (some (call, none)) s).1
          ⊎ Outcome q tool s (dispatch p policy registry q tool (some (call, none)) s)
    unfolding dispatch
    dispatch_unfinished m e =
        elim (Bool-cases (is_failed call.status && tool.definition.retry_safe)) [
          | inr f ↦
              rw (m, dispatch)
                (rw (f, dispatch)
                  (inl (quiet q s (err manual_review_required_error, s) refl (λ r h. cc h))))
          | inl t ↦ elim (Result-cases (prepare_retry call.tool_call_id s.journal)) [
            | inl (x, f) ↦
                rw (m, dispatch)
                  (rw (t, dispatch)
                    (rw (f, dispatch) (inl (quiet q s (err x, s) refl (λ r h. cc h)))))
            | inr (j, f) ↦
                rw (m, dispatch)
                  (rw (t, dispatch)
                    (rw (f, dispatch)
                      (run_call_cases q tool call.tool_call_id s j (
                        prepare_retry-OnRecord call.tool_call_id s.journal j f
                          (get_by_key-OnRecord m e)))))
          ]
        ]

    pub dispatch_old :
        (found : Option (ToolResult J))
        → get_by_idempotency_key q.idempotency_key s.journal ≡ some (call, found)
        → Quiet q s
            (dispatch p policy registry q tool (some (call, found)) s).0
            (dispatch p policy registry q tool (some (call, found)) s).1
          ⊎ Outcome q tool s (dispatch p policy registry q tool (some (call, found)) s)
    unfolding dispatch
    dispatch_old found e = elim (Bool-cases (differs q call)) [
      | inl t ↦ rw (t, dispatch) (inl (quiet q s (err security_policy_error, s) refl (λ r h. cc h)))
      | inr m ↦ by_result found e m
    ]
      where
        by_result :
            (found : Option (ToolResult J))
            → get_by_idempotency_key q.idempotency_key s.journal ≡ some (call, found)
            → differs q call ≡ false
            → Quiet q s
                (dispatch p policy registry q tool (some (call, found)) s).0
                (dispatch p policy registry q tool (some (call, found)) s).1
              ⊎ Outcome q tool s (dispatch p policy registry q tool (some (call, found)) s)
        by_result none e m = dispatch_unfinished m e
        by_result (some r) e m =
            rw (m, dispatch)
              (inl (record {
                untouched = refl;
                known = λ t h. (
                  refl,
                  record {
                    call = call;
                    found = cc (e, h);
                    name_ok = (same_request m).0;
                    hash_ok = (same_request m).1;
                  },
                );
              }))
