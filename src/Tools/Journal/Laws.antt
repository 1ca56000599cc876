-- ===== src/Tools/Journal/Laws.antt =====
-- What the writes of the tool journal do to its look-ups.
use build_your_own_durable_a.Common.{
  String, ◌≡◌, refl, ◌⊎◌, inl, inr, Bool, true, false, ◌&&◌, none, some, List, [], ◌∷◌, ◌++◌, ◌==◌,
  eq_iff, eq_refl, arith, keep, elem, distinct,
}
use build_your_own_durable_a.Domain.Models.{ToolCall, ToolResult}
use build_your_own_durable_a.Tools.Journal.{update_call, find_key, find_result, is_uncertain}

module _ {J : Type 0} where
  abbrev pub call_ids : List (ToolCall J) → List String
  call_ids [] = []
  call_ids (call ∷ calls) = call.tool_call_id ∷ call_ids calls

  -- The row of a key, and the request that it stands for.
  pub record OnRecord (key name hash call_id : String) (calls : List (ToolCall J)) : Type 0 where
    pub call : ToolCall J
    pub found : find_key key calls ≡ some call
    pub name_ok : call.tool_name ≡ name
    pub hash_ok : call.arguments_hash ≡ hash
    pub id_ok : call.tool_call_id ≡ call_id

  -- A write that leaves a call's identity alone.
  pub record KeepsIdentity (f : ToolCall J → ToolCall J) : Type 0 where
    pub key : (call : ToolCall J) → (f call).idempotency_key ≡ call.idempotency_key
    pub name : (call : ToolCall J) → (f call).tool_name ≡ call.tool_name
    pub hash : (call : ToolCall J) → (f call).arguments_hash ≡ call.arguments_hash
    pub id : (call : ToolCall J) → (f call).tool_call_id ≡ call.tool_call_id
    pub owner : (call : ToolCall J) → (f call).run_id ≡ call.run_id

  find_key-update_call :
      (f : ToolCall J → ToolCall J) (key call_id : String) (calls : List (ToolCall J))
      (call : ToolCall J)
      → KeepsIdentity f
      → find_key key calls ≡ some call
      → (find_key key (update_call call_id f calls) ≡ some call)
        ⊎ (find_key key (update_call call_id f calls) ≡ some (f call))
  unfolding find_key update_call
  find_key-update_call f key call_id [] call k e = absurd (cc e)
  find_key-update_call f key call_id (c ∷ calls) call k e =
      ground (arith, k.key c, find_key-update_call f key call_id calls call k)

  pub OnRecord-update_call :
      {key name hash call_id : String} {calls : List (ToolCall J)} (f : ToolCall J → ToolCall J)
      (target : String)
      → KeepsIdentity f
      → OnRecord key name hash call_id calls
      → OnRecord key name hash call_id (update_call target f calls)
  OnRecord-update_call {key} {calls} f target k r =
      elim (find_key-update_call f key target calls r.call k r.found) [
        | inl e ↦ record {
          call = r.call;
          found = e;
          name_ok = r.name_ok;
          hash_ok = r.hash_ok;
          id_ok = r.id_ok;
        }
        | inr e ↦ record {
          call = f r.call;
          found = e;
          name_ok = cc (k.name r.call, r.name_ok);
          hash_ok = cc (k.hash r.call, r.hash_ok);
          id_ok = cc (k.id r.call, r.id_ok);
        }
      ]

  pub find_key-append :
      (key : String) (calls : List (ToolCall J)) (call : ToolCall J)
      → find_key key calls ≡ none
      → call.idempotency_key ≡ key
      → find_key key (calls ++ call ∷ []) ≡ some call
  unfolding find_key
  find_key-append key [] call e k = ground (arith, eq_iff call.idempotency_key key)
  find_key-append key (c ∷ calls) call e k = ground (arith, find_key-append key calls call)

  pub find_result-append :
      (call_id : String) (results : List (ToolResult J)) (r : ToolResult J)
      → find_result call_id results ≡ none
      → r.tool_call_id ≡ call_id
      → find_result call_id (results ++ r ∷ []) ≡ some r
  unfolding find_result
  find_result-append call_id [] r e k = ground (arith, eq_iff r.tool_call_id call_id)
  find_result-append call_id (s ∷ results) r e k =
      ground (arith, find_result-append call_id results r)

  pub call_ids-update_call :
      (f : ToolCall J → ToolCall J) (target : String) (calls : List (ToolCall J))
      → KeepsIdentity f
      → call_ids (update_call target f calls) ≡ call_ids calls
  unfolding update_call
  call_ids-update_call f target [] k = refl
  call_ids-update_call f target (c ∷ calls) k =
      ground (arith, k.id c, call_ids-update_call f target calls k)

  abbrev pub is_open : String → ToolCall J → Bool
  is_open run_id call = call.run_id == run_id && is_uncertain call.status

  elem-open :
      (run_id : String) (calls rest : List (ToolCall J)) (call : ToolCall J)
      → keep (is_open run_id) calls ≡ call ∷ rest
      → elem call.tool_call_id (call_ids calls) ≡ true
  elem-open run_id [] rest call e = absurd (cc e)
  elem-open run_id (c ∷ calls) rest call e =
      ground (arith, eq_refl call.tool_call_id, elem-open run_id calls rest call)

  -- Settling the first open call takes it off the list of the open calls, where IDs are unique.
  pub settle_first :
      (f : ToolCall J → ToolCall J) (run_id : String) (calls rest : List (ToolCall J))
      (call : ToolCall J)
      → KeepsIdentity f
      → ((c : ToolCall J) → is_uncertain (f c).status ≡ false)
      → distinct (call_ids calls) ≡ true
      → keep (is_open run_id) calls ≡ call ∷ rest
      → keep (is_open run_id) (update_call call.tool_call_id f calls) ≡ rest
  unfolding update_call
  settle_first f run_id [] rest call k settled d e = absurd (cc e)
  settle_first f run_id (c ∷ calls) rest call k settled d e = ground (
    arith,
    settled c,
    eq_iff c.tool_call_id call.tool_call_id,
    eq_refl call.tool_call_id,
    elem-open run_id calls rest call,
    settle_first f run_id calls rest call k settled,
  )
