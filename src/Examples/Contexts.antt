-- ===== src/Examples/Contexts.antt =====
-- A context of three items, of which the long note does not fit.
use mathlib.Core.List.{Perm}
use build_your_own_durable_a.Common.{
  ℕ, String, ◌≡◌, refl, true, false, ◌&&◌, Option, none, some, List, [], ◌∷◌, elem, distinct, leb,
  all, inl, inr, arith,
}
use build_your_own_durable_a.Common.Dict.{put, unique}
use build_your_own_durable_a.Common.Sort.{sort, insert_sorted, text_leb}
use build_your_own_durable_a.Common.Result.{ok, is_ok}
use build_your_own_durable_a.Domain.Enums.{SummaryLevel}
use build_your_own_durable_a.Context.{
  ContextItem, ContextSnapshot, ContextBudget, SummaryRecord, Texts, available, validate_budget,
  item_ids, tokens, mandatory_items, validate_summary, validate_snapshot, select_items,
  summary_references, source_hashes, constraints_of, summary_text, summary_lines, evidence_of,
  estimate_tokens, item_before, same_item, left_out,
}
use build_your_own_durable_a.Context.Build.{
  Build, summary_of, compress, build, build_compressed, invalidate_if_stale,
}
use build_your_own_durable_a.Context.Returns.{build_returns}
use build_your_own_durable_a.Context.Kept.{build-perm, build_keeps_mandatory}
use build_your_own_durable_a.Context.Staleness.{unchanged, summary_stays_valid}

-- A digest and a `" ".join(value.split())` for texts without surplus space.
abbrev texts : Texts
texts = record { digest = λ s. s; compact = λ s. s }

abbrev item_of : String → String → String → ℕ → ContextItem
item_of item_id category content estimated_tokens = record {
  item_id = item_id;
  category = category;
  content = content;
  estimated_tokens = estimated_tokens;
  priority = 100;
  source_refs = [];
  evidence_ids = [];
  mandatory = false;
}

abbrev rule : ContextItem
rule = item_of "i1" "constraint" "stay inside the root" 100

abbrev note : ContextItem
note = item_of "i2" "note" "a long log" 1400

abbrev hint : ContextItem
hint = item_of "i3" "note" "short" 50

abbrev budget : ContextBudget
budget = record {
  context_limit = 2048;
  reserved_output = 128;
  system_instructions = 128;
  user_request = 128;
  compression_at = 1331;
}

abbrev arguments : Build
arguments = record {
  run_id = "run";
  task_id = none;
  level = SummaryLevel.task;
  generation = 1;
  context_id = "context-1";
  summary_id = "summary-1";
}

abbrev items : List ContextItem
items = note ∷ hint ∷ rule ∷ []

abbrev summary : SummaryRecord
summary = summary_of texts arguments (note ∷ []) 1514

abbrev snapshot : ContextSnapshot
snapshot = record {
  context_id = "context-1";
  run_id = "run";
  task_id = none;
  budget_tokens = 1664;
  used_tokens = 174;
  item_ids = "i1" ∷ "i3" ∷ [];
  summary_ids = "summary-1" ∷ [];
  removed_item_ids = "i2" ∷ [];
}

build-items : build texts budget arguments items ≡ ok (snapshot, some summary)
unfolding build build_compressed compress validate_summary validate_snapshot select_items
    summary_references source_hashes constraints_of summary_text summary_lines evidence_of
    estimate_tokens item_before same_item sort insert_sorted text_leb put unique
build-items = refl

build_returns_example :
    is_ok (build texts budget arguments items)
    ≡ (distinct (item_ids items) && leb (tokens (mandatory_items items)) (available budget))
unfolding validate_budget
build_returns_example =
    build_returns texts budget arguments items refl (omega arith) (omega arith) (omega arith)

build-perm_example : Perm ("i1" ∷ "i3" ∷ "i2" ∷ []) (item_ids items)
build-perm_example = build-perm texts budget arguments items snapshot (some summary) build-items

build_keeps_mandatory_example : elem "i1" snapshot.item_ids ≡ true
build_keeps_mandatory_example =
    build_keeps_mandatory texts budget arguments items snapshot (some summary) rule build-items
      (inr (inr (inl refl))) refl

abbrev changed : String → Option String
changed source = some "another log"

summary_stays_valid_example :
    (invalidate_if_stale (λ _. "stale") summary changed).valid
    ≡ all (unchanged texts changed) (left_out snapshot.item_ids items)
summary_stays_valid_example =
    summary_stays_valid texts budget arguments items snapshot summary (λ _. "stale") changed
      build-items
