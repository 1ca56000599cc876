-- ===== src/Context/Build.antt =====
-- context/manager.py: `_compress`, `build`, `invalidate_if_stale` and `create_item`. An identifier
-- that the code draws while it runs is an argument.
use build_your_own_durable_a.Common.{
  ℕ, ◌+◌, ◌-◌, max, String, true, false, ◌||◌, ◌==◌, not, Option, none, some, List, [], ◌∷◌, ◌++◌,
  eqb, leb, ltb, same_text, Bool, distinct, length, keep, min, if◌then◌else◌,
}
use build_your_own_durable_a.Common.Dict.{Dict, unique}
use build_your_own_durable_a.Common.Sort.{sort, text_leb}
use build_your_own_durable_a.Common.Result.{
  Result, ok, domain_validation_error, validation_error, ◌>>=◌, ◌>>◌, refuse_if,
}
use build_your_own_durable_a.Domain.Enums.{SummaryLevel}
use build_your_own_durable_a.Context.{
  ContextItem, SummaryRecord, ContextSnapshot, ContextBudget, Texts, available, validate_summary,
  validate_snapshot, estimate_tokens, item_ids, tokens, contents, summary_references,
  mandatory_items, optional_items, select_items, left_out, summary_reserve, evidence_of,
  source_hashes, summary_text, constraints_of,
}

-- The arguments of `build`, and the identifiers that it draws.
pub record Build : Type 0 where
  pub run_id : String
  pub task_id : Option String
  pub level : SummaryLevel
  pub generation : ℕ
  pub context_id : String
  pub summary_id : String

abbrev pub snapshot_of :
    ContextBudget → Build → ℕ → List ContextItem → List String → List ContextItem → ContextSnapshot
snapshot_of b a used active summary_ids removed = record {
  context_id = a.context_id;
  run_id = a.run_id;
  task_id = a.task_id;
  budget_tokens = available b;
  used_tokens = used;
  item_ids = item_ids active;
  summary_ids = summary_ids;
  removed_item_ids = item_ids removed;
}

abbrev pub summary_tokens : Option SummaryRecord → ℕ
summary_tokens none = 0
summary_tokens (some s) = s.estimated_tokens

abbrev pub summary_id_of : Option SummaryRecord → List String
summary_id_of none = []
summary_id_of (some s) = s.summary_id ∷ []

-- The part of `build` where the items fit.
unfoldable pub build_whole :
    ContextBudget → Build → ℕ → List ContextItem → Result (ContextSnapshot × Option SummaryRecord)
build_whole b a total active = do
  snapshot ← validate_snapshot (snapshot_of b a total active (summary_references active) [])
  ok (snapshot, none)

module _ (t : Texts) where
  -- What `_compress` makes of the removed items.
  abbrev pub summary_of : Build → List ContextItem → ℕ → SummaryRecord
  summary_of a removed maximum_tokens =
      let content = summary_text t maximum_tokens removed in
      record {
        summary_id = a.summary_id;
        run_id = a.run_id;
        level = a.level;
        content = content;
        estimated_tokens = min (estimate_tokens content) maximum_tokens;
        source_item_ids = item_ids removed;
        source_hashes = source_hashes t removed [];
        source_summary_ids = summary_references removed;
        retained_constraints = constraints_of a.generation removed;
        retained_questions = contents (keep (λ i. i.category == "question") removed);
        retained_decisions = contents (keep (λ i. i.category == "decision") removed);
        evidence_ids = sort text_leb (unique [] (evidence_of removed));
        removed_item_ids = item_ids removed;
        generation = a.generation;
        valid = true;
        invalidated_reason = none;
      }

  unfoldable pub compress : Build → List ContextItem → ℕ → Result (Option SummaryRecord)
  compress a removed maximum_tokens =
      if eqb (length removed) 0 || ltb maximum_tokens 16
      then ok none
      else (do s ← validate_summary (summary_of a removed maximum_tokens); ok (some s))

  -- The part of `build` after the items were found not to fit.
  unfoldable pub build_compressed :
      ContextBudget
      → Build
      → List ContextItem
      → List ContextItem
      → Result (ContextSnapshot × Option SummaryRecord)
  unfolding compress
  build_compressed b a mandatory optional = do
    let used = tokens mandatory
    let (chosen, used_then) =
        select_items (max (available b - summary_reserve b) used) used optional
    let selected = mandatory ++ chosen
    let removed = left_out (item_ids selected) optional
    summary ← compress a removed (available b - used_then)
    snapshot ← validate_snapshot (
        snapshot_of b a (used_then + summary_tokens summary) selected
          (summary_references selected ++ summary_id_of summary) removed)
    ok (snapshot, summary)

  unfoldable pub build :
      ContextBudget → Build → List ContextItem → Result (ContextSnapshot × Option SummaryRecord)
  unfolding build_whole build_compressed
  build b a items = do
    refuse_if (not (distinct (item_ids items))) domain_validation_error
    let mandatory = mandatory_items items
    let optional = optional_items items
    refuse_if (ltb (available b) (tokens mandatory)) domain_validation_error
    let total = tokens mandatory + tokens optional
    if leb total b.compression_at
        then build_whole b a total (mandatory ++ optional)
        else build_compressed b a mandatory optional

-- The sources whose current digest is not the recorded one.
unfoldable pub stale_sources : (String → Option String) → Dict String → List String
stale_sources current [] = []
stale_sources current ((source, digest) ∷ d) =
    let rest = stale_sources current d in
    if same_text (current source) (some digest) then rest else source ∷ rest

-- `reason` words the sorted stale sources.
unfoldable pub invalidate_if_stale :
    (List String → String) → SummaryRecord → (String → Option String) → SummaryRecord
unfolding stale_sources
invalidate_if_stale reason summary current =
    let stale = stale_sources current summary.source_hashes in
    if eqb (length stale) 0
    then summary
    else record summary { valid = false; invalidated_reason = some (reason (sort text_leb stale)) }

-- With the bound on the priority.
unfoldable pub create_item :
    String → String → String → ℕ → List String → List String → Bool → Result ContextItem
create_item item_id category content priority source_refs evidence_ids mandatory = do
  refuse_if (ltb 1000 priority) validation_error
  ok (record {
    item_id = item_id;
    category = category;
    content = content;
    estimated_tokens = estimate_tokens content;
    priority = priority;
    source_refs = source_refs;
    evidence_ids = evidence_ids;
    mandatory = mandatory;
  })
