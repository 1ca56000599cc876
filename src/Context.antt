-- ===== src/Context.antt =====
-- domain/context.py and context/manager.py: the items of a model's context, the budget, and the
-- snapshot with the summary of what does not fit.
pub mod Selection
pub mod Build
pub mod Returns
pub mod Kept
pub mod Staleness
use Prim.Native.String.{len, count, ◌++◌ as join, [] as empty_text, ◌∷◌ as with_char}
use build_your_own_durable_a.Common.{
  ℕ, zero, suc, ◌+◌, ◌-◌, ◌*◌, ◌/◌, min, max, String, Bool, not, true, false, ◌||◌, ◌&&◌, Option,
  List, [], ◌∷◌, ◌++◌, map, ◌==◌, eqb, leb, ltb, elem, any, length, keep, subset, if◌then◌else◌,
}
use build_your_own_durable_a.Common.Dict.{Dict, keys, put, unique}
use build_your_own_durable_a.Common.Sort.{sort, text_leb}
use build_your_own_durable_a.Common.Result.{Result, ok, validation_error, ◌>>◌, refuse_if}
use build_your_own_durable_a.Domain.Enums.{SummaryLevel}

pub record ContextItem : Type 0 where
  pub item_id : String
  pub category : String
  pub content : String
  pub estimated_tokens : ℕ
  pub priority : ℕ
  pub source_refs : List String
  pub evidence_ids : List String
  pub mandatory : Bool

pub record SummaryRecord : Type 0 where
  pub summary_id : String
  pub run_id : String
  pub level : SummaryLevel
  pub content : String
  pub estimated_tokens : ℕ
  pub source_item_ids : List String
  pub source_hashes : Dict String
  pub source_summary_ids : List String
  pub retained_constraints : List String
  pub retained_questions : List String
  pub retained_decisions : List String
  pub evidence_ids : List String
  pub removed_item_ids : List String
  pub generation : ℕ
  pub valid : Bool
  pub invalidated_reason : Option String

-- The field bounds, then `source_manifest_complete`.
unfoldable pub validate_summary : SummaryRecord → Result SummaryRecord
validate_summary s = do
  refuse_if (eqb (length s.source_item_ids) 0) validation_error
  refuse_if (not (leb 1 s.generation && leb s.generation 3)) validation_error
  refuse_if
      (not (
        subset (keys s.source_hashes) s.source_item_ids
        && subset s.source_item_ids (keys s.source_hashes)))
      validation_error
  refuse_if (ltb 1 s.generation && eqb (length s.retained_constraints) 0) validation_error
  ok s

pub record ContextSnapshot : Type 0 where
  pub context_id : String
  pub run_id : String
  pub task_id : Option String
  pub budget_tokens : ℕ
  pub used_tokens : ℕ
  pub item_ids : List String
  pub summary_ids : List String
  pub removed_item_ids : List String

-- The bound on `budget_tokens`, then `within_budget`.
unfoldable pub validate_snapshot : ContextSnapshot → Result ContextSnapshot
validate_snapshot s = do
  refuse_if (eqb s.budget_tokens 0) validation_error
  refuse_if (ltb s.budget_tokens s.used_tokens) validation_error
  ok s

-- The threshold is a float, so `compression_at`, its product with `available` rounded down, is a
-- field here.
pub record ContextBudget : Type 0 where
  pub context_limit : ℕ
  pub reserved_output : ℕ
  pub system_instructions : ℕ
  pub user_request : ℕ
  pub compression_at : ℕ

-- It stops at 0, where the property is negative or 0 and `reservations_fit` refuses the budget.
abbrev pub available : ContextBudget → ℕ
available b = b.context_limit - b.reserved_output - b.system_instructions - b.user_request

-- The field bounds, then `reservations_fit`.
unfoldable pub validate_budget : ContextBudget → Result ContextBudget
validate_budget b = do
  refuse_if (ltb b.context_limit 2048) validation_error
  refuse_if (ltb b.reserved_output 128) validation_error
  refuse_if (ltb b.system_instructions 128) validation_error
  refuse_if (ltb b.user_request 128) validation_error
  refuse_if (eqb (available b) 0) validation_error
  ok b

-- A quarter of the bytes of the text in UTF-8, rounded up.
unfoldable pub estimate_tokens : String → ℕ
estimate_tokens content = if eqb (len content) 0 then 0 else max ((len content + 3) / 4) 1

abbrev pub is_preserved : String → Bool
is_preserved category =
    elem category
      ("constraint" ∷ "negative_requirement" ∷ "decision" ∷ "question" ∷ "task_state" ∷ [])

abbrev pub must_stay : ContextItem → Bool
must_stay i = i.mandatory || is_preserved i.category

abbrev same_texts : List String → List String → Bool
same_texts [] [] = true
same_texts (x ∷ xs) (y ∷ ys) = x == y && same_texts xs ys
same_texts _ _ = false

abbrev same_bool : Bool → Bool → Bool
same_bool true b = b
same_bool false b = not b

-- Equality of pydantic's models: that of the fields.
unfoldable pub same_item : ContextItem → ContextItem → Bool
same_item a b =
    a.item_id == b.item_id
    && a.category == b.category
    && a.content == b.content
    && eqb a.estimated_tokens b.estimated_tokens
    && eqb a.priority b.priority
    && same_texts a.source_refs b.source_refs
    && same_texts a.evidence_ids b.evidence_ids
    && same_bool a.mandatory b.mandatory

-- The key (priority, item_id).
unfoldable pub item_before : ContextItem → ContextItem → Bool
item_before a b =
    if ltb a.priority b.priority
    then true
    else if eqb a.priority b.priority
    then text_leb a.item_id b.item_id
    else false

abbrev pub item_ids : List ContextItem → List String
item_ids = map (λ i. i.item_id)

abbrev pub tokens : List ContextItem → ℕ
tokens [] = 0
tokens (i ∷ is) = i.estimated_tokens + tokens is

abbrev pub contents : List ContextItem → List String
contents [] = []
contents (i ∷ is) = i.content ∷ contents is

-- The source references of the summaries among the items.
abbrev pub references : List ContextItem → List String
references [] = []
references (i ∷ is) =
    let rest = references is in if i.category == "summary" then i.source_refs ++ rest else rest

unfoldable pub summary_references : List ContextItem → List String
unfolding unique
summary_references items = unique [] (references items)

abbrev pub mandatory_items : List ContextItem → List ContextItem
mandatory_items items = sort item_before (keep must_stay items)

abbrev pub optional_items : List ContextItem → List ContextItem
optional_items items =
    sort item_before (keep (λ i. not (any (λ m. same_item m i) (mandatory_items items))) items)

-- The loop over `optional`, from `used`: what it selects, and the tokens used at its end.
unfoldable pub select_items : ℕ → ℕ → List ContextItem → List ContextItem × ℕ
select_items limit used [] = ([], used)
select_items limit used (i ∷ is) =
    let (taken, used_then) = select_items limit (used + i.estimated_tokens) is in
    let skipped = select_items limit used is in
    if leb (used + i.estimated_tokens) limit then (i ∷ taken, used_then) else skipped

-- `removed`: what `optional` holds and the selection does not.
abbrev pub left_out : List String → List ContextItem → List ContextItem
left_out selected optional = keep (λ i. not (elem i.item_id selected)) optional

abbrev summary_reserve : ContextBudget → ℕ
summary_reserve b = min (max (available b / 5) 64) 1024

-- value[:n]
abbrev pub first_characters : ℕ → String → String
first_characters zero s = ""
first_characters (suc n) empty_text = ""
first_characters (suc n) (with_char c s) = with_char c (first_characters n s)

unfoldable pub evidence_of : List ContextItem → List String
evidence_of [] = []
evidence_of (i ∷ is) = i.evidence_ids ++ evidence_of is

-- The constraints among the removed items, or the sentinel of a repeated summary.
unfoldable pub constraints_of : ℕ → List ContextItem → List String
constraints_of generation removed =
    let constraints =
      contents (keep (λ i. elem i.category ("constraint" ∷ "negative_requirement" ∷ [])) removed) in
    if ltb 1 generation && eqb (length constraints) 0
    then "No removed constraint; raw constraints remain in active context." ∷ []
    else constraints

-- `sha256_digest` of a text, and `" ".join(value.split())`.
pub record Texts : Type 0 where
  pub digest : String → String
  pub compact : String → String

module _ (t : Texts) where
  open t use {digest, compact}

  -- The dict comprehension over the removed items, from the entries before.
  unfoldable pub source_hashes : List ContextItem → Dict String → Dict String
  unfolding put
  source_hashes [] d = d
  source_hashes (i ∷ is) d = source_hashes is (put i.item_id (digest i.content) d)

  unfoldable pub summary_lines : List ContextItem → String
  summary_lines [] = ""
  summary_lines (i ∷ is) =
      join "\n- [" (join i.item_id (join "] " (join (compact i.content) (summary_lines is))))

  unfoldable pub summary_text : ℕ → List ContextItem → String
  unfolding summary_lines
  summary_text maximum_tokens removed =
      let header : String =
        "Compressed navigation summary; verify conclusions against source/evidence IDs:" in
      let content = join header (summary_lines removed) in
      let maximum_characters = maximum_tokens * 4 in
      if ltb maximum_characters (count content)
      then join (first_characters (max (maximum_characters - 20) 1) content) "… [truncated]"
      else content
