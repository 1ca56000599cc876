-- ===== src/Plan/Order.antt =====
-- domain/plan.py: `topological_order` and `parallel_batches`. The dicts `indegree` and `dependents`
-- have an entry for each task, and are functions here.
use build_your_own_durable_a.Common.{
  ℕ, zero, suc, ◌+◌, ◌-◌, String, Option, none, some, List, [], ◌∷◌, ◌++◌, ◌==◌, eqb, max, elem,
  keep, length, if◌then◌else◌,
}
use build_your_own_durable_a.Common.Dict.{Dict, put, lookup}
use build_your_own_durable_a.Common.Sort.{sort, text_leb}
use build_your_own_durable_a.Common.Result.{Result, ok, err, plan_validation_error, ◌>>=◌}
use build_your_own_durable_a.Domain.Models.{TaskSpec}

abbrev pub task_ids : List TaskSpec → List String
task_ids [] = []
task_ids (t ∷ ts) = t.task_id ∷ task_ids ts

pub record Graph : Type 0 where
  pub indegree : String → ℕ
  pub dependents : String → List String

abbrev pub set_count : String → ℕ → (String → ℕ) → String → ℕ
set_count k n f j = if j == k then n else f j

abbrev pub add_dependent : String → String → (String → List String) → String → List String
add_dependent d k f j = if j == d then f j ++ k ∷ [] else f j

-- The loop over the dependencies of one task.
unfoldable pub add_edges : List String → String → List String → Graph → Result Graph
add_edges ids task_id [] g = ok g
add_edges ids task_id (d ∷ ds) g =
    if elem d ids
    then add_edges ids task_id ds (record {
      indegree = set_count task_id (g.indegree task_id + 1) g.indegree;
      dependents = add_dependent d task_id g.dependents;
    })
    else err plan_validation_error

unfoldable pub build_graph : List String → List TaskSpec → Graph → Result Graph
unfolding add_edges
build_graph ids [] g = ok g
build_graph ids (t ∷ ts) g = do g' ← add_edges ids t.task_id t.dependencies g; build_graph ids ts g'

-- The loop over the sorted dependents: a count that falls to 0 puts the task on the queue.
unfoldable pub relax : List String → (String → ℕ) → List String → (String → ℕ) × List String
relax [] indegree queue = (indegree, queue)
relax (d ∷ ds) indegree queue =
    relax ds (set_count d (indegree d - 1) indegree)
      (if eqb (indegree d) 1 then queue ++ d ∷ [] else queue)

-- The `while queue` loop; each round takes one task off the queue for good, so the number of tasks
-- is fuel enough.
unfoldable pub drain :
    ℕ → (String → List String) → List String → (String → ℕ) → List String → List String
unfolding relax
drain zero dependents queue indegree result = result
drain (suc fuel) dependents [] indegree result = result
drain (suc fuel) dependents (t ∷ queue) indegree result =
    let (indegree', queue') = relax (sort text_leb (dependents t)) indegree queue in
    drain fuel dependents queue' indegree' (result ++ t ∷ [])

abbrev pub no_edges : Graph
no_edges = record { indegree = λ k. 0; dependents = λ k. [] }

unfoldable pub topological_order : List TaskSpec → Result (List String)
unfolding build_graph drain
topological_order tasks = do
  let ids = task_ids tasks
  g ← build_graph ids tasks no_edges
  let queue = sort text_leb (keep (λ k. eqb (g.indegree k) 0) ids)
  let result = drain (length tasks) g.dependents queue g.indegree []
  if eqb (length result) (length tasks) then ok result else err plan_validation_error

-- by_id[task_id].dependencies: of tasks with one ID the dict holds the last.
unfoldable pub dependencies_of : String → List TaskSpec → List String
dependencies_of k [] = []
dependencies_of k (t ∷ ts) =
    let later = dependencies_of k ts in
    if elem k (task_ids ts) then later else if t.task_id == k then t.dependencies else []

abbrev pub level_or : ℕ → Option ℕ → ℕ
level_or d none = d
level_or d (some n) = n

-- max(.., default=0) of the levels of the dependencies, one above each.
abbrev pub next_level : Dict ℕ → List String → ℕ
next_level levels [] = 0
next_level levels (d ∷ ds) = max (suc (level_or 0 (lookup d levels))) (next_level levels ds)

unfoldable pub assign_levels : List TaskSpec → List String → Dict ℕ → Dict ℕ
unfolding dependencies_of
assign_levels tasks [] levels = levels
assign_levels tasks (k ∷ ks) levels =
    assign_levels tasks ks (put k (next_level levels (dependencies_of k tasks)) levels)

abbrev pub greatest : Dict ℕ → ℕ
greatest [] = 0
greatest ((k, n) ∷ d) = max (suc n) (greatest d)

-- The levels `from`, `from + 1`, ..: as many as are asked for.
abbrev pub batches : List String → Dict ℕ → ℕ → ℕ → List (List String)
batches ordered levels from zero = []
batches ordered levels from (suc n) =
    keep (λ k. eqb (level_or 0 (lookup k levels)) from) ordered
    ∷ batches ordered levels (from + 1) n

unfoldable pub parallel_batches : List TaskSpec → Result (List (List String))
unfolding topological_order assign_levels
parallel_batches tasks = do
  ordered ← topological_order tasks
  let levels = assign_levels tasks ordered []
  ok (batches ordered levels 0 (greatest levels))
