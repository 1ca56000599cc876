-- ===== src/Examples/Plans.antt =====
-- A plan of three tasks, two of which wait for the first.
use build_your_own_durable_a.Common.{
  ℕ, String, ◌≡◌, refl, true, List, [], ◌∷◌, elem, distinct, arith, ◌<◌, ◌==◌, if◌then◌else◌,
  eq_iff,
}
use build_your_own_durable_a.Common.Dict.{put}
use build_your_own_durable_a.Common.Sort.{sort, insert_sorted, text_leb}
use build_your_own_durable_a.Common.Result.{ok}
use build_your_own_durable_a.Domain.Enums.{FailurePolicy}
use build_your_own_durable_a.Domain.Models.{TaskSpec}
use build_your_own_durable_a.Plan.Order.{
  task_ids, topological_order, parallel_batches, build_graph, add_edges, drain, relax,
  assign_levels, dependencies_of,
}
use build_your_own_durable_a.Plan.Topological.Loop.{is_ordered}
use build_your_own_durable_a.Plan.Topological.Correct.{
  deps, topological_order_sound, topological_order_returns,
}
use build_your_own_durable_a.Plan.Topological.Batches.{is_staged, flat, parallel_batches_lem}
use build_your_own_durable_a.Examples.Data.{spec_of}

abbrev specs : List TaskSpec
specs =
    spec_of "c" ("a" ∷ []) FailurePolicy.retry true
    ∷ spec_of "b" ("a" ∷ []) FailurePolicy.retry true
    ∷ spec_of "a" [] FailurePolicy.retry true
    ∷ []

topological_order-specs : topological_order specs ≡ ok ("a" ∷ "b" ∷ "c" ∷ [])
unfolding topological_order build_graph add_edges drain relax sort insert_sorted text_leb
topological_order-specs = refl

topological_order_sound_example :
    (elem "b" ("a" ∷ "b" ∷ "c" ∷ []) ≡ elem "b" (task_ids specs))
    × (distinct ("a" ∷ "b" ∷ "c" ∷ []) ≡ true)
    × (is_ordered (deps specs) [] ("a" ∷ "b" ∷ "c" ∷ []) ≡ true)
topological_order_sound_example =
    topological_order_sound specs ("a" ∷ "b" ∷ "c" ∷ []) "b" refl topological_order-specs

abbrev rank : String → ℕ
rank k = if k == "a" then 0 else 1

deps-known : (d k : String) → elem d (deps specs k) ≡ true → elem d (task_ids specs) ≡ true
unfolding dependencies_of
deps-known d k h = ground (arith, eq_iff d "a", eq_iff "a" k, eq_iff "b" k, eq_iff "c" k)

deps-rank : (d k : String) → elem d (deps specs k) ≡ true → rank d < rank k
unfolding dependencies_of
deps-rank d k h =
    ground (arith, eq_iff d "a", eq_iff "a" k, eq_iff "b" k, eq_iff "c" k, eq_iff k "a")

topological_order_returns_example : (order : List String) × (topological_order specs ≡ ok order)
topological_order_returns_example = topological_order_returns specs rank refl deps-known deps-rank

parallel_batches-specs : parallel_batches specs ≡ ok (("a" ∷ []) ∷ ("b" ∷ "c" ∷ []) ∷ [])
unfolding parallel_batches topological_order build_graph add_edges drain relax sort insert_sorted
    text_leb assign_levels dependencies_of put
parallel_batches-specs = refl

parallel_batches_lem_example :
    (elem "b" (flat (("a" ∷ []) ∷ ("b" ∷ "c" ∷ []) ∷ [])) ≡ elem "b" (task_ids specs))
    × (is_staged (deps specs) [] (("a" ∷ []) ∷ ("b" ∷ "c" ∷ []) ∷ []) ≡ true)
parallel_batches_lem_example =
    parallel_batches_lem specs (("a" ∷ []) ∷ ("b" ∷ "c" ∷ []) ∷ []) "b" refl parallel_batches-specs
