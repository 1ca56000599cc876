-- ===== src/Plan/Topological/Correct.antt =====
-- `topological_order` lists the tasks, each behind its dependencies, and fails only for an unknown
-- dependency or a cycle.
use mathlib.Core.List.{append-nil}
use build_your_own_durable_a.Common.{
  ℕ, zero, suc, ◌<◌, String, ◌≡◌, refl, sym, ap, ◌∙◌, Bool, true, ◌&&◌, List, [], ◌∷◌, ◌==◌, elem,
  elem-append, distinct, length, eqb, keep, eq_iff, arith, Bool-cases, inl, inr,
}
use build_your_own_durable_a.Common.Counting.{
  count, distinct_front, missing, missing_none, missing_some, length-le_of_distinct, elem_of_length,
}
use build_your_own_durable_a.Common.Perm.{distinct-perm}
use build_your_own_durable_a.Common.Sort.{sort, text_leb, elem-sort, sort-perm}
use build_your_own_durable_a.Common.Result.{ok, Result-cases}
use build_your_own_durable_a.Domain.Models.{TaskSpec}
use build_your_own_durable_a.Plan.Order.{
  Graph, task_ids, build_graph, drain, topological_order, dependencies_of, no_edges,
}
use build_your_own_durable_a.Plan.Topological.Edges.{
  Built, build_graph-Built, build_graph_returns, dependencies_of-unknown,
}
use build_your_own_durable_a.Plan.Topological.Loop.{is_ordered, Inv, Ended, drain-Ended}

pub elem-keep :
    (p : String → Bool) (xs : List String) (k : String) → elem k (keep p xs) ≡ (elem k xs && p k)
elem-keep p [] k = refl
elem-keep p (x ∷ xs) k = elim (Bool-cases (k == x)) [
  | inl e ↦
      let same = (eq_iff k x).0 e in
      let test : p k ≡ p x = ap p same in ground (arith, elem-keep p xs k, test, e)
  | inr e ↦ ground (arith, elem-keep p xs k, e)
]

distinct-keep :
    (p : String → Bool) (xs : List String) → distinct xs ≡ true → distinct (keep p xs) ≡ true
distinct-keep p [] d = refl
distinct-keep p (x ∷ xs) d = ground (arith, distinct-keep p xs, elem-keep p xs x)

abbrev pub deps : List TaskSpec → String → List String
deps tasks k = dependencies_of k tasks

abbrev first_queue : List TaskSpec → Graph → List String
first_queue tasks g = sort text_leb (keep (λ k. eqb (g.indegree k) 0) (task_ids tasks))

length-task_ids : (tasks : List TaskSpec) → length (task_ids tasks) ≡ length tasks
length-task_ids [] = refl
length-task_ids (t ∷ ts) = ap suc (length-task_ids ts)

module _ (tasks : List TaskSpec) (g : Graph) (built : Built (task_ids tasks) tasks no_edges g)
    (once : distinct (task_ids tasks) ≡ true) where
  edges_of : (d k : String) → count k (g.dependents d) ≡ count d (deps tasks k)
  edges_of d k = omega (arith, built.edges d k)

  start-Inv :
      Inv
        (task_ids tasks)
        (deps tasks)
        g.dependents
        edges_of
        (λ k. dependencies_of-unknown k tasks)
        (first_queue tasks g)
        g.indegree
        []
  start-Inv =
      let ids = task_ids tasks in
      let p = λ (k : String). eqb (g.indegree k) 0 in
      record {
        counts = λ k. omega (arith, built.counts k, missing_none (deps tasks k));
        reached = λ k. ground (
          arith,
          elem-sort k text_leb (keep p ids),
          elem-keep p ids k,
          built.counts k,
          missing_none (deps tasks k),
        );
        once = distinct-perm (sort-perm text_leb (keep p ids)) ∙ distinct-keep p ids once;
        ordered = refl;
      }

  abbrev End : List String → Type 0
  End =
      Ended (task_ids tasks) (deps tasks) g.dependents edges_of
        (λ k. dependencies_of-unknown k tasks)

  order_ended : End (drain (length tasks) g.dependents (first_queue tasks g) g.indegree [])
  order_ended =
      drain-Ended (task_ids tasks) (deps tasks) g.dependents edges_of
        (λ k. dependencies_of-unknown k tasks) (length tasks) (first_queue tasks g) g.indegree []
        start-Inv (omega (arith, length-task_ids tasks))

  ended-known :
      (result : List String) (k : String)
      → End result
      → elem k result ≡ true
      → elem k (task_ids tasks) ≡ true
  ended-known result k e m = ground (arith, e.kept.reached k, elem-append k result e.queue)

  ended_once : (result : List String) → End result → distinct result ≡ true
  ended_once result e = distinct_front result e.queue e.kept.once

  -- A full list has all the tasks.
  ended-full :
      (result : List String) (k : String)
      → End result
      → length result ≡ length (task_ids tasks)
      → elem k result ≡ elem k (task_ids tasks)
  ended-full result k e n =
      let all_in = λ (j : String). ended-known result j e in
      ground (
        arith,
        all_in k,
        elem_of_length result (task_ids tasks) k (ended_once result e) all_in (omega arith),
        Bool-cases (elem k result),
        Bool-cases (elem k (task_ids tasks)),
      )

  -- Without a cycle nothing is left when the queue is empty: of the tasks left, one of least rank has
  -- no dependency left.
  none_left :
      (rank : String → ℕ) (result : List String)
      → ((d k : String) → elem d (deps tasks k) ≡ true → rank d < rank k)
      → (e : End result) → e.queue ≡ []
      → (bound : ℕ) (k : String) → rank k < bound
      → elem k (task_ids tasks) ≡ true
      → elem k result ≡ true
  none_left rank result falls e empty zero k below m = absurd (omega arith)
  none_left rank result falls e empty (suc bound) k below m =
      let reached : elem k result ≡ eqb (missing result (deps tasks k)) 0 =
        ground (arith, rw (empty, append-nil result) at (e.kept.reached k), m) in
      elim (Bool-cases (eqb (missing result (deps tasks k)) 0)) [
        | inl z ↦ cc (reached, z)
        | inr z ↦
            let (d, dep, out) = missing_some result (deps tasks k) (λ n. ground arith) in
            let known = built.known d k dep in
            let there =
              none_left rank result falls e empty bound d (omega (arith, falls d k dep)) known in
            absurd (cc (there, out))
      ]

  ended-long :
      (rank : String → ℕ) (result : List String)
      → ((d k : String) → elem d (deps tasks k) ≡ true → rank d < rank k)
      → End result
      → length result ≡ length (task_ids tasks)
  ended-long rank result falls e = elim e.over [
    | inr n ↦ n
    | inl empty ↦
        let short =
          length-le_of_distinct result (task_ids tasks) (ended_once result e)
            (λ k. ended-known result k e) in
        let long =
          length-le_of_distinct (task_ids tasks) result once
            (λ k. none_left rank result falls e empty (suc (rank k)) k (omega arith)) in
        omega (arith, short, long)
  ]

topological_order-eq-ok :
    (tasks : List TaskSpec) (order : List String)
    → topological_order tasks ≡ ok order
    → (g : Graph) × (build_graph (task_ids tasks) tasks no_edges ≡ ok g)
      × (order ≡ drain (length tasks) g.dependents (first_queue tasks g) g.indegree [])
      × (length order ≡ length tasks)
unfolding topological_order
topological_order-eq-ok tasks order h =
    elim (Result-cases (build_graph (task_ids tasks) tasks no_edges)) [
      | inl (x, e) ↦ absurd (cc (rw e at h))
      | inr (g, e) ↦
          let result = drain (length tasks) g.dependents (first_queue tasks g) g.indegree [] in
          elim (Bool-cases (eqb (length result) (length tasks))) [
            | inr b ↦ absurd (cc (rw (e, b) at h))
            | inl b ↦
                let same : result ≡ order = cc (rw (e, b) at h) in
                (g, e, sym same, rw (← same) (ground arith))
          ]
    ]

-- For tasks with distinct identifiers, the list that `topological_order` returns has each of them
-- once and nothing else, and each stands behind all its dependencies.
pub topological_order_sound :
    (tasks : List TaskSpec) (order : List String) (k : String)
    → distinct (task_ids tasks) ≡ true
    → topological_order tasks ≡ ok order
    → (elem k order ≡ elem k (task_ids tasks))
      × (distinct order ≡ true)
      × (is_ordered (deps tasks) [] order ≡ true)
topological_order_sound tasks order k once h =
    let (g, e, same, n) = topological_order-eq-ok tasks order h in
    let built = build_graph-Built (task_ids tasks) tasks no_edges g once e in
    let ended = order_ended tasks g built once in
    rw same (
      ended-full tasks g built once _ k ended
          (omega (arith, length-task_ids tasks, ap length same, n)),
      ended_once tasks g built once _ ended,
      ended.kept.ordered,
    )

-- For tasks with distinct identifiers whose dependencies are all among them, and with a rank that
-- puts each dependency below its task (so that there is no cycle), `topological_order` returns: the
-- rounds of its loop are enough to place every task.
pub topological_order_returns :
    (tasks : List TaskSpec) (rank : String → ℕ)
    → distinct (task_ids tasks) ≡ true
    → ((d k : String) → elem d (deps tasks k) ≡ true → elem d (task_ids tasks) ≡ true)
    → ((d k : String) → elem d (deps tasks k) ≡ true → rank d < rank k)
    → (order : List String) × (topological_order tasks ≡ ok order)
unfolding topological_order
topological_order_returns tasks rank once known falls =
    let (g, e) = build_graph_returns (task_ids tasks) tasks no_edges once known in
    let built = build_graph-Built (task_ids tasks) tasks no_edges g once e in
    let result = drain (length tasks) g.dependents (first_queue tasks g) g.indegree [] in
    let long = ended-long tasks g built once rank result falls (order_ended tasks g built once) in
    let full : eqb (length result) (length tasks) ≡ true =
      ground (arith, long, length-task_ids tasks) in
    (result, rw (e, full) refl)
