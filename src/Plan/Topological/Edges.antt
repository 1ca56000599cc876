-- ===== src/Plan/Topological/Edges.antt =====
-- The counts and dependents that `topological_order` collects are those of the tasks' dependencies.
use build_your_own_durable_a.Common.{
  ◌+◌, String, ◌≡◌, refl, true, false, List, [], ◌∷◌, ◌++◌, ◌==◌, elem, distinct, length, eq_iff,
  eq_refl, arith, Bool-cases, inl, inr,
}
use build_your_own_durable_a.Common.Counting.{count}
use build_your_own_durable_a.Common.Result.{ok, Result-cases}
use build_your_own_durable_a.Domain.Models.{TaskSpec}
use build_your_own_durable_a.Plan.Order.{
  Graph, task_ids, set_count, add_dependent, add_edges, build_graph, dependencies_of,
}

count-append : (k : String) (xs ys : List String) → count k (xs ++ ys) ≡ count k xs + count k ys
count-append k [] ys = omega arith
count-append k (x ∷ xs) ys = ground (arith, count-append k xs ys)

-- `g'` has, for the task `t`, the edges from `ds` beside those of `g`.
pub record Adds (t : String) (ds : List String) (g g' : Graph) : Type 0 where
  pub own : g'.indegree t ≡ g.indegree t + length ds
  pub others : (k : String) → (k == t) ≡ false → g'.indegree k ≡ g.indegree k
  pub edges : (d : String) → count t (g'.dependents d) ≡ count t (g.dependents d) + count d ds
  pub other_edges :
      (d k : String) → (k == t) ≡ false → count k (g'.dependents d) ≡ count k (g.dependents d)

abbrev with_edge : String → String → Graph → Graph
with_edge t d g = record {
  indegree = set_count t (g.indegree t + 1) g.indegree;
  dependents = add_dependent d t g.dependents;
}

add_edges-Adds :
    (ids : List String) (t : String) (ds : List String) (g g' : Graph)
    → add_edges ids t ds g ≡ ok g'
    → Adds t ds g g'
unfolding add_edges
add_edges-Adds ids t [] g g' h = record {
  own = ground arith;
  others = λ k e. ground arith;
  edges = λ d. ground arith;
  other_edges = λ d k e. ground arith;
}
add_edges-Adds ids t (d ∷ ds) g g' h = elim (Bool-cases (elem d ids)) [
  | inr e ↦ absurd (ground arith)
  | inl e ↦
      let later = add_edges-Adds ids t ds (with_edge t d g) g' (rw e at h) in
      record {
        own = ground (arith, later.own, eq_refl t);
        others = λ k n. ground (arith, later.others k n);
        edges = λ x.
            ground (
              arith,
              later.edges x,
              count-append t (g.dependents x) (t ∷ []),
              eq_refl t,
              eq_iff x d,
            );
        other_edges = λ x k n.
            ground (arith, later.other_edges x k n, count-append k (g.dependents x) (t ∷ []));
      }
]

add_edges-known :
    (ids : List String) (t : String) (ds : List String) (g g' : Graph) (d : String)
    → add_edges ids t ds g ≡ ok g'
    → elem d ds ≡ true
    → elem d ids ≡ true
unfolding add_edges
add_edges-known ids t [] g g' d h m = cc m
add_edges-known ids t (x ∷ ds) g g' d h m = elim (Bool-cases (elem x ids)) [
  | inr e ↦ absurd (ground arith)
  | inl e ↦
      let later = add_edges-known ids t ds (with_edge t x g) g' d (rw e at h) in
      ground (arith, later, eq_iff d x)
]

-- All dependencies known, the loop comes to its end.
add_edges_returns :
    (ids : List String) (t : String) (ds : List String) (g : Graph)
    → ((d : String) → elem d ds ≡ true → elem d ids ≡ true)
    → (g' : Graph) × (add_edges ids t ds g ≡ ok g')
unfolding add_edges
add_edges_returns ids t [] g f = (g, refl)
add_edges_returns ids t (x ∷ ds) g f =
    let known = f x (ground (arith, eq_refl x)) in
    let (g', e) = add_edges_returns ids t ds (with_edge t x g) (λ d m. f d (ground arith)) in
    (g', rw known e)

pub dependencies_of-unknown :
    (k : String) (ts : List TaskSpec) → elem k (task_ids ts) ≡ false → dependencies_of k ts ≡ []
unfolding dependencies_of
dependencies_of-unknown k [] h = refl
dependencies_of-unknown k (t ∷ ts) h = ground (arith, eq_iff k t.task_id, eq_iff t.task_id k)

dependencies_of-own :
    (t : TaskSpec) (ts : List TaskSpec)
    → elem t.task_id (task_ids ts) ≡ false
    → dependencies_of t.task_id (t ∷ ts) ≡ t.dependencies
unfolding dependencies_of
dependencies_of-own t ts h = ground (arith, eq_refl t.task_id)

dependencies_of-other :
    (k : String) (t : TaskSpec) (ts : List TaskSpec)
    → (k == t.task_id) ≡ false
    → dependencies_of k (t ∷ ts) ≡ dependencies_of k ts
dependencies_of-other k t ts h = elim (Bool-cases (elem k (task_ids ts))) [
  | inl e ↦ unfold dependencies_of in rw e refl
  | inr e ↦
      let later = dependencies_of-unknown k ts e in
      let out : (t.task_id == k) ≡ false = ground (arith, eq_iff k t.task_id, eq_iff t.task_id k) in
      rw later (unfold dependencies_of in rw (e, out) refl)
]

-- The graph `g'` adds to `g` the edges of all the tasks.
pub record Built (ids : List String) (ts : List TaskSpec) (g g' : Graph) : Type 0 where
  pub counts : (k : String) → g'.indegree k ≡ g.indegree k + length (dependencies_of k ts)
  pub edges :
      (d k : String)
      → count k (g'.dependents d) ≡ count k (g.dependents d) + count d (dependencies_of k ts)
  pub known : (d k : String) → elem d (dependencies_of k ts) ≡ true → elem d ids ≡ true

pub build_graph-Built :
    (ids : List String) (ts : List TaskSpec) (g g' : Graph)
    → distinct (task_ids ts) ≡ true
    → build_graph ids ts g ≡ ok g'
    → Built ids ts g g'
unfolding build_graph
build_graph-Built ids [] g g' d h = record {
  counts = λ k. unfold dependencies_of in ground arith;
  edges = λ x k. unfold dependencies_of in ground arith;
  known = λ x k m. unfold dependencies_of in cc m;
}
build_graph-Built ids (t ∷ ts) g g' d h =
    elim (Result-cases (add_edges ids t.task_id t.dependencies g)) [
      | inl (x, e) ↦ absurd (cc (rw e at h))
      | inr (g1, e) ↦
          let fresh : elem t.task_id (task_ids ts) ≡ false = ground arith in
          let here = add_edges-Adds ids t.task_id t.dependencies g g1 e in
          let later = build_graph-Built ids ts g1 g' (ground arith) (rw e at h) in
          let none_later = dependencies_of-unknown t.task_id ts fresh in
          let own = dependencies_of-own t ts fresh in
          record {
            counts = λ k. elim (Bool-cases (k == t.task_id)) [
              | inl b ↦
                  let same = (eq_iff k t.task_id).0 b in
                  let counted = later.counts t.task_id in
                  rw (same, own) (omega (arith, rw none_later at counted, here.own))
              | inr b ↦
                  rw (dependencies_of-other k t ts b)
                    (omega (arith, later.counts k, here.others k b))
            ];
            edges = λ x k. elim (Bool-cases (k == t.task_id)) [
              | inl b ↦
                  let same = (eq_iff k t.task_id).0 b in
                  let counted = later.edges x t.task_id in
                  rw (same, own) (omega (arith, rw none_later at counted, here.edges x))
              | inr b ↦
                  rw (dependencies_of-other k t ts b)
                    (omega (arith, later.edges x k, here.other_edges x k b))
            ];
            known = λ x k m. elim (Bool-cases (k == t.task_id)) [
              | inl b ↦
                  let same = (eq_iff k t.task_id).0 b in
                  add_edges-known ids t.task_id t.dependencies g g1 x e (rw (same, own) at m)
              | inr b ↦ later.known x k (rw (dependencies_of-other k t ts b) at m)
            ];
          }
    ]

-- All dependencies known, the graph is built.
pub build_graph_returns :
    (ids : List String) (ts : List TaskSpec) (g : Graph)
    → distinct (task_ids ts) ≡ true
    → ((d k : String) → elem d (dependencies_of k ts) ≡ true → elem d ids ≡ true)
    → (g' : Graph) × (build_graph ids ts g ≡ ok g')
unfolding build_graph
build_graph_returns ids [] g d f = (g, refl)
build_graph_returns ids (t ∷ ts) g d f =
    let fresh : elem t.task_id (task_ids ts) ≡ false = ground arith in
    let own = dependencies_of-own t ts fresh in
    let none_later = dependencies_of-unknown t.task_id ts fresh in
    let (g1, e) =
      add_edges_returns ids t.task_id t.dependencies g (λ x m. f x t.task_id (rw own m)) in
    let (g', e') = build_graph_returns ids ts g1 (ground arith) (λ x k m.
      elim (Bool-cases (k == t.task_id)) [
        | inl b ↦
            let same = (eq_iff k t.task_id).0 b in
            let empty : elem x [] ≡ true = rw (same, none_later) at m in absurd (cc empty)
        | inr b ↦ f x k (rw (dependencies_of-other k t ts b) m)
      ]) in
    (g', rw (e, e') refl)
