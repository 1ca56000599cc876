-- ===== src/Plan/Topological/Batches.antt =====
-- `parallel_batches` parts the tasks by level, and no task depends on one of its level or above.
use mathlib.Core.List.{append_assoc}
use build_your_own_durable_a.Common.{
  ℕ, zero, suc, ◌+◌, ◌<◌, String, ◌≡◌, refl, ◌∙◌, Bool, true, false, ◌&&◌, some, List, [], ◌∷◌,
  ◌++◌, ◌==◌, elem, elem-append, distinct, subset, all, eqb, leb, ltb, keep, eq_iff, eq_refl,
  if◌then◌else◌, arith, Bool-cases, inl, inr,
}
use build_your_own_durable_a.Common.Counting.{distinct_append, distinct_back}
use build_your_own_durable_a.Common.Dict.{Dict, lookup, put, subset-intro}
use build_your_own_durable_a.Common.Result.{ok, Result-cases}
use build_your_own_durable_a.Domain.Models.{TaskSpec}
use build_your_own_durable_a.Plan.Order.{
  task_ids, topological_order, level_or, next_level, assign_levels, greatest, batches,
  parallel_batches,
}
use build_your_own_durable_a.Plan.Topological.Loop.{is_ordered}
use build_your_own_durable_a.Plan.Topological.Correct.{deps, elem-keep, topological_order_sound}

abbrev level : Dict ℕ → String → ℕ
level levels k = level_or 0 (lookup k levels)

lookup-put :
    (j k : String) (v : ℕ) (d : Dict ℕ)
    → lookup j (put k v d) ≡ (if j == k then some v else lookup j d)
unfolding put
lookup-put j k v [] = refl
lookup-put j k v ((i, w) ∷ d) =
    ground (arith, lookup-put j k v d, eq_iff j k, eq_iff j i, eq_iff k i)

elem-subset :
    (d : String) (xs ys : List String) → subset xs ys ≡ true → elem d xs ≡ true → elem d ys ≡ true
elem-subset d [] ys h m = cc m
elem-subset d (x ∷ xs) ys h m = ground (arith, elem-subset d xs ys, eq_iff d x)

next_level-gt :
    (levels : Dict ℕ) (ds : List String) (d : String)
    → elem d ds ≡ true
    → level levels d < next_level levels ds
next_level-gt levels [] d m = absurd (cc m)
next_level-gt levels (x ∷ ds) d m = elim (Bool-cases (d == x)) [
  | inl e ↦ let same = (eq_iff d x).0 e in rw same (omega arith)
  | inr e ↦ omega (arith, next_level-gt levels ds d (ground arith))
]

module _ (tasks : List TaskSpec) where
  -- A task that is not on the list keeps its level.
  lookup-assign_levels :
      (ks : List String) (levels : Dict ℕ) (k : String)
      → elem k ks ≡ false
      → lookup k (assign_levels tasks ks levels) ≡ lookup k levels
  unfolding assign_levels
  lookup-assign_levels [] levels k h = refl
  lookup-assign_levels (j ∷ ks) levels k h =
      let n = next_level levels (deps tasks j) in
      let out : (k == j) ≡ false = ground arith in
      lookup-assign_levels ks (put j n levels) k (ground arith)
      ∙ lookup-put k j n levels
      ∙ rw out refl

  lookup-assigned :
      (ks : List String) (levels : Dict ℕ) (k : String)
      → elem k ks ≡ true
      → (n : ℕ) × (lookup k (assign_levels tasks ks levels) ≡ some n)
  unfolding assign_levels
  lookup-assigned [] levels k h = absurd (cc h)
  lookup-assigned (j ∷ ks) levels k h =
      let n = next_level levels (deps tasks j) in
      elim (Bool-cases (elem k ks)) [
        | inl m ↦ lookup-assigned ks (put j n levels) k m
        | inr m ↦
            let here : (k == j) ≡ true = ground arith in
            (
              n,
              lookup-assign_levels ks (put j n levels) k m ∙ lookup-put k j n levels ∙ rw here refl,
            )
      ]

  -- The levels rise along the dependencies.
  level-rises :
      (seen ks : List String) (levels : Dict ℕ) (k d : String)
      → is_ordered (deps tasks) seen ks ≡ true
      → distinct (seen ++ ks) ≡ true
      → elem k ks ≡ true
      → elem d (deps tasks k) ≡ true
      → (elem d (seen ++ ks) ≡ true)
        × (level (assign_levels tasks ks levels) d < level (assign_levels tasks ks levels) k)
  unfolding assign_levels
  level-rises seen [] levels k d o u m e = absurd (cc m)
  level-rises seen (j ∷ ks) levels k d o u m e =
      let n = next_level levels (deps tasks j) in
      let tail = distinct_back seen (j ∷ ks) u in
      let fresh : elem j ks ≡ false = ground arith in
      elim (Bool-cases (k == j)) [
        | inl b ↦
            let same = (eq_iff k j).0 b in
            let dep : elem d (deps tasks j) ≡ true = rw same at e in
            let before = elem-subset d (deps tasks j) seen (ground arith) dep in
            let apart = distinct_append seen (j ∷ ks) d u in
            let out : elem d (j ∷ ks) ≡ false =
              ground (arith, apart, before, Bool-cases (elem d (j ∷ ks))) in
            let low : lookup d (assign_levels tasks ks (put j n levels)) ≡ lookup d levels =
              lookup-assign_levels (j ∷ ks) levels d out in
            let high : lookup j (assign_levels tasks ks (put j n levels)) ≡ some n =
              lookup-assign_levels ks (put j n levels) j fresh
              ∙ lookup-put j j n levels
              ∙ rw (eq_refl j) refl in
            (
              ground (arith, elem-append d seen (j ∷ ks), before),
              rw (same, low, high) (next_level-gt levels (deps tasks j) d dep),
            )
        | inr b ↦
            let (there, rises) =
              level-rises (seen ++ j ∷ []) ks (put j n levels) k d (ground arith)
                (rw (append_assoc seen (j ∷ []) ks) u) (ground arith) e in
            (rw (append_assoc seen (j ∷ []) ks) at there, rises)
      ]

greatest-gt :
    (levels : Dict ℕ) (k : String) (n : ℕ) → lookup k levels ≡ some n → n < greatest levels
greatest-gt [] k n h = absurd (cc h)
greatest-gt ((j, v) ∷ levels) k n h = elim (Bool-cases (k == j)) [
  | inl e ↦ let same : some v ≡ some n = rw e at h in ground arith
  | inr e ↦ omega (arith, greatest-gt levels k n (rw e at h))
]

-- Every dependency of a task stands in an earlier batch, the seen tasks among them.
abbrev pub is_staged : (String → List String) → List String → List (List String) → Bool
is_staged deps seen [] = true
is_staged deps seen (b ∷ bs) = all (λ k. subset (deps k) seen) b && is_staged deps (seen ++ b) bs

abbrev pub flat : List (List String) → List String
flat [] = []
flat (b ∷ bs) = b ++ flat bs

all-intro :
    (p : String → Bool) (xs : List String)
    → ((k : String) → elem k xs ≡ true → p k ≡ true)
    → all p xs ≡ true
all-intro p [] h = refl
all-intro p (x ∷ xs) h =
    let here = h x (ground (arith, eq_refl x)) in
    let later = all-intro p xs (λ k m. h k (ground arith)) in ground (arith, here, later)

elem-batches :
    (ordered : List String) (levels : Dict ℕ) (from n : ℕ) (k : String)
    → elem k (flat (batches ordered levels from n))
      ≡ (elem k ordered && (leb from (level levels k) && ltb (level levels k) (from + n)))
elem-batches ordered levels from zero k = ground arith
elem-batches ordered levels from (suc n) k =
    let p = λ (j : String). eqb (level levels j) from in
    ground (
      arith,
      elem-append k (keep p ordered) (flat (batches ordered levels (from + 1) n)),
      elem-keep p ordered k,
      elem-batches ordered levels (from + 1) n k,
    )

batches-staged :
    (next : String → List String) (ordered : List String) (levels : Dict ℕ)
    → ((k d : String)
        → elem k ordered ≡ true
        → elem d (next k) ≡ true
        → (elem d ordered ≡ true) × (level levels d < level levels k))
    → (n from : ℕ) (seen : List String)
    → ((k : String) → elem k seen ≡ (elem k ordered && ltb (level levels k) from))
    → is_staged next seen (batches ordered levels from n) ≡ true
batches-staged next ordered levels rises zero from seen h = refl
batches-staged next ordered levels rises (suc n) from seen h =
    let p = λ (j : String). eqb (level levels j) from in
    let here =
      all-intro (λ k. subset (next k) seen) (keep p ordered)
        (λ k m. subset-intro (next k) seen (λ d e. ground (
          arith,
          h d,
          elem-keep p ordered k,
          rises k d (ground (arith, elem-keep p ordered k)) e,
        ))) in
    let later =
      batches-staged next ordered levels rises n (from + 1) (seen ++ keep p ordered)
        (λ k. ground (arith, h k, elem-append k seen (keep p ordered), elem-keep p ordered k)) in
    ground (arith, here, later)

parallel_batches-eq-ok :
    (tasks : List TaskSpec) (bs : List (List String))
    → parallel_batches tasks ≡ ok bs
    → (ordered : List String) × (topological_order tasks ≡ ok ordered)
      × let levels = assign_levels tasks ordered [] in
        (batches ordered levels 0 (greatest levels) ≡ bs)
unfolding parallel_batches
parallel_batches-eq-ok tasks bs h = elim (Result-cases (topological_order tasks)) [
  | inl (x, e) ↦ absurd (cc (rw e at h))
  | inr (ordered, e) ↦ (ordered, e, cc (rw e at h))
]

-- For tasks with distinct identifiers, the batches that `parallel_batches` returns hold exactly the
-- tasks, and every dependency of a task stands in an earlier batch, so that the tasks of one batch do
-- not depend on one another.
pub parallel_batches_lem :
    (tasks : List TaskSpec) (bs : List (List String)) (k : String)
    → distinct (task_ids tasks) ≡ true
    → parallel_batches tasks ≡ ok bs
    → (elem k (flat bs) ≡ elem k (task_ids tasks)) × (is_staged (deps tasks) [] bs ≡ true)
parallel_batches_lem tasks bs k once h =
    let (ordered, e, same) = parallel_batches-eq-ok tasks bs h in
    let (all_of, single, behind) = topological_order_sound tasks ordered k once e in
    let levels = assign_levels tasks ordered [] in
    let rises = λ (j d : String). level-rises tasks [] ordered [] j d behind single in
    rw (← same) (
      elim (Bool-cases (elem k ordered)) [
        | inl m ↦
            let (n, at_level) = lookup-assigned tasks ordered [] k m in
            let below = greatest-gt levels k n at_level in
            let here : level levels k ≡ n = rw at_level refl in
            ground
              (arith, elem-batches ordered levels 0 (greatest levels) k, all_of, m, here, below)
        | inr m ↦ ground (arith, elem-batches ordered levels 0 (greatest levels) k, all_of, m)
      ],
      batches-staged (deps tasks) ordered levels rises (greatest levels) 0 [] (λ j. ground arith),
    )
