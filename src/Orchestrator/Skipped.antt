-- ===== src/Orchestrator/Skipped.antt =====
-- `_skip_transitive_dependents` of orchestration/orchestrator.py: the set `blocked` that its `while`
-- loop ends with.
use build_your_own_durable_a.Common.{
  ℕ, zero, suc, ◌+◌, ◌≤◌, ◌<◌, ◌≡◌, refl, ap, ◌↔◌, Any, ◌⊎◌, inl, inr, String, true, false, not,
  ◌&&◌, List, [], ◌∷◌, eq_iff, eq_refl, arith, elem, All-at, All-own, All-elem, disjoint, length,
  All, Bool-cases, if◌then◌else◌,
}
use build_your_own_durable_a.Domain.Models.{TaskRecord}
use build_your_own_durable_a.Orchestrator.Handlers.{spread, spread_all, blocked_by}

-- The failed task, and every task with a dependency that is blocked.
pub data Blocked (tasks : List TaskRecord) (failed : String) : String → Type 0 where
  the_failed : Blocked tasks failed failed
  dependent :
      (t : TaskRecord) (d : String)
      → Any (λ u. u ≡ t) tasks
      → elem d t.spec.dependencies ≡ true
      → Blocked tasks failed d
      → Blocked tasks failed t.spec.task_id

-- The tasks that are not blocked yet.
open_tasks : List TaskRecord → List String → ℕ
open_tasks [] blocked = 0
open_tasks (t ∷ ts) blocked = (if elem t.spec.task_id blocked then 0 else 1) + open_tasks ts blocked

abbrev Closed : List String → TaskRecord → Type 0
Closed blocked t = disjoint t.spec.dependencies blocked ≡ false → elem t.spec.task_id blocked ≡ true

open_tasks-bound :
    (ts : List TaskRecord) (blocked : List String) → open_tasks ts blocked ≤ length ts
unfolding open_tasks
open_tasks-bound [] blocked = omega arith
open_tasks-bound (t ∷ ts) blocked = ground (arith, open_tasks-bound ts blocked)

open_tasks-more :
    (ts : List TaskRecord) (k : String) (blocked : List String)
    → open_tasks ts (k ∷ blocked) ≤ open_tasks ts blocked
unfolding open_tasks
open_tasks-more [] k blocked = omega arith
open_tasks-more (t ∷ ts) k blocked = ground (arith, open_tasks-more ts k blocked)

open_tasks-falls :
    (ts : List TaskRecord) (t : TaskRecord) (blocked : List String)
    → Any (λ u. u ≡ t) ts
    → elem t.spec.task_id blocked ≡ false
    → open_tasks ts (t.spec.task_id ∷ blocked) < open_tasks ts blocked
unfolding open_tasks
open_tasks-falls [] t blocked m n = elim m [ ]
open_tasks-falls (u ∷ ts) t blocked (inl e) n =
    let same : u.spec.task_id ≡ t.spec.task_id = ap (λ x. x.spec.task_id) e in
    let more = open_tasks-more ts t.spec.task_id blocked in
    rw (same, n, eq_refl t.spec.task_id) (omega (arith, more))
open_tasks-falls (u ∷ ts) t blocked (inr m) n =
    let falls = open_tasks-falls ts t blocked m n in ground (arith, falls)

-- A pass changes nothing, and then the set is closed for its tasks, or blocks one task more.
spread_lem :
    (tasks ts : List TaskRecord) (blocked : List String)
    → All (λ t. Any (λ u. u ≡ t) tasks) ts
    → ((spread ts blocked ≡ blocked) × All (Closed blocked) ts)
      ⊎ (open_tasks tasks (spread ts blocked) < open_tasks tasks blocked)
spread_lem tasks [] blocked h = inl (refl, tt)
spread_lem tasks (t ∷ ts) blocked h =
    elim (Bool-cases
      (not (elem t.spec.task_id blocked) && not (disjoint t.spec.dependencies blocked))) [
        | inl e ↦
            let less = open_tasks-falls tasks t blocked h.0 (ground arith) in
            elim (spread_lem tasks ts (t.spec.task_id ∷ blocked) h.1) [
              | inl (same, _) ↦ inr (rw (e, same) less)
              | inr more ↦ inr (rw e (omega (arith, less, more)))
            ]
        | inr e ↦ elim (spread_lem tasks ts blocked h.1) [
          | inl (same, closed) ↦ inl (rw e same, (λ d. ground arith, closed))
          | inr more ↦ inr (rw e more)
        ]
      ]

spread_all-same :
    (fuel : ℕ) (tasks : List TaskRecord) (blocked : List String)
    → spread tasks blocked ≡ blocked
    → spread_all fuel tasks blocked ≡ blocked
spread_all-same zero tasks blocked e = refl
spread_all-same (suc fuel) tasks blocked e = rw e (spread_all-same fuel tasks blocked e)

spread_all-Closed :
    (fuel : ℕ) (tasks : List TaskRecord) (blocked : List String)
    → All (λ t. Any (λ u. u ≡ t) tasks) tasks
    → open_tasks tasks blocked < fuel
    → All (Closed (spread_all fuel tasks blocked)) tasks
spread_all-Closed zero tasks blocked h n = absurd (ground arith)
spread_all-Closed (suc fuel) tasks blocked h n = elim (spread_lem tasks tasks blocked h) [
  | inl (same, closed) ↦ rw (same, spread_all-same fuel tasks blocked same) closed
  | inr less ↦ spread_all-Closed fuel tasks (spread tasks blocked) h (omega (arith, less, n))
]

-- A text that two lists share.
meet :
    (xs ys : List String)
    → disjoint xs ys ≡ false
    → (d : String) × (elem d xs ≡ true) × (elem d ys ≡ true)
meet [] ys h = ground arith
meet (x ∷ xs) ys h = elim (Bool-cases (elem x ys)) [
  | inl e ↦ (x, rw (eq_refl x) refl, e)
  | inr e ↦ let (d, a, b) = meet xs ys (ground arith) in (d, ground arith, b)
]

not_disjoint :
    (d : String) (xs ys : List String)
    → elem d xs ≡ true
    → elem d ys ≡ true
    → disjoint xs ys ≡ false
not_disjoint d [] ys a b = ground arith
not_disjoint d (x ∷ xs) ys a b = ground (arith, eq_iff d x, not_disjoint d xs ys)

module _ (tasks : List TaskRecord) (failed : String) where
  spread-Blocked :
      (ts : List TaskRecord) (blocked : List String)
      → All (λ t. Any (λ u. u ≡ t) tasks) ts
      → All (Blocked tasks failed) blocked
      → All (Blocked tasks failed) (spread ts blocked)
  spread-Blocked [] blocked h b = b
  spread-Blocked (t ∷ ts) blocked h b =
      elim (Bool-cases
        (not (elem t.spec.task_id blocked) && not (disjoint t.spec.dependencies blocked))) [
          | inl e ↦
              let (d, m, n) = meet t.spec.dependencies blocked (ground arith) in
              let new =
                Blocked.dependent t d h.0 m (All-elem (Blocked tasks failed) blocked d b n) in
              rw e (spread-Blocked ts (t.spec.task_id ∷ blocked) h.1 (new, b))
          | inr e ↦ rw e (spread-Blocked ts blocked h.1 b)
        ]

  spread_all-Blocked :
      (fuel : ℕ) (blocked : List String)
      → All (Blocked tasks failed) blocked
      → All (Blocked tasks failed) (spread_all fuel tasks blocked)
  spread_all-Blocked zero blocked b = b
  spread_all-Blocked (suc fuel) blocked b =
      spread_all-Blocked fuel (spread tasks blocked)
        (spread-Blocked tasks blocked (All-own tasks) b)

  spread-keeps :
      (k : String) (ts : List TaskRecord) (blocked : List String)
      → elem k blocked ≡ true
      → elem k (spread ts blocked) ≡ true
  spread-keeps k [] blocked h = h
  spread-keeps k (t ∷ ts) blocked h = spread-keeps k ts _ (ground arith)

  spread_all-keeps :
      (k : String) (fuel : ℕ) (blocked : List String)
      → elem k blocked ≡ true
      → elem k (spread_all fuel tasks blocked) ≡ true
  spread_all-keeps k zero blocked h = h
  spread_all-keeps k (suc fuel) blocked h =
      spread_all-keeps k fuel (spread tasks blocked) (spread-keeps k tasks blocked h)

  blocked_by_complete :
      (k : String) → Blocked tasks failed k → elem k (blocked_by tasks failed) ≡ true
  unfolding blocked_by
  blocked_by_complete _ the_failed =
      spread_all-keeps failed (suc (length tasks)) (failed ∷ []) (rw (eq_refl failed) refl)
  blocked_by_complete _ (dependent t d m e b) =
      let closed =
        spread_all-Closed (suc (length tasks)) tasks (failed ∷ []) (All-own tasks)
          (omega (arith, open_tasks-bound tasks (failed ∷ []))) in
      All-at (Closed (blocked_by tasks failed)) tasks t closed m
        (not_disjoint d t.spec.dependencies (blocked_by tasks failed) e (blocked_by_complete d b))

-- The loop blocks the failed task and its dependents, direct or through other tasks, and no others.
pub blocked_by_lem :
    (tasks : List TaskRecord) (failed k : String)
    → (elem k (blocked_by tasks failed) ≡ true) ↔ Blocked tasks failed k
unfolding blocked_by
blocked_by_lem tasks failed k = (
  λ m.
      All-elem (Blocked tasks failed) (blocked_by tasks failed) k
        (spread_all-Blocked tasks failed (suc (length tasks)) (failed ∷ [])
          (Blocked.the_failed, tt))
        m,
  blocked_by_complete tasks failed k,
)
