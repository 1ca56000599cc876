-- ===== src/Orchestrator/Batch.antt =====
-- `_select_batch` of orchestration/orchestrator.py keeps the order of the candidates.
use build_your_own_durable_a.Common.{
  ℕ, ◌≤◌, ◌-◌, max, ◌≡◌, refl, ◌⊎◌, inl, inr, true, Option, some, List, [], ◌∷◌, ◌++◌, All, length,
  arith, Bool-cases, leb, not, ◌||◌,
}
use build_your_own_durable_a.Domain.Models.{TaskRecord}
use build_your_own_durable_a.Orchestrator.{select_batch, batch_limit, parallel_prefix}

abbrev pub IsParallel : TaskRecord → Type 0
IsParallel t = t.spec.parallelizable ≡ true

parallel_prefix_lem :
    (room : ℕ) (cs : List TaskRecord)
    → (length (parallel_prefix room cs) ≤ room)
      × All IsParallel (parallel_prefix room cs)
      × ((rest : List TaskRecord) × (parallel_prefix room cs ++ rest ≡ cs))
parallel_prefix_lem room [] = (omega arith, tt, ([], refl))
parallel_prefix_lem room (c ∷ cs) =
    let (short, parallel, (rest, e)) = parallel_prefix_lem (room - 1) cs in
    elim (Bool-cases (leb room 0 || not c.spec.parallelizable)) [
      | inl stop ↦ rw stop (omega arith, tt, (c ∷ cs, refl))
      | inr go ↦ rw go (ground arith, (ground arith, parallel), (rest, ground arith))
    ]

-- A batch is a nonempty prefix of the candidates, no longer than the concurrency and the tasks that
-- are left allow unless it is one task; a batch of several has only tasks that may run in parallel.
pub select_batch_lem :
    (concurrency executed : ℕ) (candidates batch : List TaskRecord) (maximum_tasks : Option ℕ)
    → select_batch concurrency candidates executed maximum_tasks ≡ some batch
    → (1 ≤ length batch)
      × (length batch ≤ max 1 (batch_limit concurrency executed maximum_tasks))
      × ((length batch ≡ 1) ⊎ All IsParallel batch)
      × ((rest : List TaskRecord) × (batch ++ rest ≡ candidates))
unfolding select_batch
select_batch_lem concurrency executed [] batch maximum_tasks h = ground arith
select_batch_lem concurrency executed (first ∷ cs) batch maximum_tasks h =
    let limit = batch_limit concurrency executed maximum_tasks in
    elim (Bool-cases (leb limit 1 || not first.spec.parallelizable)) [
      | inl serial ↦
          let e : batch ≡ first ∷ [] = ground arith in
          rw e (omega arith, omega arith, inl refl, (cs, refl))
      | inr parallel ↦
          let e : batch ≡ parallel_prefix limit (first ∷ cs) = ground arith in
          let (short, all_parallel, (rest, p)) = parallel_prefix_lem limit (first ∷ cs) in
          rw e (ground arith, omega arith, inr all_parallel, (rest, p))
    ]
