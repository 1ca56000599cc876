-- ===== src/Plan/Ready.antt =====
-- domain/plan.py: `ready_tasks`.
use build_your_own_durable_a.Common.{
  String, ◌≡◌, refl, ◌↔◌, Bool, true, false, Option, none, some, List, [], ◌∷◌, ◌==◌, ltb, eqb, All,
  Any, All-at, All-weaken, if◌then◌else◌, arith, inl, inr, ◌⊎◌, Option-cases, Bool-cases, ◌≤◌,
}
use build_your_own_durable_a.Common.Result.{
  Result, ok, err, key_error, ◌>>=◌, >>=-eq-ok, Result-cases,
}
use build_your_own_durable_a.Common.Sort.{
  sort, text_leb, All-sort, Any-sort, IsSorted, Orders, sort-IsSorted,
}
use build_your_own_durable_a.Domain.Enums.{TaskState, task_state_eq}
use build_your_own_durable_a.Domain.Models.{TaskRecord}

-- by_id: of records with one ID the dict holds the last.
unfoldable pub record_of : String → List TaskRecord → Option TaskRecord
record_of k [] = none
record_of k (t ∷ ts) = elim (record_of k ts) [
  | some later ↦ some later
  | none ↦ if t.spec.task_id == k then some t else none
]

abbrev pub is_candidate : TaskState → Bool
is_candidate TaskState.pending = true
is_candidate TaskState.ready = true
is_candidate TaskState.failed_retryable = true
is_candidate _ = false

-- `all(by_id[item].state == SUCCEEDED ..)`: it stops at the first that has not succeeded, and a
-- missing ID raises a KeyError.
unfoldable pub dependencies_succeeded : List TaskRecord → List String → Result Bool
dependencies_succeeded records [] = ok true
dependencies_succeeded records (d ∷ ds) = elim (record_of d records) [
  | none ↦ err key_error
  | some t ↦
      if task_state_eq t.state TaskState.succeeded
      then dependencies_succeeded records ds
      else ok false
]

unfoldable pub select_ready : List TaskRecord → List TaskRecord → Result (List TaskRecord)
select_ready records [] = ok []
select_ready records (t ∷ ts) =
    let rest = select_ready records ts in
    if is_candidate t.state
    then (do
      done ← dependencies_succeeded records t.spec.dependencies
      chosen ← rest
      ok (if done then t ∷ chosen else chosen))
    else rest

-- The key (priority, task_id).
abbrev pub before : TaskRecord → TaskRecord → Bool
before a b =
    if ltb a.spec.priority b.spec.priority
    then true
    else if eqb a.spec.priority b.spec.priority
    then text_leb a.spec.task_id b.spec.task_id
    else false

unfoldable pub ready_tasks : List TaskRecord → Result (List TaskRecord)
ready_tasks records = do chosen ← select_ready records records; ok (sort before chosen)

-- The states from which a task may be chosen.
abbrev pub IsCandidate : TaskState → Type 0
IsCandidate x = (x ≡ TaskState.pending) ⊎ ((x ≡ TaskState.ready) ⊎ (x ≡ TaskState.failed_retryable))

is_candidate-IsCandidate : (x : TaskState) → is_candidate x ≡ true → IsCandidate x
is_candidate-IsCandidate x h = ground arith

IsCandidate-is_candidate : (x : TaskState) → IsCandidate x → is_candidate x ≡ true
IsCandidate-is_candidate x h = ground arith

-- What makes a task ready: its state, and every dependency on record and succeeded.
pub record IsReady (records : List TaskRecord) (t : TaskRecord) : Type 0 where
  pub candidate : IsCandidate t.state
  pub dependencies :
      All
        (λ d. (u : TaskRecord) × (record_of d records ≡ some u) × (u.state ≡ TaskState.succeeded))
        t.spec.dependencies

abbrev Succeeded : List TaskRecord → String → Type 0
Succeeded records d =
    (u : TaskRecord) × (record_of d records ≡ some u) × (u.state ≡ TaskState.succeeded)

-- The check returns, and says true exactly when all have succeeded, or finds an ID with no record.
dependencies_succeeded_sound :
    (records : List TaskRecord) (ds : List String)
    → dependencies_succeeded records ds ≡ ok true
    → All (Succeeded records) ds
unfolding dependencies_succeeded
dependencies_succeeded_sound records [] h = tt
dependencies_succeeded_sound records (d ∷ ds) h = elim (Option-cases (record_of d records)) [
  | inl e ↦ absurd (ground arith)
  | inr (u, e) ↦ ((u, e, ground arith), dependencies_succeeded_sound records ds (ground arith))
]

dependencies_succeeded_complete :
    (records : List TaskRecord) (ds : List String)
    → All (Succeeded records) ds
    → dependencies_succeeded records ds ≡ ok true
unfolding dependencies_succeeded
dependencies_succeeded_complete records [] h = refl
dependencies_succeeded_complete records (d ∷ ds) h =
    let (u, e, s) = h.0 in ground (arith, dependencies_succeeded_complete records ds h.1)

-- One round of the loop, taken back: the record is put on the list exactly if it is ready.
select_ready-eq-ok :
    (records ts chosen : List TaskRecord) (t : TaskRecord)
    → select_ready records (t ∷ ts) ≡ ok chosen
    → (rest : List TaskRecord) × (select_ready records ts ≡ ok rest)
      × (((chosen ≡ t ∷ rest) × IsReady records t) ⊎ ((chosen ≡ rest) × ¬ (IsReady records t)))
unfolding select_ready
select_ready-eq-ok records ts chosen t h = elim (Bool-cases (is_candidate t.state)) [
  | inr c ↦
      (chosen, ground arith, inr (refl, λ r. cc (c, IsCandidate-is_candidate t.state r.candidate)))
  | inl c ↦ elim (Result-cases (select_ready records ts)) [
    | inl (x, f) ↦ absurd (ground arith)
    | inr (rest, f) ↦ elim (Result-cases (dependencies_succeeded records t.spec.dependencies)) [
      | inl (x, e) ↦ absurd (ground arith)
      | inr (true, e) ↦ (
        rest,
        f,
        inl (
          ground arith,
          record {
            candidate = is_candidate-IsCandidate t.state c;
            dependencies = dependencies_succeeded_sound records t.spec.dependencies e;
          },
        ),
      )
      | inr (false, e) ↦ (
        rest,
        f,
        inr (
          ground arith,
          λ r. cc (e, dependencies_succeeded_complete records t.spec.dependencies r.dependencies),
        ),
      )
    ]
  ]
]

select_ready_sound :
    (records ts chosen : List TaskRecord)
    → select_ready records ts ≡ ok chosen
    → All (IsReady records) chosen
select_ready_sound records [] chosen h =
    let none_left : chosen ≡ [] = unfold select_ready in cc h in rw none_left tt
select_ready_sound records (t ∷ ts) chosen h =
    let (rest, f, which) = select_ready-eq-ok records ts chosen t h in
    let later : All (IsReady records) rest = select_ready_sound records ts rest f in
    elim which [ inl (e, r) ↦ rw e (r, later) | inr (e, n) ↦ rw e later ]

select_ready-member :
    (records ts chosen : List TaskRecord)
    → select_ready records ts ≡ ok chosen
    → All (λ t. Any (λ u. u ≡ t) ts) chosen
select_ready-member records [] chosen h =
    let none_left : chosen ≡ [] = unfold select_ready in cc h in rw none_left tt
select_ready-member records (t ∷ ts) chosen h =
    let (rest, f, which) = select_ready-eq-ok records ts chosen t h in
    let later = All-weaken ts rest t (select_ready-member records ts rest f) in
    elim which [ inl (e, r) ↦ rw e (inl refl, later) | inr (e, n) ↦ rw e later ]

select_ready_complete :
    (records ts chosen : List TaskRecord) (t : TaskRecord)
    → select_ready records ts ≡ ok chosen
    → Any (λ u. u ≡ t) ts
    → IsReady records t
    → Any (λ u. u ≡ t) chosen
select_ready_complete records [] chosen t h m r = elim m [ ]
select_ready_complete records (u ∷ ts) chosen t h m r =
    let (rest, f, which) = select_ready-eq-ok records ts chosen u h in
    elim which [
      | inl (e, ready) ↦ rw e (elim m [
        | inl same ↦ inl same
        | inr later ↦ inr (select_ready_complete records ts rest t f later r)
      ])
      | inr (e, n) ↦ rw e (elim m [
        | inl same ↦ absurd (n (rw same r))
        | inr later ↦ select_ready_complete records ts rest t f later r
      ])
    ]

abbrev pub NoLater : TaskRecord → TaskRecord → Type 0
NoLater a b = a.spec.priority ≤ b.spec.priority

before-Orders : Orders NoLater before
before-Orders = record {
  yes_case = λ a b h. ground arith;
  no_case = λ a b h. ground arith;
  trans = λ a b c h k. omega arith;
}

-- Where `ready_tasks` returns, it returns exactly the records that are pending, ready or failed
-- retryably and whose dependencies have all succeeded, in the order of priority; the attempts made and
-- the bound on them play no part.
pub ready_tasks_lem :
    (records chosen : List TaskRecord) (t : TaskRecord)
    → ready_tasks records ≡ ok chosen
    → (Any (λ u. u ≡ t) chosen ↔ (Any (λ u. u ≡ t) records × IsReady records t))
      × IsSorted NoLater chosen
unfolding ready_tasks
ready_tasks_lem records chosen t h =
    let (found, f, e) = >>=-eq-ok (select_ready records records) (λ c. ok (sort before c)) h in
    let same : chosen ≡ sort before found = cc e in
    let member =
      All-sort (λ u. Any (λ v. v ≡ u) records) before found
        (select_ready-member records records found f) in
    let ready =
      All-sort (IsReady records) before found (select_ready_sound records records found f) in
    rw same (
      (
        λ m. (
          All-at (λ u. Any (λ v. v ≡ u) records) (sort before found) t member m,
          All-at (IsReady records) (sort before found) t ready m,
        ),
        λ k.
            Any-sort (λ u. u ≡ t) before found
              (select_ready_complete records records found t f k.0 k.1),
      ),
      sort-IsSorted NoLater before found before-Orders,
    )
