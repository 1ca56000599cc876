-- ===== src/Context/Kept.antt =====
-- What `build` keeps: every item is in the snapshot or among the removed, and those that must stay
-- are in the snapshot.
use mathlib.Core.List.{Perm, map-append, append_assoc}
use mathlib.Core.List.Perm
use mathlib.Core.List.Permᴰ
use build_your_own_durable_a.Common.{
  ℕ, ◌+◌, ◌-◌, ◌≡◌, sym, ap, ◌⊎◌, Bool, true, Option, none, List, [], ◌∷◌, ◌++◌, elem, elem-append,
  distinct, eq_refl, eqb, leb, ltb, keep, arith, Bool-cases, inl, inr, String, Any,
}
use build_your_own_durable_a.Common.Result.{ok, Result-cases}
use build_your_own_durable_a.Context.{
  ContextItem, SummaryRecord, ContextSnapshot, ContextBudget, Texts, available, must_stay,
  validate_snapshot, item_ids, tokens, mandatory_items, optional_items, select_items, item_before,
  summary_references, left_out,
}
use build_your_own_durable_a.Context.Build.{
  Build, compress, snapshot_of, summary_tokens, summary_id_of, build_whole, build_compressed, build,
}
use build_your_own_durable_a.Common.Counting.{distinct_append, distinct_back}
use build_your_own_durable_a.Common.Sort.{Any-sort}
use build_your_own_durable_a.Common.Perm.{distinct-perm}
use build_your_own_durable_a.Context.Returns.{limit_of}
use build_your_own_durable_a.Context.Selection.{mandatory_items-perm, select_items-perm}

validate_snapshot-eq-ok : (s u : ContextSnapshot) → validate_snapshot s ≡ ok u → s ≡ u
unfolding validate_snapshot
validate_snapshot-eq-ok s u h = elim (Bool-cases (eqb s.budget_tokens 0)) [
  | inl b ↦ absurd (ground arith)
  | inr b ↦ elim (Bool-cases (ltb s.budget_tokens s.used_tokens)) [
    | inl c ↦ absurd (ground arith)
    | inr c ↦ cc (rw (b, c) at h)
  ]
]

build_whole-eq-ok :
    (b : ContextBudget) (a : Build) (total : ℕ) (active : List ContextItem)
    (snapshot : ContextSnapshot) (summary : Option SummaryRecord)
    → build_whole b a total active ≡ ok (snapshot, summary)
    → (snapshot_of b a total active (summary_references active) [] ≡ snapshot) × (summary ≡ none)
unfolding build_whole
build_whole-eq-ok b a total active snapshot summary h =
    let made = snapshot_of b a total active (summary_references active) [] in
    elim (Result-cases (validate_snapshot made)) [
      | inl (x, e) ↦ absurd (cc (rw e at h))
      | inr (u, e) ↦
          let same = validate_snapshot-eq-ok made u e in
          let out : ok (u, none) ≡ ok (snapshot, summary) = rw e at h in (cc (same, out), cc out)
    ]

-- What the loop selects of the optional items.
abbrev pub chosen_items : ContextBudget → List ContextItem → List ContextItem
chosen_items b items =
    (select_items (limit_of b (mandatory_items items)) (tokens (mandatory_items items))
      (optional_items items)).0

-- The two ways a build ends.
pub data Outcome (b : ContextBudget) (items : List ContextItem)
    : List ContextItem → List ContextItem → Type 0 where
  whole : Outcome b items (mandatory_items items ++ optional_items items) []
  compressed :
      Outcome b items
        (mandatory_items items ++ chosen_items b items)
        (left_out (item_ids (mandatory_items items ++ chosen_items b items)) (optional_items items))

pub record Parts (t : Texts) (b : ContextBudget) (a : Build) (items : List ContextItem)
    (snapshot : ContextSnapshot) (summary : Option SummaryRecord) : Type 0 where
  pub active : List ContextItem
  pub removed : List ContextItem
  pub shape : Outcome b items active removed
  pub once : distinct (item_ids items) ≡ true
  pub shown : snapshot.item_ids ≡ item_ids active
  pub dropped : snapshot.removed_item_ids ≡ item_ids removed
  pub written : (summary ≡ none) ⊎ ((maximum : ℕ) × (compress t a removed maximum ≡ ok summary))

build_compressed-eq-ok :
    (t : Texts) (b : ContextBudget) (a : Build) (items : List ContextItem)
    (snapshot : ContextSnapshot) (summary : Option SummaryRecord)
    → build_compressed t b a (mandatory_items items) (optional_items items) ≡ ok (snapshot, summary)
    → (used maximum : ℕ) × let active = mandatory_items items ++ chosen_items b items in
        let removed = left_out (item_ids active) (optional_items items) in
        (compress t a removed maximum ≡ ok summary)
        × (snapshot_of b a used active (summary_references active ++ summary_id_of summary) removed
            ≡ snapshot)
unfolding build_compressed
build_compressed-eq-ok t b a items snapshot summary h =
    let mandatory = mandatory_items items in
    let used = (select_items (limit_of b mandatory) (tokens mandatory) (optional_items items)).1 in
    let active = mandatory ++ chosen_items b items in
    let removed = left_out (item_ids active) (optional_items items) in
    let maximum = available b - used in
    elim (Result-cases (compress t a removed maximum)) [
      | inl (x, e) ↦ absurd (cc (rw e at h))
      | inr (s, e) ↦
          let made =
            snapshot_of b a (used + summary_tokens s) active
              (summary_references active ++ summary_id_of s) removed in
          elim (Result-cases (validate_snapshot made)) [
            | inl (x, f) ↦ absurd (cc (rw (e, f) at h))
            | inr (u, f) ↦
                let same = validate_snapshot-eq-ok made u f in
                let out : ok (u, s) ≡ ok (snapshot, summary) = rw (e, f) at h in
                let kept : s ≡ summary = cc out in
                (used + summary_tokens s, maximum, (cc (e, kept), rw (← kept) (cc (same, out))))
          ]
    ]

pub build-Parts :
    (t : Texts) (b : ContextBudget) (a : Build) (items : List ContextItem)
    (snapshot : ContextSnapshot) (summary : Option SummaryRecord)
    → build t b a items ≡ ok (snapshot, summary)
    → Parts t b a items snapshot summary
unfolding build
build-Parts t b a items snapshot summary h = elim (Bool-cases (distinct (item_ids items))) [
  | inr d ↦ absurd (cc (rw d at h))
  | inl d ↦ elim (Bool-cases (ltb (available b) (tokens (mandatory_items items)))) [
    | inl over ↦ absurd (cc (rw (d, over) at h))
    | inr fits ↦
        let total = tokens (mandatory_items items) + tokens (optional_items items) in
        elim (Bool-cases (leb total b.compression_at)) [
          | inl small ↦
              let (same, nothing) =
                build_whole-eq-ok b a total (mandatory_items items ++ optional_items items) snapshot
                  summary (rw (d, fits, small) at h) in
              record {
                active = _;
                removed = [];
                shape = whole;
                once = d;
                shown = ap (λ s. s.item_ids) (sym same);
                dropped = ap (λ s. s.removed_item_ids) (sym same);
                written = inl nothing;
              }
          | inr large ↦
              let (used, maximum, (made, same)) =
                build_compressed-eq-ok t b a items snapshot summary (rw (d, fits, large) at h) in
              record {
                active = _;
                removed = _;
                shape = compressed;
                once = d;
                shown = ap (λ s. s.item_ids) (sym same);
                dropped = ap (λ s. s.removed_item_ids) (sym same);
                written = inr (maximum, made);
              }
        ]
  ]
]

-- What is active and what is removed are the items.
pub Outcome-perm :
    (b : ContextBudget) (items active removed : List ContextItem)
    → Outcome b items active removed
    → distinct (item_ids items) ≡ true
    → Perm (active ++ removed) items
Outcome-perm b items _ _ whole d =
    Perm.trans ∣ Permᴰ.append-nil (mandatory_items items ++ optional_items items) ∣₁
      (mandatory_items-perm items)
Outcome-perm b items _ _ compressed d =
    let mandatory = mandatory_items items in
    let optional = optional_items items in
    let all_ids : distinct (item_ids mandatory ++ item_ids optional) ≡ true =
      rw (← map-append (λ (i : ContextItem). i.item_id) mandatory optional)
        (cc (distinct-perm (Perm.map (λ i. i.item_id) (mandatory_items-perm items)), d)) in
    let chosen = chosen_items b items in
    let parts =
      select_items-perm (item_ids (mandatory ++ chosen)) (limit_of b mandatory) (tokens mandatory)
        optional (distinct_back (item_ids mandatory) (item_ids optional) all_ids)
        (λ k m.
          let out = distinct_append (item_ids mandatory) (item_ids optional) k all_ids m in
          rw (map-append (λ (i : ContextItem). i.item_id) mandatory chosen)
            (ground (arith, elem-append k (item_ids mandatory) (item_ids chosen), out))) in
    rw (append_assoc mandatory chosen (left_out (item_ids (mandatory ++ chosen)) optional))
      (Perm.trans (Perm.append_left mandatory parts) (mandatory_items-perm items))

-- When `build` returns, the identifiers in the snapshot and those that it removed are, in some
-- order, the identifiers of the items, each as often as it was given.
pub build-perm :
    (t : Texts) (b : ContextBudget) (a : Build) (items : List ContextItem)
    (snapshot : ContextSnapshot) (summary : Option SummaryRecord)
    → build t b a items ≡ ok (snapshot, summary)
    → Perm (snapshot.item_ids ++ snapshot.removed_item_ids) (item_ids items)
build-perm t b a items snapshot summary h =
    let p = build-Parts t b a items snapshot summary h in
    rw (p.shown, p.dropped, ← map-append (λ (i : ContextItem). i.item_id) p.active p.removed)
      (Perm.map (λ i. i.item_id) (Outcome-perm b items p.active p.removed p.shape p.once))

elem-item_ids :
    (items : List ContextItem) (i : ContextItem)
    → Any (λ j. j ≡ i) items
    → elem i.item_id (item_ids items) ≡ true
elem-item_ids [] i m = elim m [ ]
elem-item_ids (j ∷ items) i (inl e) =
    let same : j.item_id ≡ i.item_id = ap (λ x. x.item_id) e in
    ground (arith, same, eq_refl i.item_id)
elem-item_ids (j ∷ items) i (inr m) = ground (arith, elem-item_ids items i m)

Any-keep :
    (p : ContextItem → Bool) (items : List ContextItem) (i : ContextItem)
    → Any (λ j. j ≡ i) items
    → p i ≡ true
    → Any (λ j. j ≡ i) (keep p items)
Any-keep p [] i m h = m
Any-keep p (j ∷ items) i (inl e) h = let here : p j ≡ true = rw e h in rw here (inl e)
Any-keep p (j ∷ items) i (inr m) h =
    let later = Any-keep p items i m h in
    elim (Bool-cases (p j)) [ inl b ↦ rw b (inr later) | inr b ↦ rw b later ]

Outcome-mandatory :
    (b : ContextBudget) (items active removed : List ContextItem) (k : String)
    → Outcome b items active removed
    → elem k (item_ids (mandatory_items items)) ≡ true
    → elem k (item_ids active) ≡ true
Outcome-mandatory b items _ _ k whole m =
    rw (map-append (λ (i : ContextItem). i.item_id) (mandatory_items items) (optional_items items))
      (ground
        (arith, elem-append k (item_ids (mandatory_items items)) (item_ids (optional_items items))))
Outcome-mandatory b items _ _ k compressed m =
    rw (map-append (λ (i : ContextItem). i.item_id) (mandatory_items items) (chosen_items b items))
      (ground
        (arith, elem-append k (item_ids (mandatory_items items)) (item_ids (chosen_items b items))))

-- When `build` returns, each item that is mandatory or of a preserved category is in the snapshot.
pub build_keeps_mandatory :
    (t : Texts) (b : ContextBudget) (a : Build) (items : List ContextItem)
    (snapshot : ContextSnapshot) (summary : Option SummaryRecord) (i : ContextItem)
    → build t b a items ≡ ok (snapshot, summary)
    → Any (λ j. j ≡ i) items
    → must_stay i ≡ true
    → elem i.item_id snapshot.item_ids ≡ true
build_keeps_mandatory t b a items snapshot summary i h m s =
    let p = build-Parts t b a items snapshot summary h in
    let kept =
      Any-sort (λ j. j ≡ i) item_before (keep must_stay items) (Any-keep must_stay items i m s) in
    rw p.shown (
      Outcome-mandatory b items p.active p.removed i.item_id p.shape
        (elem-item_ids (mandatory_items items) i kept))
