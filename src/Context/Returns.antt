-- ===== src/Context/Returns.antt =====
-- `build` never meets a validator that refuses: the snapshot fits the budget, and the summary names
-- its sources.
use build_your_own_durable_a.Common.{
  ℕ, suc, ◌+◌, ◌-◌, ◌≤◌, max, String, ◌≡◌, refl, true, false, ◌&&◌, ◌||◌, Option, none, some, List,
  [], ◌∷◌, ◌++◌, elem, distinct, length, subset, eqb, leb, ltb, leb→le, arith, Bool-cases, inl, inr,
}
use build_your_own_durable_a.Common.Dict.{Dict, keys, put, elem-keys-put, subset-intro}
use build_your_own_durable_a.Common.Result.{ok, is_ok}
use build_your_own_durable_a.Context.{
  ContextItem, SummaryRecord, ContextSnapshot, ContextBudget, Texts, available, validate_summary,
  validate_snapshot, validate_budget, item_ids, tokens, source_hashes, constraints_of,
  mandatory_items, optional_items, select_items, summary_reserve, summary_references, left_out,
}
use build_your_own_durable_a.Context.Selection.{select_items-tokens}
use build_your_own_durable_a.Context.Build.{
  Build, summary_of, compress, snapshot_of, summary_tokens, summary_id_of, build_whole,
  build_compressed, build,
}

module _ (t : Texts) where
  -- The digests are of the removed items, and of what was there before.
  elem-keys-source_hashes :
      (k : String) (rs : List ContextItem) (d : Dict String)
      → elem k (keys (source_hashes t rs d)) ≡ (elem k (item_ids rs) || elem k (keys d))
  unfolding source_hashes
  elem-keys-source_hashes k [] d = refl
  elem-keys-source_hashes k (r ∷ rs) d =
      let later = elem-keys-source_hashes k rs (put r.item_id (t.digest r.content) d) in
      let here = elem-keys-put k r.item_id (t.digest r.content) d in ground (arith, later, here)

  same_sources :
      (rs : List ContextItem)
      → (subset (keys (source_hashes t rs [])) (item_ids rs)
          && subset (item_ids rs) (keys (source_hashes t rs [])))
        ≡ true
  same_sources rs =
      let same = λ (k : String). elem-keys-source_hashes k rs [] in
      let down =
        subset-intro (keys (source_hashes t rs [])) (item_ids rs) (λ k m. ground (arith, same k)) in
      let up =
        subset-intro (item_ids rs) (keys (source_hashes t rs [])) (λ k m. ground (arith, same k)) in
      ground (arith, down, up)

  constraints_kept :
      (generation : ℕ) (rs : List ContextItem)
      → (ltb 1 generation && eqb (length (constraints_of generation rs)) 0) ≡ false
  unfolding constraints_of
  constraints_kept generation rs = ground arith

  summary_of-valid :
      (a : Build) (r : ContextItem) (rs : List ContextItem) (maximum : ℕ)
      → 1 ≤ a.generation
      → a.generation ≤ 3
      → validate_summary (summary_of t a (r ∷ rs) maximum) ≡ ok (summary_of t a (r ∷ rs) maximum)
  unfolding validate_summary
  summary_of-valid a r rs maximum low high =
      let sources = same_sources (r ∷ rs) in
      let kept = constraints_kept a.generation (r ∷ rs) in
      let bounds : (leb 1 a.generation && leb a.generation 3) ≡ true = ground arith in
      let some_source : eqb (suc (length (item_ids rs))) 0 ≡ false = ground arith in
      rw (some_source, bounds, sources, kept) refl

  -- A summary is written, or none, and it is no longer than what is left.
  pub compress_returns :
      (a : Build) (rs : List ContextItem) (maximum : ℕ)
      → 1 ≤ a.generation
      → a.generation ≤ 3
      → (s : Option SummaryRecord) × (compress t a rs maximum ≡ ok s) × (summary_tokens s ≤ maximum)
  unfolding compress
  compress_returns a [] maximum low high = (none, refl, omega arith)
  compress_returns a (r ∷ rs) maximum low high =
      let some_item : eqb (suc (length rs)) 0 ≡ false = ground arith in
      elim (Bool-cases (ltb maximum 16)) [
        | inl b ↦ (none, rw (some_item, b) refl, omega arith)
        | inr b ↦
            let valid = summary_of-valid a r rs maximum low high in
            (some (summary_of t a (r ∷ rs) maximum), rw (some_item, b, valid) refl, omega arith)
      ]

validate_snapshot-ok :
    (s : ContextSnapshot)
    → 1 ≤ s.budget_tokens
    → s.used_tokens ≤ s.budget_tokens
    → validate_snapshot s ≡ ok s
unfolding validate_snapshot
validate_snapshot-ok s h k = ground arith

budget_room : (b : ContextBudget) → validate_budget b ≡ ok b → 1 ≤ available b
unfolding validate_budget
budget_room b h = ground arith

build_whole_returns :
    (b : ContextBudget) (a : Build) (total : ℕ) (active : List ContextItem)
    → 1 ≤ available b
    → total ≤ available b
    → is_ok (build_whole b a total active) ≡ true
unfolding build_whole
build_whole_returns b a total active some_room fits =
    let valid =
      validate_snapshot-ok (snapshot_of b a total active (summary_references active) []) some_room
        fits in
    rw valid refl

-- The limit of the selection, beside the mandatory items.
abbrev pub limit_of : ContextBudget → List ContextItem → ℕ
limit_of b mandatory = max (available b - summary_reserve b) (tokens mandatory)

module _ (t : Texts) where
  pub build_compressed_returns :
      (b : ContextBudget) (a : Build) (mandatory optional : List ContextItem)
      → 1 ≤ available b
      → tokens mandatory ≤ available b
      → 1 ≤ a.generation
      → a.generation ≤ 3
      → is_ok (build_compressed t b a mandatory optional) ≡ true
  unfolding build_compressed
  build_compressed_returns b a mandatory optional some_room fits low high =
      let (sum, bound) =
        select_items-tokens (limit_of b mandatory) (tokens mandatory) optional (omega arith) in
      let used = (select_items (limit_of b mandatory) (tokens mandatory) optional).1 in
      let selected =
        mandatory ++ (select_items (limit_of b mandatory) (tokens mandatory) optional).0 in
      let removed = left_out (item_ids selected) optional in
      let (s, written, short) = compress_returns t a removed (available b - used) low high in
      let valid =
        validate_snapshot-ok
          (snapshot_of b a (used + summary_tokens s) selected
            (summary_references selected ++ summary_id_of s) removed)
          some_room (omega arith) in
      rw (written, valid) refl

  -- For a budget that its validator accepts, with the threshold below it, and a generation from 1 to
  -- 3, `build` returns exactly when the identifiers of the items are distinct and the mandatory items
  -- fit the budget: none of the validators of the models that it makes refuses them.
  pub build_returns :
      (b : ContextBudget) (a : Build) (items : List ContextItem)
      → validate_budget b ≡ ok b
      → b.compression_at ≤ available b
      → 1 ≤ a.generation
      → a.generation ≤ 3
      → is_ok (build t b a items)
        ≡ (distinct (item_ids items) && leb (tokens (mandatory_items items)) (available b))
  unfolding build
  build_returns b a items valid threshold low high =
      let some_room = budget_room b valid in
      let mandatory = mandatory_items items in
      let optional = optional_items items in
      elim (Bool-cases (distinct (item_ids items))) [
        | inr d ↦ rw d refl
        | inl d ↦ elim (Bool-cases (ltb (available b) (tokens mandatory))) [
          | inl over ↦
              let too_many : leb (tokens mandatory) (available b) ≡ false = ground arith in
              rw (d, over, too_many) refl
          | inr fits ↦
              let enough : leb (tokens mandatory) (available b) ≡ true = ground arith in
              let below = leb→le (tokens mandatory) (available b) enough in
              elim (Bool-cases (leb (tokens mandatory + tokens optional) b.compression_at)) [
                | inl small ↦
                    let whole =
                      build_whole_returns b a (tokens mandatory + tokens optional)
                        (mandatory ++ optional) some_room (omega (arith, leb→le _ _ small)) in
                    rw (d, fits, enough, small) whole
                | inr large ↦
                    let compressed =
                      build_compressed_returns b a mandatory optional some_room below low high in
                    rw (d, fits, enough, large) compressed
              ]
        ]
      ]
