-- ===== src/Context/Selection.antt =====
-- What the selection does with the items: it parts them, and stays below its limit.
use mathlib.Core.List.{Perm}
use mathlib.Core.List.Perm
use mathlib.Core.List.Permᴰ
use build_your_own_durable_a.Common.{
  ℕ, ◌+◌, ◌≤◌, String, ◌≡◌, refl, ap, true, false, not, ◌||◌, List, [], ◌∷◌, ◌++◌, ◌==◌, elem,
  distinct, eq_iff, eq_refl, any, keep, arith, Bool-cases, leb, leb→le, inl, inr, All, Any, All-own,
}
use build_your_own_durable_a.Common.Perm.{any-perm, keep_congr, keep-perm}
use build_your_own_durable_a.Common.Sort.{sort, sort-perm}
use build_your_own_durable_a.Context.{
  ContextItem, must_stay, same_item, same_texts, item_before, item_ids, tokens, mandatory_items,
  optional_items, select_items, left_out,
}

same_texts_refl : (xs : List String) → same_texts xs xs ≡ true
same_texts_refl [] = refl
same_texts_refl (x ∷ xs) = ground (arith, eq_refl x, same_texts_refl xs)

same_item_refl : (i : ContextItem) → same_item i i ≡ true
unfolding same_item
same_item_refl i = ground (
  arith,
  eq_refl i.item_id,
  eq_refl i.category,
  eq_refl i.content,
  same_texts_refl i.source_refs,
  same_texts_refl i.evidence_ids,
  Bool-cases i.mandatory,
)

-- Equal items are both mandatory or both optional.
same_item-must_stay : (m i : ContextItem) → same_item m i ≡ true → must_stay m ≡ must_stay i
unfolding same_item
same_item-must_stay m i h =
    let category : m.category ≡ i.category = ground (arith, eq_iff m.category i.category) in
    let mandatory : m.mandatory ≡ i.mandatory =
      ground (arith, Bool-cases m.mandatory, Bool-cases i.mandatory) in
    ground (arith, category, mandatory)

any-optional :
    (items : List ContextItem) (i : ContextItem)
    → must_stay i ≡ false
    → any (λ m. same_item m i) (keep must_stay items) ≡ false
any-optional [] i h = refl
any-optional (j ∷ items) i h =
    let later = any-optional items i h in
    elim (Bool-cases (must_stay j)) [
      | inl b ↦ elim (Bool-cases (same_item j i)) [
        | inl e ↦ absurd (cc (b, h, same_item-must_stay j i e))
        | inr e ↦ rw (b, e) later
      ]
      | inr b ↦ rw b later
    ]

any-mandatory :
    (items : List ContextItem) (i : ContextItem)
    → Any (λ j. j ≡ i) items
    → must_stay i ≡ true
    → any (λ m. same_item m i) (keep must_stay items) ≡ true
any-mandatory [] i h s = elim h [ ]
any-mandatory (j ∷ items) i (inl e) s =
    let here : must_stay j ≡ true = rw e s in
    let same : same_item j i ≡ true = rw e (same_item_refl i) in rw (here, same) refl
any-mandatory (j ∷ items) i (inr m) s =
    let later = any-mandatory items i m s in
    elim (Bool-cases (must_stay j)) [
      | inl b ↦ rw b (elim (Bool-cases (same_item j i)) [ inl e ↦ rw e refl | inr e ↦ rw e later ])
      | inr b ↦ rw b later
    ]

-- `item not in mandatory`, for an item of the list.
not_in_mandatory :
    (items : List ContextItem) (i : ContextItem)
    → Any (λ j. j ≡ i) items
    → not (any (λ m. same_item m i) (mandatory_items items)) ≡ not (must_stay i)
not_in_mandatory items i h =
    let moved = any-perm (λ m. same_item m i) (sort-perm item_before (keep must_stay items)) in
    elim (Bool-cases (must_stay i)) [
      | inl s ↦ cc (moved, any-mandatory items i h s, s)
      | inr s ↦ cc (moved, any-optional items i s, s)
    ]

All-own_of :
    (P : ContextItem → Type 0) (xs ts : List ContextItem)
    → ((i : ContextItem) → Any (λ j. j ≡ i) xs → P i)
    → All (λ i. Any (λ j. j ≡ i) xs) ts
    → All P ts
All-own_of P xs [] f h = tt
All-own_of P xs (t ∷ ts) f h = (f t h.0, All-own_of P xs ts f h.1)

pub optional_items-keep :
    (items : List ContextItem)
    → optional_items items ≡ sort item_before (keep (λ i. not (must_stay i)) items)
optional_items-keep items = ap (sort item_before) (
    keep_congr (λ i. not (any (λ m. same_item m i) (mandatory_items items)))
      (λ i. not (must_stay i)) items
      (All-own_of _ items items (not_in_mandatory items) (All-own items)))

-- Mandatory and optional items together are the items.
pub mandatory_items-perm :
    (items : List ContextItem) → Perm (mandatory_items items ++ optional_items items) items
mandatory_items-perm items =
    let split = keep-perm must_stay items in
    rw (optional_items-keep items) (
      Perm.trans
        (Perm.append (sort-perm item_before (keep must_stay items))
          (sort-perm item_before (keep (λ i. not (must_stay i)) items)))
        split)

-- The count is that of the selected items, and stays below the limit.
pub select_items-tokens :
    (limit used : ℕ) (os : List ContextItem)
    → used ≤ limit
    → ((select_items limit used os).1 ≡ used + tokens (select_items limit used os).0)
      × ((select_items limit used os).1 ≤ limit)
unfolding select_items
select_items-tokens limit used [] h = (omega arith, h)
select_items-tokens limit used (o ∷ os) h =
    elim (Bool-cases (leb (used + o.estimated_tokens) limit)) [
      | inl b ↦
          let (sum, bound) =
            select_items-tokens limit (used + o.estimated_tokens) os (leb→le _ _ b) in
          rw b (omega (arith, sum), bound)
      | inr b ↦ rw b (select_items-tokens limit used os h)
    ]

elem-select_items :
    (k : String) (limit used : ℕ) (os : List ContextItem)
    → elem k (item_ids os) ≡ false
    → elem k (item_ids (select_items limit used os).0) ≡ false
unfolding select_items
elem-select_items k limit used [] h = refl
elem-select_items k limit used (o ∷ os) h =
    let taken = elem-select_items k limit (used + o.estimated_tokens) os in
    let skipped = elem-select_items k limit used os in
    elim (Bool-cases (leb (used + o.estimated_tokens) limit)) [
      | inl b ↦ rw b (ground (arith, taken))
      | inr b ↦ rw b (ground (arith, skipped))
    ]

-- What is selected and what is left out make up the optional items, where the test of `removed`
-- answers for these as the selected identifiers do.
pub select_items-perm :
    (selected : List String) (limit used : ℕ) (os : List ContextItem)
    → distinct (item_ids os) ≡ true
    → ((k : String)
        → elem k (item_ids os) ≡ true
        → elem k selected ≡ elem k (item_ids (select_items limit used os).0))
    → Perm ((select_items limit used os).0 ++ left_out selected os) os
unfolding select_items
select_items-perm selected limit used [] d h = Perm.refl []
select_items-perm selected limit used (o ∷ os) d h =
    let fresh : elem o.item_id (item_ids os) ≡ false = ground arith in
    let rest : distinct (item_ids os) ≡ true = ground arith in
    elim (Bool-cases (leb (used + o.estimated_tokens) limit)) [
      | inl b ↦
          let sees : (k : String)
              → elem k (o.item_id ∷ item_ids os) ≡ true
              → elem k selected ≡ (
                  k == o.item_id
                  || elem k (item_ids (select_items limit (used + o.estimated_tokens) os).0)) =
            λ k m. rw b at (h k m) in
          let gone : elem o.item_id selected ≡ true =
            ground (arith, sees o.item_id, eq_refl o.item_id) in
          rw (b, gone)
            (Perm.cons o (
              select_items-perm selected limit (used + o.estimated_tokens) os rest
                (λ k m. ground (arith, sees k, eq_iff k o.item_id))))
      | inr b ↦
          let sees : (k : String)
              → elem k (o.item_id ∷ item_ids os) ≡ true
              → elem k selected ≡ elem k (item_ids (select_items limit used os).0) =
            λ k m. rw b at (h k m) in
          let out = elem-select_items o.item_id limit used os fresh in
          let kept : elem o.item_id selected ≡ false =
            ground (arith, sees o.item_id, eq_refl o.item_id) in
          rw (b, kept)
            (Perm.trans ∣ Permᴰ.middle o (select_items limit used os).0 (left_out selected os) ∣₁ (
              Perm.cons o
                (select_items-perm selected limit used os rest (λ k m. ground (arith, sees k)))))
    ]
