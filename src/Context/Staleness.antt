-- ===== src/Context/Staleness.antt =====
-- A summary that `build` made, held against the digests of its sources.
use mathlib.Core.List.{Perm, map-append}
use mathlib.Core.List.Perm
use build_your_own_durable_a.Common.{
  ℕ, ◌≡◌, refl, sym, ap, ◌∙◌, Bool, true, false, not, ◌&&◌, ◌||◌, Option, some, List, [], ◌∷◌, ◌++◌,
  elem, distinct, ◌==◌, same_text, eq_iff, eq_refl, eqb, length, all, arith, Bool-cases, inl, inr,
  String,
}
use build_your_own_durable_a.Common.Dict.{Dict, keys, put, elem-keys-put}
use build_your_own_durable_a.Common.Result.{ok}
use build_your_own_durable_a.Common.Perm.{all-perm, all-append, all-keep, distinct-perm}
use build_your_own_durable_a.Common.Counting.{distinct_append, distinct_back}
use build_your_own_durable_a.Context.{
  ContextItem, SummaryRecord, ContextSnapshot, ContextBudget, Texts, item_ids, left_out,
  source_hashes, validate_summary,
}
use build_your_own_durable_a.Context.Build.{
  Build, summary_of, compress, build, stale_sources, invalidate_if_stale,
}
use build_your_own_durable_a.Context.Kept.{build-Parts, Outcome-perm}

-- The source has the digest that is on record.
abbrev is_current : (String → Option String) → String × String → Bool
is_current current (source, digest) = same_text (current source) (some digest)

abbrev pub unchanged : Texts → (String → Option String) → ContextItem → Bool
unchanged t current i = same_text (current i.item_id) (some (t.digest i.content))

stale_sources-all :
    (current : String → Option String) (d : Dict String)
    → eqb (length (stale_sources current d)) 0 ≡ all (is_current current) d
unfolding stale_sources
stale_sources-all current [] = refl
stale_sources-all current ((k, v) ∷ d) = elim (Bool-cases (same_text (current k) (some v))) [
  | inl b ↦ rw b (stale_sources-all current d)
  | inr b ↦ rw b (ground arith)
]

put-fresh :
    {V : Type 0} (k : String) (v : V) (d : Dict V)
    → elem k (keys d) ≡ false
    → put k v d ≡ d ++ (k, v) ∷ []
unfolding put
put-fresh k v [] h = refl
put-fresh k v ((j, w) ∷ d) h =
    let other : (k == j) ≡ false = ground arith in
    rw other (ap (λ r. (j, w) ∷ r) (put-fresh k v d (ground arith)))

source_hashes-all :
    (t : Texts) (q : String × String → Bool) (rs : List ContextItem) (d : Dict String)
    → distinct (item_ids rs) ≡ true
    → ((k : String) → elem k (item_ids rs) ≡ true → elem k (keys d) ≡ false)
    → all q (source_hashes t rs d) ≡ (all q d && all (λ i. q (i.item_id, t.digest i.content)) rs)
unfolding source_hashes
source_hashes-all t q [] d e f = ground arith
source_hashes-all t q (r ∷ rs) d e f =
    let k = r.item_id in
    let v = t.digest r.content in
    let fresh : elem k (keys d) ≡ false = f k (ground (arith, eq_refl k)) in
    let later =
      source_hashes-all t q rs (put k v d) (ground arith)
        (λ j m. ground (arith, f j, elem-keys-put j k v d, eq_iff j k)) in
    let here : all q (put k v d) ≡ (all q d && (q (k, v) && true)) =
      rw (put-fresh k v d fresh) (all-append q d ((k, v) ∷ [])) in
    ground (arith, later, here)

all_inside :
    (q : ContextItem → Bool) (selected : List String) (is : List ContextItem)
    → ((k : String) → elem k (item_ids is) ≡ true → elem k selected ≡ true)
    → all (λ i. not (not (elem i.item_id selected)) || q i) is ≡ true
all_inside q selected [] f = refl
all_inside q selected (i ∷ is) f =
    let later = all_inside q selected is (λ k m. f k (ground arith)) in
    let here = f i.item_id (ground (arith, eq_refl i.item_id)) in ground (arith, later, here)

all_outside :
    (q : ContextItem → Bool) (selected : List String) (is : List ContextItem)
    → ((k : String) → elem k (item_ids is) ≡ true → elem k selected ≡ false)
    → all (λ i. not (not (elem i.item_id selected)) || q i) is ≡ all q is
all_outside q selected [] f = refl
all_outside q selected (i ∷ is) f =
    let later = all_outside q selected is (λ k m. f k (ground arith)) in
    let here = f i.item_id (ground (arith, eq_refl i.item_id)) in ground (arith, later, here)

-- A test on the removed items is one on the items that the snapshot does not show.
all-left_out :
    (q : ContextItem → Bool) (items active removed : List ContextItem)
    → Perm (active ++ removed) items
    → distinct (item_ids active ++ item_ids removed) ≡ true
    → all q (left_out (item_ids active) items) ≡ all q removed
all-left_out q items active removed p d =
    let seen = item_ids active in
    let test = λ (i : ContextItem). not (not (elem i.item_id seen)) || q i in
    let moved = all-perm test p in
    let parts = all-append test active removed in
    let inside = all_inside q seen active (λ k m. m) in
    let outside =
      all_outside q seen removed (λ k m. distinct_append seen (item_ids removed) k d m) in
    let kept = all-keep (λ i. not (elem i.item_id seen)) q items in
    ground (arith, moved, parts, inside, outside, kept)

compress-eq-some :
    (t : Texts) (a : Build) (removed : List ContextItem) (maximum : ℕ) (s : SummaryRecord)
    → compress t a removed maximum ≡ ok (some s)
    → summary_of t a removed maximum ≡ s
unfolding compress validate_summary
compress-eq-some t a removed maximum s h = ground arith

invalidate_if_stale-valid :
    (reason : List String → String) (s : SummaryRecord) (current : String → Option String)
    → s.valid ≡ true
    → (invalidate_if_stale reason s current).valid ≡ all (is_current current) s.source_hashes
unfolding invalidate_if_stale
invalidate_if_stale-valid reason s current h =
    let count = stale_sources-all current s.source_hashes in
    elim (Bool-cases (eqb (length (stale_sources current s.source_hashes)) 0)) [
      | inl b ↦ rw b (cc (count, b, h))
      | inr b ↦ rw b (cc (count, b))
    ]

-- A summary that `build` returned stays valid under `invalidate_if_stale` exactly when every item
-- that the snapshot does not show still has, as its current digest, that of its content then.
pub summary_stays_valid :
    (t : Texts) (b : ContextBudget) (a : Build) (items : List ContextItem)
    (snapshot : ContextSnapshot) (summary : SummaryRecord) (reason : List String → String)
    (current : String → Option String)
    → build t b a items ≡ ok (snapshot, some summary)
    → (invalidate_if_stale reason summary current).valid
      ≡ all (unchanged t current) (left_out snapshot.item_ids items)
summary_stays_valid t b a items snapshot summary reason current h =
    let p = build-Parts t b a items snapshot (some summary) h in
    elim p.written [
      | inl nothing ↦ absurd (cc nothing)
      | inr (maximum, made) ↦
          let same = compress-eq-some t a p.removed maximum summary made in
          let valid : summary.valid ≡ true = ap (λ s. s.valid) (sym same) in
          let hashes : summary.source_hashes ≡ source_hashes t p.removed [] =
            ap (λ s. s.source_hashes) (sym same) in
          let parts = Outcome-perm b items p.active p.removed p.shape p.once in
          let once : distinct (item_ids p.active ++ item_ids p.removed) ≡ true =
            rw (← map-append (λ (i : ContextItem). i.item_id) p.active p.removed)
              (distinct-perm (Perm.map (λ i. i.item_id) parts) ∙ p.once) in
          let checked = invalidate_if_stale-valid reason summary current valid in
          let entries =
            source_hashes-all t (is_current current) p.removed []
              (distinct_back (item_ids p.active) (item_ids p.removed) once) (λ k m. refl) in
          let shown = all-left_out (unchanged t current) items p.active p.removed parts once in
          checked
          ∙ ap (all (is_current current)) hashes
          ∙ entries
          ∙ sym shown
          ∙ ap (λ ids. all (unchanged t current) (left_out ids items)) (sym p.shown)
    ]
