-- ===== src/Plan/Topological/Relax.antt =====
-- One round over the dependents of a task: which counts fall, and which tasks join the queue.
use mathlib.Core.List.{append_assoc, append-nil}
use build_your_own_durable_a.Common.{
  ℕ, ◌-◌, String, ◌≡◌, refl, sym, ◌∙◌, true, ◌&&◌, List, [], ◌∷◌, ◌++◌, ◌==◌, elem, distinct, eqb,
  leb, eq_iff, eq_refl, if◌then◌else◌, arith, Bool-cases, inl, inr,
}
use build_your_own_durable_a.Common.Counting.{count}
use build_your_own_durable_a.Plan.Order.{set_count, relax}

-- What joins the queue.
unfoldable pub joining : List String → (String → ℕ) → List String
joining [] f = []
joining (d ∷ ds) f =
    let rest = joining ds (set_count d (f d - 1) f) in if eqb (f d) 1 then d ∷ rest else rest

pub relax-joining :
    (ds : List String) (f : String → ℕ) (queue : List String)
    → (relax ds f queue).1 ≡ queue ++ joining ds f
unfolding relax joining
relax-joining [] f queue = sym (append-nil queue)
relax-joining (d ∷ ds) f queue =
    let next = set_count d (f d - 1) f in
    let q : List String = if eqb (f d) 1 then queue ++ d ∷ [] else queue in
    let same : q ++ joining ds next
        ≡ queue ++ (if eqb (f d) 1 then d ∷ joining ds next else joining ds next) =
      elim (Bool-cases (eqb (f d) 1)) [
        | inl b ↦ rw b (append_assoc queue (d ∷ []) (joining ds next))
        | inr b ↦ rw b refl
      ] in
    relax-joining ds next q ∙ same

pub relax-count :
    (ds : List String) (f : String → ℕ) (queue : List String) (k : String)
    → (relax ds f queue).0 k ≡ f k - count k ds
unfolding relax
relax-count [] f queue k = ground arith
relax-count (d ∷ ds) f queue k =
    let next = set_count d (f d - 1) f in
    let q : List String = if eqb (f d) 1 then queue ++ d ∷ [] else queue in
    ground (arith, relax-count ds next q k, eq_iff k d)

-- A task joins exactly if its count falls from above 0 to 0.
pub elem-joining :
    (ds : List String) (f : String → ℕ) (k : String)
    → elem k (joining ds f) ≡ (leb 1 (f k) && leb (f k) (count k ds))
unfolding joining
elem-joining [] f k = ground arith
elem-joining (d ∷ ds) f k =
    let later = elem-joining ds (set_count d (f d - 1) f) k in
    elim (Bool-cases (k == d)) [
      | inl b ↦ let same = (eq_iff k d).0 b in ground (arith, later, same, eq_refl k, eq_refl d, b)
      | inr b ↦ ground (arith, later, b)
    ]

pub joining-distinct : (ds : List String) (f : String → ℕ) → distinct (joining ds f) ≡ true
unfolding joining
joining-distinct [] f = refl
joining-distinct (d ∷ ds) f =
    let next = set_count d (f d - 1) f in
    let later = joining-distinct ds next in
    let here = elem-joining ds next d in ground (arith, later, here, eq_refl d)
