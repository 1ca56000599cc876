-- ===== src/Plan/Topological/Loop.antt =====
-- The `while queue` loop: its invariant, and that it ends within as many rounds as there are tasks.
use mathlib.Core.List.{append_assoc, append-nil}
use build_your_own_durable_a.Common.{
  ℕ, zero, suc, ◌+◌, String, ◌≡◌, refl, sym, ◌∙◌, Bool, true, false, ◌&&◌, List, [], ◌∷◌, ◌++◌,
  elem, elem-append, distinct, length, length-append, subset, eqb, leb, eq_refl, arith, inl, inr,
  ◌⊎◌,
}
use build_your_own_durable_a.Common.Counting.{
  count, missing, missing_more, subset_of_missing, count-sort, distinct_append, distinct_append_of,
}
use build_your_own_durable_a.Common.Sort.{sort, text_leb}
use build_your_own_durable_a.Plan.Order.{relax, drain}
use build_your_own_durable_a.Plan.Topological.Relax.{
  joining, relax-joining, relax-count, elem-joining, joining-distinct,
}

-- Each ID stands behind all its dependencies, those before the list among them.
abbrev pub is_ordered : (String → List String) → List String → List String → Bool
is_ordered deps seen [] = true
is_ordered deps seen (k ∷ ks) = subset (deps k) seen && is_ordered deps (seen ++ k ∷ []) ks

is_ordered-append :
    (deps : String → List String) (seen ks : List String) (t : String)
    → is_ordered deps seen ks ≡ true
    → subset (deps t) (seen ++ ks) ≡ true
    → is_ordered deps seen (ks ++ t ∷ []) ≡ true
is_ordered-append deps seen [] t o s =
    let here : subset (deps t) seen ≡ true = rw (append-nil seen) at s in ground (arith, here)
is_ordered-append deps seen (k ∷ ks) t o s =
    let later =
      is_ordered-append deps (seen ++ k ∷ []) ks t (ground arith)
        (rw (append_assoc seen (k ∷ []) ks) s) in
    ground (arith, later)

-- The edges that the loop follows: `deps k` for a task `k`, and none for another text.
module _ (ids : List String) (deps dependents : String → List String)
    (edges : (d k : String) → count k (dependents d) ≡ count d (deps k))
    (own : (k : String) → elem k ids ≡ false → deps k ≡ []) where
  pub record Inv (queue : List String) (f : String → ℕ) (result : List String) : Type 0 where
    pub counts : (k : String) → f k ≡ missing result (deps k)
    pub reached :
        (k : String) → elem k (result ++ queue) ≡ (elem k ids && eqb (missing result (deps k)) 0)
    pub once : distinct (result ++ queue) ≡ true
    pub ordered : is_ordered deps [] result ≡ true

  own-missing :
      (k : String) (result : List String) → elem k ids ≡ false → missing result (deps k) ≡ 0
  own-missing k result h = rw (own k h) refl

  -- One round, with `t` at the head of the queue.
  round-Inv :
      (t : String) (queue result : List String) (f : String → ℕ)
      → Inv (t ∷ queue) f result
      → let next = relax (sort text_leb (dependents t)) f queue in
        Inv next.1 next.0 (result ++ t ∷ [])
  round-Inv t queue result f h =
      let ds = sort text_leb (dependents t) in
      let new = joining ds f in
      let result' = result ++ t ∷ [] in
      let fresh : elem t result ≡ false =
        distinct_append result (t ∷ queue) t h.once (ground (arith, eq_refl t)) in
      let falls : (k : String) → missing result' (deps k) + count k ds ≡ missing result (deps k) =
        λ k. omega (
          arith,
          missing_more result (deps k) t fresh,
          count-sort k text_leb (dependents t),
          edges t k,
        ) in
      let moved : result' ++ (queue ++ new) ≡ (result ++ t ∷ queue) ++ new =
        append_assoc result (t ∷ []) (queue ++ new) ∙ sym (append_assoc result (t ∷ queue) new) in
      let joined : (k : String)
          → elem k new
            ≡ (leb 1 (missing result (deps k)) && leb (missing result (deps k)) (count k ds)) =
        λ k. rw (← h.counts k) (elem-joining ds f k) in
      let done : elem t (result ++ t ∷ queue) ≡ true =
        ground (arith, elem-append t result (t ∷ queue), eq_refl t) in
      let ready : missing result (deps t) ≡ 0 = ground (arith, done, h.reached t) in
      rw (relax-joining ds f queue) record {
        counts = λ k. omega (arith, relax-count ds f queue k, h.counts k, falls k);
        reached = λ k.
            rw (moved, elem-append k (result ++ t ∷ queue) new)
              (ground (arith, h.reached k, joined k, falls k, own-missing k result));
        once = rw moved (
            distinct_append_of (result ++ t ∷ queue) new h.once (joining-distinct ds f)
              (λ k m. ground (arith, h.reached k, joined k)));
        ordered =
            is_ordered-append deps [] result t h.ordered (subset_of_missing result (deps t) ready);
      }

  -- How the loop ends: with nothing left on the queue, or with as many results as there are tasks.
  pub record Ended (result : List String) : Type 0 where
    pub queue : List String
    pub indegree : String → ℕ
    pub kept : Inv queue indegree result
    pub over : (queue ≡ []) ⊎ (length result ≡ length ids)

  pub drain-Ended :
      (fuel : ℕ) (queue : List String) (f : String → ℕ) (result : List String)
      → Inv queue f result
      → length result + fuel ≡ length ids
      → Ended (drain fuel dependents queue f result)
  unfolding drain
  drain-Ended zero queue f result h n = record {
    queue = queue;
    indegree = f;
    kept = h;
    over = inr (omega arith);
  }
  drain-Ended (suc fuel) [] f result h n = record {
    queue = [];
    indegree = f;
    kept = h;
    over = inl refl;
  }
  drain-Ended (suc fuel) (t ∷ queue) f result h n =
      let next = relax (sort text_leb (dependents t)) f queue in
      drain-Ended fuel next.1 next.0 (result ++ t ∷ []) (round-Inv t queue result f h)
        (omega (arith, n, length-append result (t ∷ [])))
