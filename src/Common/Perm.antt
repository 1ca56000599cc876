-- ===== src/Common/Perm.antt =====
-- Rearrangements of lists: what tests on lists do not see, and the two halves of a list that a test
-- makes.
use mathlib.Core.Logic.{∥∥₁_elim}
use mathlib.Core.Bool.{Bool-set}
use mathlib.Core.List.{Permᴰ}
use mathlib.Core.List.Permᴰ
use mathlib.Core.List.{Perm}
use mathlib.Core.List.Perm
use build_your_own_durable_a.Common.{
  String, ◌≡◌, refl, ap, ◌∙◌, Bool, not, ◌&&◌, ◌||◌, List, [], ◌∷◌, ◌++◌, elem, distinct, eq_iff,
  all, any, keep, arith, Bool-cases, inl, inr, All,
}

elem-permᴰ : (k : String) {xs ys : List String} → Permᴰ xs ys → elem k xs ≡ elem k ys
elem-permᴰ k Permᴰ.nil = refl
elem-permᴰ k (Permᴰ.cons e d) = let later = elem-permᴰ k d in ground (arith, e, later)
elem-permᴰ k (Permᴰ.swap e f) = ground (arith, e, f)
elem-permᴰ k (Permᴰ.trans d c) = elem-permᴰ k d ∙ elem-permᴰ k c

pub elem-perm : (k : String) {xs ys : List String} → Perm xs ys → elem k xs ≡ elem k ys
elem-perm k p = ∥∥₁_elim p (Bool-set _ _) (elem-permᴰ k)

distinct-permᴰ : {xs ys : List String} → Permᴰ xs ys → distinct xs ≡ distinct ys
distinct-permᴰ Permᴰ.nil = refl
distinct-permᴰ (Permᴰ.cons {b} e d) =
    let here = elem-permᴰ b d in let later = distinct-permᴰ d in ground (arith, e, here, later)
distinct-permᴰ (Permᴰ.swap {a} {b} {a'} {b'} e f) =
    ground (arith, e, f, eq_iff a b, eq_iff b a, eq_iff a' b', eq_iff b' a')
distinct-permᴰ (Permᴰ.trans d c) = distinct-permᴰ d ∙ distinct-permᴰ c

pub distinct-perm : {xs ys : List String} → Perm xs ys → distinct xs ≡ distinct ys
distinct-perm p = ∥∥₁_elim p (Bool-set _ _) distinct-permᴰ

module _ {A : Type 0} where
  all-permᴰ : (p : A → Bool) {xs ys : List A} → Permᴰ xs ys → all p xs ≡ all p ys
  all-permᴰ p Permᴰ.nil = refl
  all-permᴰ p (Permᴰ.cons {a} {b} e d) =
      let later = all-permᴰ p d in let same : p a ≡ p b = ap p e in ground (arith, same, later)
  all-permᴰ p (Permᴰ.swap {a} {b} {a'} {b'} e f) =
      let one : p a ≡ p b' = ap p e in let two : p b ≡ p a' = ap p f in ground (arith, one, two)
  all-permᴰ p (Permᴰ.trans d c) = all-permᴰ p d ∙ all-permᴰ p c

  pub all-perm : (p : A → Bool) {xs ys : List A} → Perm xs ys → all p xs ≡ all p ys
  all-perm p h = ∥∥₁_elim h (Bool-set _ _) (all-permᴰ p)

  any-permᴰ : (p : A → Bool) {xs ys : List A} → Permᴰ xs ys → any p xs ≡ any p ys
  any-permᴰ p Permᴰ.nil = refl
  any-permᴰ p (Permᴰ.cons {a} {b} e d) =
      let later = any-permᴰ p d in let same : p a ≡ p b = ap p e in ground (arith, same, later)
  any-permᴰ p (Permᴰ.swap {a} {b} {a'} {b'} e f) =
      let one : p a ≡ p b' = ap p e in let two : p b ≡ p a' = ap p f in ground (arith, one, two)
  any-permᴰ p (Permᴰ.trans d c) = any-permᴰ p d ∙ any-permᴰ p c

  pub any-perm : (p : A → Bool) {xs ys : List A} → Perm xs ys → any p xs ≡ any p ys
  any-perm p h = ∥∥₁_elim h (Bool-set _ _) (any-permᴰ p)

  pub all-append : (p : A → Bool) (xs ys : List A) → all p (xs ++ ys) ≡ (all p xs && all p ys)
  all-append p [] ys = refl
  all-append p (x ∷ xs) ys = let later = all-append p xs ys in ground (arith, later)

  -- Tests that agree on the elements keep the same of them.
  pub keep_congr : (p q : A → Bool) (xs : List A) → All (λ x. p x ≡ q x) xs → keep p xs ≡ keep q xs
  keep_congr p q [] h = refl
  keep_congr p q (x ∷ xs) h = let later = keep_congr p q xs h.1 in ground (arith, h.0, later)

  -- What passes a test, then what fails it.
  pub keep-perm : (p : A → Bool) (xs : List A) → Perm (keep p xs ++ keep (λ x. not (p x)) xs) xs
  keep-perm p [] = Perm.refl []
  keep-perm p (x ∷ xs) = elim (Bool-cases (p x)) [
    | inl b ↦ rw b (Perm.cons x (keep-perm p xs))
    | inr b ↦ rw b (Perm.trans ∣ Permᴰ.middle x (keep p xs) _ ∣₁ (Perm.cons x (keep-perm p xs)))
  ]

  pub all-keep : (p q : A → Bool) (xs : List A) → all q (keep p xs) ≡ all (λ x. not (p x) || q x) xs
  all-keep p q [] = refl
  all-keep p q (x ∷ xs) = let later = all-keep p q xs in ground (arith, later)
