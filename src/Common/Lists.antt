-- ===== src/Common/Lists.antt =====
-- Lists measured by native numbers, tests on lists, and predicates over lists by recursion.
use Prim.Native.Nat.{ℕ, zero, suc, ◌+◌, ◌≤◌}
use Prim.Native.String.{String}
use mathlib.Core.Path.{◌≡◌, refl}
use mathlib.Core.Logic.{◌⊎◌, inl, inr}
use mathlib.Core.Bool.{Bool, true, false, ◌&&◌, ◌||◌}
use mathlib.Core.List.{List, [], ◌∷◌, ◌++◌}
use mathlib.Core.Option.{Option, none, some}
use native.Mathlib.Omega.{arith}
use text.Mathlib.Text.{◌==◌}
use text.Mathlib.TextEquality.{eq_iff}
use build_your_own_durable_a.Common.Tests.{if◌then◌else◌, Bool-cases}

module _ {ℓ} {A : Type ℓ} where
  abbrev pub length : List A → ℕ
  length [] = 0
  length (x ∷ xs) = suc (length xs)

  abbrev pub take : ℕ → List A → List A
  take zero xs = []
  take (suc n) [] = []
  take (suc n) (x ∷ xs) = x ∷ take n xs

  abbrev pub any : (A → Bool) → List A → Bool
  any p [] = false
  any p (x ∷ xs) = p x || any p xs

  abbrev pub all : (A → Bool) → List A → Bool
  all p [] = true
  all p (x ∷ xs) = p x && all p xs

  -- A comprehension's `if`.
  abbrev pub keep : (A → Bool) → List A → List A
  keep p [] = []
  keep p (x ∷ xs) = let rest = keep p xs in if p x then x ∷ rest else rest

  abbrev pub find : (A → Bool) → List A → Option A
  find p [] = none
  find p (x ∷ xs) = if p x then some x else find p xs

  pub length-append : (xs ys : List A) → length (xs ++ ys) ≡ length xs + length ys
  length-append [] ys = omega arith
  length-append (x ∷ xs) ys = omega (arith, length-append xs ys)

  pub length-take-le : (n : ℕ) (xs : List A) → length (take n xs) ≤ n
  length-take-le zero xs = omega arith
  length-take-le (suc n) [] = omega arith
  length-take-le (suc n) (x ∷ xs) = omega (arith, length-take-le n xs)

module _ {ℓ} {A : Type ℓ} where
  -- Every element satisfies `P`.
  abbrev pub All : (A → Type 0) → List A → Type 0
  All P [] = Unit
  All P (x ∷ xs) = P x × All P xs

  -- Some element satisfies `P`.
  abbrev pub Any : (A → Type 0) → List A → Type 0
  Any P [] = ⊥
  Any P (x ∷ xs) = P x ⊎ Any P xs

-- Membership of a text, Python's `in` on a tuple or a set of strings.
abbrev pub elem : String → List String → Bool
elem k [] = false
elem k (x ∷ xs) = k == x || elem k xs

-- `a - b` on sets of strings is empty.
abbrev pub subset : List String → List String → Bool
subset [] b = true
subset (x ∷ xs) b = elem x b && subset xs b

-- No text stands twice: `len(value) == len(set(value))`.
abbrev pub distinct : List String → Bool
distinct [] = true
distinct (x ∷ xs) = if elem x xs then false else distinct xs

abbrev pub disjoint : List String → List String → Bool
disjoint [] b = true
disjoint (x ∷ xs) b = if elem x b then false else disjoint xs b

pub elem-append : (k : String) (xs ys : List String) → elem k (xs ++ ys) ≡ (elem k xs || elem k ys)
elem-append k [] ys = refl
elem-append k (x ∷ xs) ys = ground (arith, elem-append k xs ys)

module _ {A : Type 0} where
  pub All-weaken :
      (xs ts : List A) (x : A)
      → All (λ t. Any (λ u. u ≡ t) xs) ts
      → All (λ t. Any (λ u. u ≡ t) (x ∷ xs)) ts
  All-weaken xs [] x h = tt
  All-weaken xs (t ∷ ts) x h = (inr h.0, All-weaken xs ts x h.1)

  -- Every element is an element.
  pub All-own : (ts : List A) → All (λ t. Any (λ u. u ≡ t) ts) ts
  All-own [] = tt
  All-own (t ∷ ts) = (inl refl, All-weaken ts ts t (All-own ts))

  pub All-at : (P : A → Type 0) (ts : List A) (t : A) → All P ts → Any (λ u. u ≡ t) ts → P t
  All-at P [] t h m = elim m [ ]
  All-at P (x ∷ ts) t h (inl e) = rw (← e) h.0
  All-at P (x ∷ ts) t h (inr m) = All-at P ts t h.1 m

pub All-elem :
    (P : String → Type 0) (ks : List String) (k : String) → All P ks → elem k ks ≡ true → P k
All-elem P [] k h m = ground arith
All-elem P (x ∷ ks) k h m = elim (Bool-cases (k == x)) [
  | inl e ↦ rw ((eq_iff k x).0 e) h.0
  | inr e ↦ All-elem P ks k h.1 (ground arith)
]
