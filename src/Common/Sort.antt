-- ===== src/Common/Sort.antt =====
-- Python's `sorted`, stable, under a test that says when `a` may stand before `b`.
use Prim.Native.Nat.{Ordering}
use Prim.Native.String.{compare}
use mathlib.Core.List.{Perm}
use mathlib.Core.List.Perm
use build_your_own_durable_a.Common.{
  String, ◌≡◌, refl, Bool, true, false, ◌||◌, List, [], ◌∷◌, ◌==◌, elem, if◌then◌else◌, arith, All,
  Any, ◌⊎◌, Bool-cases, inl, inr,
}

-- The order of texts by code points.
unfoldable pub text_leb : String → String → Bool
text_leb a b = elim (compare a b) [ Ordering.gt ↦ false | _ ↦ true ]

module _ {ℓ} {A : Type ℓ} where
  unfoldable pub insert_sorted : (A → A → Bool) → A → List A → List A
  insert_sorted before x [] = x ∷ []
  insert_sorted before x (y ∷ ys) = if before x y then x ∷ y ∷ ys else y ∷ insert_sorted before x ys

  unfoldable pub sort : (A → A → Bool) → List A → List A
  unfolding insert_sorted
  sort before [] = []
  sort before (x ∷ xs) = insert_sorted before x (sort before xs)

  insert_sorted-perm :
      (before : A → A → Bool) (x : A) (ys : List A) → Perm (insert_sorted before x ys) (x ∷ ys)
  unfolding insert_sorted
  insert_sorted-perm before x [] = Perm.refl (x ∷ [])
  insert_sorted-perm before x (y ∷ ys) = elim (Bool-cases (before x y)) [
    | inl b ↦ rw b (Perm.refl (x ∷ y ∷ ys))
    | inr b ↦ rw b (Perm.trans (Perm.cons y (insert_sorted-perm before x ys)) (Perm.swap x y ys))
  ]

  pub sort-perm : (before : A → A → Bool) (xs : List A) → Perm (sort before xs) xs
  unfolding sort
  sort-perm before [] = Perm.refl []
  sort-perm before (x ∷ xs) =
      Perm.trans (insert_sorted-perm before x (sort before xs)) (Perm.cons x (sort-perm before xs))

  All-insert_sorted :
      (P : A → Type 0) (before : A → A → Bool) (x : A) (ys : List A)
      → P x
      → All P ys
      → All P (insert_sorted before x ys)
  unfolding insert_sorted
  All-insert_sorted P before x [] p h = (p, tt)
  All-insert_sorted P before x (y ∷ ys) p h = elim (Bool-cases (before x y)) [
    | inl b ↦ rw b (p, (h.0, h.1))
    | inr b ↦ rw b (h.0, All-insert_sorted P before x ys p h.1)
  ]

  pub All-sort :
      (P : A → Type 0) (before : A → A → Bool) (xs : List A) → All P xs → All P (sort before xs)
  unfolding sort
  All-sort P before [] h = tt
  All-sort P before (x ∷ xs) h =
      All-insert_sorted P before x (sort before xs) h.0 (All-sort P before xs h.1)

module _ {A : Type 0} where
  Any-insert_sorted :
      (P : A → Type 0) (before : A → A → Bool) (x : A) (ys : List A)
      → P x ⊎ Any P ys
      → Any P (insert_sorted before x ys)
  unfolding insert_sorted
  Any-insert_sorted P before x [] h = h
  Any-insert_sorted P before x (y ∷ ys) h = elim (Bool-cases (before x y)) [
    | inl b ↦ rw b h
    | inr b ↦ rw b (elim h [
      | inl p ↦ inr (Any-insert_sorted P before x ys (inl p))
      | inr (inl p) ↦ inl p
      | inr (inr p) ↦ inr (Any-insert_sorted P before x ys (inr p))
    ])
  ]

  pub Any-sort :
      (P : A → Type 0) (before : A → A → Bool) (xs : List A) → Any P xs → Any P (sort before xs)
  unfolding sort
  Any-sort P before [] h = h
  Any-sort P before (x ∷ xs) h =
      Any-insert_sorted P before x (sort before xs)
        (elim h [ inl p ↦ inl p | inr p ↦ inr (Any-sort P before xs p) ])

  -- Each element stands in the relation `R` to all behind it.
  abbrev pub IsSorted : (A → A → Type 0) → List A → Type 0
  IsSorted R [] = Unit
  IsSorted R (x ∷ xs) = All (R x) xs × IsSorted R xs

  -- A transitive relation that the test decides one way or the other.
  pub record Orders (R : A → A → Type 0) (before : A → A → Bool) : Type 0 where
    pub yes_case : (a b : A) → before a b ≡ true → R a b
    pub no_case : (a b : A) → before a b ≡ false → R b a
    pub trans : (a b c : A) → R a b → R b c → R a c

  All-trans :
      (R : A → A → Type 0) (before : A → A → Bool) (a b : A) (xs : List A)
      → Orders R before
      → R a b
      → All (R b) xs
      → All (R a) xs
  All-trans R before a b [] o r h = tt
  All-trans R before a b (x ∷ xs) o r h = (o.trans a b x r h.0, All-trans R before a b xs o r h.1)

  insert_sorted-IsSorted :
      (R : A → A → Type 0) (before : A → A → Bool) (x : A) (ys : List A)
      → Orders R before
      → IsSorted R ys
      → IsSorted R (insert_sorted before x ys)
  unfolding insert_sorted
  insert_sorted-IsSorted R before x [] o h = (tt, tt)
  insert_sorted-IsSorted R before x (y ∷ ys) o h = elim (Bool-cases (before x y)) [
    | inl b ↦ let r : R x y = o.yes_case x y b in rw b ((r, All-trans R before x y ys o r h.0), h)
    | inr b ↦ rw b (
      All-insert_sorted (R y) before x ys (o.no_case x y b) h.0,
      insert_sorted-IsSorted R before x ys o h.1,
    )
  ]

  pub sort-IsSorted :
      (R : A → A → Type 0) (before : A → A → Bool) (xs : List A)
      → Orders R before
      → IsSorted R (sort before xs)
  unfolding sort
  sort-IsSorted R before [] o = tt
  sort-IsSorted R before (x ∷ xs) o =
      insert_sorted-IsSorted R before x (sort before xs) o (sort-IsSorted R before xs o)

elem-insert_sorted :
    (k : String) (before : String → String → Bool) (x : String) (ys : List String)
    → elem k (insert_sorted before x ys) ≡ (k == x || elem k ys)
unfolding insert_sorted
elem-insert_sorted k before x [] = refl
elem-insert_sorted k before x (y ∷ ys) = ground (arith, elem-insert_sorted k before x ys)

-- Sorting keeps the elements.
pub elem-sort :
    (k : String) (before : String → String → Bool) (xs : List String)
    → elem k (sort before xs) ≡ elem k xs
unfolding sort
elem-sort k before [] = refl
elem-sort k before (x ∷ xs) =
    ground (arith, elem-insert_sorted k before x (sort before xs), elem-sort k before xs)
