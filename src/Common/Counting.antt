-- ===== src/Common/Counting.antt =====
-- Lists of texts without repetition, and how often a text stands in a list.
use build_your_own_durable_a.Common.{
  ℕ, suc, ◌+◌, ◌≤◌, String, ◌≡◌, ◌≢◌, refl, ap, Bool, true, false, List, [], ◌∷◌, ◌++◌, ◌==◌, elem,
  elem-append, distinct, subset, length, eq_iff, eq_refl, if◌then◌else◌, arith, Bool-cases, inl,
  inr,
}
use build_your_own_durable_a.Common.Sort.{sort, insert_sorted}

pub distinct_append :
    (xs ys : List String) (k : String)
    → distinct (xs ++ ys) ≡ true
    → elem k ys ≡ true
    → elem k xs ≡ false
distinct_append [] ys k d m = refl
distinct_append (x ∷ xs) ys k d m =
    ground (arith, elem-append x xs ys, eq_iff k x, distinct_append xs ys k)

pub distinct_back : (xs ys : List String) → distinct (xs ++ ys) ≡ true → distinct ys ≡ true
distinct_back [] ys d = d
distinct_back (x ∷ xs) ys d = distinct_back xs ys (ground arith)

pub distinct_front : (xs ys : List String) → distinct (xs ++ ys) ≡ true → distinct xs ≡ true
distinct_front [] ys d = refl
distinct_front (x ∷ xs) ys d = ground (arith, distinct_front xs ys, elem-append x xs ys)

pub distinct_append_of :
    (xs ys : List String)
    → distinct xs ≡ true
    → distinct ys ≡ true
    → ((k : String) → elem k ys ≡ true → elem k xs ≡ false)
    → distinct (xs ++ ys) ≡ true
distinct_append_of [] ys d e f = e
distinct_append_of (x ∷ xs) ys d e f =
    let later = distinct_append_of xs ys (ground arith) e (λ k m. ground (arith, f k)) in
    ground (arith, later, elem-append x xs ys, f x, eq_refl x, Bool-cases (elem x ys))

-- How often a text stands in a list.
abbrev pub count : String → List String → ℕ
count k [] = 0
count k (x ∷ xs) = let rest = count k xs in if k == x then suc rest else rest

-- How many of the texts are not among the seen ones, each as often as it stands.
abbrev pub missing : List String → List String → ℕ
missing seen [] = 0
missing seen (x ∷ xs) = let rest = missing seen xs in if elem x seen then rest else suc rest

pub missing_none : (xs : List String) → missing [] xs ≡ length xs
missing_none [] = refl
missing_none (x ∷ xs) = ap suc (missing_none xs)

-- One more text is seen.
pub missing_more :
    (seen xs : List String) (t : String)
    → elem t seen ≡ false
    → missing (seen ++ t ∷ []) xs + count t xs ≡ missing seen xs
missing_more seen [] t h = omega arith
missing_more seen (x ∷ xs) t h =
    ground (arith, missing_more seen xs t h, elem-append x seen (t ∷ []), eq_iff x t, eq_iff t x)

pub subset_of_missing : (seen xs : List String) → missing seen xs ≡ 0 → subset xs seen ≡ true
subset_of_missing seen [] h = refl
subset_of_missing seen (x ∷ xs) h = ground (arith, subset_of_missing seen xs)

-- Something is missing where something is counted that is not seen.
pub missing_some :
    (seen xs : List String)
    → missing seen xs ≢ 0
    → (x : String) × (elem x xs ≡ true) × (elem x seen ≡ false)
missing_some seen [] h = absurd (h refl)
missing_some seen (x ∷ xs) h = elim (Bool-cases (elem x seen)) [
  | inr e ↦ (x, ground (arith, eq_refl x), e)
  | inl e ↦ let (y, m, out) = missing_some seen xs (rw e at h) in (y, ground arith, out)
]

pub count-insert_sorted :
    (k : String) (before : String → String → Bool) (x : String) (ys : List String)
    → count k (insert_sorted before x ys) ≡ count k (x ∷ ys)
unfolding insert_sorted
count-insert_sorted k before x [] = refl
count-insert_sorted k before x (y ∷ ys) = ground (arith, count-insert_sorted k before x ys)

pub count-sort :
    (k : String) (before : String → String → Bool) (xs : List String)
    → count k (sort before xs) ≡ count k xs
unfolding sort
count-sort k before [] = refl
count-sort k before (x ∷ xs) =
    ground (arith, count-insert_sorted k before x (sort before xs), count-sort k before xs)

-- The list without the first occurrence of a text.
abbrev without : String → List String → List String
without k [] = []
without k (x ∷ xs) = let rest = without k xs in if k == x then xs else x ∷ rest

length-without :
    (k : String) (xs : List String) → elem k xs ≡ true → suc (length (without k xs)) ≡ length xs
length-without k [] h = cc h
length-without k (x ∷ xs) h = ground (arith, length-without k xs)

elem-without :
    (j k : String) (xs : List String)
    → (j == k) ≡ false
    → elem j xs ≡ true
    → elem j (without k xs) ≡ true
elem-without j k [] e h = h
elem-without j k (x ∷ xs) e h =
    ground (arith, elem-without j k xs e, eq_iff j x, eq_iff k x, eq_iff j k, eq_refl j)

-- A list without repetition is no longer than one that has all its elements.
pub length-le_of_distinct :
    (xs ys : List String)
    → distinct xs ≡ true
    → ((k : String) → elem k xs ≡ true → elem k ys ≡ true)
    → length xs ≤ length ys
length-le_of_distinct [] ys d f = omega arith
length-le_of_distinct (x ∷ xs) ys d f =
    let here = f x (ground (arith, eq_refl x)) in
    let shorter =
      length-le_of_distinct xs (without x ys) (ground arith)
        (λ k m. elem-without k x ys (ground (arith, eq_iff k x)) (f k (ground arith))) in
    omega (arith, shorter, length-without x ys here)

-- Of two such lists of one length, each with all elements of the other's, none has an element more.
pub elem_of_length :
    (xs ys : List String) (k : String)
    → distinct xs ≡ true
    → ((j : String) → elem j xs ≡ true → elem j ys ≡ true)
    → length ys ≤ length xs
    → elem k ys ≡ true
    → elem k xs ≡ true
elem_of_length xs ys k d f h m = elim (Bool-cases (elem k xs)) [
  | inl e ↦ e
  | inr e ↦ absurd (
      omega (
        arith,
        h,
        length-le_of_distinct (k ∷ xs) ys (ground arith) (λ j n. ground (arith, f j, eq_iff j k)),
      ))
]
