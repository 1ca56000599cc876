-- ===== src/Common/Dict.antt =====
-- A Python dict that is iterated over: its entries in order of first insertion.
use build_your_own_durable_a.Common.{
  String, ◌≡◌, refl, Bool, true, false, not, ◌||◌, Option, none, some, List, [], ◌∷◌, ◌==◌, elem,
  eq_iff, eq_refl, distinct, subset, disjoint, if◌then◌else◌, arith, Bool-cases,
}

abbrev pub Dict {ℓ} : Type ℓ → Type ℓ
Dict V = List (String × V)

module _ {ℓ} {V : Type ℓ} where
  abbrev pub keys : Dict V → List String
  keys [] = []
  keys ((k, v) ∷ d) = k ∷ keys d

  abbrev pub lookup : String → Dict V → Option V
  lookup k [] = none
  lookup k ((j, v) ∷ d) = if k == j then some v else lookup k d

  -- d[k] = v: a key that is there keeps its place.
  unfoldable pub put : String → V → Dict V → Dict V
  put k v [] = (k, v) ∷ []
  put k v ((j, w) ∷ d) = if k == j then (j, v) ∷ d else (j, w) ∷ put k v d

  -- The keys whose value passes a test, in order.
  abbrev pub keys_where : (V → Bool) → Dict V → List String
  keys_where p [] = []
  keys_where p ((k, v) ∷ d) = let rest = keys_where p d in if p v then k ∷ rest else rest

  pub elem-keys-put :
      (j k : String) (v : V) (d : Dict V) → elem j (keys (put k v d)) ≡ (j == k || elem j (keys d))
  unfolding put
  elem-keys-put j k v [] = refl
  elem-keys-put j k v ((i, w) ∷ d) =
      ground (arith, elem-keys-put j k v d, eq_iff k i, eq_iff j k, eq_iff j i)

  -- A dict has each key once.
  pub distinct-put :
      (k : String) (v : V) (d : Dict V)
      → distinct (keys d) ≡ true
      → distinct (keys (put k v d)) ≡ true
  unfolding put
  distinct-put k v [] h = refl
  distinct-put k v ((i, w) ∷ d) h =
      ground (arith, distinct-put k v d, elem-keys-put i k v d, eq_iff k i, eq_iff i k)

  pub elem-keys_where :
      (p : V → Bool) (k : String) (d : Dict V)
      → elem k (keys_where p d) ≡ true
      → elem k (keys d) ≡ true
  elem-keys_where p k [] h = h
  elem-keys_where p k ((j, v) ∷ d) h = ground (arith, elem-keys_where p k d)

  -- The keys that pass a test and those that fail it are disjoint.
  pub keys_where-split :
      (p : V → Bool) (k : String) (d : Dict V)
      → distinct (keys d) ≡ true
      → elem k (keys_where p d) ≡ true
      → elem k (keys_where (λ v. not (p v)) d) ≡ false
  keys_where-split p k [] h e = cc
  keys_where-split p k ((j, v) ∷ d) h e = ground (
    arith,
    eq_iff k j,
    keys_where-split p k d,
    elem-keys_where p k d,
    elem-keys_where (λ (w : V). not (p w)) k d,
    Bool-cases (elem k (keys_where (λ (w : V). not (p w)) d)),
  )

pub subset-intro :
    (xs ys : List String)
    → ((k : String) → elem k xs ≡ true → elem k ys ≡ true)
    → subset xs ys ≡ true
subset-intro [] ys h = refl
subset-intro (x ∷ xs) ys h =
    ground (arith, h x, eq_refl x, subset-intro xs ys (λ k e. h k (ground arith)))

pub disjoint-intro :
    (xs ys : List String)
    → ((k : String) → elem k xs ≡ true → elem k ys ≡ false)
    → disjoint xs ys ≡ true
disjoint-intro [] ys h = refl
disjoint-intro (x ∷ xs) ys h =
    ground (arith, h x, eq_refl x, disjoint-intro xs ys (λ k e. h k (ground arith)))

-- dict.fromkeys: the first occurrence of each text.
unfoldable pub unique : List String → List String → List String
unique seen [] = []
unique seen (x ∷ xs) =
    let rest = unique seen xs in
    let rest' = unique (x ∷ seen) xs in if elem x seen then rest else x ∷ rest'
