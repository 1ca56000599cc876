-- ===== src/Common/Table.antt =====
-- A SQL table under its primary key, or a Python dict that is only looked up: a partial map.
use build_your_own_durable_a.Common.{
  String, ◌≡◌, refl, Option, none, some, ◌==◌, if◌then◌else◌, eq_refl,
}

abbrev pub Table {ℓ} : Type ℓ → Type ℓ
Table V = String → Option V

module _ {ℓ} {V : Type ℓ} where
  abbrev pub empty : Table V
  empty k = none

  unfoldable pub insert : String → V → Table V → Table V
  insert k v t j = if j == k then some v else t j

  unfoldable pub delete : String → Table V → Table V
  delete k t j = if j == k then none else t j

  pub insert_self : (k : String) (v : V) (t : Table V) → insert k v t k ≡ some v
  unfolding insert
  insert_self k v t = rw (eq_refl k) refl

  pub delete_self : (k : String) (t : Table V) → delete k t k ≡ none
  unfolding delete
  delete_self k t = rw (eq_refl k) refl
