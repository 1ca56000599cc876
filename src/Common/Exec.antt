-- ===== src/Common/Exec.antt =====
-- Code that commits transactions and may raise: what was committed before an error stays, so the
-- state comes back beside the error too. A transaction that fails is rolled back.
use mathlib.Core.Path.{◌≡◌, refl, ap}
use build_your_own_durable_a.Common.Result.{Error, Result, ok, err}

abbrev pub Exec {ℓ κ} : Type ℓ → Type κ → Type (ℓ ⊔ κ)
Exec S A = S → Result A × S

-- One transaction.
abbrev pub Txn {ℓ κ} : Type ℓ → Type κ → Type (ℓ ⊔ κ)
Txn S A = S → Result (A × S)

module _ {ℓ κ} {S : Type ℓ} {A : Type κ} where
  abbrev pub pure : A → Exec S A
  pure a s = (ok a, s)

  abbrev pub raise : Error → Exec S A
  raise e s = (err e, s)

  abbrev pub settle : Result (A × S) → S → Result A × S
  settle (ok (a, s')) s = (ok a, s')
  settle (err e) s = (err e, s)

  abbrev pub commit : Txn S A → Exec S A
  commit t s = settle (t s) s

  abbrev pub lift : Result A → Exec S A
  lift r s = (r, s)

module _ {ℓ κ μ} {S : Type ℓ} {A : Type κ} {B : Type μ} where
  abbrev continue : Result A → (A → Exec S B) → Exec S B
  continue (ok a) f s = f a s
  continue (err e) f s = (err e, s)

  infixl 5 ◌>>=◌ ◌>>◌
  abbrev pub ◌>>=◌ : Exec S A → (A → Exec S B) → Exec S B
  ◌>>=◌ m f s = let (r, s') = m s in continue r f s'

  abbrev pub ◌>>◌ : Exec S A → Exec S B → Exec S B
  m >> n = m >>= λ _. n

module _ {ℓ κ μ} {S : Type ℓ} {A : Type κ} {B : Type μ} where
  continue-eq-ok :
      (r : Result A) (f : A → Exec S B) {s s' : S} {b : B}
      → continue r f s ≡ (ok b, s')
      → (a : A) × (r ≡ ok a) × (f a s ≡ (ok b, s'))
  continue-eq-ok (ok a) f h = (a, refl, h)
  continue-eq-ok (err x) f h = cc h

  -- Inversion of a successful bind.
  pub >>=-eq-ok :
      (m : Exec S A) (f : A → Exec S B) {s s' : S} {b : B}
      → (m >>= f) s ≡ (ok b, s')
      → (a : A) × (s'' : S) × (m s ≡ (ok a, s'')) × (f a s'' ≡ (ok b, s'))
  >>=-eq-ok m f {s} h =
      let (a, e, k) = continue-eq-ok (m s).0 f {s = (m s).1} h in
      (a, (m s).1, ap (λ r. (r, (m s).1)) e, k)

module _ {ℓ κ} {S : Type ℓ} {A : Type κ} where
  settle-eq-ok :
      (r : Result (A × S)) (s : S) {s' : S} {a : A} → settle r s ≡ (ok a, s') → r ≡ ok (a, s')
  settle-eq-ok (ok (a, s')) s h = cc h
  settle-eq-ok (err x) s h = cc h

  -- What a transaction that succeeds has committed.
  pub commit-eq-ok : (t : Txn S A) {s s' : S} {a : A} → commit t s ≡ (ok a, s') → t s ≡ ok (a, s')
  commit-eq-ok t {s} h = settle-eq-ok (t s) s h
