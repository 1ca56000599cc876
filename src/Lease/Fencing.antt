-- ===== src/Lease/Fencing.antt =====
-- The fencing token of a run's lease, as long as nobody releases it, and after a release.
use build_your_own_durable_a.Common.{
  ℕ, ◌≤◌, ◌<◌, String, ◌≡◌, ◌≢◌, refl, ◌⊎◌, inl, inr, none, some, arith, eq_iff, eq_refl,
  Option-cases,
}
use build_your_own_durable_a.Common.Result.{ok}
use build_your_own_durable_a.Common.Table.{insert, delete}
use build_your_own_durable_a.Lease.{
  LeaseRecord, LeaseTable, first_lease, acquire_lease, renew_lease, release_lease,
}

-- A successful acquisition or renewal, of any run, by any worker, at any time.
pub data Step (t u : LeaseTable) : Type 0 where
  acquired :
      (now : ℕ) (run_id owner_id : String) (ttl : ℕ) (won : LeaseRecord)
      → acquire_lease now run_id owner_id ttl t ≡ ok (won, u)
      → Step t u
  renewed :
      (now ttl : ℕ) (lease kept : LeaseRecord)
      → renew_lease now ttl lease t ≡ ok (kept, u)
      → Step t u

pub data Reach (t : LeaseTable) : LeaseTable → Type 0 where
  here : Reach t t
  next : {u v : LeaseTable} → Reach t u → Step u v → Reach t v

-- `new` is the same owner's row with no lower fence, or another's with a higher one.
pub record Follows (old new : LeaseRecord) : Type 0 where
  pub fence : old.fencing_token ≤ new.fencing_token
  pub owner : (old.owner_id ≡ new.owner_id) ⊎ (old.fencing_token < new.fencing_token)

Step-keeps_row : (k : String) {t u : LeaseTable} → Step t u → t k ≢ none → u k ≢ none
unfolding acquire_lease renew_lease insert
Step-keeps_row k (acquired now r o ttl won e) h = ground (arith, eq_iff k r)
Step-keeps_row k (renewed now ttl lease kept e) h = ground (arith, eq_iff k lease.run_id)

Step-Follows :
    (k : String) {t u : LeaseTable} (old new : LeaseRecord)
    → Step t u
    → t k ≡ some old
    → u k ≡ some new
    → Follows old new
unfolding acquire_lease renew_lease insert
Step-Follows k old new (acquired now r o ttl won e) h h' =
    ground (arith, eq_iff k r, eq_iff old.owner_id o)
Step-Follows k old new (renewed now ttl lease kept e) h h' =
    ground (arith, eq_iff k lease.run_id, eq_iff old.owner_id lease.owner_id)

Follows-trans : (a b c : LeaseRecord) → Follows a b → Follows b c → Follows a c
Follows-trans a b c f g = ground arith

-- Through any acquisitions and renewals, of this run and of others, the lease of a run stays, its
-- fencing token never falls, and it grows whenever the lease has come to another owner.
pub fence_grows :
    (k : String) {t u : LeaseTable} (old : LeaseRecord)
    → Reach t u
    → t k ≡ some old
    → (new : LeaseRecord) × (u k ≡ some new) × Follows old new
fence_grows k old here h = (old, h, record { fence = omega arith; owner = inl refl })
fence_grows k old (next {u} {v} r st) h =
    let (mid, at, before) = fence_grows k old r h in
    elim (Option-cases (v k)) [
      | inl gone ↦ absurd (Step-keeps_row k st (λ e. cc (e, at)) gone)
      | inr (new, e) ↦ (new, e, Follows-trans old mid new before (Step-Follows k mid new st at e))
    ]

-- After a release the next acquisition of the run, by whomever, has the fencing token 1 again,
-- however large the released token was.
pub release_resets_fence :
    (lease : LeaseRecord) (t u : LeaseTable)
    → release_lease lease t ≡ ok u
    → (now : ℕ) (owner_id : String) (ttl : ℕ)
    → acquire_lease now lease.run_id owner_id ttl u
      ≡ (let new = first_lease now lease.run_id owner_id ttl in ok (new, insert lease.run_id new u))
unfolding release_lease acquire_lease delete
release_resets_fence lease t u e now owner_id ttl = ground (arith, eq_refl lease.run_id)
