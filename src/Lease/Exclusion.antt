-- ===== src/Lease/Exclusion.antt =====
-- One worker at a time holds the lease of a run.
use build_your_own_durable_a.Common.{ℕ, ◌<◌, String, ◌≡◌, ◌≢◌, some, arith, eq_iff, eq_refl}
use build_your_own_durable_a.Common.Result.{ok, err, concurrency_conflict_error}
use build_your_own_durable_a.Common.Table.{insert}
use build_your_own_durable_a.Lease.{
  LeaseRecord, LeaseTable, acquire_seen, acquire_lease, renew_lease, release_lease,
}

-- While another worker's lease has not expired, acquisition is refused.
pub acquire_lease_held :
    (now : ℕ) (run_id owner_id : String) (ttl : ℕ) (t : LeaseTable) (row : LeaseRecord)
    → t run_id ≡ some row
    → row.owner_id ≢ owner_id
    → now < row.expires_at
    → acquire_lease now run_id owner_id ttl t ≡ err concurrency_conflict_error
unfolding acquire_lease
acquire_lease_held now run_id owner_id ttl t row e other live =
    ground (arith, eq_iff row.owner_id owner_id)

-- Of two workers that read the lease row before either wrote, the second write is refused, whether
-- the row was there or not.
pub acquire_race :
    (now now' : ℕ) (run_id a b : String) (ttl ttl' : ℕ) (t u : LeaseTable) (won : LeaseRecord)
    → acquire_lease now run_id a ttl t ≡ ok (won, u)
    → acquire_seen now' run_id b ttl' (t run_id) u ≡ err concurrency_conflict_error
unfolding acquire_lease insert
acquire_race now now' run_id a b ttl ttl' t u won e = ground (arith, eq_refl run_id)

-- When another worker takes over an expired lease, the former holder can neither renew nor release.
pub takeover_fences :
    (now later : ℕ) (b : String) (ttl ttl' : ℕ) (t u : LeaseTable) (old new : LeaseRecord)
    → t old.run_id ≡ some old
    → old.owner_id ≢ b
    → acquire_lease now old.run_id b ttl t ≡ ok (new, u)
    → (renew_lease later ttl' old u ≡ err concurrency_conflict_error)
      × (release_lease old u ≡ err concurrency_conflict_error)
unfolding acquire_lease renew_lease release_lease insert
takeover_fences now later b ttl ttl' t u old new e other won =
    ground (arith, eq_refl old.run_id, eq_iff old.owner_id b, eq_iff b old.owner_id)
