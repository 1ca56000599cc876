-- ===== src/Examples/Leases.antt =====
-- Leases of one run that two workers want.
use build_your_own_durable_a.Common.{◌≡◌, ◌≢◌, refl, some, arith, eq_iff, ◌==◌, true}
use build_your_own_durable_a.Common.Result.{ok, err, concurrency_conflict_error}
use build_your_own_durable_a.Common.Table.{empty, insert, delete}
use build_your_own_durable_a.Lease.{
  LeaseRecord, LeaseTable, first_lease, taken_lease, acquire_seen, acquire_lease, renew_lease,
  release_lease,
}
use build_your_own_durable_a.Lease.Exclusion.{acquire_race, takeover_fences}
use build_your_own_durable_a.Lease.Fencing.{
  Follows, here, next, acquired, fence_grows, release_resets_fence,
}

abbrev held : LeaseRecord
held = first_lease 10 "run" "worker-a" 30

abbrev one_lease : LeaseTable
one_lease = insert "run" held empty

abbrev taken : LeaseRecord
taken = taken_lease 50 "run" "worker-b" 30 held

abbrev taken_over : LeaseTable
taken_over = insert "run" taken one_lease

other_worker : held.owner_id ≢ "worker-b"
other_worker = λ e.
    let same : ("worker-a" == "worker-b") ≡ true = (eq_iff "worker-a" "worker-b").1 e in
    ground (arith, same)

take_over : acquire_lease 50 "run" "worker-b" 30 one_lease ≡ ok (taken, taken_over)
unfolding acquire_lease insert
take_over = refl

acquire_race_example :
    acquire_seen 51 "run" "worker-c" 30 (some held) taken_over ≡ err concurrency_conflict_error
unfolding insert
acquire_race_example =
    acquire_race 50 51 "run" "worker-b" "worker-c" 30 30 one_lease taken_over taken take_over

takeover_fences_example :
    (renew_lease 60 30 held taken_over ≡ err concurrency_conflict_error)
    × (release_lease held taken_over ≡ err concurrency_conflict_error)
unfolding insert
takeover_fences_example =
    takeover_fences 50 60 "worker-b" 30 30 one_lease taken_over held taken refl other_worker
      take_over

fence_grows_example : (new : LeaseRecord) × (taken_over "run" ≡ some new) × Follows held new
unfolding insert
fence_grows_example =
    fence_grows "run" held (next here (acquired 50 "run" "worker-b" 30 taken take_over)) refl

release_resets_fence_example : acquire_lease 70 "run" "worker-c" 30 (delete "run" taken_over) ≡ (
    let new = first_lease 70 "run" "worker-c" 30 in
    ok (new, insert "run" new (delete "run" taken_over)))
unfolding release_lease insert delete
release_resets_fence_example =
    release_resets_fence taken taken_over (delete "run" taken_over) refl 70 "worker-c" 30
