-- ===== src/Lease.antt =====
-- persistence/store.py: `acquire_lease`, `renew_lease` and `release_lease`, over the table of leases.
-- A transaction reads the row, decides, and writes under a WHERE clause. `seen` is the row that it
-- read and the table is the one that the write meets, so that another transaction may have
-- committed in between; a method run alone has `seen` from the same table.
pub mod Exclusion
pub mod Fencing
use build_your_own_durable_a.Common.{
  ℕ, ◌+◌, String, Bool, not, ◌&&◌, ◌||◌, Option, none, some, ◌==◌, ltb, leb, eqb, if◌then◌else◌,
}
use build_your_own_durable_a.Common.Result.{Result, ok, err, concurrency_conflict_error}
use build_your_own_durable_a.Common.Table.{Table, insert, delete}

pub record LeaseRecord : Type 0 where
  pub run_id : String
  pub owner_id : String
  pub expires_at : ℕ
  pub fencing_token : ℕ
  pub version : ℕ
  pub acquired_at : ℕ
  pub renewed_at : ℕ

abbrev pub LeaseTable : Type 0
LeaseTable = Table LeaseRecord

-- UPDATE ... WHERE run_id = .. AND version = ..; a row count other than 1 is a conflict.
unfoldable pub write_where_version :
    String → ℕ → LeaseRecord → LeaseTable → Result (LeaseRecord × LeaseTable)
write_where_version run_id version lease t = elim (t run_id) [
  | none ↦ err concurrency_conflict_error
  | some row ↦
      if eqb row.version version
      then ok (lease, insert run_id lease t)
      else err concurrency_conflict_error
]

module _ (now : ℕ) (run_id owner_id : String) (ttl_seconds : ℕ) where
  abbrev pub first_lease : LeaseRecord
  first_lease = record {
    run_id = run_id;
    owner_id = owner_id;
    expires_at = now + ttl_seconds;
    fencing_token = 1;
    version = 1;
    acquired_at = now;
    renewed_at = now;
  }

  abbrev pub taken_lease : LeaseRecord → LeaseRecord
  taken_lease row = record {
    run_id = run_id;
    owner_id = owner_id;
    expires_at = now + ttl_seconds;
    fencing_token = if row.owner_id == owner_id then row.fencing_token else row.fencing_token + 1;
    version = row.version + 1;
    acquired_at = if row.owner_id == owner_id then row.acquired_at else now;
    renewed_at = now;
  }

  -- The insertion meets the primary key: a row that another transaction inserted is a conflict.
  unfoldable pub acquire_seen : Option LeaseRecord → LeaseTable → Result (LeaseRecord × LeaseTable)
  unfolding write_where_version
  acquire_seen none t = elim (t run_id) [
    | none ↦ ok (first_lease, insert run_id first_lease t)
    | some _ ↦ err concurrency_conflict_error
  ]
  acquire_seen (some row) t =
      if not (row.owner_id == owner_id) && ltb now row.expires_at
      then err concurrency_conflict_error
      else write_where_version run_id row.version (taken_lease row) t

  unfoldable pub acquire_lease : LeaseTable → Result (LeaseRecord × LeaseTable)
  unfolding acquire_seen
  acquire_lease t = acquire_seen (t run_id) t

abbrev pub same_lease : LeaseRecord → LeaseRecord → Bool
same_lease row lease =
    row.owner_id == lease.owner_id
    && eqb row.fencing_token lease.fencing_token
    && eqb row.version lease.version

abbrev pub renewed_lease : ℕ → ℕ → LeaseRecord → LeaseRecord
renewed_lease now ttl_seconds lease = record lease {
  expires_at = now + ttl_seconds;
  version = lease.version + 1;
  renewed_at = now;
}

-- The write's WHERE clause repeats the owner, the fence and the version.
unfoldable pub renew_seen :
    ℕ → ℕ → LeaseRecord → Option LeaseRecord → LeaseTable → Result (LeaseRecord × LeaseTable)
renew_seen now ttl_seconds lease none t = err concurrency_conflict_error
renew_seen now ttl_seconds lease (some row) t =
    if not (same_lease row lease) || leb row.expires_at now
    then err concurrency_conflict_error
    else elim (t lease.run_id) [
      | none ↦ err concurrency_conflict_error
      | some current ↦
          if same_lease current lease
          then ok (
            renewed_lease now ttl_seconds lease,
            insert lease.run_id
                (record current {
                  expires_at = now + ttl_seconds;
                  version = lease.version + 1;
                  renewed_at = now;
                })
                t,
          )
          else err concurrency_conflict_error
    ]

unfoldable pub renew_lease : ℕ → ℕ → LeaseRecord → LeaseTable → Result (LeaseRecord × LeaseTable)
unfolding renew_seen
renew_lease now ttl_seconds lease t = renew_seen now ttl_seconds lease (t lease.run_id) t

unfoldable pub release_lease : LeaseRecord → LeaseTable → Result LeaseTable
release_lease lease t = elim (t lease.run_id) [
  | none ↦ err concurrency_conflict_error
  | some row ↦
      if same_lease row lease then ok (delete lease.run_id t) else err concurrency_conflict_error
]
