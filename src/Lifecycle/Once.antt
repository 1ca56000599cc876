-- ===== src/Lifecycle/Once.antt =====
-- Idempotency keys: a request that was accepted is answered again with the same resource.
use build_your_own_durable_a.Common.{
  String, ◌≡◌, refl, sym, ap, ◌∙◌, true, none, some, ◌==◌, is_some, eq_iff, arith, Bool-cases,
  Option-cases, inl, inr,
}
use build_your_own_durable_a.Common.Table.{insert_self}
use build_your_own_durable_a.Common.Result.{ok}
use build_your_own_durable_a.Domain.Models.{RunRecord}
use build_your_own_durable_a.Lifecycle.{
  World, IdempotencyKey, idempotency_pk, run_of_key, reload_run, created, create_run_seen,
  create_run,
}

-- The key is on record with its hash, and names a stored run.
record Answers (pk request_hash : String) (run : RunRecord) (w : World) : Type 0 where
  key : IdempotencyKey
  recorded : w.keys pk ≡ some key
  same_hash : key.request_hash ≡ request_hash
  stored : w.store.runs key.resource_id ≡ some run

module _ (digest : String → String) where
  create_run_seen-Answers :
      (run r : RunRecord) (key request_hash : String) (w w1 : World)
      → create_run digest run key request_hash w ≡ ok (r, w1)
      → Answers (idempotency_pk digest run.owner_id "create_run" key) request_hash r w1
  unfolding create_run create_run_seen run_of_key reload_run
  create_run_seen-Answers run r key request_hash w w1 h =
      let pk = idempotency_pk digest run.owner_id "create_run" key in
      elim (Option-cases (w.keys pk)) [
        | inl e ↦ elim (Bool-cases (is_some (w.store.runs run.run_id))) [
          | inl b ↦ absurd (ground (arith, e, b))
          | inr b ↦
              let out : (r ≡ run) × (w1 ≡ created digest run pk key request_hash w) =
                ground (arith, e, b) in
              let new_key : IdempotencyKey = record {
                owner_id = run.owner_id;
                action = "create_run";
                idempotency_key = key;
                request_hash = request_hash;
                resource_id = run.run_id;
              } in
              record {
                key = new_key;
                recorded = ap (λ v. v.keys pk) out.1 ∙ insert_self pk new_key w.keys;
                same_hash = refl;
                stored =
                    ap (λ v. v.store.runs run.run_id) out.1
                    ∙ insert_self run.run_id run w.store.runs
                    ∙ ap some (sym out.0);
              }
        ]
        | inr (k, e) ↦ elim (Bool-cases (k.request_hash == request_hash)) [
          | inr b ↦ absurd (ground (arith, e, b))
          | inl b ↦ elim (Option-cases (w.store.runs k.resource_id)) [
            | inl f ↦ absurd (ground (arith, e, b, f))
            | inr (row, f) ↦
                let out : (r ≡ row) × (w1 ≡ w) = ground (arith, e, b, f) in
                record {
                  key = k;
                  recorded = ap (λ v. v.keys pk) out.1 ∙ e;
                  same_hash = (eq_iff k.request_hash request_hash).0 b;
                  stored = ap (λ v. v.store.runs k.resource_id) out.1 ∙ f ∙ ap some (sym out.0);
                }
          ]
        ]
      ]

  Answers-create_run_seen :
      (run r : RunRecord) (key request_hash : String) (w : World)
      → Answers (idempotency_pk digest run.owner_id "create_run" key) request_hash r w
      → (create_run digest run key request_hash w ≡ ok (r, w))
        × (create_run_seen digest none run key request_hash w ≡ ok (r, w))
  unfolding create_run create_run_seen run_of_key reload_run
  Answers-create_run_seen run r key request_hash w a =
      let hash : (a.key.request_hash == request_hash) ≡ true =
        (eq_iff a.key.request_hash request_hash).1 a.same_hash in
      elim (Bool-cases (is_some (w.store.runs run.run_id))) [
        | inl b ↦ (
          ground (arith, a.recorded, a.stored, hash, b),
          ground (arith, a.recorded, a.stored, hash, b),
        )
        | inr b ↦ (
          ground (arith, a.recorded, a.stored, hash, b),
          ground (arith, a.recorded, a.stored, hash, b),
        )
      ]

  -- Once `create_run` has returned a run, a repetition by the same owner under the same key and hash
  -- returns the same run and changes nothing, whatever new record it brings: both a later call, and
  -- one that looked for the key before the first call committed and then meets its row.
  pub create_run_once :
      (run r other : RunRecord) (key request_hash : String) (w w1 : World)
      → create_run digest run key request_hash w ≡ ok (r, w1)
      → other.owner_id ≡ run.owner_id
      → (create_run digest other key request_hash w1 ≡ ok (r, w1))
        × (create_run_seen digest none other key request_hash w1 ≡ ok (r, w1))
  create_run_once run r other key request_hash w w1 h same =
      Answers-create_run_seen other r key request_hash w1
        (rw (← same) at (create_run_seen-Answers run r key request_hash w w1 h))
