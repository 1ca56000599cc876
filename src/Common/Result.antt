-- ===== src/Common/Result.antt =====
-- domain/errors.py: the error taxonomy, and results of code that may raise. A message is not
-- modelled; `value_error`, `key_error`, `validation_error` and `integrity_error` are the exceptions of
-- Python, pydantic and SQLAlchemy that the code raises or lets through.
use mathlib.Core.Path.{◌≡◌, refl}
use mathlib.Core.Logic.{◌⊎◌, inl, inr}
use mathlib.Core.Bool.{Bool, true, false}

pub data ErrorCategory : Type 0 where
  validation provider_retryable rate_limit timeout tool_execution database concurrency :
      ErrorCategory
  repository_changed corrupt_checkpoint unsupported_schema security_policy : ErrorCategory
  terminal_domain : ErrorCategory

pub data Error : Type 0 where
  domain_validation_error invalid_transition_error plan_validation_error : Error
  provider_retryable_error rate_limit_error operation_timeout_error : Error
  tool_execution_error database_error concurrency_conflict_error : Error
  repository_changed_error corrupt_checkpoint_error artifact_integrity_error : Error
  unsupported_schema_version_error security_policy_error not_found_error : Error
  idempotency_conflict_error manual_review_required_error : Error
  value_error key_error validation_error integrity_error : Error

-- The class attribute, found through the base classes.
unfoldable pub category : Error → ErrorCategory
category domain_validation_error = validation
category invalid_transition_error = validation
category plan_validation_error = validation
category idempotency_conflict_error = validation
category provider_retryable_error = provider_retryable
category rate_limit_error = rate_limit
category operation_timeout_error = timeout
category tool_execution_error = tool_execution
category database_error = database
category concurrency_conflict_error = concurrency
category repository_changed_error = repository_changed
category corrupt_checkpoint_error = corrupt_checkpoint
category unsupported_schema_version_error = unsupported_schema
category security_policy_error = security_policy
category _ = terminal_domain

unfoldable pub retryable : Error → Bool
retryable provider_retryable_error = true
retryable rate_limit_error = true
retryable operation_timeout_error = true
retryable database_error = true
retryable concurrency_conflict_error = true
retryable _ = false

pub data Result {ℓ} (A : Type ℓ) : Type ℓ where
  ok : A → Result A
  err : Error → Result A

abbrev pub is_ok {ℓ} : {A : Type ℓ} → Result A → Bool
is_ok (ok _) = true
is_ok (err _) = false

-- `if bad: raise e`.
abbrev pub refuse_if : Bool → Error → Result (Unit {0})
refuse_if true e = err e
refuse_if false e = ok tt

module _ {ℓ κ} {A : Type ℓ} {B : Type κ} where
  infixl 5 ◌>>=◌
  -- An error ends the block.
  abbrev pub ◌>>=◌ : Result A → (A → Result B) → Result B
  err x >>= next = err x
  ok value >>= next = next value

  -- What a block that returned has passed through.
  pub >>=-eq-ok :
      (first : Result A) (next : A → Result B) {b : B}
      → (first >>= next) ≡ ok b
      → (a : A) × (first ≡ ok a) × (next a ≡ ok b)
  >>=-eq-ok (err x) next h = cc h
  >>=-eq-ok (ok value) next h = (value, refl, h)

infixl 5 ◌>>◌
abbrev pub ◌>>◌ {ℓ} : {B : Type ℓ} → Result (Unit {0}) → Result B → Result B
check >> rest = check >>= λ _. rest

pub Result-cases {ℓ} :
    {A : Type ℓ} (m : Result A) → ((e : Error) × (m ≡ err e)) ⊎ ((a : A) × (m ≡ ok a))
Result-cases (ok a) = inr (a, refl)
Result-cases (err e) = inl (e, refl)
