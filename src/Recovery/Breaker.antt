-- ===== src/Recovery/Breaker.antt =====
-- recovery/manager.py: when the circuit breaker lets a call through.
use build_your_own_durable_a.Common.{
  ℕ, ◌+◌, ◌<◌, ◌≡◌, refl, ◌↔◌, none, List, [], ◌∷◌, length, arith,
}
use build_your_own_durable_a.Common.Result.{ok, err, provider_retryable_error}
use build_your_own_durable_a.Recovery.{CircuitBreaker, allow, before_call, success, failure}

-- Failures at the times of the list, one after the other.
abbrev pub failing : List ℕ → CircuitBreaker → CircuitBreaker
failing [] b = b
failing (t ∷ ts) b = failing ts (failure t b)

failing-parts :
    (ts : List ℕ) (b : CircuitBreaker)
    → ((failing ts b).threshold ≡ b.threshold)
      × ((failing ts b).recovery ≡ b.recovery)
      × ((failing ts b).failures ≡ b.failures + length ts)
unfolding failure
failing-parts [] b = (refl, refl, omega arith)
failing-parts (t ∷ ts) b =
    let (a, c, d) = failing-parts ts (failure t b) in (a, c, omega (arith, d))

failing-below :
    (ts : List ℕ) (b : CircuitBreaker)
    → b.opened_at ≡ none
    → b.failures + length ts < b.threshold
    → (failing ts b).opened_at ≡ none
unfolding failure
failing-below [] b h n = h
failing-below (t ∷ ts) b h n = failing-below ts (failure t b) (ground arith) (omega (arith, n))

closed_allows : (now : ℕ) (b : CircuitBreaker) → b.opened_at ≡ none → before_call now b ≡ ok tt
unfolding before_call allow
closed_allows now b h = ground arith

-- After a success, fewer failures than the threshold let every call through.
pub breaker_stays_closed :
    (b : CircuitBreaker) (ts : List ℕ) (now : ℕ)
    → length ts < b.threshold
    → before_call now (failing ts (success b)) ≡ ok tt
unfolding success
breaker_stays_closed b ts now few =
    closed_allows now (failing ts (success b))
      (failing-below ts (success b) refl (omega (arith, few)))

-- The failure that reaches the threshold, at time `t`, refuses calls until the recovery time has
-- passed, and only until then.
pub breaker_opens :
    (b : CircuitBreaker) (ts : List ℕ) (t now : ℕ)
    → length ts + 1 ≡ b.threshold
    → (before_call now (failure t (failing ts (success b))) ≡ err provider_retryable_error)
      ↔ (now < t + b.recovery)
unfolding before_call allow success failure
breaker_opens b ts t now last =
    let (a, c, d) = failing-parts ts (success b) in ground (arith, a, c, d, last)
