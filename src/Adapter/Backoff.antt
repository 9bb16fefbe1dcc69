-- ===== src/Adapter/Backoff.antt =====
-- crates/apolysis-daemon/src/adapter.rs: the bounds of the delay after an error of the backend.
use apolysis.Common.{
  ltb, ◌%◌, ◌≡◌, ◌⊎◌, none, some, add64, u64_max, inl, inr, Bool-cases, saturating_add, refl, ◌==◌,
  ℕ, ◌+◌, ◌-◌, ◌≤◌, ◌<◌, arith, u64_mod,
}
use apolysis.Health.{AdapterKind}
use native.Mathlib.Nat.{mod-lt, one-le-pow, le-mul_of_pos_right}
use apolysis.Adapter.{
  AdapterBackoffPolicy, min, initial, max_delay, base, jitter, adapter_seed, saturating_mul,
  adapter_backoff_delay,
}

-- The jitter stays within its limit, a 64-bit word that is not the last one.
jitter-bound :
    (policy : AdapterBackoffPolicy) (adapter : AdapterKind) (errors : ℕ)
    → policy.jitter_ms < u64_max
    → (j : ℕ) × (jitter policy adapter errors ≡ some j) × (j ≤ policy.jitter_ms)
unfolding jitter
jitter-bound policy adapter errors h = elim (Bool-cases (policy.jitter_ms == 0)) [
  | inl z ↦ (0, ground (arith, z), omega arith)
  | inr z ↦
      let span : add64 policy.jitter_ms 1 ≡ policy.jitter_ms + 1 = ground arith in
      let seed = add64 (adapter_seed adapter) (saturating_mul errors 17) in
      let m = mod-lt seed {m = policy.jitter_ms + 1} (omega arith) in
      (seed % (policy.jitter_ms + 1), rw span (ground (arith, z)), omega (arith, m))
]

jitter-panics :
    (policy : AdapterBackoffPolicy) (adapter : AdapterKind) (errors : ℕ)
    → policy.jitter_ms ≡ u64_max
    → jitter policy adapter errors ≡ none
unfolding jitter
jitter-panics policy adapter errors h = rw h refl

base-bound : (policy : AdapterBackoffPolicy) (errors : ℕ) → base policy errors ≤ max_delay policy
unfolding base
base-bound policy errors = ground arith

base-initial :
    (policy : AdapterBackoffPolicy) (errors : ℕ)
    → initial policy < u64_mod
    → initial policy ≤ base policy errors
unfolding base max_delay
base-initial policy errors h =
    let exponent = min (errors - 1) 16 in
    let product = le-mul_of_pos_right (initial policy) (one-le-pow exponent 2 (omega arith)) in
    ground arith

-- Let the initial delay, at least a millisecond, and the jitter be 64-bit numbers. With a jitter
-- of u64::MAX the code panics. With any other there is a delay after any number of errors, never
-- below the initial delay and never above the maximal delay and the jitter.
pub adapter_backoff_delay_bounds :
    (policy : AdapterBackoffPolicy) (adapter : AdapterKind) (errors : ℕ)
    → initial policy < u64_mod
    → policy.jitter_ms ≤ u64_max
    → ((policy.jitter_ms ≡ u64_max) × (adapter_backoff_delay policy adapter errors ≡ none))
      ⊎ ((delay : ℕ) × (policy.jitter_ms < u64_max)
          × (adapter_backoff_delay policy adapter errors ≡ some delay)
          × (initial policy ≤ delay)
          × (delay ≤ max_delay policy + policy.jitter_ms))
unfolding adapter_backoff_delay
adapter_backoff_delay_bounds policy adapter errors h word =
    elim (Bool-cases (ltb policy.jitter_ms u64_max)) [
      | inl less ↦
          let lower = base-initial policy errors h in
          let upper = base-bound policy errors in
          let below : policy.jitter_ms < u64_max = ground (arith, less) in
          let (j, e, most) = jitter-bound policy adapter errors below in
          inr (
            saturating_add (base policy errors) j,
            below,
            ground (arith, e),
            ground (arith, lower),
            ground (arith, upper, most),
          )
      | inr last ↦
          let top : policy.jitter_ms ≡ u64_max = ground (arith, last) in
          inl (top, ground (arith, jitter-panics policy adapter errors top))
    ]
