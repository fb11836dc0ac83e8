-- ===== src/Step/Retry.antt =====
-- internal/controller/flowrun_controller.go: retryDelay. A time.Duration is an int64, whose
-- arithmetic wraps.
pub mod Laws
use kubezap_operator.Base.{
  ℕ, zero, suc, ◌+◌, ◌-◌, ◌*◌, ◌%◌, ◌^◌, Option, none, some, Bool, ltb, if◌then◌else◌,
}
use kubezap_operator.Base.Int.{ℤ, pos, negsuc, ◌*ℤ◌, ltb_ℤ}
use kubezap_operator.Api.Flow.{RetryPolicy, BackoffType, fixed, linear, exponential}

-- The low 64 bits of `n`, read as two's complement.
abbrev low_bits : ℕ → ℤ
low_bits m = if ltb m (2 ^ 63) then pos m else negsuc (2 ^ 64 - 1 - m)

abbrev low_bits_neg : ℕ → ℤ
low_bits_neg m = if ltb m (2 ^ 63) then negsuc m else pos (2 ^ 64 - 1 - m)

-- An integer taken to int64.
unfoldable pub wrap : ℤ → ℤ
wrap (pos n) = low_bits (n % 2 ^ 64)
wrap (negsuc n) = low_bits_neg (n % 2 ^ 64)

-- `time.Second`
abbrev pub second : ℤ
second = pos 1000000000

abbrev pub initial_delay : Option ℤ → ℤ
initial_delay none = second
initial_delay (some d) = d

-- `for i := 1; i < attempt; i++ { d *= 2 }`, with the rounds left.
unfoldable pub doubled : ℕ → ℤ → ℤ
unfolding wrap
doubled zero d = d
doubled (suc left) d = doubled left (wrap (d *ℤ pos 2))

abbrev pub capped : Option ℤ → ℤ → ℤ
capped none d = d
capped (some max) d = if ltb_ℤ max d then max else d

unfoldable pub policy_delay : BackoffType → ℤ → Option ℤ → ℕ → ℤ
unfolding doubled wrap
policy_delay exponential initial max attempt = capped max (doubled (attempt - 1) initial)
policy_delay linear initial max attempt = capped max (wrap (initial *ℤ pos attempt))
policy_delay fixed initial max attempt = initial

unfoldable pub retry_delay : Option RetryPolicy → ℕ → ℤ
unfolding policy_delay
retry_delay none attempt = second
retry_delay (some p) attempt =
    policy_delay p.backoff_type (initial_delay p.initial_delay) p.max_delay attempt
