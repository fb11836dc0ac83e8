-- ===== src/Step/Retry/Laws.antt =====
-- retryDelay without overflow, and under a MaxDelay.
use native.Mathlib.Nat.{mul_assoc, one-le-pow, le-mul_of_pos_right, pow-succ'}
use kubezap_operator.Base.{
  ℕ, zero, suc, ◌-◌, ◌*◌, ◌^◌, ◌<◌, ◌≡◌, refl, sym, subst, ap, ◌∙◌, Option, none, some, arith,
}
use kubezap_operator.Base.Int.{ℤ, pos, ◌*ℤ◌, ◌≤ℤ◌, ◌<ℤ◌}
use kubezap_operator.Api.Flow.{BackoffType, fixed, linear, exponential}
use kubezap_operator.Step.Retry.{wrap, doubled, capped, policy_delay}

mul_pos : (i j : ℕ) → pos i *ℤ pos j ≡ pos (i * j)
unfolding ◌*ℤ◌
mul_pos i j = ground arith

wrap_small : (n : ℕ) → n < 2 ^ 63 → wrap (pos n) ≡ pos n
unfolding wrap
wrap_small n h = ground arith

pow_twice : (i k : ℕ) → i * 2 ^ suc k ≡ i * 2 * 2 ^ k
pow_twice i k = ap (λ p. i * p) (pow-succ' 2 k) ∙ sym (mul_assoc i 2 (2 ^ k))

doubled_small : (k i : ℕ) → i * 2 ^ k < 2 ^ 63 → doubled k (pos i) ≡ pos (i * 2 ^ k)
unfolding doubled
doubled_small zero i h = ground arith
doubled_small (suc k) i h =
    let fits : i * 2 * 2 ^ k < 2 ^ 63 = subst (λ n. n < 2 ^ 63) (pow_twice i k) h in
    let small : i * 2 < 2 ^ 63 =
      omega (arith, fits, le-mul_of_pos_right {m = 2 ^ k} (i * 2) (one-le-pow k 2 (omega arith))) in
    ap (λ d. doubled k d) (ap wrap (mul_pos i 2) ∙ wrap_small (i * 2) small)
    ∙ (doubled_small k (i * 2) fits ∙ ap pos (sym (pow_twice i k)))

-- The delay that the backoff type asks for, were there no largest integer.
abbrev pub ideal_delay : BackoffType → ℕ → ℕ → ℕ
ideal_delay fixed i attempt = i
ideal_delay linear i attempt = i * attempt
ideal_delay exponential i attempt = i * 2 ^ (attempt - 1)

-- The delay `r` where `d` is asked for: a fixed one does not heed MaxDelay, which else it is if `d` is
-- longer.
abbrev pub IsCapped : BackoffType → Option ℤ → ℤ → ℤ → Type 0
IsCapped fixed max d r = r ≡ d
IsCapped linear none d r = r ≡ d
IsCapped exponential none d r = r ≡ d
IsCapped linear (some max) d r = (d ≤ℤ max → r ≡ d) × (max <ℤ d → r ≡ max)
IsCapped exponential (some max) d r = (d ≤ℤ max → r ≡ d) × (max <ℤ d → r ≡ max)

capped_lem :
    (max d : ℤ) → (d ≤ℤ max → capped (some max) d ≡ d) × (max <ℤ d → capped (some max) d ≡ max)
capped_lem max d = (λ le. ground arith, λ lt. ground arith)

linear_delay :
    (i : ℕ) (max : Option ℤ) (attempt : ℕ)
    → i * attempt < 2 ^ 63
    → capped max (wrap (pos i *ℤ pos attempt)) ≡ capped max (pos (i * attempt))
linear_delay i max attempt h =
    ap (capped max) (ap wrap (mul_pos i attempt) ∙ wrap_small (i * attempt) h)

exponential_delay :
    (i : ℕ) (max : Option ℤ) (attempt : ℕ)
    → i * 2 ^ (attempt - 1) < 2 ^ 63
    → capped max (doubled (attempt - 1) (pos i)) ≡ capped max (pos (i * 2 ^ (attempt - 1)))
exponential_delay i max attempt h = ap (capped max) (doubled_small (attempt - 1) i h)

-- Where it fits into an int64, the delay before a retry is the one that its backoff type asks for,
-- the same each time, growing with the attempt, or doubled at each; where that is longer than MaxDelay,
-- it is MaxDelay, which a fixed delay does not heed.
pub policy_delay_lem :
    (type : BackoffType) (i : ℕ) (max : Option ℤ) (attempt : ℕ)
    → ideal_delay type i attempt < 2 ^ 63
    → IsCapped type max (pos (ideal_delay type i attempt)) (policy_delay type (pos i) max attempt)
unfolding policy_delay
policy_delay_lem fixed i max attempt h = refl
policy_delay_lem linear i none attempt h = linear_delay i none attempt h
policy_delay_lem linear i (some m) attempt h =
    rw (linear_delay i (some m) attempt h) (capped_lem m (pos (i * attempt)))
policy_delay_lem exponential i none attempt h = exponential_delay i none attempt h
policy_delay_lem exponential i (some m) attempt h =
    rw (exponential_delay i (some m) attempt h) (capped_lem m (pos (i * 2 ^ (attempt - 1))))
