-- ===== src/Step/Http/Attempts.antt =====
-- How the attempts of an HTTP step end: the retry loop of executeHTTPStep.
use kubezap_operator.Base.{
  ℕ, zero, suc, ◌+◌, ◌<◌, String, ◌≡◌, refl, ◌⊎◌, inl, inr, Bool, true, ◌&&◌, arith, ltb, ltb→lt,
  subst, Bool-cases,
}
use kubezap_operator.Api.Flow.{FlowStep, HttpAction}
use kubezap_operator.Api.FlowRun.{Message, empty, context_done}
use kubezap_operator.Template.Library.{Library}
use kubezap_operator.Step.Retry.{retry_delay}
use kubezap_operator.Step.Http.{
  ExecuteRequest, HttpRuntime, HttpResult, http_ok, http_failed, http_unreachable, Answer, answered,
  try_again, give_up, answer, after_answer, attempt_loop,
}

module _ (lib : Library) (rt : HttpRuntime) (step : FlowStep) (h : HttpAction)
    (req : ExecuteRequest) (display : String) where
  -- What the call at an attempt answers.
  abbrev pub answer_at : ℕ → Answer
  answer_at j = answer lib rt step h req.url display (rt.call_executor j req)

  abbrev pub ends_before : ℕ → Bool
  ends_before k = rt.ends_during k (retry_delay step.retry_policy k)

  -- Each of the first `k` calls left the loop to try again.
  abbrev pub Tried : ℕ → Type 0
  Tried k = (j : ℕ) → j < k → (m : Message) × (answer_at j ≡ try_again m)

  -- How the loop comes to a result in `max` attempts at most.
  abbrev pub Ends : ℕ → HttpResult → Type 0
  Ends max (http_ok results m n) =
      (k : ℕ) × (n ≡ k + 1) × (k < max) × Tried k × (answer_at k ≡ answered results m)
  Ends max (http_unreachable m n) =
      (k : ℕ) × (n ≡ k + 1) × (k < max) × Tried k × (answer_at k ≡ give_up m)
  Ends max (http_failed m n) =
      ((k : ℕ) × (n ≡ k + 1)
        × (0 < k)
        × (k < max)
        × Tried k
        × (ends_before k ≡ true)
        × (m ≡ context_done))
      ⊎ ((n ≡ max) × Tried max × ((k : ℕ) → max ≡ k + 1 → answer_at k ≡ try_again m))

  Last : ℕ → Message → Type 0
  Last attempt m = (k : ℕ) → attempt ≡ k + 1 → answer_at k ≡ try_again m

  Tried-more : (k : ℕ) (m : Message) → Tried k → answer_at k ≡ try_again m → Tried (k + 1)
  Tried-more k m tried e j less = elim (Bool-cases (ltb j k)) [
    | inl t ↦ tried j (ltb→lt j k t)
    | inr f ↦ (m, subst (λ i. answer_at i ≡ try_again m) (ground arith) e)
  ]

  after-Ends :
      (max attempt : ℕ) (a : Answer) (again : Message → HttpResult)
      → answer_at attempt ≡ a
      → attempt < max
      → Tried attempt
      → ((m : Message) → answer_at attempt ≡ try_again m → Ends max (again m))
      → Ends max (after_answer lib rt step h attempt a again)
  after-Ends max attempt (answered results m) again e less tried h = (attempt, refl, less, tried, e)
  after-Ends max attempt (give_up m) again e less tried h = (attempt, refl, less, tried, e)
  after-Ends max attempt (try_again m) again e less tried h = h m e

  loop-Ends :
      (max left attempt : ℕ) (last : Message)
      → attempt + left ≡ max
      → Tried attempt
      → Last attempt last
      → Ends max (attempt_loop lib rt step h req display left attempt last)
  unfolding attempt_loop Last
  loop-Ends max zero attempt last e tried l = inr (
    omega arith,
    subst (λ i. Tried i) {x = attempt} {y = max} (omega arith) tried,
    λ k p. l k (omega arith),
  )
  loop-Ends max (suc left) attempt last e tried l =
      elim (Bool-cases (ltb 0 attempt && ends_before attempt)) [
        | inl b ↦ rw b (inl (attempt, refl, ground arith, omega arith, tried, ground arith, refl))
        | inr b ↦ rw b (
            after-Ends max attempt (answer_at attempt) _ refl (omega arith) tried (λ m e'.
              loop-Ends max left (attempt + 1) m (omega arith) (Tried-more attempt m tried e')
                (λ k p.
                  subst (λ i. answer_at i ≡ try_again m) {x = attempt} {y = k} (omega arith) e')))
      ]

  -- The retry loop of an HTTP step ends in one of four ways, each after calls that all left it to
  -- try again: the call that succeeds or finds no executor is its last one; or the step's context
  -- ends before a later attempt; or all attempts are made, and the error is that of the last call.
  pub attempt_loop-Ends : (max : ℕ) → Ends max (attempt_loop lib rt step h req display max 0 empty)
  unfolding Last
  attempt_loop-Ends max =
      loop-Ends max max 0 empty (omega arith) (λ j less. ground arith) (λ k p. ground arith)
