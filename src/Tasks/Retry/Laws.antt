-- ===== src/Tasks/Retry/Laws.antt =====
-- How often an operation is tried, and what its result is.
use qq_bot_v.Prelude.{
  ℕ, zero, suc, ◌+◌, ◌-◌, ◌≤◌, ◌<◌, ◌≡◌, refl, max, ◌⊎◌, inl, inr, true, false, Option, length, leb,
  arith, Bool-cases, Result, ok, err,
}
use mathlib.Core.Path.{subst}
use qq_bot_v.Prelude.Values.{Value}
use qq_bot_v.Tasks.Retry.{
  Retried, is_transient_error, or_default, attempts_allowed, stopped, delayed, retry_from,
  with_transient_retry,
}

module _ {A : Type 0} (operation : ℕ → Result Value A) where
  -- The attempt fails with a transient error.
  abbrev pub Transient : ℕ → Type 0
  Transient k = (e : Value) × (operation k ≡ err e) × (is_transient_error e ≡ true)

  -- The result ends the retries: a success, the last attempt, or an error that is not transient.
  abbrev pub Final : ℕ → ℕ → Type 0
  Final last k =
      ((a : A) × (operation k ≡ ok a))
      ⊎ ((k ≡ last) ⊎ ((e : Value) × (operation k ≡ err e) × (is_transient_error e ≡ false)))

  pub record Tries (first last : ℕ) (r : Retried A) : Type 0 where
    pub within : (first ≤ r.attempts) × (r.attempts ≤ last)
    pub outcome_is : r.outcome ≡ operation r.attempts
    pub waited : first + length r.delays ≡ r.attempts
    pub before : (k : ℕ) → (k < first) ⊎ ((r.attempts ≤ k) ⊎ Transient k)
    pub final : Final last r.attempts

  Result-cases : (r : Result Value A) → ((a : A) × (r ≡ ok a)) ⊎ ((e : Value) × (r ≡ err e))
  Result-cases (ok a) = inl (a, refl)
  Result-cases (err e) = inr (e, refl)

  none_between : (k a : ℕ) → (k < a) ⊎ ((a ≤ k) ⊎ Transient k)
  none_between k a = elim (Bool-cases (leb a k)) [
    | inl le ↦ inr (inl (ground (arith, le)))
    | inr gt ↦ inl (ground (arith, gt))
  ]

  module _ (base_delay_ms : ℕ) (jitter : ℕ → ℕ → ℕ) where
    stopped-Tries :
        (attempt last : ℕ)
        → attempt ≤ last
        → Final last attempt
        → Tries attempt last (stopped operation base_delay_ms jitter attempt (operation attempt))
    stopped-Tries attempt last le final = record {
      within = (omega arith, le);
      outcome_is = refl;
      waited = omega arith;
      before = λ k. none_between k attempt;
      final = final;
    }

    delayed-Tries :
        (attempt last : ℕ) (r : Retried A)
        → Transient attempt
        → Tries (attempt + 1) last r
        → Tries attempt last (delayed operation base_delay_ms jitter attempt r)
    delayed-Tries attempt last r now t = record {
      within = (let (low, high) = t.within in (omega arith, high));
      outcome_is = t.outcome_is;
      waited = (let w = t.waited in omega arith);
      before = λ k. elim (Bool-cases (leb k attempt)) [
        | inr later ↦ elim (t.before k) [
          | inl lt ↦ absurd (ground (arith, lt, later))
          | inr rest ↦ inr rest
        ]
        | inl le ↦ elim (Bool-cases (leb attempt k)) [
          | inl ge ↦
              let same : attempt ≡ k = ground (arith, le, ge) in
              inr (inr (subst Transient same now))
          | inr lt ↦ inl (ground (arith, lt))
        ]
      ];
      final = t.final;
    }

    retry_from-Tries :
        (left attempt : ℕ)
        → Tries attempt (attempt + left) (retry_from operation base_delay_ms jitter left attempt)
    unfolding retry_from
    retry_from-Tries zero attempt =
        stopped-Tries attempt (attempt + 0) (omega arith) (inr (inl (omega arith)))
    retry_from-Tries (suc left) attempt = elim (Result-cases (operation attempt)) [
      | inl (a, p) ↦
          subst (Tries attempt (attempt + suc left)) (rw (retry_from, p) refl)
            (stopped-Tries attempt (attempt + suc left) (omega arith) (inl (a, p)))
      | inr (e, p) ↦ elim (Bool-cases (is_transient_error e)) [
        | inl yes_transient ↦
            subst (Tries attempt (attempt + suc left)) (rw (retry_from, p, yes_transient) refl) (
              delayed-Tries attempt (attempt + suc left)
                (retry_from operation base_delay_ms jitter left (attempt + 1)) (e, p, yes_transient)
                (subst
                  (λ last.
                    Tries (attempt + 1) last
                      (retry_from operation base_delay_ms jitter left (attempt + 1)))
                  (omega arith) (retry_from-Tries left (attempt + 1))))
        | inr permanent ↦
            subst (Tries attempt (attempt + suc left)) (rw (retry_from, p, permanent) refl) (
              stopped-Tries attempt (attempt + suc left) (omega arith)
                (inr (inr (e, p, permanent))))
      ]
    ]

-- An operation is tried at least once and at most as often as allowed. Its result is that of the
-- last attempt, every attempt before it fails with a transient error and is followed by one delay,
-- and the last is a success, an error that is not transient, or the last one allowed.
pub with_transient_retry-Tries :
    {A : Type 0} (operation : ℕ → Result Value A) (jitter : ℕ → ℕ → ℕ)
    (max_attempts base_delay_ms : Option ℕ)
    → Tries operation 1
        (attempts_allowed operation jitter max_attempts)
        (with_transient_retry operation jitter max_attempts base_delay_ms)
unfolding with_transient_retry
with_transient_retry-Tries operation jitter max_attempts base_delay_ms =
    subst
      (λ last.
        Tries operation 1 last (with_transient_retry operation jitter max_attempts base_delay_ms))
      (let e : 1 + (max 1 (or_default max_attempts 3) - 1) ≡ max 1 (or_default max_attempts 3) =
          omega arith in
        e)
      (retry_from-Tries operation (or_default base_delay_ms 50) jitter
        (max 1 (or_default max_attempts 3) - 1) 1)
