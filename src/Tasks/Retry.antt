-- ===== src/Tasks/Retry.antt =====
-- The retries of a database operation (src/database/transient-retry.ts). The operation is the
-- result of each attempt, counted from 1, and an error is its value. `jitter` is the rounding of a
-- delay with the random part of an attempt.
pub mod Laws
use qq_bot_v.Prelude.{
  ℕ, zero, suc, ◌+◌, ◌-◌, ◌*◌, ◌^◌, max, Bool, true, false, ◌||◌, Option, none, some, List, [], ◌∷◌,
  has, text_eq, Text, text, if◌then◌else◌, Result, ok, err,
}
use qq_bot_v.Prelude.Values.{Value, object, string, Fields, prop}

abbrev transient_error_codes : List Text
transient_error_codes =
    text "P1001"
    ∷ text "P1002"
    ∷ text "P1008"
    ∷ text "P1017"
    ∷ text "P2024"
    ∷ text "P2034"
    ∷ text "ECONNREFUSED"
    ∷ text "ECONNRESET"
    ∷ text "EPIPE"
    ∷ text "ETIMEDOUT"
    ∷ []

abbrev has_transient_code : Fields → Bool
has_transient_code fs = elim (prop (text "code") fs) [
  | string s ↦ has s transient_error_codes
  | _ ↦ false
]

-- The loop over the causes; a value that is no object with properties ends it.
is_transient_from : ℕ → Value → Bool
is_transient_from zero current = false
is_transient_from (suc depth) (object fs) =
    has_transient_code fs || is_transient_from depth (prop (text "cause") fs)
is_transient_from (suc depth) current = false

unfoldable pub is_transient_error : Value → Bool
unfolding is_transient_from
is_transient_error error = is_transient_from 3 error

pub record Retried (A : Type 0) : Type 0 where
  pub attempts : ℕ
  pub delays : List ℕ
  pub outcome : Result Value A

abbrev pub or_default : Option ℕ → ℕ → ℕ
or_default none d = d
or_default (some n) d = n

module _ {A : Type 0} (operation : ℕ → Result Value A) (base_delay_ms : ℕ)
    (jitter : ℕ → ℕ → ℕ) where
  abbrev pub stopped : ℕ → Result Value A → Retried A
  stopped attempt r = record { attempts = attempt; delays = []; outcome = r }

  abbrev pub delayed : ℕ → Retried A → Retried A
  delayed attempt r = record r {
    delays = jitter attempt (base_delay_ms * 2 ^ (attempt - 1)) ∷ r.delays;
  }

  -- `left` more attempts may follow `attempt`.
  unfoldable pub retry_from : ℕ → ℕ → Retried A
  retry_from zero attempt = stopped attempt (operation attempt)
  retry_from (suc left) attempt =
      let rest = retry_from left (attempt + 1) in
      elim (operation attempt) [
        | ok a ↦ stopped attempt (ok a)
        | err e ↦ if is_transient_error e then delayed attempt rest else stopped attempt (err e)
      ]

module _ {A : Type 0} (operation : ℕ → Result Value A) (jitter : ℕ → ℕ → ℕ) where
  abbrev pub attempts_allowed : Option ℕ → ℕ
  attempts_allowed max_attempts = max 1 (or_default max_attempts 3)

  unfoldable pub with_transient_retry : Option ℕ → Option ℕ → Retried A
  unfolding retry_from
  with_transient_retry max_attempts base_delay_ms =
      retry_from operation (or_default base_delay_ms 50) jitter (attempts_allowed max_attempts - 1)
        1
