-- ===== src/Base/Outcome.antt =====
-- Results of code that may throw. No exception is caught anywhere in the simulator, so the state at
-- a throw is not kept. A failure is named by the message of its `runtime_error`.
-- `out_of_fuel` is no exception of the code: a loop has not ended within the rounds that it was given.
use mathlib.Core.Path.{◌≡◌, refl, subst}

pub data Error : Type 0 where
  out_of_fuel queue_overflow insert_existing insert_full index_out_of_range : Error
  map_at_missing counter_missing : Error
  invalid_arrive invalid_next_action unknown_state_transfer : Error
  no_read_callback roq_full cl_index_overflow reset_while_waiting patch_without_read : Error
  division_by_zero wrong_prereq refresh_refused invalidated_iterator not_implemented : Error
  drain_twice full_of_rmc invalid_argument out_of_range trace_format : Error
  assign_to_pending local_memory_retry empty_front below_start_addr config_error : Error

-- A throw, or the value that the code returns.
pub data Result {ℓ} (A : Type ℓ) : Type ℓ where
  err : Error → Result A
  ok : A → Result A

-- What follows a call is run on its value, and skipped when it throws.
infixl 5 ◌>>=◌
abbrev pub ◌>>=◌ {ℓ κ} : {A : Type ℓ} {B : Type κ} → Result A → (A → Result B) → Result B
err thrown >>= next = err thrown
ok value >>= next = next value

-- The code returns normally, with a value of which `P` holds.
pub data Returns {ℓ} {A : Type ℓ} (P : A → Type 0) : Result A → Type ℓ where
  returns : {a : A} → P a → Returns P (ok a)

module _ {ℓ} {A : Type ℓ} {P : A → Type 0} where
  pub Returns-bind {κ} :
      {B : Type κ} {Q : B → Type 0} {m : Result A} {f : A → Result B}
      → Returns P m
      → ((a : A) → P a → Returns Q (f a))
      → Returns Q (m >>= f)
  Returns-bind (returns {a} p) k = k a p

  pub Returns-mono :
      {Q : A → Type 0} {m : Result A} → Returns P m → ((a : A) → P a → Q a) → Returns Q m
  Returns-mono (returns {a} p) k = returns (k a p)

  -- What is returned is seen by its equation.
  pub Returns-eq : {m : Result A} → Returns P m → (a : A) × (m ≡ ok a) × P a
  Returns-eq (returns {a} p) = (a, refl, p)

  pub Returns-at : {m : Result A} {a : A} → Returns P m → m ≡ ok a → P a
  Returns-at {a} (returns {a = b} p) e = subst P (cc) p

  pub Returns-both :
      {Q : A → Type 0} {m : Result A} → Returns P m → Returns Q m → Returns (λ a. P a × Q a) m
  Returns-both (returns p) (returns q) = returns (p, q)

-- Whatever the code returns, `P` holds of it; it may throw.
pub data Partial {ℓ} {A : Type ℓ} (P : A → Type 0) : Result A → Type ℓ where
  returned : {a : A} → P a → Partial P (ok a)
  thrown : {e : Error} → Partial P (err e)

module _ {ℓ} {A : Type ℓ} {P : A → Type 0} where
  pub Partial-bind {κ} :
      {B : Type κ} {Q : B → Type 0} {m : Result A} {f : A → Result B}
      → Partial P m
      → ((a : A) → P a → Partial Q (f a))
      → Partial Q (m >>= f)
  Partial-bind (returned {a} p) k = k a p
  Partial-bind thrown k = thrown

  pub Partial-mono :
      {Q : A → Type 0} {m : Result A} → Partial P m → ((a : A) → P a → Q a) → Partial Q m
  Partial-mono (returned {a} p) k = returned (k a p)
  Partial-mono thrown k = thrown

  pub Partial-at : {m : Result A} {a : A} → Partial P m → m ≡ ok a → P a
  Partial-at {a} (returned {a = b} p) e = subst P (cc) p
  Partial-at thrown e = cc

  pub Partial-both :
      {Q : A → Type 0} {m : Result A} → Partial P m → Partial Q m → Partial (λ a. P a × Q a) m
  Partial-both (returned p) (returned q) = returned (p, q)
  Partial-both thrown q = thrown

  pub Returns-Partial :
      {Q : A → Type 0} {m : Result A} → Returns P m → Partial Q m → Returns (λ a. P a × Q a) m
  Returns-Partial (returns p) (returned q) = returns (p, q)

pub Partial-any {ℓ} : {A : Type ℓ} (m : Result A) → Partial (λ a. Unit) m
Partial-any (ok a) = returned tt
Partial-any (err e) = thrown

pub Returns-weaken {ℓ} : {A : Type ℓ} {P : A → Type 0} {m : Result A} → Returns P m → Partial P m
Returns-weaken (returns p) = returned p
