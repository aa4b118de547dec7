-- ===== src/RequestQueue.antt =====
-- src/general/request_queue.h: a bounded queue of requests, oldest first.
pub mod Bounds
use vans.Base.{
  ℕ, ◌+◌, ◌≤◌, ◌<◌, ◌≡◌, refl, Bool, true, false, not, List, [], ◌∷◌, ◌++◌, arith, ltb, ◌==◌,
  if◌then◌else◌, length, length-append, Result, ok, err, queue_overflow, ◌>>=◌, Returns,
}

pub record RequestQueue {ℓ} (A : Type ℓ) : Type ℓ where
  pub queue : List A
  pub max_entries : ℕ

module _ {ℓ} {A : Type ℓ} where
  unfoldable pub full : RequestQueue A → Result Bool
  full q =
      if ltb q.max_entries (length q.queue)
      then err queue_overflow
      else ok (length q.queue == q.max_entries)

  unfoldable pub empty : RequestQueue A → Bool
  empty q = length q.queue == 0

  unfoldable pub pending : RequestQueue A → Bool
  unfolding empty
  pending q = not (empty q)

  -- `size` returns `bool`: the length, as a truth value.
  unfoldable pub size : RequestQueue A → Bool
  size q = if length q.queue == 0 then false else true

  unfoldable pub enqueue : A → RequestQueue A → Result (Bool × RequestQueue A)
  unfolding full
  enqueue req q = full q >>= λ is_full.
      if is_full then ok (false, q) else ok (true, record q { queue = q.queue ++ req ∷ [] })

  -- The representation is within its bound.
  abbrev pub IsBounded : RequestQueue A → Type 0
  IsBounded q = length q.queue ≤ q.max_entries
