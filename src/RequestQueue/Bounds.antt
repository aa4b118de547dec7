-- ===== src/RequestQueue/Bounds.antt =====
-- src/general/request_queue.h, `enqueue` on a queue within its bound.
use vans.Base.{
  ◌+◌, ◌<◌, ◌≡◌, ◌⊎◌, inl, inr, refl, Bool, true, false, [], ◌∷◌, ◌++◌, arith, ltb, ◌==◌, length,
  length-append, Bool-cases, Returns, returns,
}
use vans.RequestQueue
use vans.RequestQueue.{RequestQueue, IsBounded}

module _ {A : Type 0} where
  -- The two answers of `enqueue`: the request stands last in a queue that had room, or the queue
  -- was full and is as it was.
  abbrev pub Enqueued : A → RequestQueue A → Bool × RequestQueue A → Type 0
  Enqueued req q out =
      ((length q.queue < q.max_entries)
        × (out ≡ (true, record q { queue = q.queue ++ req ∷ [] }))
        × (length out.1.queue ≡ length q.queue + 1))
      ⊎ ((length q.queue ≡ q.max_entries) × (out ≡ (false, q)))

  -- On a queue within its bound `enqueue` does not throw and keeps the bound: it puts the request last
  -- where there is room, and otherwise answers `false` and changes nothing.
  pub enqueue-Enqueued :
      (req : A) (q : RequestQueue A)
      → IsBounded q
      → Returns (λ out. IsBounded out.1 × Enqueued req q out) (RequestQueue.enqueue req q)
  unfolding RequestQueue.enqueue RequestQueue.full
  enqueue-Enqueued req q h =
      let fits : ltb q.max_entries (length q.queue) ≡ false = ground arith in
      let longer = length-append q.queue (req ∷ []) in
      rw fits (elim (Bool-cases (length q.queue == q.max_entries)) [
        | inl full ↦ rw full (returns (h, inr (ground arith, refl)))
        | inr room ↦ rw room (returns (ground arith, inl (ground arith, refl, longer)))
      ])
