-- ===== src/Chain.antt =====
-- The components in the chain that src/general/component.h builds of them: the memory controller over
-- the RMW buffer, and the RMW buffer over the AIT. Each is seen by the one above as a `NextLevel`,
-- with its own contract filled by its theorems.
mod Tests
use vans.Base.{
  ℕ, ◌+◌, ◌<◌, ◌≤◌, ◌≡◌, refl, Bool, true, false, arith, length, inl, inr, Result, ok, err, ◌>>=◌,
  Returns, returns, Returns-bind, Returns-mono, ltb, ◌==◌,
}
use vans.Common.{BaseRequest, BaseResponse}
use vans.RequestQueue
use vans.RequestQueue.{RequestQueue, IsBounded}
use vans.RequestQueue.Bounds.{enqueue-Enqueued, Enqueued}
use vans.NextLevel.{NextLevel, Contract}
use vans.Rmw.Controller.{RmwController}
use vans.Rmw.Tick as RmwTick
use vans.Rmw.Safety.Evict.{RmwOk}
use vans.Ait.Controller.{AitController}
use vans.Ait.Tick as AitTick
use vans.Rmw.Safety.{CoreOk}
use vans.Rmw.Run.{IsFresh, Reachable, Reachable-tick}
use vans.Imc.{ImcController}
use vans.Imc
use vans.Imc.Flush.{Open}
use vans.Imc.Tick.{ImcOk, tick-ImcOk}

-- `full` of a queue, which throws where the bound is broken.
abbrev says_full : Result Bool → Bool
says_full (ok b) = b
says_full (err e) = true

unfoldable pub ait_level : {N M : Type 0} → NextLevel (AitController N M)
ait_level = record {
  count = 1;
  issue_request = λ i req c. AitTick.issue_request req c;
  full = λ i c. says_full (AitTick.full c);
}

unfoldable pub rmw_level : {N : Type 0} → NextLevel (RmwController N)
rmw_level = record {
  count = 1;
  issue_request = λ i req c. RmwTick.issue_request req c;
  full = λ i c. says_full (RmwTick.full c);
}

-- The AIT takes requests while its queue is within its bound.
unfoldable pub ait_contract :
    {N M : Type 0} → (horizon : ℕ) → Contract (ait_level {N = N} {M = M}) horizon
unfolding ait_level AitTick.issue_request
ait_contract horizon = record {
  Good = λ c. IsBounded c.lsq;
  issue_ok =
      λ i req c v t. Returns-bind (enqueue-Enqueued req c.lsq v) (λ p h. returns (h.0, λ d. cc));
}

enqueue_with_room :
    (req : BaseRequest) (q : RequestQueue BaseRequest)
    → IsBounded q
    → says_full (RequestQueue.full q) ≡ false
    → Returns (λ p. p.0 ≡ true) (RequestQueue.enqueue req q)
unfolding RequestQueue.enqueue RequestQueue.full
enqueue_with_room req q h free =
    let fits : ltb q.max_entries (length q.queue) ≡ false = ground arith in
    let room : (length q.queue == q.max_entries) ≡ false = ground arith in
    rw (fits, room) (returns refl)

module _ {N : Type 0} {next : NextLevel N} {horizon : ℕ} (below : Contract next horizon) where
  -- The RMW buffer takes requests while it is in its invariant.
  unfoldable pub rmw_contract : Contract (rmw_level {N = N}) horizon
  unfolding rmw_level RmwTick.issue_request
  rmw_contract = record {
    Good = λ c. RmwOk below c;
    issue_ok = λ i req c v t. Returns-bind (enqueue-Enqueued req c.lsq v.lsq_ok) (λ p h.
        returns (record { core_ok = v.core_ok; buffer_ok = v.buffer_ok; lsq_ok = h.0 }, λ d. cc));
  }

  -- With room in its queue the RMW buffer issues what it is given.
  rmw-Open : Open rmw_contract
  unfolding rmw_contract rmw_level RmwTick.issue_request RmwTick.full
  rmw-Open i req c v t free =
      Returns-bind (enqueue_with_room req c.lsq v.lsq_ok free) (λ p h. returns h)

  -- The memory controller over the RMW buffer, over any component that keeps its contract: where both
  -- are in their invariants, and with one round more than the write queue holds, a tick of the memory
  -- controller ends without an exception of either, and both invariants hold after it.
  pub chain_tick-ImcOk :
      (fuel clk : ℕ) (c : ImcController (RmwController N))
      → ImcOk rmw_contract fuel c
      → Returns (ImcOk rmw_contract fuel) (Imc.tick rmw_level fuel clk c)
  chain_tick-ImcOk fuel clk c v = tick-ImcOk rmw_contract fuel clk c rmw-Open v

-- The RMW buffer over the AIT, from an RMW buffer as it is constructed with a well-formed core, over an
-- AIT whose queue is within its bound: after any calls of the RMW buffer's public methods that return
-- normally, a tick of it with a clock up to the horizon throws neither in it nor in the AIT's
-- `issue_request`, it leaves the RMW buffer in its invariant, and the queue of the AIT is within its
-- bound still.
pub chain_tick-RmwOk :
    {N M : Type 0} (horizon clk : ℕ) (c d : RmwController (AitController N M))
    → IsFresh c
    → CoreOk (ait_contract horizon) c.core
    → Reachable ait_level horizon c d
    → clk ≤ horizon
    → Returns
        (λ e. RmwOk (ait_contract horizon) e × IsBounded e.next_level_components.lsq)
        (RmwTick.tick ait_level clk d)
unfolding ait_contract
chain_tick-RmwOk horizon clk c d f w path t =
    Returns-mono (Reachable-tick (ait_contract horizon) c d clk f w path t)
      (λ e v. (v, v.core_ok.good))
