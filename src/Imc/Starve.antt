-- ===== src/Imc/Starve.antt =====
-- src/general/imc.cpp: a memory controller without the asynchronous flush (`adr_epoch` 0), over any
-- ticks, drains and writes.
use mathlib.Core.List.{append-nil, append_assoc}
use vans.Base.{
  ℕ, ◌+◌, ◌<◌, ◌≡◌, refl, sym, ap, ◌∙◌, inl, inr, true, false, List, [], ◌∷◌, ◌++◌, length, ◌==◌,
  arith, ok, Partial, Partial-at, Partial-bind, returned, Returns-weaken,
}
use vans.Common.{BaseRequest, BaseResponse, write}
use vans.NextLevel.{NextLevel}
use vans.RequestQueue
use vans.RequestQueue.{RequestQueue, IsBounded}
use vans.RequestQueue.Bounds.{enqueue-Enqueued}
use vans.Imc.{ImcController, issue_request, drain_current, pending_current, tick}
use vans.Imc.Tick.{tick-idle}

module _ {N : Type 0} (next : NextLevel N) where
  -- Ticks, drains, and writes that leave the write queue short of its bound, with the list of the
  -- writes.
  pub data Steps (c : ImcController N) : List BaseRequest → ImcController N → Type 0 where
    start : Steps c [] c
    ticked :
        {ws : List BaseRequest} {d e : ImcController N}
        → Steps c ws d
        → (fuel clk : ℕ) → tick next fuel clk d ≡ ok e
        → Steps c ws e
    drained :
        {ws : List BaseRequest} {d : ImcController N} → Steps c ws d → Steps c ws (drain_current d)
    written :
        {ws : List BaseRequest} {d e : ImcController N}
        → Steps c ws d
        → (req : BaseRequest) (response : BaseResponse) → length d.wpq.queue + 1 < d.wpq.max_entries
        → issue_request (record req { type = write }) d ≡ ok (response, e)
        → Steps c (ws ++ record req { type = write } ∷ []) e

  -- Every write that was queued still is, in order, and nothing has been sent or called back.
  record Starved (c : ImcController N) (ws : List BaseRequest) (d : ImcController N) : Type 0 where
    epoch : d.adr_epoch ≡ 0
    no_reads : d.rpq.queue ≡ []
    some_writes : 0 < length d.wpq.queue
    not_full : length d.wpq.queue < d.wpq.max_entries
    sent : d.next_level_components ≡ c.next_level_components
    called : d.calls ≡ c.calls
    queued : d.wpq.queue ≡ c.wpq.queue ++ ws

  tick-Starved :
      (fuel clk : ℕ) (c : ImcController N) (ws : List BaseRequest) (d : ImcController N)
      → Starved c ws d
      → Partial (Starved c ws) (tick next fuel clk d)
  tick-Starved fuel clk c ws d v =
      let (e, p) = tick-idle next fuel clk d v.epoch v.no_reads v.some_writes v.not_full in
      rw e (
        returned (record {
          epoch = v.epoch;
          no_reads = v.no_reads;
          some_writes = v.some_writes;
          not_full = v.not_full;
          sent = v.sent;
          called = v.called;
          queued = v.queued;
        }))

  write-Starved :
      (req : BaseRequest) (c : ImcController N) (ws : List BaseRequest) (d : ImcController N)
      → Starved c ws d
      → length d.wpq.queue + 1 < d.wpq.max_entries
      → Partial
          (λ o. Starved c (ws ++ record req { type = write } ∷ []) o.1)
          (issue_request (record req { type = write }) d)
  unfolding issue_request
  write-Starved req c ws d v room =
      let w = record req { type = write } in
      Partial-bind (Returns-weaken (enqueue-Enqueued w d.wpq (omega arith)))
        (λ (success, q) (bounded, enqueued). elim enqueued [
          | inr (full, e) ↦ absurd (omega arith)
          | inl (some_room, e, longer) ↦
              let items : q.queue ≡ d.wpq.queue ++ w ∷ [] = ap (λ o. o.1.queue) e in
              let size : q.max_entries ≡ d.wpq.max_entries = ap (λ o. o.1.max_entries) e in
              returned (record {
                epoch = v.epoch;
                no_reads = v.no_reads;
                some_writes = omega arith;
                not_full = omega arith;
                sent = v.sent;
                called = v.called;
                queued =
                    items ∙ ap (λ l. l ++ w ∷ []) v.queued ∙ append_assoc c.wpq.queue ws (w ∷ []);
              })
        ])

  Steps-Starved :
      {c d : ImcController N} {ws : List BaseRequest}
      → Starved c [] c
      → Steps c ws d
      → Starved c ws d
  unfolding drain_current
  Steps-Starved v start = v
  Steps-Starved {c} {ws} v (ticked {d} us fuel clk e) =
      Partial-at (tick-Starved fuel clk c ws d (Steps-Starved v us)) e
  Steps-Starved v (drained us) = Steps-Starved v us
  Steps-Starved {c} v (written {ws} {d} us req response room e) =
      Partial-at (write-Starved req c ws d (Steps-Starved v us) room) e

  -- Without the asynchronous flush, with no read queued and a write queue that is neither empty nor full:
  -- after any ticks, drains, and writes that leave the queue short of its bound, nothing has been sent to
  -- the components below, no callback has been called, the queue holds the older writes and then these
  -- ones, in order, and the controller is pending. So it never finishes, also when it is drained.
  pub writes-starve :
      {c d : ImcController N} {ws : List BaseRequest}
      → c.adr_epoch ≡ 0
      → c.rpq.queue ≡ []
      → 0 < length c.wpq.queue
      → length c.wpq.queue < c.wpq.max_entries
      → Steps c ws d
      → (d.next_level_components ≡ c.next_level_components)
        × (d.calls ≡ c.calls)
        × (d.wpq.queue ≡ c.wpq.queue ++ ws)
        × (pending_current d ≡ true)
  unfolding pending_current RequestQueue.pending RequestQueue.empty
  writes-starve {c} {d} a q p l us =
      let v =
        Steps-Starved
          (record {
            epoch = a;
            no_reads = q;
            some_writes = p;
            not_full = l;
            sent = refl;
            called = refl;
            queued = sym (append-nil c.wpq.queue);
          })
          us in
      let some_left : (length d.wpq.queue == 0) ≡ false =
        let left = v.some_writes in ground arith in
      (v.sent, v.called, v.queued, rw some_left refl)
