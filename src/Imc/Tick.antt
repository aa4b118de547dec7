-- ===== src/Imc/Tick.antt =====
-- src/general/imc.cpp, `tick`: the controller's invariant, and a controller that waits.
use vans.Base.{
  ℕ, suc, ◌+◌, ◌%◌, ◌<◌, ◌≤◌, ◌≡◌, refl, sym, subst, ap, ◌∙◌, inl, inr, true, false, List, [], ◌∷◌,
  ◌++◌, length, length-append, All, arith, ltb, ◌==◌, Bool-cases, ok, Returns, returns,
  Returns-bind, Returns-mono,
}
use vans.Base.Bits.{add64}
use vans.Common.{BaseRequest}
use vans.RequestQueue
use vans.RequestQueue.{RequestQueue, IsBounded}
use vans.NextLevel.{NextLevel, Contract}
use vans.Imc.{
  ImcController, QueueToTick, no_queue, read_queue, write_queue, queue_to_tick, get_next_level,
  flush_wpq, adr, tick_read, tick_write, tick, pending_current,
}
use vans.Imc.Flush.{Open, Timely, Flushed, flush_wpq-Flushed}

All-suffix : (P : BaseRequest → Type 0) (xs ys : List BaseRequest) → All P (xs ++ ys) → All P ys
All-suffix P [] ys a = a
All-suffix P (x ∷ xs) ys a = All-suffix P xs ys a.1

module _ {N : Type 0} {next : NextLevel N} {horizon : ℕ} (contract : Contract next horizon) where
  -- The queues are within their bounds, their requests arrived by the horizon, and `fuel` rounds
  -- are enough to flush a full queue.
  pub record ImcOk (fuel : ℕ) (c : ImcController N) : Type 0 where
    pub reads_bounded : IsBounded c.rpq
    pub writes_bounded : IsBounded c.wpq
    pub reads_timely : Timely contract c.rpq.queue
    pub writes_timely : Timely contract c.wpq.queue
    pub good : contract.Good c.next_level_components
    pub enough : c.wpq.max_entries < fuel

  Flushed-ImcOk :
      (fuel : ℕ) (c d : ImcController N) → ImcOk fuel c → Flushed contract c d → ImcOk fuel d
  Flushed-ImcOk fuel c d v f =
      let l : length c.wpq.queue ≡ length f.sent + length d.wpq.queue =
        ap length f.order ∙ length-append f.sent d.wpq.queue in
      let b = v.writes_bounded in
      let m = f.same_bound in
      record {
        reads_bounded = subst IsBounded (sym f.same_reads) v.reads_bounded;
        writes_bounded = omega arith;
        reads_timely = subst (λ q. Timely contract q.queue) (sym f.same_reads) v.reads_timely;
        writes_timely =
            All-suffix (λ r. r.arrive ≤ horizon) f.sent d.wpq.queue
              (subst (Timely contract) f.order v.writes_timely);
        good = f.good;
        enough = subst (λ n. n < fuel) (sym m) v.enough;
      }

  flush_wpq-ImcOk :
      (fuel : ℕ) (c : ImcController N)
      → Open contract
      → ImcOk fuel c
      → Returns (ImcOk fuel) (flush_wpq next fuel c)
  flush_wpq-ImcOk fuel c o v =
      let b = v.writes_bounded in
      let n = v.enough in
      Returns-mono (flush_wpq-Flushed contract fuel c o v.good v.writes_timely (omega arith))
        (λ d f. Flushed-ImcOk fuel c d v f)

  adr-ImcOk :
      (fuel : ℕ) (c : ImcController N)
      → Open contract
      → ImcOk fuel c
      → Returns (ImcOk fuel) (adr next fuel c)
  unfolding adr
  adr-ImcOk fuel c o v = elim (Bool-cases (c.adr_epoch == 0)) [
    | inl off ↦ rw off (returns v)
    | inr on ↦ rw on (elim (Bool-cases (add64 c.imc_curr_clk 1 % c.adr_epoch == 0)) [
      | inl due ↦ rw due (flush_wpq-ImcOk fuel c o v)
      | inr later ↦ rw later (returns v)
    ])
  ]

  tick_write-ImcOk :
      (fuel : ℕ) (c : ImcController N)
      → Open contract
      → ImcOk fuel c
      → Returns (ImcOk fuel) (tick_write next fuel c)
  unfolding tick_write RequestQueue.full
  tick_write-ImcOk fuel c o v =
      let b = v.writes_bounded in
      let fits : ltb c.wpq.max_entries (length c.wpq.queue) ≡ false = ground arith in
      rw fits (elim (Bool-cases (length c.wpq.queue == c.wpq.max_entries)) [
        | inl full ↦ rw full (flush_wpq-ImcOk fuel c o v)
        | inr room ↦ rw room (returns v)
      ])

  with_reads-ImcOk :
      (fuel : ℕ) (c : ImcController N) (reads : List BaseRequest) (n : N)
      → ImcOk fuel c
      → length reads ≤ length c.rpq.queue
      → Timely contract reads
      → contract.Good n
      → ImcOk fuel (record c { next_level_components = n; rpq = record (c.rpq) { queue = reads } })
  with_reads-ImcOk fuel c reads n v l t g =
      let b = v.reads_bounded in
      record {
        reads_bounded = omega arith;
        writes_bounded = v.writes_bounded;
        reads_timely = t;
        writes_timely = v.writes_timely;
        good = g;
        enough = v.enough;
      }

  front_read-ImcOk :
      (fuel : ℕ) (c : ImcController N) (front : BaseRequest) (rest : List BaseRequest)
      → ImcOk fuel c
      → c.rpq.queue ≡ front ∷ rest
      → Returns (ImcOk fuel) (tick_read next c)
  unfolding tick_read
  front_read-ImcOk fuel c front rest v q =
      let t = subst (Timely contract) q v.reads_timely in
      let longer : length c.rpq.queue ≡ suc (length rest) = ap length q in
      let mapped = record front { addr = (get_next_level next front.addr c).0 } in
      let id = (get_next_level next front.addr c).1 in
      simp (q, tick_read)
        (elim (Bool-cases (next.full id c.next_level_components)) [
          | inl full ↦ simp full (
              returns (
                with_reads-ImcOk fuel c (mapped ∷ rest) c.next_level_components v (omega arith) t
                  v.good))
          | inr open' ↦ simp open' (
              Returns-bind (contract.issue_ok id mapped c.next_level_components v.good t.0)
                (λ (r, n) (good, valid). elim (Bool-cases r.issued) [
                  | inl yes' ↦
                      simp yes' (returns (with_reads-ImcOk fuel c rest n v (omega arith) t.1 good))
                  | inr no' ↦
                      simp no'
                        (returns (with_reads-ImcOk fuel c (mapped ∷ rest) n v (omega arith) t good))
                ]))
        ])

  no_read : (c : ImcController N) → c.rpq.queue ≡ [] → tick_read next c ≡ ok c
  unfolding tick_read
  no_read c q = simp (q, tick_read) refl

  tick_read-ImcOk :
      (fuel : ℕ) (c : ImcController N) → ImcOk fuel c → Returns (ImcOk fuel) (tick_read next c)
  tick_read-ImcOk fuel c v = by_queue c.rpq.queue refl
    where
      by_queue :
          (queue : List BaseRequest) → c.rpq.queue ≡ queue → Returns (ImcOk fuel) (tick_read next c)
      by_queue [] q = rw (no_read c q) (returns v)
      by_queue (front ∷ rest) q = front_read-ImcOk fuel c front rest v q

  with_clk-ImcOk :
      (fuel clk : ℕ) (c : ImcController N)
      → ImcOk fuel c
      → ImcOk fuel (record c { imc_curr_clk = clk })
  with_clk-ImcOk fuel clk c v = record {
    reads_bounded = v.reads_bounded;
    writes_bounded = v.writes_bounded;
    reads_timely = v.reads_timely;
    writes_timely = v.writes_timely;
    good = v.good;
    enough = v.enough;
  }

  by_choice :
      (which : QueueToTick) (fuel : ℕ) (c : ImcController N)
      → Open contract
      → ImcOk fuel c
      → Returns (ImcOk fuel) (elim which [
        | no_queue ↦ ok c
        | read_queue ↦ tick_read next c
        | write_queue ↦ tick_write next fuel c
      ])
  by_choice no_queue fuel c o v = returns v
  by_choice read_queue fuel c o v = tick_read-ImcOk fuel c v
  by_choice write_queue fuel c o v = tick_write-ImcOk fuel c o v

  -- In a state of the invariant, where a component below issues what it is given unless it is full, and
  -- with one round of the loop more than the write queue can hold, a tick ends without an exception and
  -- keeps the invariant.
  pub tick-ImcOk :
      (fuel clk : ℕ) (c : ImcController N)
      → Open contract
      → ImcOk fuel c
      → Returns (ImcOk fuel) (tick next fuel clk c)
  unfolding tick
  tick-ImcOk fuel clk c o v =
      Returns-bind
        (by_choice (queue_to_tick c.rpq.queue c.wpq.queue) fuel (record c { imc_curr_clk = clk }) o
          (with_clk-ImcOk fuel clk c v))
        (λ d w. elim (Bool-cases (RequestQueue.empty d.wpq)) [
          | inl empty ↦ rw empty (returns w)
          | inr writes ↦ rw writes (adr-ImcOk fuel d o w)
        ])

only_writes :
    (reads writes : List BaseRequest)
    → reads ≡ []
    → 0 < length writes
    → queue_to_tick reads writes ≡ write_queue
unfolding queue_to_tick
only_writes [] [] q p = absurd (omega arith)
only_writes [] (w ∷ writes) q p = refl
only_writes (r ∷ reads) writes q p = cc

module _ {N : Type 0} (next : NextLevel N) where
  -- Without the asynchronous flush (`adr_epoch` 0), with no read queued and a write queue that is
  -- neither empty nor full, a tick changes nothing but the clock, and the controller is pending.
  pub tick-idle :
      (fuel clk : ℕ) (c : ImcController N)
      → c.adr_epoch ≡ 0
      → c.rpq.queue ≡ []
      → 0 < length c.wpq.queue
      → length c.wpq.queue < c.wpq.max_entries
      → (tick next fuel clk c ≡ ok (record c { imc_curr_clk = clk })) × (pending_current c ≡ true)
  unfolding tick tick_write adr pending_current RequestQueue.full RequestQueue.pending
      RequestQueue.empty
  tick-idle fuel clk c a q p l =
      let which = only_writes c.rpq.queue c.wpq.queue q p in
      let fits : ltb c.wpq.max_entries (length c.wpq.queue) ≡ false = ground arith in
      let room : (length c.wpq.queue == c.wpq.max_entries) ≡ false = ground arith in
      let some' : (length c.wpq.queue == 0) ≡ false = ground arith in
      (simp (which, fits, room, some', a) refl, ground arith)
