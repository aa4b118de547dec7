-- ===== src/Rmw/Safety/Issue.antt =====
-- src/general/rmw.cpp:54-96: the requests that a transfer issues, and the invariant.
use vans.Base.{
  ℕ, zero, suc, ltb, ap, subst, ◌++◌, ◌+◌, ◌<◌, ◌≤◌, ◌≡◌, refl, true, false, List, [], ◌∷◌, arith,
  length, length-append, set, replicate, All, Option, none, ok, Returns, Returns-bind, returns,
  get_or,
}
use vans.Common.{base_request, BaseRequestType, Callback, clk_invalid, cpu_cl_size}
use vans.Common.Address.Rmw.{translate_to_block_addr, block_size_cl}
use vans.Base.Bits.{add64, mul64}
use vans.RequestQueue
use vans.RequestQueue.{RequestQueue, IsBounded}
use vans.StaticMemory.{issue_request-deterministic}
use vans.NextLevel.{NextLevel, Contract, IsValidResponse}
use vans.Rmw.Entry.{BufferEntry}
use vans.Rmw.Controller.{Core, Event, count, issue_next_level, issue_local_memory, issue_roq}
use vans.Rmw.Safety.{EntryOk, CoreOk, is_reading}

set-replicate {ℓ} : {A : Type ℓ} (n i : ℕ) (a : A) → set (replicate n a) i a ≡ replicate n a
set-replicate zero i a = refl
set-replicate (suc n) zero a = refl
set-replicate (suc n) (suc i) a = ap (◌∷◌ a) (set-replicate n i a)

-- A bounded queue's `full` does not throw, and tells whether there is room.
pub full-ok {ℓ} :
    {A : Type ℓ} (q : RequestQueue A)
    → IsBounded q
    → Returns (λ b. b ≡ false → length q.queue < q.max_entries) (RequestQueue.full q)
unfolding RequestQueue.full
full-ok q h =
    let fits : ltb q.max_entries (length q.queue) ≡ false = ground arith in
    rw fits (returns (λ e. ground arith))

module _ {N : Type 0} {next : NextLevel N} {horizon : ℕ} (contract : Contract next horizon) where
  pub count-CoreOk :
      (name : Event) (c : Core N) → CoreOk contract c → CoreOk contract (count name c)
  unfolding count
  count-CoreOk name c v = record {
    good = v.good;
    roq_bounded = v.roq_bounded;
    next_fits = v.next_fits;
    ait_to_rmw_fits = v.ait_to_rmw_fits;
    rmw_to_ait_fits = v.rmw_to_ait_fits;
    read_fits = v.read_fits;
    write_fits = v.write_fits;
  }

  pub issue_next_level-ok :
      (type : BaseRequestType) (callback : Option Callback) (block_addr : ℕ) (entry : BufferEntry)
      (curr_clk : ℕ) (c : Core N)
      → curr_clk ≤ horizon
      → CoreOk contract c
      → Returns
          (λ p. CoreOk contract p.1 × IsValidResponse p.0)
          (issue_next_level next type callback block_addr entry curr_clk c)
  unfolding issue_next_level
  issue_next_level-ok type callback block_addr entry curr_clk c t v =
      Returns-bind (contract.issue_ok _ _ _ v.good t) (λ p h. returns (
        record {
          good = h.0;
          roq_bounded = v.roq_bounded;
          next_fits = v.next_fits;
          ait_to_rmw_fits = v.ait_to_rmw_fits;
          rmw_to_ait_fits = v.rmw_to_ait_fits;
          read_fits = v.read_fits;
          write_fits = v.write_fits;
        },
        h.1,
      ))

  pub issue_local_memory-ok :
      (type : BaseRequestType) (entry : BufferEntry) (curr_clk : ℕ) (c : Core N)
      → curr_clk ≤ horizon
      → CoreOk contract c
      → Returns
          (λ p. CoreOk contract p.1 × IsValidResponse p.0)
          (issue_local_memory type entry curr_clk c)
  unfolding issue_local_memory
  issue_local_memory-ok type entry curr_clk c t v =
      let req = base_request type entry.pending_request.logic_addr curr_clk none in
      let read_fits : curr_clk + c.local_memory_model.read_latency < clk_invalid =
        let f = v.read_fits in omega arith in
      let write_fits : curr_clk + c.local_memory_model.write_latency < clk_invalid =
        let f = v.write_fits in omega arith in
      Returns-bind (issue_request-deterministic c.local_memory_model req read_fits write_fits)
        (λ r h. returns (v, λ d. h.3))

  issue_roq-eq :
      (i : ℕ) (rest : List ℕ) (e : BufferEntry) (c : Core N)
      → e.pending_request_cl_index ≡ i ∷ rest
      → i < block_size_cl
      → length c.roq.queue < c.roq.max_entries
      → issue_roq e c
        ≡ ok (
          record e { pending_request_cl_index = rest; cb_bitmap = set e.cb_bitmap i false },
          record c {
            roq = record (c.roq) {
              queue =
                  c.roq.queue
                  ++ record {
                    addr =
                        add64
                          (translate_to_block_addr e.pending_request.logic_addr)
                          (mul64 i cpu_cl_size);
                    arrive = e.pending_request.arrive;
                    depart = e.next_action_clk;
                    type = BaseRequestType.read;
                    callback = get_or e.callbacks i none;
                  }
                    ∷ [];
            };
          },
        )
  unfolding issue_roq RequestQueue.full
  issue_roq-eq i rest e c q h room = ground arith

  -- Of the entry's pending reads the oldest is gone, and nothing else of the entry is changed.
  abbrev pub Popped : BufferEntry → BufferEntry × Core N → Type 0
  Popped e p =
      (rest : List ℕ) × (p.0
        ≡ record e { pending_request_cl_index = rest; cb_bitmap = replicate block_size_cl false })
      × (length e.pending_request_cl_index ≡ suc (length rest))
      × All (λ i. i < block_size_cl) rest
      × CoreOk contract p.1

  pub issue_roq-ok :
      (key : ℕ) (e : BufferEntry) (c : Core N)
      → EntryOk key e
      → CoreOk contract c
      → is_reading e ≡ true
      → length c.roq.queue < c.roq.max_entries
      → Returns (Popped e) (issue_roq e c)
  issue_roq-ok key e c v w r room = by_index e.pending_request_cl_index refl
    where
      by_index : (l : List ℕ) → e.pending_request_cl_index ≡ l → Returns (Popped e) (issue_roq e c)
      by_index [] q = absurd (let n = v.reading r in ground arith)
      by_index (i ∷ rest) q =
          let l = subst (All (λ k. k < block_size_cl)) q v.lines in
          rw (issue_roq-eq i rest e c q l.0 room) (
            returns (
              rest,
              rw (v.cb_clear, set-replicate block_size_cl i false) refl,
              ap length q,
              l.1,
              record {
                good = w.good;
                roq_bounded = omega (arith, length-append c.roq.queue (_ ∷ []));
                next_fits = w.next_fits;
                ait_to_rmw_fits = w.ait_to_rmw_fits;
                rmw_to_ait_fits = w.rmw_to_ait_fits;
                read_fits = w.read_fits;
                write_fits = w.write_fits;
              },
            ))
