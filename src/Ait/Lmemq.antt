-- ===== src/Ait/Lmemq.antt =====
-- src/general/ait.cpp, `tick_lmemq`: the front request of the local memory queue is split into four
-- requests of one cache line each, issued one after the other.
use vans.Base.{
  ℕ, ◌+◌, Bool, true, false, not, List, [], ◌∷◌, none, some, ◌==◌, if◌then◌else◌, get_or, set,
  replicate, Result, ok, err, ◌>>=◌, empty_front, local_memory_retry,
}
use vans.Base.Bits.{add64, mul64}
use vans.Common.{BaseRequest, base_request, read, write, ait_subreq_served, cpu_cl_size}
use vans.Common.Address.Ait.{translate_to_block_addr}
use vans.Common.Address.Rmw.{block_offset_cl}
use vans.Buffer
use vans.Buffer.{Buffer}
use vans.NextLevel.{NextLevel}
use vans.Ait.Controller.{Core, LmemqState, AitController, Event, count}

-- The callback of a sub-request.
unfoldable pub subreq_served : ℕ → LmemqState → LmemqState
subreq_served logic_addr s = record s {
  subreq_served = set s.subreq_served (block_offset_cl logic_addr) true;
}

-- The current sub-request is issued and not yet served.
unfoldable pub subreq_waits : LmemqState → Bool
subreq_waits s = elim s.subreq_pending_index [
  | none ↦ false
  | some i ↦ not (get_or s.subreq_served i false)
]

unfoldable pub last_subreq : LmemqState → Bool
last_subreq s = elim s.subreq_pending_index [ none ↦ false | some i ↦ i + 1 == s.subreq_cnt ]

unfoldable pub next_index : LmemqState → ℕ
next_index s = elim s.subreq_pending_index [ none ↦ 0 | some i ↦ i + 1 ]

module _ {N M : Type 0} where
  unfoldable pub with_lmemq_state : (LmemqState → LmemqState) → Core N M → Core N M
  with_lmemq_state f c = record c { lmemq_state = f c.lmemq_state }

  -- The setup for a new request.
  unfoldable pub setup_front : Core N M → Core N M
  setup_front c =
      if c.lmemq_state.pending_front
      then c
      else let queue =
          if get_or c.lmemq_state.subreq_served 0 false
          then elim c.lmemq.queue [ [] ↦ [] | front ∷ rest ↦ rest ]
          else c.lmemq.queue in
        record c {
          lmemq = record (c.lmemq) { queue = queue };
          lmemq_state = record (c.lmemq_state) {
            pending_front = true;
            subreq_pending_index = none;
          };
        }

  -- The final sub-request is finished: the entry goes on with its next action.
  unfoldable pub finish_front :
      BaseRequest → List BaseRequest → ℕ → AitController N M → Result (AitController N M)
  finish_front front rest curr_clk c =
      let ait_addr = translate_to_block_addr front.addr in
      Buffer.at ait_addr c.buffer.entry_map >>= λ entry. ok (record c {
        buffer = record (c.buffer) {
          entry_map =
              Buffer.update ait_addr
                (record entry {
                  next_action_clk = add64 curr_clk 1;
                  waiting_action_clk_update = false;
                })
                c.buffer.entry_map;
        };
        core = record (c.core) {
          lmemq = record (c.core.lmemq) { queue = rest };
          lmemq_state = record (c.core.lmemq_state) {
            pending_front = false;
            subreq_served = replicate c.core.lmemq_state.subreq_cnt false;
          };
        };
      })

  module _ (memory : NextLevel M) where
    unfoldable pub start_subreq : BaseRequest → ℕ → AitController N M → Result (AitController N M)
    unfolding next_index subreq_served with_lmemq_state
    start_subreq front curr_clk c =
        let index = next_index c.core.lmemq_state in
        let moved = with_lmemq_state (λ s. record s { subreq_pending_index = some index }) c.core in
        let cl_addr = add64 front.addr (mul64 index cpu_cl_size) in
        Buffer.at (translate_to_block_addr front.addr) c.buffer.entry_map >>= λ entry.
        memory.issue_request 0 (base_request front.type cl_addr curr_clk (some ait_subreq_served))
          moved.local_memory_model
        >>= λ (r, m).
            if r.issued
            then (let issued = record moved { local_memory_model = m } in
                elim front.type [
                  | write ↦ ok (record c {
                    core =
                        count Event.lmem_write_access
                          (with_lmemq_state (subreq_served cl_addr) issued);
                  })
                  | read ↦ ok (record c { core = count Event.lmem_read_access issued })
                ])
            else err local_memory_retry

    unfoldable pub process_front : ℕ → AitController N M → Result (AitController N M)
    unfolding subreq_waits last_subreq finish_front start_subreq
    process_front curr_clk c =
        if memory.full 0 c.core.local_memory_model then ok c else elim c.core.lmemq.queue [
          | [] ↦ err empty_front
          | front ∷ rest ↦
              if subreq_waits c.core.lmemq_state
              then ok c
              else if last_subreq c.core.lmemq_state
              then finish_front front rest curr_clk c
              else start_subreq front curr_clk c
        ]

    unfoldable pub tick_lmemq : ℕ → AitController N M → Result (AitController N M)
    unfolding setup_front process_front
    tick_lmemq curr_clk c = elim c.core.lmemq.queue [
      | [] ↦ ok c
      | _ ∷ _ ↦ process_front curr_clk (record c { core = setup_front c.core })
    ]
