-- ===== src/Rmw/Tick.antt =====
-- src/general/rmw.cpp and src/general/rmw.h: the clock tick of the RMW buffer and what its neighbours
-- call.
use vans.Base.{
  ℕ, Bool, false, not, ◌&&◌, ◌||◌, List, [], ◌∷◌, none, some, ltb, leb, ◌==◌, if◌then◌else◌, Result,
  ok, err, ◌>>=◌, invalid_next_action, unknown_state_transfer,
}
use vans.Base.Bits.{add64}
use vans.Common.{BaseRequest, BaseResponse, clk_invalid}
use vans.Common.Address.Rmw.{translate_to_block_addr}
use vans.RequestQueue
use vans.Buffer
use vans.Buffer.{Buffer}
use vans.NextLevel.{NextLevel}
use vans.Rmw.Entry.{BufferEntry, flush_back, init, is_init, is_end}
use vans.Rmw.Controller.{Core, RmwController}
use vans.Rmw.Transfer.{state_trans}
use vans.Rmw.Lsq.{tick_lsq}

unfoldable pub drain_entry : BufferEntry → BufferEntry
drain_entry entry =
    if entry.dirty && is_end entry.state
    then record entry {
      pending_request = record (entry.pending_request) { type = flush_back };
      state = init;
    }
    else entry

unfoldable pub drain_entries : List (ℕ × BufferEntry) → List (ℕ × BufferEntry)
unfolding drain_entry
drain_entries [] = []
drain_entries ((k, e) ∷ m) = (k, drain_entry e) ∷ drain_entries m

module _ {N : Type 0} where
  unfoldable pub issue_request :
      BaseRequest → RmwController N → Result (BaseResponse × RmwController N)
  issue_request req c = RequestQueue.enqueue req c.lsq >>= λ (success, lsq'). ok (
    record { issued = success; deterministic = false; next_clk = clk_invalid },
    record c { lsq = lsq' },
  )

  -- The read-out queue's front departs: its callback is called, if it has one.
  unfoldable pub tick_roq : ℕ → RmwController N → RmwController N
  tick_roq curr_clk c = elim c.core.roq.queue [
    | [] ↦ c
    | front ∷ rest ↦
        let gone = record (c.core.roq) { queue = rest } in
        if leb front.depart curr_clk
        then elim front.callback [
          | none ↦ record c { core = record (c.core) { roq = gone } }
          | some f ↦ record c {
            core = record (c.core) {
              roq = gone;
              calls =
                  record { callback = f; addr = add64 front.addr c.start_addr; clk = curr_clk }
                  ∷ c.calls;
            };
          }
        ]
        else c
  ]

  -- `next_level_read_callback`
  unfoldable pub next_level_read_callback : ℕ → ℕ → RmwController N → Result (RmwController N)
  next_level_read_callback addr curr_clk c =
      let rmw_addr = translate_to_block_addr addr in
      Buffer.at rmw_addr c.buffer.entry_map >>= λ entry. ok (record c {
        buffer = record (c.buffer) {
          entry_map =
              Buffer.update rmw_addr
                (record entry {
                  waiting_action_clk_update = false;
                  next_action_clk = add64 curr_clk 1;
                })
                c.buffer.entry_map;
        };
      })

  unfoldable pub drain_current : RmwController N → RmwController N
  unfolding drain_entries
  drain_current c = record c {
    buffer = record (c.buffer) { entry_map = drain_entries c.buffer.entry_map };
  }

  unfoldable pub pending_current : RmwController N → Bool
  pending_current c =
      RequestQueue.pending c.lsq
      || RequestQueue.pending c.core.roq
      || Buffer.any_entry (λ e. e.pending) c.buffer

  unfoldable pub full : RmwController N → Result Bool
  full c = RequestQueue.full c.lsq

  module _ (next : NextLevel N) where
    unfoldable pub transfer_entry : ℕ → BufferEntry → ℕ → Core N → Result (BufferEntry × Core N)
    transfer_entry block_addr entry curr_clk c =
        elim (state_trans next entry.pending_request.type entry.state) [
          | none ↦ err unknown_state_transfer
          | some func ↦ func block_addr entry curr_clk c
        ]

    -- One round of the loop over the buffer.
    unfoldable pub tick_entry : ℕ → BufferEntry → ℕ → Core N → Result (BufferEntry × Core N)
    unfolding transfer_entry
    tick_entry block_addr entry curr_clk c =
        if is_init entry.state
        then transfer_entry block_addr entry curr_clk c
        else if not entry.pending
        then ok (entry, c)
        else if entry.waiting_action_clk_update
        then ok (entry, c)
        else if entry.next_action_clk == clk_invalid
        then err invalid_next_action
        else if ltb curr_clk entry.next_action_clk
        then ok (entry, c)
        else transfer_entry block_addr entry curr_clk c

    unfoldable pub tick_entries :
        List (ℕ × BufferEntry) → ℕ → Core N → Result (List (ℕ × BufferEntry) × Core N)
    unfolding tick_entry
    tick_entries [] curr_clk c = ok ([], c)
    tick_entries ((k, e) ∷ m) curr_clk c = tick_entry k e curr_clk c >>= λ (e', c').
        tick_entries m curr_clk c' >>= λ (m', c''). ok ((k, e') ∷ m', c'')

    unfoldable pub tick_internal_buffer : ℕ → RmwController N → Result (RmwController N)
    unfolding tick_entries
    tick_internal_buffer curr_clk c =
        tick_entries c.buffer.entry_map curr_clk c.core >>= λ (m, core').
        ok (record c { core = core'; buffer = record (c.buffer) { entry_map = m } })

    unfoldable pub tick : ℕ → RmwController N → Result (RmwController N)
    unfolding tick_roq tick_internal_buffer
    tick curr_clk c =
        tick_lsq curr_clk (tick_roq curr_clk c) >>= λ c'. tick_internal_buffer curr_clk c'
