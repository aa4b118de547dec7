-- ===== src/Ait/Tick.antt =====
-- src/general/ait.cpp and src/general/ait.h: the clock tick of the AIT and what its neighbours call.
use vans.Base.{
  ℕ, Bool, false, not, ◌||◌, List, [], ◌∷◌, none, some, ltb, ◌==◌, if◌then◌else◌, Result, ok, err,
  ◌>>=◌, invalid_next_action, unknown_state_transfer,
}
use vans.Base.Bits.{add64}
use vans.Common.{BaseRequest, BaseResponse, clk_invalid}
use vans.Common.Address.Ait.{translate_to_block_addr}
use vans.RequestQueue
use vans.Buffer
use vans.Buffer.{Buffer}
use vans.NextLevel.{NextLevel}
use vans.Ait.Entry.{BufferEntry, is_init}
use vans.Ait.Controller.{Core, AitController}
use vans.Ait.Transfer.{state_trans}
use vans.Ait.Lsq.{tick_lsq}
use vans.Ait.Lmemq.{tick_lmemq}

module _ {N M : Type 0} where
  unfoldable pub issue_request :
      BaseRequest → AitController N M → Result (BaseResponse × AitController N M)
  issue_request request c = RequestQueue.enqueue request c.lsq >>= λ (issued, q). ok (
    record { issued = issued; deterministic = false; next_clk = clk_invalid },
    record c { lsq = q },
  )

  unfoldable pub drain_current : AitController N M → AitController N M
  drain_current c = c

  unfoldable pub pending_current : AitController N M → Bool
  pending_current c =
      RequestQueue.pending c.lsq
      || Buffer.any_entry (λ e. e.pending) c.buffer
      || RequestQueue.pending c.core.lmemq

  unfoldable pub full : AitController N M → Result Bool
  full c = RequestQueue.full c.lsq

  -- `next_level_read_callback`
  unfoldable pub next_level_read_callback : ℕ → ℕ → AitController N M → Result (AitController N M)
  next_level_read_callback addr curr_clk c =
      let ait_addr = translate_to_block_addr addr in
      Buffer.at ait_addr c.buffer.entry_map >>= λ entry. ok (record c {
        buffer = record (c.buffer) {
          entry_map =
              Buffer.update ait_addr
                (record entry {
                  waiting_action_clk_update = false;
                  next_action_clk = add64 curr_clk 1;
                })
                c.buffer.entry_map;
        };
      })

  module _ (next : NextLevel N) where
    unfoldable pub transfer_entry : ℕ → BufferEntry → ℕ → Core N M → Result (BufferEntry × Core N M)
    transfer_entry block_addr entry curr_clk c =
        elim (state_trans next entry.pending_request.type entry.state) [
          | none ↦ err unknown_state_transfer
          | some func ↦ func block_addr entry curr_clk c
        ]

    -- One round of the loop over the buffer.
    unfoldable pub tick_entry : ℕ → BufferEntry → ℕ → Core N M → Result (BufferEntry × Core N M)
    unfolding transfer_entry
    tick_entry block_addr entry curr_clk c =
        if is_init entry.state
        then transfer_entry block_addr entry curr_clk c
        else if not entry.pending
        then ok (entry, c)
        else if entry.waiting_action_clk_update
        then ok (entry, c)
        else if entry.next_action_clk == clk_invalid
        then err invalid_next_action
        else if ltb curr_clk entry.next_action_clk
        then ok (entry, c)
        else transfer_entry block_addr entry curr_clk c

    unfoldable pub tick_entries :
        List (ℕ × BufferEntry) → ℕ → Core N M → Result (List (ℕ × BufferEntry) × Core N M)
    unfolding tick_entry
    tick_entries [] curr_clk c = ok ([], c)
    tick_entries ((k, e) ∷ m) curr_clk c = tick_entry k e curr_clk c >>= λ (e', c').
        tick_entries m curr_clk c' >>= λ (m', c''). ok ((k, e') ∷ m', c'')

    unfoldable pub tick_internal_buffer : ℕ → AitController N M → Result (AitController N M)
    unfolding tick_entries
    tick_internal_buffer curr_clk c =
        tick_entries c.buffer.entry_map curr_clk c.core >>= λ (m, core').
        ok (record c { core = core'; buffer = record (c.buffer) { entry_map = m } })

    unfoldable pub tick : NextLevel M → ℕ → AitController N M → Result (AitController N M)
    unfolding tick_internal_buffer
    tick memory curr_clk c = tick_lsq curr_clk c >>= λ c'.
        tick_lmemq memory curr_clk c' >>= λ c''. tick_internal_buffer curr_clk c''
