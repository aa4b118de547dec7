-- ===== src/Ait/Lsq.antt =====
-- src/general/ait.cpp: the eviction and the two handlers of the load/store queue.
use vans.Base.{
  ℕ, Bool, true, false, not, ◌&&◌, List, [], ◌∷◌, none, some, ◌==◌, if◌then◌else◌, Result, ok,
  ◌>>=◌,
}
use vans.Common.{BaseRequest, read, write, clk_invalid, addr_invalid}
use vans.Common.Address.Ait.{translate_to_block_addr, block_bitshift_rmw}
use vans.Common.Address.Rmw.{translate_to_block_addr as rmw_block_addr}
use vans.Buffer
use vans.Buffer.{Buffer, lookup}
use vans.Buffer.Lru.{scan_oldest}
use vans.Ait.Entry.{
  BufferEntry, read_miss, read_hit, write_miss, write_hit, is_end, buffer_entry, assign_new_request,
  assign_callback, record_write,
}
use vans.Ait.Controller.{AitController, Event, count}

module _ {N M : Type 0} where
  abbrev counted : Event → AitController N M → AitController N M
  counted name c = record c { core = count name c.core }

  unfoldable pub check_and_evict : AitController N M → Bool × AitController N M
  check_and_evict c =
      if not (Buffer.full c.buffer)
      then (true, c)
      else if c.evicting
      then (false, c)
      else let (oldest_addr, oldest_clk) =
          scan_oldest (λ e. is_end e.state) (λ e. e.last_used_clk) c.buffer.entry_map addr_invalid
            clk_invalid in
        if oldest_addr == addr_invalid then (false, c) else (
          true,
          counted Event.eviction
              (record c { buffer = Buffer.erase translate_to_block_addr oldest_addr c.buffer }),
        )

  -- The served request leaves the queue, and the entry under `ait_addr` is `entry` with its callback.
  unfoldable pub serve :
      Event
      → ℕ
      → BaseRequest
      → List BaseRequest
      → BufferEntry
      → AitController N M
      → AitController N M
  serve name ait_addr front rest entry c = counted name (record c {
    buffer = record (c.buffer) {
      entry_map =
          Buffer.update (translate_to_block_addr ait_addr) (assign_callback front.callback entry)
            c.buffer.entry_map;
    };
    lsq = record (c.lsq) { queue = rest };
  })

  unfoldable pub tick_lsq_read :
      BaseRequest → List BaseRequest → ℕ → AitController N M → Result (AitController N M)
  unfolding check_and_evict serve
  tick_lsq_read front rest curr_clk c =
      let rmw_addr = rmw_block_addr front.addr in
      let ait_addr = translate_to_block_addr rmw_addr in
      let rmw_bitmap = block_bitshift_rmw rmw_addr in
      elim (Buffer.find translate_to_block_addr ait_addr c.buffer) [
        | none ↦
            let (free, c') = check_and_evict c in
            if free
            then (Buffer.insert translate_to_block_addr ait_addr
                  (buffer_entry curr_clk read_miss rmw_addr rmw_bitmap) c'.buffer
                >>= λ (entry, b).
                    ok (
                      serve Event.read_access ait_addr front rest entry (record c' { buffer = b })))
            else ok c'
        | some entry ↦
            if entry.valid_to_read && not entry.pending
            then (assign_new_request curr_clk read_hit rmw_addr rmw_bitmap entry >>= λ assigned.
                ok (serve Event.read_access ait_addr front rest assigned c))
            else ok c
      ]

  abbrev recorded : ℕ → AitController N M → AitController N M
  recorded rmw_addr c = record c {
    core = record (c.core) { table = record_write rmw_addr c.core.table };
  }

  -- `entry_map.find` is called with the block's address itself.
  unfoldable pub tick_lsq_write :
      BaseRequest → List BaseRequest → ℕ → AitController N M → Result (AitController N M)
  unfolding check_and_evict serve
  tick_lsq_write front rest curr_clk c =
      let rmw_addr = rmw_block_addr front.addr in
      let ait_addr = translate_to_block_addr rmw_addr in
      let rmw_bitmap = block_bitshift_rmw rmw_addr in
      elim (lookup ait_addr c.buffer.entry_map) [
        | none ↦
            let (free, c') = check_and_evict c in
            if free
            then (Buffer.insert translate_to_block_addr ait_addr
                  (buffer_entry curr_clk write_miss rmw_addr rmw_bitmap) c'.buffer
                >>= λ (entry, b). ok (
                    serve Event.write_access ait_addr front rest entry
                      (recorded rmw_addr (record c' { buffer = b }))))
            else ok c'
        | some entry ↦
            if not entry.pending
            then (assign_new_request curr_clk write_hit rmw_addr rmw_bitmap entry >>= λ assigned.
                ok (serve Event.write_access ait_addr front rest assigned (recorded rmw_addr c)))
            else ok c
      ]

  unfoldable pub tick_lsq : ℕ → AitController N M → Result (AitController N M)
  unfolding tick_lsq_read tick_lsq_write
  tick_lsq curr_clk c = elim c.lsq.queue [
    | [] ↦ ok c
    | front ∷ rest ↦ elim front.type [
      | read ↦ tick_lsq_read front rest curr_clk c
      | write ↦ tick_lsq_write front rest curr_clk c
    ]
  ]
