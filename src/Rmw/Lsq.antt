-- ===== src/Rmw/Lsq.antt =====
-- src/general/rmw.cpp: the eviction and the two handlers of the load/store queue.
use vans.Base.{
  ℕ, ◌*◌, ◌%◌, ◌^◌, Bool, true, false, not, ◌&&◌, List, [], ◌∷◌, Option, none, some, ltb, ◌==◌,
  if◌then◌else◌, length, get_or, replicate, Result, ok, err, ◌>>=◌, patch_without_read,
}
use vans.Common.{BaseRequest, read, write, clk_invalid, addr_invalid}
use vans.Common.Address.Rmw.{
  translate_to_block_addr, block_offset_cl, block_size_cl, block_hit_cl_bitmask,
}
use vans.Buffer
use vans.Buffer.{Buffer}
use vans.Buffer.Lru.{scan_oldest}
use vans.Rmw.Entry.{
  BufferEntry, write_rmw, write_comb, write_patch, read_cold, read_ff, is_read, is_end,
  buffer_entry, assign_new_request, assign_callback, reset_callback, to_ulong,
}
use vans.Rmw.Combine.{combine_writes, or_bits, can_patch_rmw}
use vans.Rmw.Controller.{RmwController, Event, count}

module _ {N : Type 0} where
  abbrev counted : Event → RmwController N → RmwController N
  counted name c = record c { core = count name c.core }

  unfoldable pub check_and_evict : RmwController N → Bool × RmwController N
  check_and_evict c =
      if not (Buffer.full c.buffer)
      then (true, c)
      else if c.evicting
      then (false, c)
      else let (oldest_addr, oldest_clk) =
          scan_oldest (λ e. is_end e.state) (λ e. e.last_used_clk) c.buffer.entry_map addr_invalid
            clk_invalid in
        if oldest_addr == addr_invalid then (false, c) else (
          true,
          counted Event.eviction
              (record c { buffer = Buffer.erase translate_to_block_addr oldest_addr c.buffer }),
        )

  -- The entry that `entry_pair` refers to is changed in place.
  unfoldable pub write_entry : ℕ → BufferEntry → RmwController N → RmwController N
  write_entry addr entry c = record c {
    buffer = record (c.buffer) {
      entry_map = Buffer.update (translate_to_block_addr addr) entry c.buffer.entry_map;
    };
  }

  -- The end of `tick_lsq_read`, at `req_served`.
  unfoldable pub serve_read :
      BaseRequest
      → List BaseRequest
      → Bool
      → BufferEntry
      → RmwController N
      → Result (RmwController N)
  unfolding write_entry
  serve_read front rest req_patch entry c =
      (if req_patch then ok entry else reset_callback entry) >>= λ cleared.
      assign_callback (block_offset_cl front.addr) front.callback cleared >>= λ assigned. ok (
        counted Event.read_access
          (record (write_entry front.addr assigned c) { lsq = record (c.lsq) { queue = rest } }))

  unfoldable pub tick_lsq_read :
      BaseRequest → List BaseRequest → ℕ → RmwController N → Result (RmwController N)
  unfolding check_and_evict serve_read
  tick_lsq_read front rest curr_clk c =
      let cl_index = block_offset_cl front.addr in
      let cl_bitmap = 1 * 2 ^ cl_index % 2 ^ 32 in
      elim (Buffer.find translate_to_block_addr front.addr c.buffer) [
        | none ↦
            let (free, c') = check_and_evict c in
            if free
            then (Buffer.insert translate_to_block_addr front.addr
                  (buffer_entry curr_clk read_cold front.addr cl_bitmap) c'.buffer
                >>= λ (entry, b). serve_read front rest false entry (record c' { buffer = b }))
            else ok c'
        | some entry ↦
            if entry.pending && is_read entry.pending_request.type
            then (if length entry.pending_request_cl_index == 0
                then err patch_without_read
                else if ltb (length entry.pending_request_cl_index) block_size_cl
                    && not (get_or entry.cb_bitmap cl_index false)
                then serve_read front rest true entry (counted Event.read_patch c)
                else ok c)
            else if entry.valid_to_read
            then serve_read front rest false
                (assign_new_request curr_clk read_ff front.addr cl_bitmap entry) c
            else ok c
      ]

  -- The rest of `tick_lsq_write`, once the request can be served: `found` is the block's entry.
  unfoldable pub serve_write :
      BaseRequest → Option BufferEntry → ℕ → RmwController N → Result (RmwController N)
  unfolding can_patch_rmw write_entry
  serve_write front found curr_clk c =
      let curr_block_addr = translate_to_block_addr front.addr in
      let (queue, hit) =
        combine_writes curr_block_addr c.lsq.queue (replicate block_size_cl false) in
      let c' = counted Event.write_access (record c { lsq = record (c.lsq) { queue = queue } }) in
      elim found [
        | none ↦
            let type = if to_ulong hit == block_hit_cl_bitmask then write_comb else write_rmw in
            Buffer.insert translate_to_block_addr curr_block_addr
              (buffer_entry curr_clk type front.addr (to_ulong hit)) c'.buffer
            >>= λ (entry, b). ok (record c' { buffer = b })
        | some entry ↦
            if can_patch_rmw entry
            then (let cl_hit = or_bits hit entry.cl_bitmap in
                if to_ulong cl_hit == block_hit_cl_bitmask
                then ok (
                    counted Event.patch_rmw_comb (
                      write_entry curr_block_addr
                        (assign_new_request curr_clk write_comb front.addr (to_ulong cl_hit) entry)
                        c'))
                else ok (
                    counted Event.patch_rmw
                      (write_entry curr_block_addr (record entry { cl_bitmap = cl_hit }) c')))
            else ok (
                write_entry curr_block_addr
                  (assign_new_request curr_clk write_patch front.addr (to_ulong hit) entry) c')
      ]

  unfoldable pub tick_lsq_write : BaseRequest → ℕ → RmwController N → Result (RmwController N)
  unfolding check_and_evict serve_write
  tick_lsq_write front curr_clk c =
      elim (Buffer.find translate_to_block_addr (translate_to_block_addr front.addr) c.buffer) [
        | none ↦
            let (free, c') = check_and_evict c in
            if free then serve_write front none curr_clk c' else ok c'
        | some entry ↦
            if not (can_patch_rmw entry) && entry.pending
            then ok c
            else serve_write front (some entry) curr_clk c
      ]

  unfoldable pub tick_lsq : ℕ → RmwController N → Result (RmwController N)
  unfolding tick_lsq_read tick_lsq_write
  tick_lsq curr_clk c = elim c.lsq.queue [
    | [] ↦ ok c
    | front ∷ rest ↦ elim front.type [
      | read ↦ tick_lsq_read front rest curr_clk c
      | write ↦ tick_lsq_write front curr_clk c
    ]
  ]
