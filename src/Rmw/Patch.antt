-- ===== src/Rmw/Patch.antt =====
-- A read of a block that has pending reads (src/general/rmw.cpp, `tick_lsq_read`).
use vans.Base.{
  ℕ, zero, suc, ◌+◌, ◌<◌, ◌≡◌, refl, Bool, true, false, not, ◌&&◌, List, [], ◌∷◌, ◌++◌, Option,
  none, some, arith, ltb, leb, ◌==◌, length, get_or, get_or-set_self, replicate, Returns, returns,
  Returns-bind,
}
use vans.Common.{BaseRequest, Callback}
use vans.Common.Address.Rmw.{
  translate_to_block_addr, block_offset_cl, block_offset_cl-lt, block_size_cl,
}
use vans.Buffer
use vans.Buffer.{lookup}
use vans.Buffer.Laws.{lookup-update, All-lookup}
use vans.NextLevel.{NextLevel, Contract}
use vans.Rmw.Entry.{BufferEntry, assign_callback}
use vans.Rmw.Controller.{RmwController, Event, count}
use vans.Rmw.Lsq.{serve_read, tick_lsq_read, write_entry}
use vans.Rmw.Safety.{EntryOk, is_reading}
use vans.Rmw.Safety.Evict.{RmwOk}

-- The entry that serves a second read of line `i`: the line waits once more, and the line's callback
-- is the second read's.
abbrev pub Overwritten : ℕ → Option Callback → BufferEntry → BufferEntry → Type 0
Overwritten i callback e e' =
    (e'.pending_request_cl_index ≡ e.pending_request_cl_index ++ i ∷ [])
    × (get_or e'.callbacks i none ≡ callback)

assign_callback-Overwritten :
    (i : ℕ) (callback : Option Callback) (e : BufferEntry)
    → i < block_size_cl
    → length e.pending_request_cl_index < block_size_cl
    → length e.callbacks ≡ block_size_cl
    → Returns (Overwritten i callback e) (assign_callback i callback e)
unfolding assign_callback
assign_callback-Overwritten i callback e l few size =
    let in_range : leb block_size_cl i ≡ false = ground arith in
    let fits : ltb block_size_cl (length e.pending_request_cl_index + 1) ≡ false = ground arith in
    rw (in_range, fits) (returns (refl, get_or-set_self e.callbacks i callback none (omega arith)))

get_or-replicate : (n i : ℕ) (b : Bool) → get_or (replicate n b) i b ≡ b
get_or-replicate zero i b = refl
get_or-replicate (suc n) zero b = refl
get_or-replicate (suc n) (suc i) b = get_or-replicate n i b

module _ {N : Type 0} where
  -- The read is served at once, by the block's entry.
  abbrev pub Patched : BaseRequest → List BaseRequest → BufferEntry → RmwController N → Type 0
  Patched front rest e d =
      (d.lsq.queue ≡ rest)
      × ((e' : BufferEntry) × (lookup (translate_to_block_addr front.addr) d.buffer.entry_map
            ≡ some e')
          × Overwritten (block_offset_cl front.addr) front.callback e e')

  serve_read-Patched :
      (front : BaseRequest) (rest : List BaseRequest) (e : BufferEntry) (c : RmwController N)
      → EntryOk (translate_to_block_addr front.addr) e
      → lookup (translate_to_block_addr front.addr) c.buffer.entry_map ≡ some e
      → length e.pending_request_cl_index < block_size_cl
      → Returns (Patched front rest e) (serve_read front rest true e c)
  unfolding serve_read write_entry
  serve_read-Patched front rest e c v held few =
      Returns-bind
        (assign_callback-Overwritten _ front.callback e (block_offset_cl-lt front.addr) few
          v.callbacks_size)
        (λ e' h. returns (
          refl,
          (
            e',
            ground (
              arith,
              lookup-update (translate_to_block_addr front.addr)
                  (translate_to_block_addr front.addr) e' e c.buffer.entry_map held,
            ),
            h,
          ),
        ))

module _ {N : Type 0} {next : NextLevel N} {horizon : ℕ} (contract : Contract next horizon) where
  -- In a state of the invariant, a read of a block whose entry is pending with reads, fewer than four, is
  -- served at once by that entry, also when an earlier read of the same line is pending: the line is
  -- queued once more, and the callback kept for it is the later read's.
  pub second_read-Patched :
      (front : BaseRequest) (rest : List BaseRequest) (clk : ℕ) (e : BufferEntry)
      (c : RmwController N)
      → RmwOk contract c
      → lookup (translate_to_block_addr front.addr) c.buffer.entry_map ≡ some e
      → is_reading e ≡ true
      → length e.pending_request_cl_index < block_size_cl
      → Returns (Patched front rest e) (tick_lsq_read front rest clk c)
  unfolding tick_lsq_read Buffer.find
  second_read-Patched front rest clk e c v held r few =
      let w : EntryOk (translate_to_block_addr front.addr) e =
        All-lookup (λ p. EntryOk p.0 p.1) _ e c.buffer.entry_map v.buffer_ok.entries held in
      let some_wait = w.reading r in
      let nonempty : (length e.pending_request_cl_index == 0) ≡ false = ground arith in
      let clear : get_or e.cb_bitmap (block_offset_cl front.addr) false ≡ false =
        rw w.cb_clear (get_or-replicate block_size_cl (block_offset_cl front.addr) false) in
      let room : (ltb (length e.pending_request_cl_index) block_size_cl
            && not (get_or e.cb_bitmap (block_offset_cl front.addr) false))
          ≡ true =
        ground arith in
      rw (held, tick_lsq_read, r, nonempty, room)
        (serve_read-Patched front rest e (record c { core = count Event.read_patch c.core }) w held
          few)
