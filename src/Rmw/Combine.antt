-- ===== src/Rmw/Combine.antt =====
-- src/general/rmw.cpp, the parts of `tick_lsq_write` that look at no more than the queue and the
-- block's entry: the write-combining loop, and the test for a write that can be patched.
pub mod Laws
use vans.Base.{ℕ, Bool, true, false, ◌&&◌, ◌||◌, List, [], ◌∷◌, ◌==◌, set}
use vans.Common.{BaseRequest, read, write}
use vans.Common.Address.Rmw.{translate_to_block_addr, block_offset_cl}
use vans.Rmw.Entry.{BufferEntry, is_write_rmw, pending_read, pending_modify}

-- The writes of the block up to its first read leave the queue; each sets its line's bit.
unfoldable pub combine_writes : ℕ → List BaseRequest → List Bool → List BaseRequest × List Bool
combine_writes block [] cl_hit = ([], cl_hit)
combine_writes block (req ∷ queue) cl_hit = elim (block == translate_to_block_addr req.addr) [
  | false ↦ let (kept, hit) = combine_writes block queue cl_hit in (req ∷ kept, hit)
  | true ↦ elim req.type [
    | read ↦ (req ∷ queue, cl_hit)
    | write ↦ combine_writes block queue (set cl_hit (block_offset_cl req.addr) true)
  ]
]

-- `cl_hit |= cl_bitmap`
unfoldable pub or_bits : List Bool → List Bool → List Bool
or_bits [] bs = []
or_bits (a ∷ as') [] = a ∷ as'
or_bits (a ∷ as') (b ∷ bs) = (a || b) ∷ or_bits as' bs

-- `patch_rmw`
unfoldable pub can_patch_rmw : BufferEntry → Bool
can_patch_rmw entry =
    is_write_rmw entry.pending_request.type
    && elim entry.state [ pending_read ↦ true | pending_modify ↦ true | _ ↦ false ]
