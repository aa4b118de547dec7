-- ===== src/Rmw/Safety/WriteTransfer.antt =====
-- src/general/rmw.cpp: the transfers of the writes and of the flush, and the invariant.
use vans.Base.{ℕ, ◌≤◌, ◌≡◌, arith, Returns, returns, Returns-bind}
use vans.NextLevel.{NextLevel, Contract}
use vans.Rmw.Entry.{BufferEntry, write_rmw, write_comb, write_patch, flush_back}
use vans.Rmw.Controller.{Core, count, count_duration}
use vans.Rmw.Transfer.Write.{
  write_rmw_init, write_rmw_pending_ait_r, write_rmw_pending_read, write_rmw_pending_ait_w,
  write_rmw_pending_modify, write_rmw_pending_write, write_comb_init, write_comb_pending_ait_w,
  write_comb_pending_modify, write_comb_pending_write, write_patch_init, write_patch_pending_ait_w,
  write_patch_pending_modify, write_patch_pending_write,
}
use vans.Rmw.Transfer.Flush.{flush_back_init, flush_back_pending_ait_w, flush_back_pending_write}
use vans.Rmw.Safety.{EntryOk, CoreOk, Kept}
use vans.Rmw.Safety.Issue.{issue_next_level-ok, issue_local_memory-ok}

module _ {N : Type 0} {next : NextLevel N} {horizon : ℕ} (contract : Contract next horizon) where
  pub write_rmw_init-Kept :
      (key : ℕ) (e : BufferEntry) (clk : ℕ) (c : Core N)
      → e.pending_request.type ≡ write_rmw
      → clk ≤ horizon
      → EntryOk key e
      → CoreOk contract c
      → Returns (Kept contract key) (write_rmw_init next key e clk c)
  unfolding write_rmw_init count count_duration
  write_rmw_init-Kept key e clk c ty t v w =
      Returns-bind (issue_next_level-ok contract _ _ _ _ _ c t w)
        (λ (r, c') h. returns (ground arith))

  pub write_rmw_pending_ait_r-Kept :
      (key : ℕ) (e : BufferEntry) (clk : ℕ) (c : Core N)
      → e.pending_request.type ≡ write_rmw
      → clk ≤ horizon
      → EntryOk key e
      → CoreOk contract c
      → Returns (Kept contract key) (write_rmw_pending_ait_r next key e clk c)
  unfolding write_rmw_pending_ait_r count count_duration
  write_rmw_pending_ait_r-Kept key e clk c ty t v w = returns (ground arith)

  pub write_rmw_pending_read-Kept :
      (key : ℕ) (e : BufferEntry) (clk : ℕ) (c : Core N)
      → e.pending_request.type ≡ write_rmw
      → clk ≤ horizon
      → EntryOk key e
      → CoreOk contract c
      → Returns (Kept contract key) (write_rmw_pending_read next key e clk c)
  unfolding write_rmw_pending_read count count_duration
  write_rmw_pending_read-Kept key e clk c ty t v w =
      Returns-bind (issue_local_memory-ok contract _ _ _ c t w)
        (λ (r, c') h. returns (ground arith))

  pub write_rmw_pending_ait_w-Kept :
      (key : ℕ) (e : BufferEntry) (clk : ℕ) (c : Core N)
      → e.pending_request.type ≡ write_rmw
      → clk ≤ horizon
      → EntryOk key e
      → CoreOk contract c
      → Returns (Kept contract key) (write_rmw_pending_ait_w next key e clk c)
  unfolding write_rmw_pending_ait_w count count_duration
  write_rmw_pending_ait_w-Kept key e clk c ty t v w = returns (ground arith)

  pub write_rmw_pending_modify-Kept :
      (key : ℕ) (e : BufferEntry) (clk : ℕ) (c : Core N)
      → e.pending_request.type ≡ write_rmw
      → clk ≤ horizon
      → EntryOk key e
      → CoreOk contract c
      → Returns (Kept contract key) (write_rmw_pending_modify next key e clk c)
  unfolding write_rmw_pending_modify count count_duration
  write_rmw_pending_modify-Kept key e clk c ty t v w =
      Returns-bind (issue_next_level-ok contract _ _ _ _ _ c t w)
        (λ (r, c') h. returns (ground arith))

  pub write_rmw_pending_write-Kept :
      (key : ℕ) (e : BufferEntry) (clk : ℕ) (c : Core N)
      → e.pending_request.type ≡ write_rmw
      → clk ≤ horizon
      → EntryOk key e
      → CoreOk contract c
      → Returns (Kept contract key) (write_rmw_pending_write next key e clk c)
  unfolding write_rmw_pending_write count count_duration
  write_rmw_pending_write-Kept key e clk c ty t v w = returns (ground arith)

  pub write_comb_init-Kept :
      (key : ℕ) (e : BufferEntry) (clk : ℕ) (c : Core N)
      → e.pending_request.type ≡ write_comb
      → clk ≤ horizon
      → EntryOk key e
      → CoreOk contract c
      → Returns (Kept contract key) (write_comb_init next key e clk c)
  unfolding write_comb_init count count_duration
  write_comb_init-Kept key e clk c ty t v w =
      Returns-bind (issue_local_memory-ok contract _ _ _ c t w)
        (λ (r, c') h. returns (ground arith))

  pub write_comb_pending_ait_w-Kept :
      (key : ℕ) (e : BufferEntry) (clk : ℕ) (c : Core N)
      → e.pending_request.type ≡ write_comb
      → clk ≤ horizon
      → EntryOk key e
      → CoreOk contract c
      → Returns (Kept contract key) (write_comb_pending_ait_w next key e clk c)
  unfolding write_comb_pending_ait_w count count_duration
  write_comb_pending_ait_w-Kept key e clk c ty t v w = returns (ground arith)

  pub write_comb_pending_modify-Kept :
      (key : ℕ) (e : BufferEntry) (clk : ℕ) (c : Core N)
      → e.pending_request.type ≡ write_comb
      → clk ≤ horizon
      → EntryOk key e
      → CoreOk contract c
      → Returns (Kept contract key) (write_comb_pending_modify next key e clk c)
  unfolding write_comb_pending_modify count count_duration
  write_comb_pending_modify-Kept key e clk c ty t v w =
      Returns-bind (issue_next_level-ok contract _ _ _ _ _ c t w)
        (λ (r, c') h. returns (ground arith))

  pub write_comb_pending_write-Kept :
      (key : ℕ) (e : BufferEntry) (clk : ℕ) (c : Core N)
      → e.pending_request.type ≡ write_comb
      → clk ≤ horizon
      → EntryOk key e
      → CoreOk contract c
      → Returns (Kept contract key) (write_comb_pending_write next key e clk c)
  unfolding write_comb_pending_write count count_duration
  write_comb_pending_write-Kept key e clk c ty t v w = returns (ground arith)

  pub write_patch_init-Kept :
      (key : ℕ) (e : BufferEntry) (clk : ℕ) (c : Core N)
      → e.pending_request.type ≡ write_patch
      → clk ≤ horizon
      → EntryOk key e
      → CoreOk contract c
      → Returns (Kept contract key) (write_patch_init next key e clk c)
  unfolding write_patch_init count count_duration
  write_patch_init-Kept key e clk c ty t v w =
      Returns-bind (issue_local_memory-ok contract _ _ _ c t w)
        (λ (r, c') h. returns (ground arith))

  pub write_patch_pending_ait_w-Kept :
      (key : ℕ) (e : BufferEntry) (clk : ℕ) (c : Core N)
      → e.pending_request.type ≡ write_patch
      → clk ≤ horizon
      → EntryOk key e
      → CoreOk contract c
      → Returns (Kept contract key) (write_patch_pending_ait_w next key e clk c)
  unfolding write_patch_pending_ait_w count count_duration
  write_patch_pending_ait_w-Kept key e clk c ty t v w = returns (ground arith)

  pub write_patch_pending_modify-Kept :
      (key : ℕ) (e : BufferEntry) (clk : ℕ) (c : Core N)
      → e.pending_request.type ≡ write_patch
      → clk ≤ horizon
      → EntryOk key e
      → CoreOk contract c
      → Returns (Kept contract key) (write_patch_pending_modify next key e clk c)
  unfolding write_patch_pending_modify count count_duration
  write_patch_pending_modify-Kept key e clk c ty t v w =
      Returns-bind (issue_next_level-ok contract _ _ _ _ _ c t w)
        (λ (r, c') h. returns (ground arith))

  pub write_patch_pending_write-Kept :
      (key : ℕ) (e : BufferEntry) (clk : ℕ) (c : Core N)
      → e.pending_request.type ≡ write_patch
      → clk ≤ horizon
      → EntryOk key e
      → CoreOk contract c
      → Returns (Kept contract key) (write_patch_pending_write next key e clk c)
  unfolding write_patch_pending_write count count_duration
  write_patch_pending_write-Kept key e clk c ty t v w = returns (ground arith)

  pub flush_back_init-Kept :
      (key : ℕ) (e : BufferEntry) (clk : ℕ) (c : Core N)
      → e.pending_request.type ≡ flush_back
      → clk ≤ horizon
      → EntryOk key e
      → CoreOk contract c
      → Returns (Kept contract key) (flush_back_init next key e clk c)
  unfolding flush_back_init count count_duration
  flush_back_init-Kept key e clk c ty t v w =
      Returns-bind (issue_next_level-ok contract _ _ _ _ _ c t w)
        (λ (r, c') h. returns (ground arith))

  pub flush_back_pending_ait_w-Kept :
      (key : ℕ) (e : BufferEntry) (clk : ℕ) (c : Core N)
      → e.pending_request.type ≡ flush_back
      → clk ≤ horizon
      → EntryOk key e
      → CoreOk contract c
      → Returns (Kept contract key) (flush_back_pending_ait_w next key e clk c)
  unfolding flush_back_pending_ait_w count count_duration
  flush_back_pending_ait_w-Kept key e clk c ty t v w = returns (ground arith)

  pub flush_back_pending_write-Kept :
      (key : ℕ) (e : BufferEntry) (clk : ℕ) (c : Core N)
      → e.pending_request.type ≡ flush_back
      → clk ≤ horizon
      → EntryOk key e
      → CoreOk contract c
      → Returns (Kept contract key) (flush_back_pending_write next key e clk c)
  unfolding flush_back_pending_write count count_duration
  flush_back_pending_write-Kept key e clk c ty t v w = returns (ground arith)
