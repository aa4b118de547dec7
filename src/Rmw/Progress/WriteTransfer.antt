-- ===== src/Rmw/Progress/WriteTransfer.antt =====
-- src/general/rmw.cpp: the transfers of the writes and of the flush, one by one, where they are
-- accepted.
use vans.Base.{ℕ, ◌≤◌, ◌≡◌, arith, Returns, returns, Returns-bind}
use vans.NextLevel.{NextLevel, Contract}
use vans.Rmw.Entry.{BufferEntry, RequestState, write_rmw, write_comb, write_patch, flush_back}
use vans.Rmw.Controller.{Core, count, count_duration}
use vans.Rmw.Transfer.Write.{
  write_rmw_init, write_rmw_pending_ait_r, write_rmw_pending_read, write_rmw_pending_ait_w,
  write_rmw_pending_modify, write_rmw_pending_write, write_comb_init, write_comb_pending_ait_w,
  write_comb_pending_modify, write_comb_pending_write, write_patch_init, write_patch_pending_ait_w,
  write_patch_pending_modify, write_patch_pending_write,
}
use vans.Rmw.Transfer.Flush.{flush_back_init, flush_back_pending_ait_w, flush_back_pending_write}
use vans.Rmw.Safety.{CoreOk}
use vans.Rmw.Progress.{Advances, Accepting, issue_next_level-issued, issue_local_memory-issued}

module _ {N : Type 0} {next : NextLevel N} {horizon : ℕ} (contract : Contract next horizon) where
  pub write_rmw_init-Advances :
      (key : ℕ) (e : BufferEntry) (clk : ℕ) (c : Core N)
      → e.pending_request.type ≡ write_rmw
      → e.state ≡ RequestState.init
      → Accepting contract
      → clk ≤ horizon
      → CoreOk contract c
      → Returns (Advances e) (write_rmw_init next key e clk c)
  unfolding write_rmw_init count count_duration
  write_rmw_init-Advances key e clk c ty st a t w =
      Returns-bind (issue_next_level-issued contract _ _ _ _ _ c a t w)
        (λ (r, c') h. returns (ground arith))

  pub write_rmw_pending_ait_r-Advances :
      (key : ℕ) (e : BufferEntry) (clk : ℕ) (c : Core N)
      → e.pending_request.type ≡ write_rmw
      → e.state ≡ RequestState.pending_ait_r
      → Accepting contract
      → clk ≤ horizon
      → CoreOk contract c
      → Returns (Advances e) (write_rmw_pending_ait_r next key e clk c)
  unfolding write_rmw_pending_ait_r count count_duration
  write_rmw_pending_ait_r-Advances key e clk c ty st a t w = returns (ground arith)

  pub write_rmw_pending_read-Advances :
      (key : ℕ) (e : BufferEntry) (clk : ℕ) (c : Core N)
      → e.pending_request.type ≡ write_rmw
      → e.state ≡ RequestState.pending_read
      → Accepting contract
      → clk ≤ horizon
      → CoreOk contract c
      → Returns (Advances e) (write_rmw_pending_read next key e clk c)
  unfolding write_rmw_pending_read count count_duration
  write_rmw_pending_read-Advances key e clk c ty st a t w =
      Returns-bind (issue_local_memory-issued contract _ _ _ c t w)
        (λ (r, c') h. returns (ground arith))

  pub write_rmw_pending_ait_w-Advances :
      (key : ℕ) (e : BufferEntry) (clk : ℕ) (c : Core N)
      → e.pending_request.type ≡ write_rmw
      → e.state ≡ RequestState.pending_ait_w
      → Accepting contract
      → clk ≤ horizon
      → CoreOk contract c
      → Returns (Advances e) (write_rmw_pending_ait_w next key e clk c)
  unfolding write_rmw_pending_ait_w count count_duration
  write_rmw_pending_ait_w-Advances key e clk c ty st a t w = returns (ground arith)

  pub write_rmw_pending_modify-Advances :
      (key : ℕ) (e : BufferEntry) (clk : ℕ) (c : Core N)
      → e.pending_request.type ≡ write_rmw
      → e.state ≡ RequestState.pending_modify
      → Accepting contract
      → clk ≤ horizon
      → CoreOk contract c
      → Returns (Advances e) (write_rmw_pending_modify next key e clk c)
  unfolding write_rmw_pending_modify count count_duration
  write_rmw_pending_modify-Advances key e clk c ty st a t w =
      Returns-bind (issue_next_level-issued contract _ _ _ _ _ c a t w)
        (λ (r, c') h. returns (ground arith))

  pub write_rmw_pending_write-Advances :
      (key : ℕ) (e : BufferEntry) (clk : ℕ) (c : Core N)
      → e.pending_request.type ≡ write_rmw
      → e.state ≡ RequestState.pending_write
      → Accepting contract
      → clk ≤ horizon
      → CoreOk contract c
      → Returns (Advances e) (write_rmw_pending_write next key e clk c)
  unfolding write_rmw_pending_write count count_duration
  write_rmw_pending_write-Advances key e clk c ty st a t w = returns (ground arith)

  pub write_comb_init-Advances :
      (key : ℕ) (e : BufferEntry) (clk : ℕ) (c : Core N)
      → e.pending_request.type ≡ write_comb
      → e.state ≡ RequestState.init
      → Accepting contract
      → clk ≤ horizon
      → CoreOk contract c
      → Returns (Advances e) (write_comb_init next key e clk c)
  unfolding write_comb_init count count_duration
  write_comb_init-Advances key e clk c ty st a t w =
      Returns-bind (issue_local_memory-issued contract _ _ _ c t w)
        (λ (r, c') h. returns (ground arith))

  pub write_comb_pending_ait_w-Advances :
      (key : ℕ) (e : BufferEntry) (clk : ℕ) (c : Core N)
      → e.pending_request.type ≡ write_comb
      → e.state ≡ RequestState.pending_ait_w
      → Accepting contract
      → clk ≤ horizon
      → CoreOk contract c
      → Returns (Advances e) (write_comb_pending_ait_w next key e clk c)
  unfolding write_comb_pending_ait_w count count_duration
  write_comb_pending_ait_w-Advances key e clk c ty st a t w = returns (ground arith)

  pub write_comb_pending_modify-Advances :
      (key : ℕ) (e : BufferEntry) (clk : ℕ) (c : Core N)
      → e.pending_request.type ≡ write_comb
      → e.state ≡ RequestState.pending_modify
      → Accepting contract
      → clk ≤ horizon
      → CoreOk contract c
      → Returns (Advances e) (write_comb_pending_modify next key e clk c)
  unfolding write_comb_pending_modify count count_duration
  write_comb_pending_modify-Advances key e clk c ty st a t w =
      Returns-bind (issue_next_level-issued contract _ _ _ _ _ c a t w)
        (λ (r, c') h. returns (ground arith))

  pub write_comb_pending_write-Advances :
      (key : ℕ) (e : BufferEntry) (clk : ℕ) (c : Core N)
      → e.pending_request.type ≡ write_comb
      → e.state ≡ RequestState.pending_write
      → Accepting contract
      → clk ≤ horizon
      → CoreOk contract c
      → Returns (Advances e) (write_comb_pending_write next key e clk c)
  unfolding write_comb_pending_write count count_duration
  write_comb_pending_write-Advances key e clk c ty st a t w = returns (ground arith)

  pub write_patch_init-Advances :
      (key : ℕ) (e : BufferEntry) (clk : ℕ) (c : Core N)
      → e.pending_request.type ≡ write_patch
      → e.state ≡ RequestState.init
      → Accepting contract
      → clk ≤ horizon
      → CoreOk contract c
      → Returns (Advances e) (write_patch_init next key e clk c)
  unfolding write_patch_init count count_duration
  write_patch_init-Advances key e clk c ty st a t w =
      Returns-bind (issue_local_memory-issued contract _ _ _ c t w)
        (λ (r, c') h. returns (ground arith))

  pub write_patch_pending_ait_w-Advances :
      (key : ℕ) (e : BufferEntry) (clk : ℕ) (c : Core N)
      → e.pending_request.type ≡ write_patch
      → e.state ≡ RequestState.pending_ait_w
      → Accepting contract
      → clk ≤ horizon
      → CoreOk contract c
      → Returns (Advances e) (write_patch_pending_ait_w next key e clk c)
  unfolding write_patch_pending_ait_w count count_duration
  write_patch_pending_ait_w-Advances key e clk c ty st a t w = returns (ground arith)

  pub write_patch_pending_modify-Advances :
      (key : ℕ) (e : BufferEntry) (clk : ℕ) (c : Core N)
      → e.pending_request.type ≡ write_patch
      → e.state ≡ RequestState.pending_modify
      → Accepting contract
      → clk ≤ horizon
      → CoreOk contract c
      → Returns (Advances e) (write_patch_pending_modify next key e clk c)
  unfolding write_patch_pending_modify count count_duration
  write_patch_pending_modify-Advances key e clk c ty st a t w =
      Returns-bind (issue_next_level-issued contract _ _ _ _ _ c a t w)
        (λ (r, c') h. returns (ground arith))

  pub write_patch_pending_write-Advances :
      (key : ℕ) (e : BufferEntry) (clk : ℕ) (c : Core N)
      → e.pending_request.type ≡ write_patch
      → e.state ≡ RequestState.pending_write
      → Accepting contract
      → clk ≤ horizon
      → CoreOk contract c
      → Returns (Advances e) (write_patch_pending_write next key e clk c)
  unfolding write_patch_pending_write count count_duration
  write_patch_pending_write-Advances key e clk c ty st a t w = returns (ground arith)

  pub flush_back_init-Advances :
      (key : ℕ) (e : BufferEntry) (clk : ℕ) (c : Core N)
      → e.pending_request.type ≡ flush_back
      → e.state ≡ RequestState.init
      → Accepting contract
      → clk ≤ horizon
      → CoreOk contract c
      → Returns (Advances e) (flush_back_init next key e clk c)
  unfolding flush_back_init count count_duration
  flush_back_init-Advances key e clk c ty st a t w =
      Returns-bind (issue_next_level-issued contract _ _ _ _ _ c a t w)
        (λ (r, c') h. returns (ground arith))

  pub flush_back_pending_ait_w-Advances :
      (key : ℕ) (e : BufferEntry) (clk : ℕ) (c : Core N)
      → e.pending_request.type ≡ flush_back
      → e.state ≡ RequestState.pending_ait_w
      → Accepting contract
      → clk ≤ horizon
      → CoreOk contract c
      → Returns (Advances e) (flush_back_pending_ait_w next key e clk c)
  unfolding flush_back_pending_ait_w count count_duration
  flush_back_pending_ait_w-Advances key e clk c ty st a t w = returns (ground arith)

  pub flush_back_pending_write-Advances :
      (key : ℕ) (e : BufferEntry) (clk : ℕ) (c : Core N)
      → e.pending_request.type ≡ flush_back
      → e.state ≡ RequestState.pending_write
      → Accepting contract
      → clk ≤ horizon
      → CoreOk contract c
      → Returns (Advances e) (flush_back_pending_write next key e clk c)
  unfolding flush_back_pending_write count count_duration
  flush_back_pending_write-Advances key e clk c ty st a t w = returns (ground arith)
