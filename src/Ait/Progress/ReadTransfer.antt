-- ===== src/Ait/Progress/ReadTransfer.antt =====
-- src/general/ait.cpp, `init_state_trans_table`: the transfers of the reads, one by one.
use vans.Base.{ℕ, ◌≤◌, ◌≡◌, arith, Returns, returns, Returns-bind}
use vans.NextLevel.{NextLevel, Contract}
use vans.Rmw.Progress.{Accepting}
use vans.Ait.Entry.{BufferEntry, RequestType, RequestState}
use vans.Ait.Controller.{Core}
use vans.Ait.Transfer.Read.{
  read_miss_init, read_miss_pending_read_media, read_miss_pending_read_dram, read_hit_init,
  read_hit_pending_read_dram,
}
use vans.Ait.Progress.{Advances, CoreReady, issue_next_level-issued, issue_lmemq-issued}

module _ {N M : Type 0} {next : NextLevel N} {horizon : ℕ} (contract : Contract next horizon) where
  pub read_miss_init-Advances :
      (key : ℕ) (e : BufferEntry) (clk : ℕ) (c : Core N M)
      → e.pending_request.type ≡ RequestType.read_miss
      → e.state ≡ RequestState.init
      → Accepting contract
      → clk ≤ horizon
      → CoreReady contract c
      → Returns (Advances e) (read_miss_init next key e clk c)
  unfolding read_miss_init
  read_miss_init-Advances key e clk c ty st a t v =
      Returns-bind (issue_next_level-issued contract _ _ _ _ c a t v)
        (λ (r, c') h. simp h (returns (ground arith)))

  pub read_miss_pending_read_media-Advances :
      (key : ℕ) (e : BufferEntry) (clk : ℕ) (c : Core N M)
      → e.pending_request.type ≡ RequestType.read_miss
      → e.state ≡ RequestState.pending_read_media
      → Accepting contract
      → clk ≤ horizon
      → CoreReady contract c
      → Returns (Advances e) (read_miss_pending_read_media next key e clk c)
  unfolding read_miss_pending_read_media
  read_miss_pending_read_media-Advances key e clk c ty st a t v =
      Returns-bind (issue_lmemq-issued contract _ e clk c v)
        (λ (r, c') h. simp h (returns (ground arith)))

  pub read_miss_pending_read_dram-Advances :
      (key : ℕ) (e : BufferEntry) (clk : ℕ) (c : Core N M)
      → e.pending_request.type ≡ RequestType.read_miss
      → e.state ≡ RequestState.pending_read_dram
      → Accepting contract
      → clk ≤ horizon
      → CoreReady contract c
      → Returns (Advances e) (read_miss_pending_read_dram next key e clk c)
  unfolding read_miss_pending_read_dram
  read_miss_pending_read_dram-Advances key e clk c ty st a t v = returns (ground arith)

  pub read_hit_init-Advances :
      (key : ℕ) (e : BufferEntry) (clk : ℕ) (c : Core N M)
      → e.pending_request.type ≡ RequestType.read_hit
      → e.state ≡ RequestState.init
      → Accepting contract
      → clk ≤ horizon
      → CoreReady contract c
      → Returns (Advances e) (read_hit_init next key e clk c)
  unfolding read_hit_init
  read_hit_init-Advances key e clk c ty st a t v =
      Returns-bind (issue_lmemq-issued contract _ e clk c v)
        (λ (r, c') h. simp h (returns (ground arith)))

  pub read_hit_pending_read_dram-Advances :
      (key : ℕ) (e : BufferEntry) (clk : ℕ) (c : Core N M)
      → e.pending_request.type ≡ RequestType.read_hit
      → e.state ≡ RequestState.pending_read_dram
      → Accepting contract
      → clk ≤ horizon
      → CoreReady contract c
      → Returns (Advances e) (read_hit_pending_read_dram next key e clk c)
  unfolding read_hit_pending_read_dram
  read_hit_pending_read_dram-Advances key e clk c ty st a t v = returns (ground arith)
