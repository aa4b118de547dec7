-- ===== src/Ait/Progress/WriteTransfer.antt =====
-- src/general/ait.cpp, `init_state_trans_table`: the transfers of the writes, one by one.
use vans.Base.{ℕ, ◌≤◌, ◌≡◌, arith, Returns, returns, Returns-bind}
use vans.NextLevel.{NextLevel, Contract}
use vans.Rmw.Progress.{Accepting}
use vans.Ait.Entry.{BufferEntry, RequestType, RequestState}
use vans.Ait.Controller.{Core}
use vans.Ait.Transfer.Write.{
  write_miss_init, write_miss_pending_read_media, write_miss_pending_write_dram,
  write_miss_pending_migration, write_miss_pending_write_media, write_hit_init,
  write_hit_pending_write_dram, write_hit_pending_migration, write_hit_pending_write_media,
}
use vans.Ait.Progress.{
  Advances, CoreReady, check_wear_leveling-ok, issue_next_level-issued, issue_lmemq-issued,
}

module _ {N M : Type 0} {next : NextLevel N} {horizon : ℕ} (contract : Contract next horizon) where
  pub write_miss_init-Advances :
      (key : ℕ) (e : BufferEntry) (clk : ℕ) (c : Core N M)
      → e.pending_request.type ≡ RequestType.write_miss
      → e.state ≡ RequestState.init
      → Accepting contract
      → clk ≤ horizon
      → CoreReady contract c
      → Returns (Advances e) (write_miss_init next key e clk c)
  unfolding write_miss_init
  write_miss_init-Advances key e clk c ty st a t v =
      Returns-bind (issue_next_level-issued contract _ _ _ _ c a t v)
        (λ (r, c') h. simp h (returns (ground arith)))

  pub write_miss_pending_read_media-Advances :
      (key : ℕ) (e : BufferEntry) (clk : ℕ) (c : Core N M)
      → e.pending_request.type ≡ RequestType.write_miss
      → e.state ≡ RequestState.pending_read_media
      → Accepting contract
      → clk ≤ horizon
      → CoreReady contract c
      → Returns (Advances e) (write_miss_pending_read_media next key e clk c)
  unfolding write_miss_pending_read_media
  write_miss_pending_read_media-Advances key e clk c ty st a t v =
      Returns-bind (issue_lmemq-issued contract _ e clk c v)
        (λ (r, c') h. simp h (returns (ground arith)))

  pub write_miss_pending_write_dram-Advances :
      (key : ℕ) (e : BufferEntry) (clk : ℕ) (c : Core N M)
      → e.pending_request.type ≡ RequestType.write_miss
      → e.state ≡ RequestState.pending_write_dram
      → Accepting contract
      → clk ≤ horizon
      → CoreReady contract c
      → Returns (Advances e) (write_miss_pending_write_dram next key e clk c)
  unfolding write_miss_pending_write_dram
  write_miss_pending_write_dram-Advances key e clk c ty st a t v =
      Returns-bind (check_wear_leveling-ok key c.table v.threshold)
        (λ delay h. returns (ground arith))

  pub write_miss_pending_migration-Advances :
      (key : ℕ) (e : BufferEntry) (clk : ℕ) (c : Core N M)
      → e.pending_request.type ≡ RequestType.write_miss
      → e.state ≡ RequestState.pending_migration
      → Accepting contract
      → clk ≤ horizon
      → CoreReady contract c
      → Returns (Advances e) (write_miss_pending_migration next key e clk c)
  unfolding write_miss_pending_migration
  write_miss_pending_migration-Advances key e clk c ty st a t v =
      Returns-bind (issue_next_level-issued contract _ _ _ _ c a t v)
        (λ (r, c') h. simp h (returns (ground arith)))

  pub write_miss_pending_write_media-Advances :
      (key : ℕ) (e : BufferEntry) (clk : ℕ) (c : Core N M)
      → e.pending_request.type ≡ RequestType.write_miss
      → e.state ≡ RequestState.pending_write_media
      → Accepting contract
      → clk ≤ horizon
      → CoreReady contract c
      → Returns (Advances e) (write_miss_pending_write_media next key e clk c)
  unfolding write_miss_pending_write_media
  write_miss_pending_write_media-Advances key e clk c ty st a t v = returns (ground arith)

  pub write_hit_init-Advances :
      (key : ℕ) (e : BufferEntry) (clk : ℕ) (c : Core N M)
      → e.pending_request.type ≡ RequestType.write_hit
      → e.state ≡ RequestState.init
      → Accepting contract
      → clk ≤ horizon
      → CoreReady contract c
      → Returns (Advances e) (write_hit_init next key e clk c)
  unfolding write_hit_init
  write_hit_init-Advances key e clk c ty st a t v =
      Returns-bind (issue_lmemq-issued contract _ e clk c v)
        (λ (r, c') h. simp h (returns (ground arith)))

  pub write_hit_pending_write_dram-Advances :
      (key : ℕ) (e : BufferEntry) (clk : ℕ) (c : Core N M)
      → e.pending_request.type ≡ RequestType.write_hit
      → e.state ≡ RequestState.pending_write_dram
      → Accepting contract
      → clk ≤ horizon
      → CoreReady contract c
      → Returns (Advances e) (write_hit_pending_write_dram next key e clk c)
  unfolding write_hit_pending_write_dram
  write_hit_pending_write_dram-Advances key e clk c ty st a t v =
      Returns-bind (check_wear_leveling-ok key c.table v.threshold)
        (λ delay h. returns (ground arith))

  pub write_hit_pending_migration-Advances :
      (key : ℕ) (e : BufferEntry) (clk : ℕ) (c : Core N M)
      → e.pending_request.type ≡ RequestType.write_hit
      → e.state ≡ RequestState.pending_migration
      → Accepting contract
      → clk ≤ horizon
      → CoreReady contract c
      → Returns (Advances e) (write_hit_pending_migration next key e clk c)
  unfolding write_hit_pending_migration
  write_hit_pending_migration-Advances key e clk c ty st a t v =
      Returns-bind (issue_next_level-issued contract _ _ _ _ c a t v)
        (λ (r, c') h. simp h (returns (ground arith)))

  pub write_hit_pending_write_media-Advances :
      (key : ℕ) (e : BufferEntry) (clk : ℕ) (c : Core N M)
      → e.pending_request.type ≡ RequestType.write_hit
      → e.state ≡ RequestState.pending_write_media
      → Accepting contract
      → clk ≤ horizon
      → CoreReady contract c
      → Returns (Advances e) (write_hit_pending_write_media next key e clk c)
  unfolding write_hit_pending_write_media
  write_hit_pending_write_media-Advances key e clk c ty st a t v = returns (ground arith)
