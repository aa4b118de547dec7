-- ===== src/Rmw/Progress/ReadTransfer.antt =====
-- src/general/rmw.cpp: the transfers of the reads, one by one, where they are accepted.
use vans.Base.{
  ℕ, ltb, ◌==◌, ◌<◌, ◌≤◌, ◌≡◌, true, false, arith, Returns, returns, Returns-bind, length,
}
use vans.RequestQueue
use vans.NextLevel.{NextLevel, Contract}
use vans.Rmw.Entry.{BufferEntry, RequestState, read_cold, read_ff}
use vans.Rmw.Controller.{Core, count, count_duration}
use vans.Rmw.Transfer.Read.{
  read_cold_init, read_cold_pending_ait_r, read_cold_pending_read, read_ff_init,
  read_cold_pending_readout, read_ff_pending_readout,
}
use vans.Rmw.Safety.{EntryOk, CoreOk}
use vans.Rmw.Safety.Issue.{issue_roq-ok}
use vans.Rmw.Progress.{Advances, Accepting, issue_next_level-issued, issue_local_memory-issued}

module _ {N : Type 0} {next : NextLevel N} {horizon : ℕ} (contract : Contract next horizon) where
  pub read_cold_init-Advances :
      (key : ℕ) (e : BufferEntry) (clk : ℕ) (c : Core N)
      → e.pending_request.type ≡ read_cold
      → e.state ≡ RequestState.init
      → 0 < length e.pending_request_cl_index
      → Accepting contract
      → clk ≤ horizon
      → CoreOk contract c
      → Returns (Advances e) (read_cold_init next key e clk c)
  unfolding read_cold_init count count_duration
  read_cold_init-Advances key e clk c ty st l a t w =
      Returns-bind (issue_next_level-issued contract _ _ _ _ _ c a t w)
        (λ (r, c') h. returns (ground arith))

  pub read_cold_pending_ait_r-Advances :
      (key : ℕ) (e : BufferEntry) (clk : ℕ) (c : Core N)
      → e.pending_request.type ≡ read_cold
      → e.state ≡ RequestState.pending_ait_r
      → 0 < length e.pending_request_cl_index
      → Accepting contract
      → clk ≤ horizon
      → CoreOk contract c
      → Returns (Advances e) (read_cold_pending_ait_r next key e clk c)
  unfolding read_cold_pending_ait_r count count_duration
  read_cold_pending_ait_r-Advances key e clk c ty st l a t w = returns (ground arith)

  pub read_cold_pending_read-Advances :
      (key : ℕ) (e : BufferEntry) (clk : ℕ) (c : Core N)
      → e.pending_request.type ≡ read_cold
      → e.state ≡ RequestState.pending_read
      → 0 < length e.pending_request_cl_index
      → Accepting contract
      → clk ≤ horizon
      → CoreOk contract c
      → Returns (Advances e) (read_cold_pending_read next key e clk c)
  unfolding read_cold_pending_read count count_duration
  read_cold_pending_read-Advances key e clk c ty st l a t w =
      Returns-bind (issue_local_memory-issued contract _ _ _ c t w)
        (λ (r, c') h. returns (ground arith))

  pub read_ff_init-Advances :
      (key : ℕ) (e : BufferEntry) (clk : ℕ) (c : Core N)
      → e.pending_request.type ≡ read_ff
      → e.state ≡ RequestState.init
      → 0 < length e.pending_request_cl_index
      → Accepting contract
      → clk ≤ horizon
      → CoreOk contract c
      → Returns (Advances e) (read_ff_init next key e clk c)
  unfolding read_ff_init count count_duration
  read_ff_init-Advances key e clk c ty st l a t w =
      Returns-bind (issue_local_memory-issued contract _ _ _ c t w)
        (λ (r, c') h. returns (ground arith))

  pub read_cold_pending_readout-Advances :
      (key : ℕ) (e : BufferEntry) (clk : ℕ) (c : Core N)
      → e.pending_request.type ≡ read_cold
      → e.state ≡ RequestState.pending_readout
      → e.pending ≡ true
      → EntryOk key e
      → CoreOk contract c
      → length c.roq.queue < c.roq.max_entries
      → Returns (Advances e) (read_cold_pending_readout next key e clk c)
  unfolding read_cold_pending_readout RequestQueue.full count count_duration
  read_cold_pending_readout-Advances key e clk c ty st p v w room =
      let fits : ltb c.roq.max_entries (length c.roq.queue) ≡ false = ground arith in
      let space : (length c.roq.queue == c.roq.max_entries) ≡ false = ground arith in
      rw (fits, space)
        (Returns-bind (issue_roq-ok contract key e c v w (ground arith) room)
          (λ (e', c') (rest, popped, shorter, lines, core). returns (ground arith)))

  pub read_ff_pending_readout-Advances :
      (key : ℕ) (e : BufferEntry) (clk : ℕ) (c : Core N)
      → e.pending_request.type ≡ read_ff
      → e.state ≡ RequestState.pending_readout
      → e.pending ≡ true
      → EntryOk key e
      → CoreOk contract c
      → length c.roq.queue < c.roq.max_entries
      → Returns (Advances e) (read_ff_pending_readout next key e clk c)
  unfolding read_ff_pending_readout RequestQueue.full count count_duration
  read_ff_pending_readout-Advances key e clk c ty st p v w room =
      let fits : ltb c.roq.max_entries (length c.roq.queue) ≡ false = ground arith in
      let space : (length c.roq.queue == c.roq.max_entries) ≡ false = ground arith in
      rw (fits, space)
        (Returns-bind (issue_roq-ok contract key e c v w (ground arith) room)
          (λ (e', c') (rest, popped, shorter, lines, core). returns (ground arith)))
