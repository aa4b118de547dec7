-- ===== src/Rmw/Safety/ReadTransfer.antt =====
-- src/general/rmw.cpp: the transfers of the reads, and the invariant.
use vans.Base.{
  ℕ, ◌≤◌, ◌≡◌, true, false, inl, inr, Bool-cases, arith, Returns, returns, Returns-bind,
}
use vans.NextLevel.{NextLevel, Contract}
use vans.Rmw.Entry.{BufferEntry, read_cold, read_ff, is_init}
use vans.Rmw.Controller.{Core, count, count_duration}
use vans.Rmw.Transfer.Read.{
  read_cold_init, read_cold_pending_ait_r, read_cold_pending_read, read_ff_init,
  read_cold_pending_readout, read_ff_pending_readout,
}
use vans.Rmw.Safety.{EntryOk, CoreOk, Kept}
use vans.Rmw.Safety.Issue.{issue_next_level-ok, issue_local_memory-ok, issue_roq-ok, full-ok}

module _ {N : Type 0} {next : NextLevel N} {horizon : ℕ} (contract : Contract next horizon) where
  pub read_cold_init-Kept :
      (key : ℕ) (e : BufferEntry) (clk : ℕ) (c : Core N)
      → e.pending_request.type ≡ read_cold
      → e.pending ≡ true
      → clk ≤ horizon
      → EntryOk key e
      → CoreOk contract c
      → Returns (Kept contract key) (read_cold_init next key e clk c)
  unfolding read_cold_init count count_duration
  read_cold_init-Kept key e clk c ty p t v w =
      Returns-bind (issue_next_level-ok contract _ _ _ _ _ c t w)
        (λ (r, c') h. returns (ground arith))

  pub read_cold_pending_ait_r-Kept :
      (key : ℕ) (e : BufferEntry) (clk : ℕ) (c : Core N)
      → e.pending_request.type ≡ read_cold
      → e.pending ≡ true
      → clk ≤ horizon
      → EntryOk key e
      → CoreOk contract c
      → Returns (Kept contract key) (read_cold_pending_ait_r next key e clk c)
  unfolding read_cold_pending_ait_r count count_duration
  read_cold_pending_ait_r-Kept key e clk c ty p t v w = returns (ground arith)

  pub read_cold_pending_read-Kept :
      (key : ℕ) (e : BufferEntry) (clk : ℕ) (c : Core N)
      → e.pending_request.type ≡ read_cold
      → e.pending ≡ true
      → clk ≤ horizon
      → EntryOk key e
      → CoreOk contract c
      → Returns (Kept contract key) (read_cold_pending_read next key e clk c)
  unfolding read_cold_pending_read count count_duration
  read_cold_pending_read-Kept key e clk c ty p t v w =
      Returns-bind (issue_local_memory-ok contract _ _ _ c t w)
        (λ (r, c') h. returns (ground arith))

  pub read_ff_init-Kept :
      (key : ℕ) (e : BufferEntry) (clk : ℕ) (c : Core N)
      → e.pending_request.type ≡ read_ff
      → e.pending ≡ true
      → clk ≤ horizon
      → EntryOk key e
      → CoreOk contract c
      → Returns (Kept contract key) (read_ff_init next key e clk c)
  unfolding read_ff_init count count_duration
  read_ff_init-Kept key e clk c ty p t v w =
      Returns-bind (issue_local_memory-ok contract _ _ _ c t w)
        (λ (r, c') h. returns (ground arith))

  pub read_cold_pending_readout-Kept :
      (key : ℕ) (e : BufferEntry) (clk : ℕ) (c : Core N)
      → e.pending_request.type ≡ read_cold
      → e.pending ≡ true
      → is_init e.state ≡ false
      → clk ≤ horizon
      → EntryOk key e
      → CoreOk contract c
      → Returns (Kept contract key) (read_cold_pending_readout next key e clk c)
  unfolding read_cold_pending_readout count count_duration
  read_cold_pending_readout-Kept key e clk c ty p i t v w =
      Returns-bind (full-ok c.roq w.roq_bounded) (λ is_full h. elim (Bool-cases is_full) [
        | inl yes' ↦ rw yes' (returns (ground arith))
        | inr no' ↦ rw no' (
            Returns-bind (issue_roq-ok contract key e c v w (ground arith) (h no'))
              (λ (e', c') (rest, popped, shorter, lines, core). returns (ground arith)))
      ])

  pub read_ff_pending_readout-Kept :
      (key : ℕ) (e : BufferEntry) (clk : ℕ) (c : Core N)
      → e.pending_request.type ≡ read_ff
      → e.pending ≡ true
      → is_init e.state ≡ false
      → clk ≤ horizon
      → EntryOk key e
      → CoreOk contract c
      → Returns (Kept contract key) (read_ff_pending_readout next key e clk c)
  unfolding read_ff_pending_readout count count_duration
  read_ff_pending_readout-Kept key e clk c ty p i t v w =
      Returns-bind (full-ok c.roq w.roq_bounded) (λ is_full h. elim (Bool-cases is_full) [
        | inl yes' ↦ rw yes' (returns (ground arith))
        | inr no' ↦ rw no' (
            Returns-bind (issue_roq-ok contract key e c v w (ground arith) (h no'))
              (λ (e', c') (rest, popped, shorter, lines, core). returns (ground arith)))
      ])
