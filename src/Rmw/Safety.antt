-- ===== src/Rmw/Safety.antt =====
-- src/general/rmw.h: the invariant of an entry of the RMW buffer and of what stands beside it.
pub mod Issue
pub mod WriteTransfer
pub mod ReadTransfer
pub mod Transfer
pub mod Evict
pub mod Lsq
pub mod LsqRead
pub mod LsqWrite
pub mod Tick
use vans.Base.{
  ℕ, ◌+◌, ◌<◌, ◌≤◌, ◌≡◌, ◌≢◌, Bool, true, false, not, ◌&&◌, List, replicate, length, All,
}
use vans.Common.{clk_invalid}
use vans.Common.Address.Rmw.{translate_to_block_addr, block_size_cl}
use vans.RequestQueue.{IsBounded}
use vans.NextLevel.{NextLevel, Contract}
use vans.Rmw.Entry.{
  BufferEntry, RequestType, write_rmw, write_comb, write_patch, read_cold, read_ff, flush_back,
  RequestState, init, pending_read, pending_modify, pending_write, pending_readout, pending_ait_r,
  pending_ait_w, end, is_read, is_init, is_end,
}
use vans.Rmw.Controller.{Core}

-- The states that a request of each type goes through.
abbrev pub goes_through : RequestType → RequestState → Bool
goes_through _ init = true
goes_through _ end = true
goes_through write_rmw pending_readout = false
goes_through write_rmw _ = true
goes_through write_comb pending_ait_w = true
goes_through write_comb pending_modify = true
goes_through write_comb pending_write = true
goes_through write_patch pending_ait_w = true
goes_through write_patch pending_modify = true
goes_through write_patch pending_write = true
goes_through flush_back pending_ait_w = true
goes_through flush_back pending_write = true
goes_through read_cold pending_ait_r = true
goes_through read_cold pending_read = true
goes_through read_cold pending_readout = true
goes_through read_ff pending_readout = true
goes_through _ _ = false

abbrev pub is_reading : BufferEntry → Bool
is_reading e = e.pending && is_read e.pending_request.type

-- The entry's clock of its next action counts: it is past `init`, pending, and not waiting.
abbrev pub is_timed : BufferEntry → Bool
is_timed e = not (is_init e.state) && (e.pending && not e.waiting_action_clk_update)

-- A well-formed entry under the key of its block.
pub record EntryOk (key : ℕ) (e : BufferEntry) : Type 0 where
  pub key_aligned : translate_to_block_addr key ≡ key
  pub in_block : translate_to_block_addr e.pending_request.logic_addr ≡ key
  pub legal : goes_through e.pending_request.type e.state ≡ true
  pub settled : is_end e.state ≡ true → e.pending ≡ false
  pub started : (is_init e.state && is_read e.pending_request.type) ≡ true → e.pending ≡ true
  pub timed : is_timed e ≡ true → e.next_action_clk ≢ clk_invalid
  pub reading : is_reading e ≡ true → 0 < length e.pending_request_cl_index
  pub idle : is_reading e ≡ false → length e.pending_request_cl_index ≡ 0
  pub few : length e.pending_request_cl_index ≤ block_size_cl
  pub lines : All (λ i. i < block_size_cl) e.pending_request_cl_index
  pub callbacks_size : length e.callbacks ≡ block_size_cl
  pub cb_clear : e.cb_bitmap ≡ replicate block_size_cl false
  pub cl_size : length e.cl_bitmap ≡ block_size_cl

abbrev pub AllOk : List (ℕ × BufferEntry) → Type 0
AllOk m = All (λ p. EntryOk p.0 p.1) m

-- The members beside the buffer: the queue is within its bound, the component below is in a good
-- state, and no sum of a clock up to `horizon` and a latency is `clk_invalid` or wraps.
module _ {N : Type 0} {next : NextLevel N} {horizon : ℕ} (contract : Contract next horizon) where
  pub record CoreOk (c : Core N) : Type 0 where
    pub good : contract.Good c.next_level_components
    pub roq_bounded : IsBounded c.roq
    pub next_fits : horizon + 1 < clk_invalid
    pub ait_to_rmw_fits : horizon + c.timing.ait_to_rmw_latency < clk_invalid
    pub rmw_to_ait_fits : horizon + c.timing.rmw_to_ait_latency < clk_invalid
    pub read_fits : horizon + c.local_memory_model.read_latency < clk_invalid
    pub write_fits : horizon + c.local_memory_model.write_latency < clk_invalid

  abbrev pub Kept : ℕ → BufferEntry × Core N → Type 0
  Kept key p = EntryOk key p.0 × CoreOk p.1
