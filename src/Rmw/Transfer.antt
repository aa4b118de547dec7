-- ===== src/Rmw/Transfer.antt =====
-- src/general/rmw.cpp, `init_state_trans_table`: the table of state transfers.
pub mod Write
pub mod Flush
pub mod Read
use vans.Base.{ℕ, Option, some, none, Result}
use vans.NextLevel.{NextLevel}
use vans.Rmw.Entry.{
  BufferEntry, RequestType, write_rmw, write_comb, write_patch, read_cold, read_ff, flush_back,
  RequestState, init, pending_read, pending_modify, pending_write, pending_readout, pending_ait_r,
  pending_ait_w, end,
}
use vans.Rmw.Controller.{Core}
use Write.{
  write_rmw_init, write_rmw_pending_ait_r, write_rmw_pending_read, write_rmw_pending_ait_w,
  write_rmw_pending_modify, write_rmw_pending_write, write_comb_init, write_comb_pending_ait_w,
  write_comb_pending_modify, write_comb_pending_write, write_patch_init, write_patch_pending_ait_w,
  write_patch_pending_modify, write_patch_pending_write,
}
use Flush.{flush_back_init, flush_back_pending_ait_w, flush_back_pending_write}
use Read.{
  read_cold_init, read_cold_pending_ait_r, read_cold_pending_read, read_cold_pending_readout,
  read_ff_init, read_ff_pending_readout,
}

abbrev pub Transfer : Type 0 → Type 0
Transfer N = ℕ → BufferEntry → ℕ → Core N → Result (BufferEntry × Core N)

module _ {N : Type 0} (next : NextLevel N) where
  -- `none` is the empty function that the table starts with.
  unfoldable pub state_trans : RequestType → RequestState → Option (Transfer N)
  state_trans write_rmw init = some (write_rmw_init next)
  state_trans write_rmw pending_ait_r = some (write_rmw_pending_ait_r next)
  state_trans write_rmw pending_read = some (write_rmw_pending_read next)
  state_trans write_rmw pending_ait_w = some (write_rmw_pending_ait_w next)
  state_trans write_rmw pending_modify = some (write_rmw_pending_modify next)
  state_trans write_rmw pending_write = some (write_rmw_pending_write next)
  state_trans write_comb init = some (write_comb_init next)
  state_trans write_comb pending_ait_w = some (write_comb_pending_ait_w next)
  state_trans write_comb pending_modify = some (write_comb_pending_modify next)
  state_trans write_comb pending_write = some (write_comb_pending_write next)
  state_trans write_patch init = some (write_patch_init next)
  state_trans write_patch pending_ait_w = some (write_patch_pending_ait_w next)
  state_trans write_patch pending_modify = some (write_patch_pending_modify next)
  state_trans write_patch pending_write = some (write_patch_pending_write next)
  state_trans flush_back init = some (flush_back_init next)
  state_trans flush_back pending_ait_w = some (flush_back_pending_ait_w next)
  state_trans flush_back pending_write = some (flush_back_pending_write next)
  state_trans read_cold init = some (read_cold_init next)
  state_trans read_cold pending_ait_r = some (read_cold_pending_ait_r next)
  state_trans read_cold pending_read = some (read_cold_pending_read next)
  state_trans read_cold pending_readout = some (read_cold_pending_readout next)
  state_trans read_ff init = some (read_ff_init next)
  state_trans read_ff pending_readout = some (read_ff_pending_readout next)
  state_trans _ _ = none
