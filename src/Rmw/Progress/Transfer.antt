-- ===== src/Rmw/Progress/Transfer.antt =====
-- src/general/rmw.cpp, `init_state_trans_table`: the transfers by the table, where they are accepted.
use vans.Base.{
  ℕ, ◌<◌, ◌≤◌, ◌≡◌, refl, true, false, none, some, arith, length, err, unknown_state_transfer,
  Returns,
}
use vans.NextLevel.{NextLevel, Contract}
use vans.Rmw.Entry.{
  BufferEntry, RequestType, write_rmw, write_comb, write_patch, read_cold, read_ff, flush_back,
  RequestState, init, pending_read, pending_modify, pending_write, pending_readout, pending_ait_r,
  pending_ait_w, is_read, is_end,
}
use vans.Rmw.Controller.{Core}
use vans.Rmw.Transfer.{state_trans}
use vans.Rmw.Tick.{transfer_entry}
use vans.Rmw.Safety.{EntryOk, CoreOk, goes_through}
use vans.Rmw.Progress.{Advances, Accepting}
use vans.Rmw.Progress.WriteTransfer
use vans.Rmw.Progress.ReadTransfer

module _ {N : Type 0} {next : NextLevel N} {horizon : ℕ} (contract : Contract next horizon) where
  by_table :
      (ty : RequestType) (st : RequestState) (key : ℕ) (e : BufferEntry) (clk : ℕ) (c : Core N)
      → e.pending_request.type ≡ ty
      → e.state ≡ st
      → goes_through ty st ≡ true
      → is_end st ≡ false
      → (is_read ty ≡ true → (e.pending ≡ true) × (0 < length e.pending_request_cl_index))
      → Accepting contract
      → clk ≤ horizon
      → EntryOk key e
      → CoreOk contract c
      → length c.roq.queue < c.roq.max_entries
      → Returns (Advances e) (elim (state_trans next ty st) [
        | none ↦ err unknown_state_transfer
        | some func ↦ func key e clk c
      ])
  unfolding state_trans
  by_table write_rmw init key e clk c ty st g f p a t v w room =
      WriteTransfer.write_rmw_init-Advances contract key e clk c ty st a t w
  by_table write_rmw pending_ait_r key e clk c ty st g f p a t v w room =
      WriteTransfer.write_rmw_pending_ait_r-Advances contract key e clk c ty st a t w
  by_table write_rmw pending_read key e clk c ty st g f p a t v w room =
      WriteTransfer.write_rmw_pending_read-Advances contract key e clk c ty st a t w
  by_table write_rmw pending_ait_w key e clk c ty st g f p a t v w room =
      WriteTransfer.write_rmw_pending_ait_w-Advances contract key e clk c ty st a t w
  by_table write_rmw pending_modify key e clk c ty st g f p a t v w room =
      WriteTransfer.write_rmw_pending_modify-Advances contract key e clk c ty st a t w
  by_table write_rmw pending_write key e clk c ty st g f p a t v w room =
      WriteTransfer.write_rmw_pending_write-Advances contract key e clk c ty st a t w
  by_table write_comb init key e clk c ty st g f p a t v w room =
      WriteTransfer.write_comb_init-Advances contract key e clk c ty st a t w
  by_table write_comb pending_ait_w key e clk c ty st g f p a t v w room =
      WriteTransfer.write_comb_pending_ait_w-Advances contract key e clk c ty st a t w
  by_table write_comb pending_modify key e clk c ty st g f p a t v w room =
      WriteTransfer.write_comb_pending_modify-Advances contract key e clk c ty st a t w
  by_table write_comb pending_write key e clk c ty st g f p a t v w room =
      WriteTransfer.write_comb_pending_write-Advances contract key e clk c ty st a t w
  by_table write_patch init key e clk c ty st g f p a t v w room =
      WriteTransfer.write_patch_init-Advances contract key e clk c ty st a t w
  by_table write_patch pending_ait_w key e clk c ty st g f p a t v w room =
      WriteTransfer.write_patch_pending_ait_w-Advances contract key e clk c ty st a t w
  by_table write_patch pending_modify key e clk c ty st g f p a t v w room =
      WriteTransfer.write_patch_pending_modify-Advances contract key e clk c ty st a t w
  by_table write_patch pending_write key e clk c ty st g f p a t v w room =
      WriteTransfer.write_patch_pending_write-Advances contract key e clk c ty st a t w
  by_table flush_back init key e clk c ty st g f p a t v w room =
      WriteTransfer.flush_back_init-Advances contract key e clk c ty st a t w
  by_table flush_back pending_ait_w key e clk c ty st g f p a t v w room =
      WriteTransfer.flush_back_pending_ait_w-Advances contract key e clk c ty st a t w
  by_table flush_back pending_write key e clk c ty st g f p a t v w room =
      WriteTransfer.flush_back_pending_write-Advances contract key e clk c ty st a t w
  by_table read_cold init key e clk c ty st g f p a t v w room =
      ReadTransfer.read_cold_init-Advances contract key e clk c ty st (p refl).1 a t w
  by_table read_cold pending_ait_r key e clk c ty st g f p a t v w room =
      ReadTransfer.read_cold_pending_ait_r-Advances contract key e clk c ty st (p refl).1 a t w
  by_table read_cold pending_read key e clk c ty st g f p a t v w room =
      ReadTransfer.read_cold_pending_read-Advances contract key e clk c ty st (p refl).1 a t w
  by_table read_ff init key e clk c ty st g f p a t v w room =
      ReadTransfer.read_ff_init-Advances contract key e clk c ty st (p refl).1 a t w
  by_table read_cold pending_readout key e clk c ty st g f p a t v w room =
      ReadTransfer.read_cold_pending_readout-Advances contract key e clk c ty st (p refl).0 v w room
  by_table read_ff pending_readout key e clk c ty st g f p a t v w room =
      ReadTransfer.read_ff_pending_readout-Advances contract key e clk c ty st (p refl).0 v w room
  by_table _ _ key e clk c ty st g f p a t v w room = cc

  -- A state transfer by the horizon of an entry that is well-formed, pending and not at its end, with the
  -- core well-formed, into a next level that accepts requests and with room in the read-out queue, returns
  -- normally, keeps the entry's request, and leaves exactly one transfer less until the end.
  pub transfer_entry-Advances :
      (key : ℕ) (e : BufferEntry) (clk : ℕ) (c : Core N)
      → e.pending ≡ true
      → is_end e.state ≡ false
      → Accepting contract
      → clk ≤ horizon
      → EntryOk key e
      → CoreOk contract c
      → length c.roq.queue < c.roq.max_entries
      → Returns (Advances e) (transfer_entry next key e clk c)
  unfolding transfer_entry
  transfer_entry-Advances key e clk c p f a t v w room =
      by_table e.pending_request.type e.state key e clk c refl refl v.legal f
        (λ r. (p, v.reading (ground arith))) a t v w room
