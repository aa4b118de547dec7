-- ===== src/Ait/Progress/Transfer.antt =====
-- src/general/ait.cpp, `init_state_trans_table`: the transfers by the table, accepted and refused.
use vans.Base.{
  ℕ, ◌≤◌, ◌≡◌, refl, Bool, true, false, none, some, arith, err, unknown_state_transfer,
  counter_missing, Returns, Returns-eq, Returns-bind, returns, ok,
}
use vans.Common.{BaseRequest, BaseRequestType, read, write, BaseResponse}
use vans.NextLevel.{NextLevel, Contract}
use vans.Rmw.Progress.{Accepting}
use vans.Ait.Entry.{
  BufferEntry, RequestType, read_miss, read_hit, write_miss, write_hit, RequestState, init,
  pending_read_media, pending_write_media, pending_read_dram, pending_write_dram, pending_migration,
  is_end,
}
use vans.Ait.Controller.{
  Core, issue_next_level, count_next_level_issue_fail, count_named, event_names, event_name,
}
use vans.Counter.{at_name}
use vans.Ait.Transfer.{state_trans}
use vans.Ait.Transfer.Write.{
  write_miss_init, write_miss_pending_migration, write_hit_pending_migration,
}
use vans.Ait.Transfer.Read.{read_miss_init}
use vans.Ait.Tick.{transfer_entry}
use vans.Ait.Progress.{Advances, CoreReady, goes_through}
use vans.Ait.Progress.WriteTransfer
use vans.Ait.Progress.ReadTransfer

module _ {N M : Type 0} {next : NextLevel N} {horizon : ℕ} (contract : Contract next horizon) where
  by_table :
      (ty : RequestType) (st : RequestState) (key : ℕ) (e : BufferEntry) (clk : ℕ) (c : Core N M)
      → e.pending_request.type ≡ ty
      → e.state ≡ st
      → goes_through ty st ≡ true
      → is_end st ≡ false
      → Accepting contract
      → clk ≤ horizon
      → CoreReady contract c
      → Returns (Advances e) (elim (state_trans next ty st) [
        | none ↦ err unknown_state_transfer
        | some func ↦ func key e clk c
      ])
  unfolding state_trans
  by_table write_miss init key e clk c ty st g f a t v =
      WriteTransfer.write_miss_init-Advances contract key e clk c ty st a t v
  by_table write_miss pending_read_media key e clk c ty st g f a t v =
      WriteTransfer.write_miss_pending_read_media-Advances contract key e clk c ty st a t v
  by_table write_miss pending_write_dram key e clk c ty st g f a t v =
      WriteTransfer.write_miss_pending_write_dram-Advances contract key e clk c ty st a t v
  by_table write_miss pending_migration key e clk c ty st g f a t v =
      WriteTransfer.write_miss_pending_migration-Advances contract key e clk c ty st a t v
  by_table write_miss pending_write_media key e clk c ty st g f a t v =
      WriteTransfer.write_miss_pending_write_media-Advances contract key e clk c ty st a t v
  by_table write_hit init key e clk c ty st g f a t v =
      WriteTransfer.write_hit_init-Advances contract key e clk c ty st a t v
  by_table write_hit pending_write_dram key e clk c ty st g f a t v =
      WriteTransfer.write_hit_pending_write_dram-Advances contract key e clk c ty st a t v
  by_table write_hit pending_migration key e clk c ty st g f a t v =
      WriteTransfer.write_hit_pending_migration-Advances contract key e clk c ty st a t v
  by_table write_hit pending_write_media key e clk c ty st g f a t v =
      WriteTransfer.write_hit_pending_write_media-Advances contract key e clk c ty st a t v
  by_table read_miss init key e clk c ty st g f a t v =
      ReadTransfer.read_miss_init-Advances contract key e clk c ty st a t v
  by_table read_miss pending_read_media key e clk c ty st g f a t v =
      ReadTransfer.read_miss_pending_read_media-Advances contract key e clk c ty st a t v
  by_table read_miss pending_read_dram key e clk c ty st g f a t v =
      ReadTransfer.read_miss_pending_read_dram-Advances contract key e clk c ty st a t v
  by_table read_hit init key e clk c ty st g f a t v =
      ReadTransfer.read_hit_init-Advances contract key e clk c ty st a t v
  by_table read_hit pending_read_dram key e clk c ty st g f a t v =
      ReadTransfer.read_hit_pending_read_dram-Advances contract key e clk c ty st a t v
  by_table _ _ key e clk c ty st g f a t v = cc

  -- A state transfer of an entry whose state is one that its request goes through and not the end, by the
  -- horizon, into a next level in a good state that accepts requests, with room in the local memory queue
  -- and a threshold of wear leveling that is not 0, returns normally, keeps the entry's request, and
  -- leaves exactly one transfer less until the end.
  pub ait_transfer-Advances :
      (key : ℕ) (e : BufferEntry) (clk : ℕ) (c : Core N M)
      → goes_through e.pending_request.type e.state ≡ true
      → is_end e.state ≡ false
      → Accepting contract
      → clk ≤ horizon
      → CoreReady contract c
      → Returns (Advances e) (transfer_entry next key e clk c)
  unfolding transfer_entry
  ait_transfer-Advances key e clk c g f a t v =
      by_table e.pending_request.type e.state key e clk c refl refl g f a t v

-- The transfers that ask the component below.
abbrev pub asks_next_level : RequestType → RequestState → Bool
asks_next_level write_miss init = true
asks_next_level read_miss init = true
asks_next_level write_miss pending_migration = true
asks_next_level write_hit pending_migration = true
asks_next_level _ _ = false

module _ {N : Type 0} (next : NextLevel N) where
  -- The component below issues none of the requests that it is given.
  abbrev pub Refusing : Type 0
  Refusing =
      (i : ℕ) (req : BaseRequest) (s : N)
      → Returns (λ p. p.0.issued ≡ false) (next.issue_request i req s)

module _ {N M : Type 0} (next : NextLevel N) where
  issue_next_level-refused :
      (type : BaseRequestType) (block_addr : ℕ) (e : BufferEntry) (clk : ℕ) (c : Core N M)
      → Refusing next
      → (p : BaseResponse × Core N M) × (issue_next_level next type block_addr e clk c ≡ ok p)
        × (p.0.issued ≡ false)
  unfolding issue_next_level
  issue_next_level-refused type block_addr e clk c r =
      Returns-eq (Returns-bind (r _ _ c.next_level_components) (λ p h. returns h))

  refused_by_table :
      (ty : RequestType) (st : RequestState) (key : ℕ) (e : BufferEntry) (clk : ℕ) (c : Core N M)
      → asks_next_level ty st ≡ true
      → Refusing next
      → (elim (state_trans next ty st) [
        | none ↦ err unknown_state_transfer
        | some func ↦ func key e clk c
      ])
        ≡ err counter_missing
  unfolding state_trans write_miss_init write_miss_pending_migration write_hit_pending_migration
      read_miss_init count_next_level_issue_fail count_named at_name event_names event_name
  refused_by_table write_miss init key e clk c h r =
      let (p, eq, no') = issue_next_level-refused read key e clk c r in ground arith
  refused_by_table read_miss init key e clk c h r =
      let (p, eq, no') = issue_next_level-refused read key e clk c r in ground arith
  refused_by_table write_miss pending_migration key e clk c h r =
      let (p, eq, no') = issue_next_level-refused write key e clk c r in ground arith
  refused_by_table write_hit pending_migration key e clk c h r =
      let (p, eq, no') = issue_next_level-refused write key e clk c r in ground arith
  refused_by_table _ _ key e clk c h r = cc

  -- Over components that refuse each request, a state transfer that asks the component below throws: the
  -- counter that it counts the refusal with is not among the AIT's counters.
  pub refused_transfer-throws :
      (key : ℕ) (e : BufferEntry) (clk : ℕ) (c : Core N M)
      → asks_next_level e.pending_request.type e.state ≡ true
      → Refusing next
      → transfer_entry next key e clk c ≡ err counter_missing
  unfolding transfer_entry
  refused_transfer-throws key e clk c h r =
      refused_by_table e.pending_request.type e.state key e clk c h r
