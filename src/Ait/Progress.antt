-- ===== src/Ait/Progress.antt =====
-- src/general/ait.cpp, `init_state_trans_table`: how far an entry is from the state `end`, and the
-- requests that its transfers issue.
pub mod WriteTransfer
pub mod ReadTransfer
pub mod Transfer
pub mod Refusal
use vans.Base.Bits.{add64}
use vans.Base.{
  ℕ, ◌%◌, inl, inr, Bool-cases, ◌+◌, ◌<◌, ◌≤◌, ◌≡◌, ◌≢◌, refl, Bool, true, false, arith, length,
  ltb, ◌==◌, none, some, ok, err, counter_missing, Result, ◌>>=◌, Returns, returns, Returns-bind,
  if◌then◌else◌,
}
use vans.Common.{BaseRequest, BaseRequestType, base_request}
use vans.RequestQueue
use vans.RequestQueue.{RequestQueue}
use vans.NextLevel.{NextLevel, Contract}
use vans.Rmw.Progress.{Accepting}
use vans.Ait.Entry.{
  BufferEntry, RequestType, read_miss, read_hit, write_miss, write_hit, RequestState, init,
  pending_read_media, pending_write_media, pending_read_dram, pending_write_dram, pending_migration,
  end, IndirectionTable, check_wear_leveling,
}
use vans.Ait.Controller.{Core, issue_next_level, issue_lmemq}

-- The states that a request of each type goes through.
abbrev pub goes_through : RequestType → RequestState → Bool
goes_through _ init = true
goes_through _ end = true
goes_through read_miss pending_read_media = true
goes_through read_miss pending_read_dram = true
goes_through read_hit pending_read_dram = true
goes_through write_miss pending_read_media = true
goes_through write_miss pending_write_dram = true
goes_through write_miss pending_migration = true
goes_through write_miss pending_write_media = true
goes_through write_hit pending_write_dram = true
goes_through write_hit pending_migration = true
goes_through write_hit pending_write_media = true
goes_through _ _ = false

-- The transfers that are left.
abbrev pub steps_left : RequestType → RequestState → ℕ
steps_left _ end = 0
steps_left read_miss init = 3
steps_left read_miss pending_read_media = 2
steps_left read_miss _ = 1
steps_left read_hit init = 2
steps_left read_hit _ = 1
steps_left write_miss init = 5
steps_left write_miss pending_read_media = 4
steps_left _ init = 4
steps_left _ pending_write_dram = 3
steps_left _ pending_migration = 2
steps_left _ _ = 1

abbrev pub rank : BufferEntry → ℕ
rank e = steps_left e.pending_request.type e.state

module _ {N M : Type 0} where
  -- One step nearer to the end, with the same request.
  abbrev pub Advances : BufferEntry → BufferEntry × Core N M → Type 0
  Advances e p = (p.0.pending_request ≡ e.pending_request) × (rank p.0 + 1 ≡ rank e)

-- The check of wear leveling does not divide by 0.
pub check_wear_leveling-ok :
    (addr : ℕ) (t : IndirectionTable)
    → t.wear_leveling_threshold ≢ 0
    → Returns (λ delay. Unit {0}) (check_wear_leveling addr t)
unfolding check_wear_leveling
check_wear_leveling-ok addr t h =
    let off : (t.wear_leveling_threshold == 0) ≡ false = ground arith in
    rw off (elim (Bool-cases (add64 (t.write_cnt addr) 1 % t.wear_leveling_threshold == 0)) [
      | inl due ↦ rw due (returns tt)
      | inr early ↦ rw early (returns tt)
    ])

module _ {N M : Type 0} {next : NextLevel N} {horizon : ℕ} (contract : Contract next horizon) where
  -- The core takes what a transfer issues: the component below is in a good state, the local memory
  -- queue has room, and the wear leveling threshold is not 0.
  pub record CoreReady (c : Core N M) : Type 0 where
    pub good : contract.Good c.next_level_components
    pub room : length c.lmemq.queue < c.lmemq.max_entries
    pub threshold : c.table.wear_leveling_threshold ≢ 0

  pub issue_next_level-issued :
      (type : BaseRequestType) (block_addr : ℕ) (entry : BufferEntry) (curr_clk : ℕ) (c : Core N M)
      → Accepting contract
      → curr_clk ≤ horizon
      → CoreReady c
      → Returns (λ p. p.0.issued ≡ true) (issue_next_level next type block_addr entry curr_clk c)
  unfolding issue_next_level
  issue_next_level-issued type block_addr entry curr_clk c a t v =
      Returns-bind (a _ _ _ v.good t) (λ p h. returns h)

  pub issue_lmemq-issued :
      (type : BaseRequestType) (entry : BufferEntry) (curr_clk : ℕ) (c : Core N M)
      → CoreReady c
      → Returns (λ p. p.0.issued ≡ true) (issue_lmemq entry type curr_clk c)
  unfolding issue_lmemq RequestQueue.enqueue RequestQueue.full
  issue_lmemq-issued type entry curr_clk c v =
      let r = v.room in
      let fits : ltb c.lmemq.max_entries (length c.lmemq.queue) ≡ false = ground arith in
      let space : (length c.lmemq.queue == c.lmemq.max_entries) ≡ false = ground arith in
      rw (fits, space) (returns refl)
