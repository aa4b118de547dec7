-- ===== src/Rmw/Progress.antt =====
-- src/general/rmw.cpp, `init_state_trans_table`: how far an entry is from the state `end`.
pub mod WriteTransfer
pub mod ReadTransfer
pub mod Transfer
use vans.Base.{
  ℕ, zero, suc, ◌+◌, ◌-◌, ◌*◌, ◌<◌, ◌≤◌, ◌≡◌, refl, Bool, true, false, arith, List, length, none,
  Option, ok, ◌>>=◌, Returns, returns, Returns-bind,
}
use vans.Common.{BaseRequest, BaseRequestType, Callback, base_request}
use vans.StaticMemory.{issue_request-deterministic}
use vans.Common.{clk_invalid}
use vans.NextLevel.{NextLevel, Contract}
use vans.Rmw.Entry.{
  BufferEntry, RequestType, write_rmw, write_comb, write_patch, read_cold, read_ff, flush_back,
  RequestState, init, pending_read, pending_modify, pending_write, pending_readout, pending_ait_r,
  pending_ait_w, end,
}
use vans.Rmw.Controller.{Core, issue_next_level, issue_local_memory}
use vans.Rmw.Safety.{CoreOk}

-- The transfers that are left, with `lines` pending reads of the entry.
abbrev pub steps_left : RequestType → RequestState → ℕ → ℕ
steps_left _ end lines = 0
steps_left write_rmw init lines = 6
steps_left write_rmw pending_ait_r lines = 5
steps_left write_rmw pending_read lines = 4
steps_left write_rmw pending_ait_w lines = 3
steps_left write_rmw pending_modify lines = 2
steps_left write_rmw _ lines = 1
steps_left write_comb init lines = 4
steps_left write_comb pending_ait_w lines = 3
steps_left write_comb pending_modify lines = 2
steps_left write_comb _ lines = 1
steps_left write_patch init lines = 4
steps_left write_patch pending_ait_w lines = 3
steps_left write_patch pending_modify lines = 2
steps_left write_patch _ lines = 1
steps_left flush_back init lines = 3
steps_left flush_back pending_ait_w lines = 2
steps_left flush_back _ lines = 1
steps_left read_cold init lines = 2 * lines + 2
steps_left read_cold pending_ait_r lines = 2 * lines + 1
steps_left read_cold pending_read lines = 2 * lines
steps_left read_cold _ lines = 2 * lines - 1
steps_left read_ff init lines = 2 * lines
steps_left read_ff _ lines = 2 * lines - 1

abbrev pub rank : BufferEntry → ℕ
rank e = steps_left e.pending_request.type e.state (length e.pending_request_cl_index)

module _ {N : Type 0} where
  -- One step nearer to the end, with the same request.
  abbrev pub Advances : BufferEntry → BufferEntry × Core N → Type 0
  Advances e p = (p.0.pending_request ≡ e.pending_request) × (rank p.0 + 1 ≡ rank e)

module _ {N : Type 0} {next : NextLevel N} {horizon : ℕ} (contract : Contract next horizon) where
  -- The component below issues each request that it is given.
  abbrev pub Accepting : Type 0
  Accepting =
      (i : ℕ) (req : BaseRequest) (s : N)
      → contract.Good s
      → req.arrive ≤ horizon
      → Returns (λ p. p.0.issued ≡ true) (next.issue_request i req s)

  pub issue_next_level-issued :
      (type : BaseRequestType) (callback : Option Callback) (block_addr : ℕ) (entry : BufferEntry)
      (curr_clk : ℕ) (c : Core N)
      → Accepting
      → curr_clk ≤ horizon
      → CoreOk contract c
      → Returns
          (λ p. p.0.issued ≡ true)
          (issue_next_level next type callback block_addr entry curr_clk c)
  unfolding issue_next_level
  issue_next_level-issued type callback block_addr entry curr_clk c a t v =
      Returns-bind (a _ _ _ v.good t) (λ p h. returns h)

  pub issue_local_memory-issued :
      (type : BaseRequestType) (entry : BufferEntry) (curr_clk : ℕ) (c : Core N)
      → curr_clk ≤ horizon
      → CoreOk contract c
      → Returns (λ p. p.0.issued ≡ true) (issue_local_memory type entry curr_clk c)
  unfolding issue_local_memory
  issue_local_memory-issued type entry curr_clk c t v =
      let req = base_request type entry.pending_request.logic_addr curr_clk none in
      let read_fits : curr_clk + c.local_memory_model.read_latency < clk_invalid =
        let f = v.read_fits in omega arith in
      let write_fits : curr_clk + c.local_memory_model.write_latency < clk_invalid =
        let f = v.write_fits in omega arith in
      Returns-bind (issue_request-deterministic c.local_memory_model req read_fits write_fits)
        (λ r h. returns h.0)
