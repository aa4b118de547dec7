-- ===== src/Rmw/Transfer/Read.antt =====
-- src/general/rmw.cpp, `init_state_trans_table`: the state transfers of the reads.
-- A transfer whose request is not issued leaves the entry as it is.
use vans.Base.{ℕ, true, false, not, some, if◌then◌else◌, length, ◌==◌, Result, ok, ◌>>=◌}
use vans.Base.Bits.{add64}
use vans.Common.{read, rmw_next_level_read}
use vans.NextLevel.{NextLevel}
use vans.RequestQueue
use vans.Rmw.Entry.{BufferEntry, RequestState}
use vans.Rmw.Controller.{
  Core, Event, Duration, count, count_duration, issue_local_memory, issue_next_level, issue_roq,
}
use vans.Rmw.Controller.{next_action}

module _ {N : Type 0} (next : NextLevel N) where
  unfoldable pub read_cold_init : ℕ → BufferEntry → ℕ → Core N → Result (BufferEntry × Core N)
  read_cold_init block_addr entry curr_clk c =
      issue_next_level next read (some rmw_next_level_read) block_addr entry curr_clk c
      >>= λ (r, c'). ok (
          if r.issued
          then (
            record entry {
              state = RequestState.pending_ait_r;
              pending = true;
              dirty = false;
              valid_to_read = false;
              last_used_clk = curr_clk;
              waiting_action_clk_update = not r.deterministic;
              next_action_clk = next_action r;
            },
            count Event.read_cold c',
          )
          else (entry, count Event.next_level_issue_fail c'))

  unfoldable pub read_cold_pending_ait_r :
      ℕ → BufferEntry → ℕ → Core N → Result (BufferEntry × Core N)
  read_cold_pending_ait_r block_addr entry curr_clk c = ok (
    record entry {
      state = RequestState.pending_read;
      last_used_clk = curr_clk;
      next_action_clk = add64 curr_clk c.timing.ait_to_rmw_latency;
    },
    count_duration Duration.r_cold_par curr_clk entry c,
  )

  unfoldable pub read_cold_pending_read :
      ℕ → BufferEntry → ℕ → Core N → Result (BufferEntry × Core N)
  read_cold_pending_read block_addr entry curr_clk c =
      issue_local_memory read entry curr_clk c >>= λ (r, c'). ok (
        if r.issued
        then (
          record entry {
            state = RequestState.pending_readout;
            valid_to_read = true;
            last_used_clk = curr_clk;
            waiting_action_clk_update = not r.deterministic;
            next_action_clk = next_action r;
          },
          count_duration Duration.r_cold_pr curr_clk entry c',
        )
        else (entry, count Event.local_memory_issue_fail c'))

  unfoldable pub read_cold_pending_readout :
      ℕ → BufferEntry → ℕ → Core N → Result (BufferEntry × Core N)
  read_cold_pending_readout block_addr entry curr_clk c = RequestQueue.full c.roq >>= λ is_full.
      if is_full
      then ok (entry, count Event.roq_full c)
      else (issue_roq entry c >>= λ (e, c'). ok (
        if length e.pending_request_cl_index == 0
            then record e { last_used_clk = curr_clk; state = RequestState.end; pending = false }
            else record e { last_used_clk = curr_clk; state = RequestState.pending_read },
        count_duration Duration.r_cold_pro curr_clk e c',
      ))

  unfoldable pub read_ff_init : ℕ → BufferEntry → ℕ → Core N → Result (BufferEntry × Core N)
  read_ff_init block_addr entry curr_clk c = issue_local_memory read entry curr_clk c >>= λ (r, c').
      ok (
        if r.issued
        then (
          record entry {
            state = RequestState.pending_readout;
            pending = true;
            dirty = false;
            valid_to_read = true;
            last_used_clk = curr_clk;
            waiting_action_clk_update = not r.deterministic;
            next_action_clk = next_action r;
          },
          count Event.read_fast_forward c',
        )
        else (entry, count Event.local_memory_issue_fail c'))

  unfoldable pub read_ff_pending_readout :
      ℕ → BufferEntry → ℕ → Core N → Result (BufferEntry × Core N)
  read_ff_pending_readout block_addr entry curr_clk c = RequestQueue.full c.roq >>= λ is_full.
      if is_full
      then ok (entry, count Event.roq_full c)
      else (issue_roq entry c >>= λ (e, c'). ok (
        if length e.pending_request_cl_index == 0
            then record e { last_used_clk = curr_clk; state = RequestState.end; pending = false }
            else record e { last_used_clk = curr_clk; state = RequestState.init },
        count_duration Duration.r_ff_pro curr_clk e c',
      ))
