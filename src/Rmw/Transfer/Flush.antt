-- ===== src/Rmw/Transfer/Flush.antt =====
-- src/general/rmw.cpp, `init_state_trans_table`: the state transfers of the flush of a dirty entry.
-- A transfer whose request is not issued leaves the entry as it is.
use vans.Base.{ℕ, true, false, none, if◌then◌else◌, Result, ok, ◌>>=◌}
use vans.Base.Bits.{add64}
use vans.Common.{write}
use vans.NextLevel.{NextLevel}
use vans.Rmw.Entry.{BufferEntry, RequestState}
use vans.Rmw.Controller.{Core, Event, Duration, count, count_duration, issue_next_level}

module _ {N : Type 0} (next : NextLevel N) where
  unfoldable pub flush_back_init : ℕ → BufferEntry → ℕ → Core N → Result (BufferEntry × Core N)
  flush_back_init block_addr entry curr_clk c =
      issue_next_level next write none block_addr entry curr_clk c >>= λ (r, c'). ok (
        if r.issued
        then (
          record entry {
            state = RequestState.pending_ait_w;
            last_used_clk = curr_clk;
            pending = true;
            dirty = true;
            waiting_action_clk_update = false;
            next_action_clk = add64 curr_clk 1;
          },
          count Event.flush_back c',
        )
        else (entry, count Event.next_level_issue_fail c'))

  unfoldable pub flush_back_pending_ait_w :
      ℕ → BufferEntry → ℕ → Core N → Result (BufferEntry × Core N)
  flush_back_pending_ait_w block_addr entry curr_clk c = ok (
    record entry {
      state = RequestState.pending_write;
      last_used_clk = curr_clk;
      next_action_clk = add64 curr_clk c.timing.rmw_to_ait_latency;
    },
    count_duration Duration.w_flush_paw curr_clk entry c,
  )

  unfoldable pub flush_back_pending_write :
      ℕ → BufferEntry → ℕ → Core N → Result (BufferEntry × Core N)
  flush_back_pending_write block_addr entry curr_clk c = ok (
    record entry {
      state = RequestState.end;
      pending = false;
      dirty = false;
      waiting_action_clk_update = false;
      last_used_clk = curr_clk;
    },
    record (count Event.eviction (count_duration Duration.w_flush_pw curr_clk entry c)) {
      evicting = false;
    },
  )
