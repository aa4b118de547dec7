-- ===== src/Rmw/Transfer/Write.antt =====
-- src/general/rmw.cpp, `init_state_trans_table`: the state transfers of the writes.
-- A transfer whose request is not issued leaves the entry as it is.
use vans.Base.{ℕ, true, false, not, some, none, if◌then◌else◌, Result, ok, ◌>>=◌}
use vans.Base.Bits.{add64}
use vans.Common.{read, write, rmw_next_level_read}
use vans.NextLevel.{NextLevel}
use vans.Rmw.Entry.{BufferEntry, RequestState}
use vans.Rmw.Controller.{
  Core, Event, Duration, count, count_duration, issue_local_memory, issue_next_level,
}
use vans.Rmw.Controller.{next_action}

module _ {N : Type 0} (next : NextLevel N) where
  unfoldable pub write_rmw_init : ℕ → BufferEntry → ℕ → Core N → Result (BufferEntry × Core N)
  write_rmw_init block_addr entry curr_clk c =
      issue_next_level next read (some rmw_next_level_read) block_addr entry curr_clk c
      >>= λ (r, c'). ok (
          if r.issued
          then (
            record entry {
              pending = true;
              dirty = true;
              state = RequestState.pending_ait_r;
              valid_to_read = false;
              last_used_clk = curr_clk;
              waiting_action_clk_update = not r.deterministic;
              next_action_clk = next_action r;
            },
            count Event.write_rmw c',
          )
          else (entry, count Event.next_level_issue_fail c'))

  unfoldable pub write_rmw_pending_ait_r :
      ℕ → BufferEntry → ℕ → Core N → Result (BufferEntry × Core N)
  write_rmw_pending_ait_r block_addr entry curr_clk c = ok (
    record entry {
      state = RequestState.pending_read;
      last_used_clk = curr_clk;
      next_action_clk = add64 curr_clk c.timing.ait_to_rmw_latency;
    },
    count_duration Duration.w_rmw_par curr_clk entry c,
  )

  unfoldable pub write_rmw_pending_read :
      ℕ → BufferEntry → ℕ → Core N → Result (BufferEntry × Core N)
  write_rmw_pending_read block_addr entry curr_clk c =
      issue_local_memory write entry curr_clk c >>= λ (r, c'). ok (
        if r.issued
        then (
          record entry {
            state = RequestState.pending_ait_w;
            last_used_clk = curr_clk;
            waiting_action_clk_update = not r.deterministic;
            next_action_clk = next_action r;
          },
          count_duration Duration.w_rmw_pr curr_clk entry c',
        )
        else (entry, count Event.local_memory_issue_fail c'))

  unfoldable pub write_rmw_pending_ait_w :
      ℕ → BufferEntry → ℕ → Core N → Result (BufferEntry × Core N)
  write_rmw_pending_ait_w block_addr entry curr_clk c = ok (
    record entry {
      state = RequestState.pending_modify;
      last_used_clk = curr_clk;
      next_action_clk = add64 curr_clk c.timing.rmw_to_ait_latency;
    },
    count_duration Duration.w_rmw_paw curr_clk entry c,
  )

  unfoldable pub write_rmw_pending_modify :
      ℕ → BufferEntry → ℕ → Core N → Result (BufferEntry × Core N)
  write_rmw_pending_modify block_addr entry curr_clk c =
      issue_next_level next write none block_addr entry curr_clk c >>= λ (r, c'). ok (
        if r.issued
        then (
          record entry {
            state = RequestState.pending_write;
            last_used_clk = curr_clk;
            pending = true;
            valid_to_read = true;
            waiting_action_clk_update = false;
            next_action_clk = add64 curr_clk 1;
          },
          count_duration Duration.w_rmw_pm curr_clk entry c',
        )
        else (entry, count Event.next_level_issue_fail c'))

  unfoldable pub write_rmw_pending_write :
      ℕ → BufferEntry → ℕ → Core N → Result (BufferEntry × Core N)
  write_rmw_pending_write block_addr entry curr_clk c = ok (
    record entry {
      pending = false;
      dirty = false;
      state = RequestState.end;
      last_used_clk = curr_clk;
    },
    count_duration Duration.w_rmw_pw curr_clk entry c,
  )

  unfoldable pub write_comb_init : ℕ → BufferEntry → ℕ → Core N → Result (BufferEntry × Core N)
  write_comb_init block_addr entry curr_clk c =
      issue_local_memory write entry curr_clk c >>= λ (r, c'). ok (
        if r.issued
        then (
          record entry {
            state = RequestState.pending_ait_w;
            pending = true;
            dirty = true;
            valid_to_read = false;
            last_used_clk = curr_clk;
            waiting_action_clk_update = not r.deterministic;
            next_action_clk = next_action r;
          },
          count Event.write_comb c',
        )
        else (entry, count Event.local_memory_issue_fail c'))

  unfoldable pub write_comb_pending_ait_w :
      ℕ → BufferEntry → ℕ → Core N → Result (BufferEntry × Core N)
  write_comb_pending_ait_w block_addr entry curr_clk c = ok (
    record entry {
      state = RequestState.pending_modify;
      last_used_clk = curr_clk;
      next_action_clk = add64 curr_clk c.timing.rmw_to_ait_latency;
    },
    count_duration Duration.w_comb_paw curr_clk entry c,
  )

  unfoldable pub write_comb_pending_modify :
      ℕ → BufferEntry → ℕ → Core N → Result (BufferEntry × Core N)
  write_comb_pending_modify block_addr entry curr_clk c =
      issue_next_level next write none block_addr entry curr_clk c >>= λ (r, c'). ok (
        if r.issued
        then (
          record entry {
            state = RequestState.pending_write;
            last_used_clk = curr_clk;
            pending = true;
            valid_to_read = true;
            waiting_action_clk_update = false;
            next_action_clk = add64 curr_clk 1;
          },
          count_duration Duration.w_comb_pm curr_clk entry c',
        )
        else (entry, count Event.next_level_issue_fail c'))

  unfoldable pub write_comb_pending_write :
      ℕ → BufferEntry → ℕ → Core N → Result (BufferEntry × Core N)
  write_comb_pending_write block_addr entry curr_clk c = ok (
    record entry {
      state = RequestState.end;
      pending = false;
      dirty = false;
      last_used_clk = curr_clk;
    },
    count_duration Duration.w_comb_pw curr_clk entry c,
  )

  unfoldable pub write_patch_init : ℕ → BufferEntry → ℕ → Core N → Result (BufferEntry × Core N)
  write_patch_init block_addr entry curr_clk c =
      issue_local_memory write entry curr_clk c >>= λ (r, c'). ok (
        if r.issued
        then (
          record entry {
            state = RequestState.pending_ait_w;
            pending = true;
            dirty = true;
            valid_to_read = false;
            last_used_clk = curr_clk;
            waiting_action_clk_update = not r.deterministic;
            next_action_clk = next_action r;
          },
          count Event.write_patch c',
        )
        else (entry, count Event.local_memory_issue_fail c'))

  unfoldable pub write_patch_pending_ait_w :
      ℕ → BufferEntry → ℕ → Core N → Result (BufferEntry × Core N)
  write_patch_pending_ait_w block_addr entry curr_clk c = ok (
    record entry {
      state = RequestState.pending_modify;
      last_used_clk = curr_clk;
      next_action_clk = add64 curr_clk c.timing.rmw_to_ait_latency;
    },
    count_duration Duration.w_patch_paw curr_clk entry c,
  )

  unfoldable pub write_patch_pending_modify :
      ℕ → BufferEntry → ℕ → Core N → Result (BufferEntry × Core N)
  write_patch_pending_modify block_addr entry curr_clk c =
      issue_next_level next write none block_addr entry curr_clk c >>= λ (r, c'). ok (
        if r.issued
        then (
          record entry {
            state = RequestState.pending_write;
            last_used_clk = curr_clk;
            pending = true;
            valid_to_read = true;
            waiting_action_clk_update = false;
            next_action_clk = add64 curr_clk 1;
          },
          count_duration Duration.w_patch_pm curr_clk entry c',
        )
        else (entry, count Event.next_level_issue_fail c'))

  unfoldable pub write_patch_pending_write :
      ℕ → BufferEntry → ℕ → Core N → Result (BufferEntry × Core N)
  write_patch_pending_write block_addr entry curr_clk c = ok (
    record entry {
      state = RequestState.end;
      pending = false;
      dirty = false;
      last_used_clk = curr_clk;
    },
    count_duration Duration.w_patch_pw curr_clk entry c,
  )
