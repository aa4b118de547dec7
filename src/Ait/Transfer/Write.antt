-- ===== src/Ait/Transfer/Write.antt =====
-- src/general/ait.cpp, `init_state_trans_table`: the state transfers of the writes.
use vans.Base.{ℕ, true, false, not, if◌then◌else◌, ◌==◌, Result, ok, ◌>>=◌}
use vans.Base.Bits.{add64}
use vans.Common.{read, write}
use vans.NextLevel.{NextLevel}
use vans.Ait.Entry.{BufferEntry, RequestState, check_wear_leveling}
use vans.Ait.Controller.{
  Core, Event, Duration, count, count_duration, count_next_level_issue_fail, issue_lmemq,
  issue_next_level, next_action, run_callback,
}

module _ {N M : Type 0} (next : NextLevel N) where
  unfoldable pub write_miss_init : ℕ → BufferEntry → ℕ → Core N M → Result (BufferEntry × Core N M)
  write_miss_init block_addr entry curr_clk c =
      issue_next_level next read block_addr entry curr_clk c >>= λ (r, c'). elim r.issued [
        | false ↦ count_next_level_issue_fail entry c'
        | true ↦ ok (
          record entry {
            state = RequestState.pending_read_media;
            pending = true;
            dirty = true;
            valid_to_read = false;
            last_used_clk = curr_clk;
            waiting_action_clk_update = not r.deterministic;
            next_action_clk = next_action r;
          },
          count Event.write_miss c',
        )
      ]

  unfoldable pub write_miss_pending_read_media :
      ℕ → BufferEntry → ℕ → Core N M → Result (BufferEntry × Core N M)
  write_miss_pending_read_media block_addr entry curr_clk c =
      issue_lmemq entry write curr_clk c >>= λ (r, c'). elim r.issued [
        | false ↦ ok (entry, count Event.local_memory_issue_fail c')
        | true ↦ ok (
          record entry {
            state = RequestState.pending_write_dram;
            last_used_clk = curr_clk;
            waiting_action_clk_update = not r.deterministic;
            next_action_clk = next_action r;
          },
          count_duration Duration.w_miss_prm curr_clk entry c',
        )
      ]

  unfoldable pub write_miss_pending_write_dram :
      ℕ → BufferEntry → ℕ → Core N M → Result (BufferEntry × Core N M)
  write_miss_pending_write_dram block_addr entry curr_clk c =
      check_wear_leveling block_addr c.table >>= λ wear_leveling_delay.
      let c' = count_duration Duration.w_miss_pwd curr_clk entry c in
      ok (
        record entry {
          state = RequestState.pending_migration;
          valid_to_read = true;
          last_used_clk = curr_clk;
          waiting_action_clk_update = false;
          next_action_clk = add64 (add64 curr_clk 1) wear_leveling_delay;
        },
        if wear_leveling_delay == 0 then c' else count Event.migration c',
      )

  unfoldable pub write_miss_pending_migration :
      ℕ → BufferEntry → ℕ → Core N M → Result (BufferEntry × Core N M)
  write_miss_pending_migration block_addr entry curr_clk c =
      issue_next_level next write block_addr entry curr_clk c >>= λ (r, c'). elim r.issued [
        | false ↦ count_next_level_issue_fail entry c'
        | true ↦ ok (
          record entry {
            state = RequestState.pending_write_media;
            last_used_clk = curr_clk;
            waiting_action_clk_update = not r.deterministic;
            next_action_clk = next_action r;
          },
          count_duration Duration.w_miss_pm curr_clk entry c',
        )
      ]

  unfoldable pub write_miss_pending_write_media :
      ℕ → BufferEntry → ℕ → Core N M → Result (BufferEntry × Core N M)
  write_miss_pending_write_media block_addr entry curr_clk c = ok (
    record entry {
      state = RequestState.end;
      pending = false;
      dirty = false;
      last_used_clk = curr_clk;
    },
    run_callback entry curr_clk (count_duration Duration.w_miss_pwm curr_clk entry c),
  )

  unfoldable pub write_hit_init : ℕ → BufferEntry → ℕ → Core N M → Result (BufferEntry × Core N M)
  write_hit_init block_addr entry curr_clk c = issue_lmemq entry write curr_clk c >>= λ (r, c').
      elim r.issued [
        | false ↦ ok (entry, count Event.local_memory_issue_fail c')
        | true ↦ ok (
          record entry {
            state = RequestState.pending_write_dram;
            pending = true;
            dirty = true;
            valid_to_read = false;
            last_used_clk = curr_clk;
            waiting_action_clk_update = not r.deterministic;
            next_action_clk = next_action r;
          },
          count Event.write_hit c',
        )
      ]

  unfoldable pub write_hit_pending_write_dram :
      ℕ → BufferEntry → ℕ → Core N M → Result (BufferEntry × Core N M)
  write_hit_pending_write_dram block_addr entry curr_clk c =
      check_wear_leveling block_addr c.table >>= λ wear_leveling_delay.
      let c' = count_duration Duration.w_hit_pwd curr_clk entry c in
      ok (
        record entry {
          state = RequestState.pending_migration;
          valid_to_read = true;
          last_used_clk = curr_clk;
          waiting_action_clk_update = false;
          next_action_clk = add64 (add64 curr_clk 1) wear_leveling_delay;
        },
        if wear_leveling_delay == 0 then c' else count Event.migration c',
      )

  unfoldable pub write_hit_pending_migration :
      ℕ → BufferEntry → ℕ → Core N M → Result (BufferEntry × Core N M)
  write_hit_pending_migration block_addr entry curr_clk c =
      issue_next_level next write block_addr entry curr_clk c >>= λ (r, c'). elim r.issued [
        | false ↦ count_next_level_issue_fail entry c'
        | true ↦ ok (
          record entry {
            state = RequestState.pending_write_media;
            last_used_clk = curr_clk;
            waiting_action_clk_update = not r.deterministic;
            next_action_clk = next_action r;
          },
          count_duration Duration.w_hit_pm curr_clk entry c',
        )
      ]

  unfoldable pub write_hit_pending_write_media :
      ℕ → BufferEntry → ℕ → Core N M → Result (BufferEntry × Core N M)
  write_hit_pending_write_media block_addr entry curr_clk c = ok (
    record entry {
      state = RequestState.end;
      pending = false;
      dirty = false;
      last_used_clk = curr_clk;
    },
    run_callback entry curr_clk (count_duration Duration.w_hit_pwm curr_clk entry c),
  )
