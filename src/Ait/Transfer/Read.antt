-- ===== src/Ait/Transfer/Read.antt =====
-- src/general/ait.cpp, `init_state_trans_table`: the state transfers of the reads.
use vans.Base.{ℕ, true, false, not, Result, ok, ◌>>=◌}
use vans.Common.{read}
use vans.NextLevel.{NextLevel}
use vans.Ait.Entry.{BufferEntry, RequestState}
use vans.Ait.Controller.{
  Core, Event, Duration, count, count_duration, count_next_level_issue_fail, issue_lmemq,
  issue_next_level, next_action, run_callback,
}

module _ {N M : Type 0} (next : NextLevel N) where
  unfoldable pub read_miss_init : ℕ → BufferEntry → ℕ → Core N M → Result (BufferEntry × Core N M)
  read_miss_init block_addr entry curr_clk c =
      issue_next_level next read block_addr entry curr_clk c >>= λ (r, c'). elim r.issued [
        | false ↦ count_next_level_issue_fail entry c'
        | true ↦ ok (
          record entry {
            state = RequestState.pending_read_media;
            pending = true;
            dirty = false;
            valid_to_read = false;
            last_used_clk = curr_clk;
            waiting_action_clk_update = not r.deterministic;
            next_action_clk = next_action r;
          },
          count Event.read_miss c',
        )
      ]

  unfoldable pub read_miss_pending_read_media :
      ℕ → BufferEntry → ℕ → Core N M → Result (BufferEntry × Core N M)
  read_miss_pending_read_media block_addr entry curr_clk c =
      issue_lmemq entry read curr_clk c >>= λ (r, c'). elim r.issued [
        | false ↦ ok (entry, count Event.local_memory_issue_fail c')
        | true ↦ ok (
          record entry {
            state = RequestState.pending_read_dram;
            valid_to_read = true;
            last_used_clk = curr_clk;
            waiting_action_clk_update = not r.deterministic;
            next_action_clk = next_action r;
          },
          count_duration Duration.r_miss_prm curr_clk entry c',
        )
      ]

  unfoldable pub read_miss_pending_read_dram :
      ℕ → BufferEntry → ℕ → Core N M → Result (BufferEntry × Core N M)
  read_miss_pending_read_dram block_addr entry curr_clk c = ok (
    record entry { state = RequestState.end; pending = false; last_used_clk = curr_clk },
    run_callback entry curr_clk (count_duration Duration.r_miss_prd curr_clk entry c),
  )

  unfoldable pub read_hit_init : ℕ → BufferEntry → ℕ → Core N M → Result (BufferEntry × Core N M)
  read_hit_init block_addr entry curr_clk c = issue_lmemq entry read curr_clk c >>= λ (r, c').
      elim r.issued [
        | false ↦ ok (entry, count Event.local_memory_issue_fail c')
        | true ↦ ok (
          record entry {
            state = RequestState.pending_read_dram;
            pending = true;
            valid_to_read = true;
            last_used_clk = curr_clk;
            waiting_action_clk_update = not r.deterministic;
            next_action_clk = next_action r;
          },
          count Event.read_hit c',
        )
      ]

  unfoldable pub read_hit_pending_read_dram :
      ℕ → BufferEntry → ℕ → Core N M → Result (BufferEntry × Core N M)
  read_hit_pending_read_dram block_addr entry curr_clk c = ok (
    record entry { state = RequestState.end; pending = false; last_used_clk = curr_clk },
    run_callback entry curr_clk (count_duration Duration.r_hit_prd curr_clk entry c),
  )
