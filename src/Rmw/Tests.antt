-- ===== src/Rmw/Tests.antt =====
-- src/general/rmw.h: a small RMW buffer over one memory, and states of it.
use vans.Base.{
  ℕ, ◌+◌, ◌<◌, ◌≡◌, refl, true, false, List, [], ◌∷◌, none, some, arith, ◌++◌, ◌||◌, Returns,
  returns, Returns-bind,
}
use vans.Common.{BaseRequest, base_request, read, write, client, clk_invalid}
use vans.RequestQueue
use vans.RequestQueue.{RequestQueue}
use vans.Buffer.{Buffer}
use vans.Mapping.{none_mapping}
use vans.StaticMemory.{StaticMedia}
use vans.NextLevel.Static.{static_level, static_contract, IsQuick}
use vans.Rmw.Entry.{BufferEntry}
use vans.Rmw.Controller.{RmwController}
use vans.Rmw.Tick.{tick, issue_request}
use vans.Rmw.Safety.{CoreOk}
use vans.Rmw.Safety.Evict.{RmwOk}
use vans.Base.{replicate, get_or}
use vans.Common.Address.Rmw.{translate_to_block_addr}
use vans.StaticMemory.{issue_request-deterministic}
use vans.Buffer.{lookup}
use vans.Rmw.Entry.{buffer_entry, write_rmw, read_cold, RequestState, is_end}
use vans.Rmw.Combine.{combine_writes}
use vans.Rmw.Combine.Laws.{
  combine_writes-queue, combine_writes-hit, other_blocks, before_read, from_read, hits_line,
}
use vans.Rmw.Lsq.{check_and_evict, tick_lsq_read}
use vans.Rmw.Tick.{transfer_entry}
use vans.Rmw.Safety.{EntryOk}
use vans.Rmw.Safety.Evict.{BufferOk, Evicts, check_and_evict-Evicts}
use vans.Rmw.Safety.LsqWrite.{new_write-EntryOk}
use vans.Rmw.Safety.Tick.{tick-RmwOk}
use vans.Rmw.Progress.{Accepting, Advances}
use vans.Rmw.Progress.Transfer.{transfer_entry-Advances}
use vans.Rmw.Patch.{Patched, second_read-Patched}
use vans.Rmw.Run.{fresh-RmwOk, IsFresh, start, next_step, Step, issued, Reachable-tick}

abbrev horizon : ℕ
horizon = 1000000

abbrev media : StaticMedia
media = record { read_latency = 100; write_latency = 300 }

abbrev fresh : RmwController StaticMedia
fresh = record {
  core = record {
    timing = record {
      readout_latency = 0;
      modify_latency = 0;
      ait_to_rmw_latency = 5;
      rmw_to_ait_latency = 5;
      wpq_ff_latency = 0;
    };
    mapping_func = none_mapping;
    local_memory_model = record { read_latency = 3; write_latency = 3 };
    next_level_components = media;
    roq = record { queue = []; max_entries = 4 };
    start_addr = 0;
    evicting = false;
    cnt_events = λ _. 0;
    cnt_duration = λ _. 0;
    calls = [];
  };
  buffer = record { entry_map = []; max_entries = 2; next_available_index = 0 };
  lsq = record { queue = []; max_entries = 8 };
}

media-IsQuick : IsQuick horizon media
media-IsQuick = record { read_fits = omega arith; write_fits = omega arith }

fresh-CoreOk : CoreOk (static_contract horizon) fresh.core
unfolding static_contract
fresh-CoreOk = record {
  good = media-IsQuick;
  roq_bounded = omega arith;
  next_fits = omega arith;
  ait_to_rmw_fits = omega arith;
  rmw_to_ait_fits = omega arith;
  read_fits = omega arith;
  write_fits = omega arith;
}

fresh-IsFresh : IsFresh fresh
fresh-IsFresh = record {
  no_entries = refl;
  first_index = refl;
  lsq_empty = refl;
  roq_empty = refl;
  small = omega arith;
}

abbrev a_read : BaseRequest
a_read = base_request read 0x1040 1 (some (client 7))

abbrev issued_read : RmwController StaticMedia
issued_read = record fresh { lsq = record { queue = a_read ∷ []; max_entries = 8 } }

issued-Step : Step static_level horizon fresh issued_read
unfolding issue_request RequestQueue.enqueue
issued-Step = issued a_read _ refl

Reachable-tick_example : Returns (RmwOk (static_contract horizon)) (tick static_level 2 issued_read)
Reachable-tick_example =
    Reachable-tick (static_contract horizon) fresh issued_read 2 fresh-IsFresh fresh-CoreOk
      (next_step start issued-Step) (omega arith)

tick-RmwOk_example : Returns (RmwOk (static_contract horizon)) (tick static_level 5 fresh)
tick-RmwOk_example =
    tick-RmwOk (static_contract horizon) 5 fresh (omega arith)
      (fresh-RmwOk (static_contract horizon) fresh fresh-IsFresh fresh-CoreOk)

static-Accepting : Accepting (static_contract horizon)
unfolding static_contract static_level
static-Accepting i req s v t =
    let r : req.arrive + s.read_latency < clk_invalid = let f = v.read_fits in omega arith in
    let w : req.arrive + s.write_latency < clk_invalid = let f = v.write_fits in omega arith in
    Returns-bind (issue_request-deterministic s req r w) (λ a h. returns h.0)

abbrev new_write : BufferEntry
new_write = buffer_entry 3 write_rmw 0x1040 2 0

new_write-pending : new_write.pending ≡ true
unfolding buffer_entry
new_write-pending = refl

new_write-not_end : is_end new_write.state ≡ false
unfolding buffer_entry
new_write-not_end = refl

transfer_entry-Advances_example :
    Returns
      (Advances new_write)
      (transfer_entry static_level (translate_to_block_addr 0x1040) new_write 4 fresh.core)
transfer_entry-Advances_example =
    transfer_entry-Advances (static_contract horizon) (translate_to_block_addr 0x1040) new_write 4
      fresh.core new_write-pending new_write-not_end static-Accepting (omega arith)
      (new_write-EntryOk 3 write_rmw 0x1040 2 0 refl) fresh-CoreOk (omega arith)

-- An entry that is done, and one with a pending read of line 1.
abbrev done_entry : BufferEntry
done_entry = record {
  last_used_clk = 9;
  next_action_clk = 9;
  buffer_index = 0;
  pending = false;
  waiting_action_clk_update = false;
  valid_to_read = true;
  dirty = false;
  cl_bitmap = replicate 4 true;
  callbacks = replicate 4 none;
  cb_bitmap = replicate 4 false;
  pending_request = record { type = write_rmw; logic_addr = 0x2000; arrive = 1 };
  state = RequestState.end;
  pending_request_cl_index = [];
}

abbrev reading_entry : BufferEntry
reading_entry = record done_entry {
  pending = true;
  next_action_clk = 20;
  valid_to_read = false;
  callbacks = none ∷ some (client 1) ∷ none ∷ none ∷ [];
  pending_request = record { type = read_cold; logic_addr = 0x1040; arrive = 1 };
  state = RequestState.pending_read;
  pending_request_cl_index = 1 ∷ [];
}

done-EntryOk : EntryOk 0x2000 done_entry
unfolding translate_to_block_addr
done-EntryOk = record {
  key_aligned = refl;
  in_block = refl;
  legal = refl;
  settled = λ h. refl;
  started = λ h. cc;
  timed = λ h. cc;
  reading = λ h. cc;
  idle = λ h. refl;
  few = omega arith;
  lines = tt;
  callbacks_size = refl;
  cb_clear = refl;
  cl_size = refl;
}

reading-EntryOk : EntryOk 0x1000 reading_entry
unfolding translate_to_block_addr
reading-EntryOk = record {
  key_aligned = refl;
  in_block = refl;
  legal = refl;
  settled = λ h. cc;
  started = λ h. refl;
  timed = λ h. omega arith;
  reading = λ h. omega arith;
  idle = λ h. cc;
  few = omega arith;
  lines = (omega arith, tt);
  callbacks_size = refl;
  cb_clear = refl;
  cl_size = refl;
}

abbrev two_entries : Buffer BufferEntry
two_entries = record {
  entry_map = (0x1000, reading_entry) ∷ (0x2000, done_entry) ∷ [];
  max_entries = 2;
  next_available_index = 2;
}

two_entries-BufferOk : BufferOk two_entries
unfolding lookup
two_entries-BufferOk = record {
  entries = (reading-EntryOk, (done-EntryOk, tt));
  distinct = (refl, (refl, tt));
  bounded = omega arith;
  index = refl;
  small = omega arith;
}

abbrev second_read : BaseRequest
second_read = base_request read 0x1040 5 (some (client 2))

abbrev busy : RmwController StaticMedia
busy = record {
  core = fresh.core;
  buffer = two_entries;
  lsq = record { queue = second_read ∷ []; max_entries = 8 };
}

busy-RmwOk : RmwOk (static_contract horizon) busy
busy-RmwOk = record {
  core_ok = fresh-CoreOk;
  buffer_ok = two_entries-BufferOk;
  lsq_ok = omega arith;
}

busy-lookup : lookup (translate_to_block_addr 0x1040) busy.buffer.entry_map ≡ some reading_entry
unfolding lookup translate_to_block_addr
busy-lookup = refl

check_and_evict-Evicts_example : Evicts busy (check_and_evict busy)
check_and_evict-Evicts_example = check_and_evict-Evicts busy two_entries-BufferOk

second_read-Patched_example :
    Returns (Patched second_read [] reading_entry) (tick_lsq_read second_read [] 6 busy)
second_read-Patched_example =
    second_read-Patched (static_contract horizon) second_read [] 6 reading_entry busy busy-RmwOk
      busy-lookup refl (omega arith)

abbrev writes : List BaseRequest
writes =
    base_request write 0x1000 1 none
    ∷ base_request write 0x5000 1 none
    ∷ base_request write 0x10c0 2 none
    ∷ base_request read 0x1040 3 none
    ∷ base_request write 0x1080 4 none
    ∷ []

combine_writes-queue_example :
    (combine_writes 0x1000 writes (replicate 4 false)).0
    ≡ other_blocks 0x1000 (before_read 0x1000 writes) ++ from_read 0x1000 writes
combine_writes-queue_example = combine_writes-queue 0x1000 writes (replicate 4 false)

combine_writes-hit_example :
    get_or (combine_writes 0x1000 writes (replicate 4 false)).1 3 false
    ≡ (get_or (replicate 4 false) 3 false || hits_line 0x1000 3 (before_read 0x1000 writes))
combine_writes-hit_example = combine_writes-hit 0x1000 writes (replicate 4 false) 3 (omega arith)
