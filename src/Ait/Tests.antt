-- ===== src/Ait/Tests.antt =====
-- src/general/ait.h: a small AIT over one memory, and over one that refuses.
use vans.Base.{
  inl, ℕ, ◌+◌, ◌<◌, refl, true, false, List, [], ◌∷◌, none, some, arith, ok, Returns, returns,
  Returns-bind, replicate,
}
use vans.Common.{BaseRequest, base_request, write, client, clk_invalid}
use vans.Ait.Subrequests.{state, AtWrite, Served, ticks, ticks-Served}
use vans.Common.Address.Ait.{translate_to_block_addr}
use vans.Mapping.{none_mapping}
use vans.Buffer.{lookup}
use vans.StaticMemory.{StaticMedia, issue_request-deterministic}
use vans.NextLevel.{NextLevel}
use vans.NextLevel.Static.{static_level, static_contract}
use vans.Rmw.Progress.{Accepting}
use vans.Ait.Entry.{BufferEntry, write_miss, read_hit, RequestState}
use vans.Ait.Controller.{Core, AitController}
use vans.Ait.Lsq.{check_and_evict, tick_lsq}
use vans.Ait.Accept.{AitOk}
use vans.Ait.Accept.Handlers.{tick_lsq-AitOk}
use vans.Ait.Tick.{transfer_entry, tick_internal_buffer}
use vans.Ait.Progress.{Advances, CoreReady}
use vans.Ait.Progress.Transfer.{ait_transfer-Advances}
use vans.Ait.Progress.Refusal.{Throws, refused_buffer-throws}
use vans.Ait.Evict.{KeysOk, AitEvicts, check_and_evict-AitEvicts}

abbrev horizon : ℕ
horizon = 1000000

abbrev core : Core StaticMedia (Unit {0})
core = record {
  mapping_func = none_mapping;
  next_level_components = record { read_latency = 100; write_latency = 300 };
  local_memory_model = tt;
  table = record {
    write_cnt = λ _. 0;
    wear_leveling_threshold = 1000;
    migration_block_entries = 16;
    migration_latency = 50;
  };
  lmemq = record { queue = []; max_entries = 4 };
  lmemq_state = record {
    subreq_cnt = 4;
    subreq_pending_index = none;
    subreq_served = replicate 4 false;
    pending_front = false;
  };
  evicting = false;
  cnt_events = λ _. 0;
  cnt_duration = λ _. 0;
  calls = [];
}

core-CoreReady : CoreReady (static_contract horizon) core
unfolding static_contract
core-CoreReady = record {
  good = record { read_fits = omega arith; write_fits = omega arith };
  room = omega arith;
  threshold = omega arith;
}

static-Accepting : Accepting (static_contract horizon)
unfolding static_contract static_level
static-Accepting i req s v t =
    let r : req.arrive + s.read_latency < clk_invalid = let f = v.read_fits in omega arith in
    let w : req.arrive + s.write_latency < clk_invalid = let f = v.write_fits in omega arith in
    Returns-bind (issue_request-deterministic s req r w) (λ a h. returns h.0)

abbrev moving_entry : BufferEntry
moving_entry = record {
  last_used_clk = 9;
  next_action_clk = 10;
  buffer_index = 0;
  pending = true;
  waiting_action_clk_update = false;
  valid_to_read = true;
  dirty = true;
  rmw_bitmap = replicate 16 false;
  cb = some (client 1);
  pending_request = record { type = write_miss; rmw_block_addr = 0x2100; arrive = 1 };
  state = RequestState.pending_migration;
}

abbrev done_entry : BufferEntry
done_entry = record moving_entry {
  pending = false;
  dirty = false;
  pending_request = record { type = read_hit; rmw_block_addr = 0x5000; arrive = 1 };
  state = RequestState.end;
}

ait_transfer-Advances_example :
    Returns (Advances moving_entry) (transfer_entry static_level 0x2000 moving_entry 12 core)
ait_transfer-Advances_example =
    ait_transfer-Advances (static_contract horizon) 0x2000 moving_entry 12 core refl refl
      static-Accepting (omega arith) core-CoreReady

abbrev refusing_level : NextLevel StaticMedia
refusing_level = record {
  count = 1;
  issue_request =
      λ i req s. ok (record { issued = false; deterministic = false; next_clk = clk_invalid }, s);
  full = λ i s. false;
}

abbrev two_entries : AitController StaticMedia (Unit {0})
two_entries = record {
  core = core;
  buffer = record {
    entry_map = (0x2000, moving_entry) ∷ (0x5000, done_entry) ∷ [];
    max_entries = 2;
    next_available_index = 2;
  };
  lsq = record { queue = []; max_entries = 4 };
}

refused_buffer-throws_example : Throws (tick_internal_buffer refusing_level 12 two_entries)
refused_buffer-throws_example =
    refused_buffer-throws refusing_level (λ i req s. returns refl) 12 0x2000 moving_entry
      two_entries (inl refl) refl

two_entries-KeysOk : KeysOk two_entries.buffer.entry_map
unfolding translate_to_block_addr lookup
two_entries-KeysOk = record { aligned = (refl, (refl, tt)); distinct = (refl, (refl, tt)) }

check_and_evict-AitEvicts_example : AitEvicts two_entries (check_and_evict two_entries)
check_and_evict-AitEvicts_example = check_and_evict-AitEvicts two_entries two_entries-KeysOk

abbrev block_write : BaseRequest
block_write = base_request write 0x2100 3 none

abbrev writing : AitController StaticMedia (List BaseRequest)
writing = record {
  core = record {
    mapping_func = none_mapping;
    next_level_components = record { read_latency = 100; write_latency = 300 };
    local_memory_model = [];
    table = core.table;
    lmemq = record { queue = block_write ∷ []; max_entries = 4 };
    lmemq_state = state none (replicate 4 false) false;
    evicting = false;
    cnt_events = λ _. 0;
    cnt_duration = λ _. 0;
    calls = [];
  };
  buffer = two_entries.buffer;
  lsq = two_entries.lsq;
}

writing-AtWrite : AtWrite block_write [] moving_entry writing
unfolding lookup translate_to_block_addr
writing-AtWrite = record { queue = refl; held = refl }

ticks-Served_example :
    Returns
      (Served block_write [] moving_entry writing 4 5 6 9 12)
      (ticks (4 ∷ 5 ∷ 6 ∷ 9 ∷ 12 ∷ []) writing)
ticks-Served_example =
    ticks-Served block_write [] moving_entry writing none 4 5 6 9 12 writing-AtWrite refl refl
      (omega arith) (omega arith)

abbrev waiting_write : AitController StaticMedia (Unit {0})
waiting_write = record two_entries {
  lsq = record { queue = base_request write 0x9100 20 none ∷ []; max_entries = 4 };
}

waiting_write-AitOk : AitOk waiting_write
waiting_write-AitOk = record {
  keys = two_entries-KeysOk;
  bounded = omega arith;
  index = refl;
  small = omega arith;
  lsq_ok = omega arith;
}

tick_lsq-AitOk_example : Returns AitOk (tick_lsq 21 waiting_write)
tick_lsq-AitOk_example = tick_lsq-AitOk 21 waiting_write waiting_write-AitOk
