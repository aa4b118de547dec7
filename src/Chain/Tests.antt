-- ===== src/Chain/Tests.antt =====
-- src/general/component.h: a small chain of a memory controller, an RMW buffer and an AIT.
use vans.Base.{ℕ, refl, false, [], ◌∷◌, none, some, replicate, arith, Returns}
use vans.Common.{base_request, read, write, client}
use vans.Mapping.{none_mapping}
use vans.RequestQueue.{IsBounded}
use vans.StaticMemory.{StaticMedia}
use vans.Rmw.Controller.{RmwController}
use vans.Rmw.Tick as RmwTick
use vans.Rmw.Safety.{CoreOk}
use vans.Rmw.Safety.Evict.{RmwOk}
use vans.Rmw.Run.{IsFresh, start, fresh-RmwOk}
use vans.Ait.Controller.{AitController}
use vans.Imc.{ImcController}
use vans.Imc
use vans.Imc.Tick.{ImcOk}
use vans.Chain.{
  ait_level, ait_contract, rmw_level, rmw_contract, chain_tick-ImcOk, chain_tick-RmwOk,
}

abbrev horizon : ℕ
horizon = 1000000

abbrev ait : AitController StaticMedia (Unit {0})
ait = record {
  core = record {
    mapping_func = none_mapping;
    next_level_components = record { read_latency = 100; write_latency = 300 };
    local_memory_model = tt;
    table = record {
      write_cnt = λ _. 0;
      wear_leveling_threshold = 1000;
      migration_block_entries = 16;
      migration_latency = 50;
    };
    lmemq = record { queue = []; max_entries = 4 };
    lmemq_state = record {
      subreq_cnt = 4;
      subreq_pending_index = none;
      subreq_served = replicate 4 false;
      pending_front = false;
    };
    evicting = false;
    cnt_events = λ _. 0;
    cnt_duration = λ _. 0;
    calls = [];
  };
  buffer = record { entry_map = []; max_entries = 2; next_available_index = 0 };
  lsq = record { queue = base_request write 0x1000 1 none ∷ []; max_entries = 4 };
}

abbrev rmw : RmwController (AitController StaticMedia (Unit {0}))
rmw = record {
  core = record {
    timing = record {
      readout_latency = 0;
      modify_latency = 0;
      ait_to_rmw_latency = 5;
      rmw_to_ait_latency = 5;
      wpq_ff_latency = 0;
    };
    mapping_func = none_mapping;
    local_memory_model = record { read_latency = 3; write_latency = 3 };
    next_level_components = ait;
    roq = record { queue = []; max_entries = 4 };
    start_addr = 0;
    evicting = false;
    cnt_events = λ _. 0;
    cnt_duration = λ _. 0;
    calls = [];
  };
  buffer = record { entry_map = []; max_entries = 2; next_available_index = 0 };
  lsq = record { queue = []; max_entries = 8 };
}

rmw-CoreOk : CoreOk (ait_contract horizon) rmw.core
unfolding ait_contract
rmw-CoreOk = record {
  good = omega arith;
  roq_bounded = omega arith;
  next_fits = omega arith;
  ait_to_rmw_fits = omega arith;
  rmw_to_ait_fits = omega arith;
  read_fits = omega arith;
  write_fits = omega arith;
}

rmw-IsFresh : IsFresh rmw
rmw-IsFresh = record {
  no_entries = refl;
  first_index = refl;
  lsq_empty = refl;
  roq_empty = refl;
  small = omega arith;
}

abbrev imc : ImcController (RmwController (AitController StaticMedia (Unit {0})))
imc = record {
  wpq = record { queue = base_request write 0x40 2 (some (client 1)) ∷ []; max_entries = 1 };
  rpq = record { queue = base_request read 0x1080 3 (some (client 2)) ∷ []; max_entries = 4 };
  imc_curr_clk = 5;
  adr_epoch = 0;
  mapping_func = none_mapping;
  next_level_components = rmw;
  calls = [];
}

imc-ImcOk : ImcOk (rmw_contract (ait_contract horizon)) 2 imc
unfolding rmw_contract
imc-ImcOk = record {
  reads_bounded = omega arith;
  writes_bounded = omega arith;
  reads_timely = (omega arith, tt);
  writes_timely = (omega arith, tt);
  good = fresh-RmwOk (ait_contract horizon) rmw rmw-IsFresh rmw-CoreOk;
  enough = omega arith;
}

chain_tick-ImcOk_example :
    Returns (ImcOk (rmw_contract (ait_contract horizon)) 2) (Imc.tick rmw_level 2 6 imc)
chain_tick-ImcOk_example = chain_tick-ImcOk (ait_contract horizon) 2 6 imc imc-ImcOk

chain_tick-RmwOk_example :
    Returns
      (λ e. RmwOk (ait_contract horizon) e × IsBounded e.next_level_components.lsq)
      (RmwTick.tick ait_level 7 rmw)
chain_tick-RmwOk_example =
    chain_tick-RmwOk horizon 7 rmw rmw rmw-IsFresh rmw-CoreOk start (omega arith)
