-- ===== src/Imc/Tests.antt =====
-- src/general/imc.h: a small memory controller over one memory, and over two that are full.
use vans.Base.{
  ◌++◌, ℕ, ◌+◌, ◌<◌, ◌≡◌, refl, true, false, [], ◌∷◌, none, some, arith, ok, ◌>>=◌, Returns,
  returns, Returns-bind,
}
use vans.Common.{BaseRequest, base_request, read, write, client, clk_invalid}
use vans.Mapping.{none_mapping, stride_mapping_4096, map_stride_4096}
use vans.StaticMemory.{StaticMedia, issue_request-deterministic}
use vans.NextLevel.{NextLevel}
use vans.NextLevel.Static.{static_level, static_contract, IsQuick}
use vans.RequestQueue
use vans.Imc.{
  issue_request, drain_current, tick_write, adr, queue_to_tick, ImcController, flush_wpq, tick,
  tick_read, pending_current,
}
use vans.Imc.Flush.{Open, Flushed, flush_wpq-Flushed}
use vans.Imc.Retry.{tick_read-remaps}
use vans.Imc.Tick.{ImcOk, tick-ImcOk}
use vans.Imc.Starve.{Steps, start, ticked, drained, written, writes-starve}

abbrev horizon : ℕ
horizon = 1000000

abbrev media : StaticMedia
media = record { read_latency = 100; write_latency = 300 }

static-Open : Open (static_contract horizon)
unfolding static_contract static_level
static-Open i req s v t free =
    let r : req.arrive + s.read_latency < clk_invalid = let f = v.read_fits in omega arith in
    let w : req.arrive + s.write_latency < clk_invalid = let f = v.write_fits in omega arith in
    Returns-bind (issue_request-deterministic s req r w) (λ a h. returns h.0)

abbrev two_writes : ImcController StaticMedia
two_writes = record {
  wpq = record {
    queue = base_request write 0x40 2 (some (client 1)) ∷ base_request write 0x80 3 none ∷ [];
    max_entries = 4;
  };
  rpq = record { queue = []; max_entries = 4 };
  imc_curr_clk = 5;
  adr_epoch = 0;
  mapping_func = none_mapping;
  next_level_components = media;
  calls = [];
}

two_writes-good : IsQuick horizon media
two_writes-good = record { read_fits = omega arith; write_fits = omega arith }

flush_wpq-Flushed_example :
    Returns (Flushed (static_contract horizon) two_writes) (flush_wpq static_level 3 two_writes)
unfolding static_contract
flush_wpq-Flushed_example =
    flush_wpq-Flushed (static_contract horizon) 3 two_writes static-Open two_writes-good
      (omega arith, (omega arith, tt)) (omega arith)

two_writes-ImcOk : ImcOk (static_contract horizon) 5 two_writes
unfolding static_contract
two_writes-ImcOk = record {
  reads_bounded = omega arith;
  writes_bounded = omega arith;
  reads_timely = tt;
  writes_timely = (omega arith, (omega arith, tt));
  good = two_writes-good;
  enough = omega arith;
}

tick-ImcOk_example : Returns (ImcOk (static_contract horizon) 5) (tick static_level 5 6 two_writes)
tick-ImcOk_example =
    tick-ImcOk (static_contract horizon) 5 6 two_writes static-Open two_writes-ImcOk

abbrev later : ImcController StaticMedia
later = record two_writes { imc_curr_clk = 7 }

abbrev a_write : BaseRequest
a_write = base_request write 0x9000 7 none

abbrev waits : ImcController StaticMedia
waits = record later { wpq = record (later.wpq) { queue = later.wpq.queue ++ a_write ∷ [] } }

starving : Steps static_level two_writes (a_write ∷ []) waits
unfolding drain_current issue_request RequestQueue.enqueue RequestQueue.full tick tick_write adr
    RequestQueue.empty queue_to_tick
starving =
    written (drained (ticked start 5 7 refl)) a_write
      (record { issued = true; deterministic = false; next_clk = clk_invalid }) (omega arith) refl

writes-starve_example :
    (waits.next_level_components ≡ two_writes.next_level_components)
    × (waits.calls ≡ two_writes.calls)
    × (waits.wpq.queue ≡ two_writes.wpq.queue ++ a_write ∷ [])
    × (pending_current waits ≡ true)
writes-starve_example = writes-starve static_level refl refl (omega arith) (omega arith) starving

-- Two components that are full.
abbrev full_level : NextLevel (Unit {0})
full_level = record {
  count = 2;
  issue_request =
      λ i req s. ok (record { issued = false; deterministic = false; next_clk = clk_invalid }, s);
  full = λ i s. true;
}

abbrev page_read : BaseRequest
page_read = base_request read 0x5040 1 none

abbrev one_read : ImcController (Unit {0})
one_read = record {
  wpq = record { queue = []; max_entries = 4 };
  rpq = record { queue = page_read ∷ []; max_entries = 4 };
  imc_curr_clk = 1;
  adr_epoch = 0;
  mapping_func = stride_mapping_4096;
  next_level_components = tt;
  calls = [];
}

tick_read-remaps_example :
    Returns
      (λ d.
        (req : BaseRequest) × (d.rpq.queue ≡ req ∷ [])
        × (req.addr < (map_stride_4096 page_read.addr 2).0))
      (tick_read full_level one_read >>= λ d. tick_read full_level d)
tick_read-remaps_example =
    tick_read-remaps full_level one_read page_read [] refl refl (omega arith) (omega arith)
      (omega arith) (λ i. refl)
