-- ===== src/Dram/Tests/Scheduler.antt =====
-- src/general/dram_memory.h: requests and ticks of a controller over a new channel.
use vans.Base.{
  ◌⊎◌, refresh_refused, Returns-at, ◌≡◌, refl, true, false, [], ◌∷◌, Option, none, some, arith, ok,
  err, inl, Result, Returns, Partial,
}
use vans.Common.{Callback, client, BaseResponse, clk_invalid}
use vans.RequestQueue
use vans.RequestQueue.{RequestQueue, IsBounded}
use vans.Dram.Ddr4.{ReqType, rank, bank_group, bank}
use vans.Dram.Ddr4.Rules.{ddr4}
use vans.Dram.Node.{new_channel}
use vans.Dram.Path.{node_at}
use vans.Dram.Request.{DramRequest}
use vans.Dram.Schedule.{DramOk}
use vans.Dram.Schedule.Refresh.{HasRoom, NoRoom}
use vans.Dram.Schedule.Tick.{tick-DramOk}
use vans.Dram.Forward.{ReadIssued, issue_request-ReadIssued}
use vans.Dram.Pending.{FrontServed, tick-FrontServed, Ticks, start, next_tick, no_callback-blocks}
use vans.Dram.Issue.{new_controller-DramOk, issue_request-DramOk}
use vans.Dram.Memory
use vans.Dram.Memory.{DramMemory, dram_memory, new_controller}
use vans.Dram.Memory.Banks.{IsCount}
use vans.Dram.Mapping.{dram_mapping, map_addr}
use vans.Common.Power.{is_pwr_of_2, log2}
use vans.Dram.Memory.Run.{Reached, constructed, issued, WithinBounds, Ticked, Reached-serves}
use vans.Common.{BaseRequest, base_request, read}
use vans.Dram.Tests.Layout.{mapping}
use vans.Dram.Controller.{DramController, issue_request, tick, pending, refresh}
use vans.Dram.Tests.{timing, count, spec, addr}

abbrev a_read : DramRequest
a_read = record {
  is_first_cmd = true;
  logic_addr = 4096;
  mapped_addr = addr;
  type = ReqType.read;
  arrive = 0;
  depart = clk_invalid;
  callback = some (client 1);
}

abbrev empty : DramController
empty = new_controller spec 64 0 0

abbrev the_controller : Result (BaseResponse × DramController) → DramController
the_controller (ok (r, c)) = c
the_controller (err e) = empty

abbrev with_read : DramController
with_read = the_controller (issue_request a_read empty)

with_read-DramOk : DramOk with_read
unfolding new_controller issue_request new_channel node_at ddr4 RequestQueue.enqueue
with_read-DramOk =
    Returns-at
      (issue_request-DramOk a_read empty (new_controller-DramOk spec 64 0 0) (inl refl) (_, refl))
      refl

tick-DramOk_example :
    (HasRoom spec 5 with_read × Returns DramOk (tick spec 5 with_read))
    ⊎ (NoRoom spec 5 with_read × (tick spec 5 with_read ≡ err refresh_refused))
tick-DramOk_example = tick-DramOk spec 5 with_read with_read-DramOk

-- The misc queue that holds no request has no room for the refresh that is due.
no_queue_refused : tick spec 10400 (new_controller spec 0 0 0) ≡ err refresh_refused
unfolding tick new_controller new_channel ddr4 RequestQueue.enqueue RequestQueue.full refresh
no_queue_refused = refl

issue_request-ReadIssued_example : Returns (ReadIssued a_read empty) (issue_request a_read empty)
unfolding new_controller
issue_request-ReadIssued_example = issue_request-ReadIssued a_read empty refl (omega arith)

abbrev waiting : Option Callback → DramController
waiting cb = record empty {
  pending_queue = record a_read { depart = 9; callback = cb } ∷ a_read ∷ [];
}

tick-FrontServed_example :
    Partial
      (FrontServed 10
        (waiting (some (client 2)))
        (client 2)
        (record a_read { depart = 9; callback = some (client 2) })
        (a_read ∷ []))
      (tick spec 10 (waiting (some (client 2))))
tick-FrontServed_example =
    tick-FrontServed spec 10 (waiting (some (client 2))) (client 2)
      (record a_read { depart = 9; callback = some (client 2) }) (a_read ∷ []) refl refl

abbrev the_next : Result DramController → DramController
the_next (ok c) = c
the_next (err e) = empty

abbrev ticked : DramController
ticked = the_next (tick spec 10 (waiting none))

one_tick : Ticks spec (waiting none) ticked
unfolding tick new_controller ddr4 RequestQueue.size
one_tick = next_tick start 10 refl

no_callback-blocks_example : (pending ticked ≡ true) × (ticked.calls ≡ [])
unfolding new_controller
no_callback-blocks_example =
    no_callback-blocks spec (record a_read { depart = 9; callback = none }) (a_read ∷ []) refl refl
      one_tick

abbrev memory : DramMemory
memory = record { ddr = spec; mapper = mapping; ctrl = empty }

abbrev a_request : BaseRequest
a_request = base_request read 0x12345678 5 (some (client 3))

abbrev the_memory : Result (BaseResponse × DramMemory) → DramMemory
the_memory (ok (r, m)) = m
the_memory (err e) = memory

abbrev asked : DramMemory
asked = the_memory (Memory.issue_request a_request memory)

count-IsCount : IsCount (count rank) × IsCount (count bank_group) × IsCount (count bank)
count-IsCount = omega arith

memory-constructed : dram_memory timing count "RaBaBgRoCoCh" 64 0 0 ≡ ok memory
unfolding dram_memory dram_mapping new_controller is_pwr_of_2 log2 ddr4
memory-constructed = refl

asked-Reached : Reached timing count count-IsCount asked
unfolding Memory.issue_request issue_request new_controller RequestQueue.enqueue map_addr
asked-Reached =
    issued (constructed "RaBaBgRoCoCh" 64 0 0 memory-constructed) a_request
      (record { issued = true; deterministic = false; next_clk = clk_invalid }) refl

-- A refresh is due, and there is room for it.
Reached-serves_example :
    Returns (λ o. WithinBounds o.1) (Memory.issue_request a_request asked)
    × Ticked 10400 asked (Memory.tick 10400 asked)
Reached-serves_example = Reached-serves timing count count-IsCount a_request 10400 asked-Reached
