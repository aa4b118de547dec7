-- ===== src/Dram/Memory.antt =====
-- src/general/dram_memory.h, class `dram_memory`: the controller with its address mapping; and
-- src/general/ddr4_system.h, whose controller passes each call on to it.
pub mod Banks
pub mod Run
use Prim.Native.String.{String}
use vans.Base.{ℕ, Bool, false, not, ◌||◌, [], if◌then◌else◌, Result, ok, err, ◌>>=◌, config_error}
use vans.Common.{BaseRequest, BaseResponse}
use vans.Common.Power.{is_pwr_of_2}
use vans.RequestQueue.{RequestQueue}
use vans.Dram.Ddr4.{Level, channel, rank, Timing, Ddr4}
use vans.Dram.Ddr4.Rules.{ddr4}
use vans.Dram.Node.{new_channel}
use vans.Dram.Request.{DramRequest, of_base_request}
use vans.Dram.Controller
use vans.Dram.Controller.{DramController}
use vans.Dram.Mapping.{DramMapping, dram_mapping, map_addr}

pub record DramMemory : Type 0 where
  pub ddr : Ddr4
  pub mapper : DramMapping
  pub ctrl : DramController

unfoldable pub new_queue : ℕ → RequestQueue DramRequest
new_queue queue_size = record { queue = []; max_entries = queue_size }

-- The constructor of `dram_media_controller`.
unfoldable pub new_controller : Ddr4 → ℕ → ℕ → ℕ → DramController
unfolding new_channel new_queue
new_controller spec queue_size report_epoch start_addr = record {
  channel = new_channel spec;
  act_queue = new_queue queue_size;
  misc_queue = new_queue queue_size;
  read_queue = new_queue queue_size;
  write_queue = new_queue queue_size;
  pending_queue = [];
  last_refreshed_clk = 0;
  write_prior_mode = false;
  curr_clk = 0;
  report_epoch = report_epoch;
  report_cnt = 0;
  start_addr = start_addr;
  calls = [];
}

-- The constructor, from the values of the configuration.
unfoldable pub dram_memory : Timing → (Level → ℕ) → String → ℕ → ℕ → ℕ → Result DramMemory
unfolding ddr4 dram_mapping new_controller
dram_memory t count mapping_func queue_size report_epoch start_addr =
    dram_mapping count mapping_func >>= λ mapper.
    if not (is_pwr_of_2 (count channel)) || not (is_pwr_of_2 (count rank))
    then err config_error
    else ok (record {
      ddr = ddr4 t count;
      mapper = mapper;
      ctrl = new_controller (ddr4 t count) queue_size report_epoch start_addr;
    })

unfoldable pub issue_request : BaseRequest → DramMemory → Result (BaseResponse × DramMemory)
issue_request req m =
    let inner_req = record (of_base_request req) { mapped_addr = map_addr m.mapper req.addr } in
    Controller.issue_request inner_req m.ctrl >>= λ (response, ctrl).
    ok (response, record m { ctrl = ctrl })

unfoldable pub tick : ℕ → DramMemory → Result DramMemory
tick curr_clk m = Controller.tick m.ddr curr_clk m.ctrl >>= λ ctrl. ok (record m { ctrl = ctrl })

unfoldable pub full : DramMemory → Result Bool
full m = Controller.full m.ctrl

unfoldable pub pending : DramMemory → Bool
pending m = Controller.pending m.ctrl

-- `drain` of the media controller is empty.
unfoldable pub drain : DramMemory → DramMemory
drain m = m
