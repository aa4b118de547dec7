-- ===== src/System/Tests.antt =====
-- src/general/rmc.h: a request over six components of NV media.
use vans.Base.{refl, none, arith}
use vans.Common.{BaseRequest, base_request, read}
use vans.Mapping.{stride_mapping_4096}
use vans.NextLevel.{NextLevel}
use vans.StaticMemory.{StaticMedia}
use vans.System.{Rmc}
use vans.System.Dispatch.{Dispatched, rmc_issue_request-Dispatched}
use vans.NextLevel.Static.{static_level}

abbrev six_media : NextLevel StaticMedia
six_media = record (static_level) { count = 6 }

abbrev region : Rmc StaticMedia
region = record {
  mapping_func = stride_mapping_4096;
  start_addr = 0x100000;
  next_level_components = record { read_latency = 100; write_latency = 300 };
}

abbrev a_request : BaseRequest
a_request = base_request read 0x105040 10 none

rmc_issue_request-Dispatched_example : Dispatched six_media a_request region
rmc_issue_request-Dispatched_example =
    rmc_issue_request-Dispatched six_media a_request region refl (omega arith) (omega arith)
