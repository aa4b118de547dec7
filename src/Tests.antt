-- ===== src/Tests.antt =====
-- The shared components (src/general/utils.h, mapping.h, request_queue.h, static_memory.h) at
-- concrete inputs.
use vans.Common.Power.{is_pwr_of_2, is_pwr_of_2_iff}
use vans.Base.{refl, ok, ℕ, ◌↔◌, ◌^◌, ◌%◌, ◌<◌, ◌≤◌, ◌≡◌, true, [], ◌∷◌, none, arith, Returns}
use vans.Common.{write, BaseRequest, base_request, read}
use vans.Mapping.{map_stride_4096}
use vans.Mapping.Stride.{unmap, stride_mapping_roundtrip}
use vans.RequestQueue
use vans.RequestQueue.{RequestQueue, IsBounded}
use vans.RequestQueue.Bounds.{Enqueued, enqueue-Enqueued}
use vans.StaticMemory
use vans.StaticMemory.{StaticMedia}

abbrev two_numbers : RequestQueue ℕ
two_numbers = record { queue = 1 ∷ 2 ∷ []; max_entries = 3 }

enqueue-Enqueued_example :
    Returns
      (λ out. IsBounded out.1 × Enqueued 7 two_numbers out)
      (RequestQueue.enqueue 7 two_numbers)
enqueue-Enqueued_example = enqueue-Enqueued 7 two_numbers (omega arith)

stride_mapping_roundtrip_example :
    (unmap 6 (map_stride_4096 0x12345 6) ≡ 0x12345)
    × ((map_stride_4096 0x12345 6).0 % 4096 ≡ 0x12345 % 4096)
    × ((map_stride_4096 0x12345 6).0 ≤ 0x12345)
    × ((map_stride_4096 0x12345 6).1 < 6)
stride_mapping_roundtrip_example = stride_mapping_roundtrip 0x12345 6 (omega arith) (omega arith)

abbrev media : StaticMedia
media = record { read_latency = 100; write_latency = 300 }

abbrev a_read : BaseRequest
a_read = base_request read 0x40 7 none

read_served :
    StaticMemory.issue_request media a_read
    ≡ ok (record { issued = true; deterministic = true; next_clk = 107 })
unfolding StaticMemory.issue_request
read_served = refl

write_served :
    StaticMemory.issue_request media (base_request write 0x40 7 none)
    ≡ ok (record { issued = true; deterministic = true; next_clk = 307 })
unfolding StaticMemory.issue_request
write_served = refl

is_pwr_of_2_iff_example : (is_pwr_of_2 64 ≡ true) ↔ ((k : ℕ) × (64 ≡ 2 ^ k))
is_pwr_of_2_iff_example = is_pwr_of_2_iff 64
