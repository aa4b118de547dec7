-- ===== src/StaticMemory.antt =====
-- src/general/static_memory.h: a memory with a fixed latency for each kind of access. It stands for
-- the RMW buffer's SRAM and, as src/general/nv_media.h, for the 3D-XPoint media below the AIT.
use vans.Base.{
  ℕ, ◌+◌, ◌<◌, ◌≡◌, ◌≢◌, refl, true, false, arith, ◌==◌, if◌then◌else◌, Result, ok, err,
  invalid_arrive, Returns, returns,
}
use vans.Base.Bits.{add64}
use vans.Common.{BaseRequest, BaseRequestType, read, write, BaseResponse, clk_invalid}

pub record StaticMedia : Type 0 where
  pub read_latency : ℕ
  pub write_latency : ℕ

abbrev pub latency : StaticMedia → BaseRequestType → ℕ
latency m read = m.read_latency
latency m write = m.write_latency

unfoldable pub issue_request : StaticMedia → BaseRequest → Result BaseResponse
issue_request m request =
    if request.arrive == clk_invalid
    then err invalid_arrive
    else ok (record {
      issued = true;
      deterministic = true;
      next_clk = add64 request.arrive (latency m request.type);
    })

latency-fits :
    (m : StaticMedia) (a : ℕ) (t : BaseRequestType)
    → a + m.read_latency < clk_invalid
    → a + m.write_latency < clk_invalid
    → a + latency m t < clk_invalid
latency-fits m a read h k = h
latency-fits m a write h k = k

-- A request that arrives so early that its arrival and either latency add up to a valid clock is always
-- issued, deterministically, and ends one latency of its kind after its arrival, at a valid clock.
pub issue_request-deterministic :
    (m : StaticMedia) (request : BaseRequest)
    → request.arrive + m.read_latency < clk_invalid
    → request.arrive + m.write_latency < clk_invalid
    → Returns
        (λ r.
          (r.issued ≡ true)
          × (r.deterministic ≡ true)
          × (r.next_clk ≡ request.arrive + latency m request.type)
          × (r.next_clk ≢ clk_invalid))
        (issue_request m request)
unfolding issue_request
issue_request-deterministic m request h k =
    let fits = latency-fits m request.arrive request.type h k in
    let valid : (request.arrive == clk_invalid) ≡ false = ground arith in
    rw valid (returns (refl, refl, omega arith, omega arith))
