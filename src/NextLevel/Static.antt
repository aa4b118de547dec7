-- ===== src/NextLevel/Static.antt =====
-- src/general/nv_media.h and src/general/static_memory.h as a next level: one memory of fixed latency.
use vans.Base.{ℕ, ◌+◌, ◌<◌, false, arith, ◌>>=◌, ok, returns, Returns-bind}
use vans.Common.{clk_invalid}
use vans.StaticMemory
use vans.StaticMemory.{StaticMedia, issue_request-deterministic}
use vans.NextLevel.{NextLevel, Contract}

unfoldable pub static_level : NextLevel StaticMedia
static_level = record {
  count = 1;
  issue_request = λ i req m. StaticMemory.issue_request m req >>= λ r. ok (r, m);
  full = λ i m. false;
}

-- The latencies leave room up to the horizon.
pub record IsQuick (horizon : ℕ) (m : StaticMedia) : Type 0 where
  pub read_fits : horizon + m.read_latency < clk_invalid
  pub write_fits : horizon + m.write_latency < clk_invalid

unfoldable pub static_contract : (horizon : ℕ) → Contract static_level horizon
unfolding static_level
static_contract horizon = record {
  Good = IsQuick horizon;
  issue_ok = λ i req m v t.
      let r : req.arrive + m.read_latency < clk_invalid = let f = v.read_fits in omega arith in
      let w : req.arrive + m.write_latency < clk_invalid = let f = v.write_fits in omega arith in
      Returns-bind (issue_request-deterministic m req r w) (λ a h. returns (v, λ _. h.3));
}
