-- ===== src/System.antt =====
-- src/general/rmc.h and nvram_system.h: the controllers that send a request to one of the components
-- below them by its address. Their `tick` and `drain_current` do nothing, and they are never pending
-- themselves. The request is passed by reference: the caller sets its address again before each use.
pub mod Dispatch
mod Tests
use vans.Base.{
  ℕ, zero, suc, Bool, true, false, ◌||◌, ltb, if◌then◌else◌, Result, ok, err, ◌>>=◌,
  below_start_addr, full_of_rmc,
}
use vans.Base.Bits.{sub64}
use vans.Common.{BaseRequest, BaseResponse}
use vans.Mapping.{ComponentMapping, apply_mapping}
use vans.NextLevel.{NextLevel}

-- `rmc_controller`, with the components below it.
pub record Rmc (N : Type 0) : Type 0 where
  pub mapping_func : ComponentMapping
  pub start_addr : ℕ
  pub next_level_components : N

-- `nvram_system_controller`
pub record NvramSystem (N : Type 0) : Type 0 where
  pub mapping_func : ComponentMapping
  pub next_level_components : N

module _ {N : Type 0} (next : NextLevel N) where
  -- `get_next_level`, and the request to the component that it gives.
  unfoldable pub send : ComponentMapping → BaseRequest → N → Result (BaseResponse × N)
  send mapping_func request s =
      let (next_addr, index) = apply_mapping mapping_func request.addr next.count in
      next.issue_request index (record request { addr = next_addr }) s

  unfoldable pub rmc_issue_request : BaseRequest → Rmc N → Result (BaseResponse × Rmc N)
  unfolding send
  rmc_issue_request request c =
      if ltb request.addr c.start_addr
      then err below_start_addr
      else (send c.mapping_func (record request { addr = sub64 request.addr c.start_addr })
            c.next_level_components
          >>= λ (response, s). ok (response, record c { next_level_components = s }))

  unfoldable pub rmc_full : Rmc N → Result Bool
  rmc_full c = err full_of_rmc

  unfoldable pub nvram_issue_request :
      BaseRequest → NvramSystem N → Result (BaseResponse × NvramSystem N)
  unfolding send
  nvram_issue_request request c =
      send c.mapping_func request c.next_level_components >>= λ (response, s).
      ok (response, record c { next_level_components = s })

  -- `std::any_of` over the first `count` components
  unfoldable pub any_full : ℕ → N → Bool
  any_full zero s = false
  any_full (suc i) s = any_full i s || next.full i s

  unfoldable pub nvram_full : NvramSystem N → Bool
  unfolding any_full
  nvram_full c = any_full next.count c.next_level_components
