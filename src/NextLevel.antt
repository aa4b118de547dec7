-- ===== src/NextLevel.antt =====
-- src/general/component.h: `base_component` as a controller sees the components below it, and what a
-- controller relies on when it issues a request (the comment on `base_response` in
-- src/general/common.h).
pub mod Static
use vans.Base.{ℕ, ◌≤◌, ◌≡◌, ◌≢◌, Bool, true, Result, Returns}
use vans.Common.{BaseRequest, BaseResponse, clk_invalid}

-- `next_level_components`: `count` of them, with `N` the state of all. The first number of a call is
-- the component's index.
pub record NextLevel (N : Type 0) : Type 0 where
  pub count : ℕ
  pub issue_request : ℕ → BaseRequest → N → Result (BaseResponse × N)
  pub full : ℕ → N → Bool

abbrev pub IsValidResponse : BaseResponse → Type 0
IsValidResponse r = r.deterministic ≡ true → r.next_clk ≢ clk_invalid

-- A component in a good state takes a request that arrives by `horizon` without an exception, stays
-- in a good state, and answers with a valid clock when the answer is deterministic.
pub record Contract {N : Type 0} (next : NextLevel N) (horizon : ℕ) : Type 1 where
  pub Good : N → Type 0
  pub issue_ok :
      (i : ℕ) (req : BaseRequest) (s : N)
      → Good s
      → req.arrive ≤ horizon
      → Returns (λ p. Good p.1 × IsValidResponse p.0) (next.issue_request i req s)
