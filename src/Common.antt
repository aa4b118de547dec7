-- ===== src/Common.antt =====
-- src/general/common.h and the address code of src/general/utils.h: the requests and responses that
-- the components exchange, and the block addresses of the RMW buffer and the AIT.
pub mod Address
pub mod Power
use vans.Base.{ℕ, ◌-◌, ◌^◌, Bool, Option, none}

-- `std::numeric_limits<uint64_t>::max()`
abbrev pub clk_invalid : ℕ
clk_invalid = 2 ^ 64 - 1

abbrev pub addr_invalid : ℕ
addr_invalid = 2 ^ 64 - 1

abbrev pub cpu_cl_size : ℕ
cpu_cl_size = 64

abbrev pub cpu_cl_bitshift : ℕ
cpu_cl_bitshift = 6

pub data BaseRequestType : Type 0 where
  read write : BaseRequestType

-- A `base_callback_f` is named by the closure that it holds: one of the code outside the modelled
-- components, or one of the closures that the RMW and AIT controllers make.
pub data Callback : Type 0 where
  client : ℕ → Callback
  rmw_next_level_read ait_next_level_read ait_subreq_served : Callback

pub record BaseRequest : Type 0 where
  pub addr : ℕ
  pub arrive : ℕ
  pub depart : ℕ
  pub type : BaseRequestType
  pub callback : Option Callback

-- The constructor of `base_request`.
abbrev pub base_request : BaseRequestType → ℕ → ℕ → Option Callback → BaseRequest
base_request type addr arrive callback = record {
  addr = addr;
  arrive = arrive;
  depart = clk_invalid;
  type = type;
  callback = callback;
}

-- The tuple (issued, deterministic, next_clk).
pub record BaseResponse : Type 0 where
  pub issued : Bool
  pub deterministic : Bool
  pub next_clk : ℕ

-- A call of a callback, with its arguments.
pub record Call : Type 0 where
  pub callback : Callback
  pub addr : ℕ
  pub clk : ℕ
