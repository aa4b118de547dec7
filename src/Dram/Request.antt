-- ===== src/Dram/Request.antt =====
-- src/general/dram_memory.h, class `dram_media_request`.
use vans.Base.{ℕ, Bool, true, List, [], Option, none}
use vans.Common.{BaseRequest, BaseRequestType, Callback, addr_invalid, clk_invalid}
use vans.Dram.Ddr4.{ReqType}

-- `arrive` and `depart` are signed, here by their bit patterns.
pub record DramRequest : Type 0 where
  pub is_first_cmd : Bool
  pub logic_addr : ℕ
  pub mapped_addr : List ℕ
  pub type : ReqType
  pub arrive : ℕ
  pub depart : ℕ
  pub callback : Option Callback

abbrev pub type_of : BaseRequestType → ReqType
type_of BaseRequestType.read = ReqType.read
type_of BaseRequestType.write = ReqType.write

-- The constructor from a `base_request`, before the address is mapped.
abbrev pub of_base_request : BaseRequest → DramRequest
of_base_request req = record {
  is_first_cmd = true;
  logic_addr = req.addr;
  mapped_addr = [];
  type = type_of req.type;
  arrive = req.arrive;
  depart = req.depart;
  callback = req.callback;
}

-- The constructor from a mapped address. It leaves the logic address unset, which no code reads for
-- the kinds of request that are made so.
abbrev pub of_mapped_addr : List ℕ → ReqType → DramRequest
of_mapped_addr mapped_addr type = record {
  is_first_cmd = true;
  logic_addr = addr_invalid;
  mapped_addr = mapped_addr;
  type = type;
  arrive = clk_invalid;
  depart = clk_invalid;
  callback = none;
}
