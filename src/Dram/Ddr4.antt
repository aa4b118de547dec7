-- ===== src/Dram/Ddr4.antt =====
-- src/general/ddr4.h, class `DDR4`: the states, levels and commands of DDR4, and what its constructor
-- fixes. The timing parameters are read as integers that are not negative; the two of them that are
-- floating-point numbers, and `rate`, are only printed.
pub mod Rules
use vans.Base.{ℕ, ◌+◌, Bool, true, false, List, [], ◌∷◌, ◌==◌}

pub data State : Type 0 where
  pwr_up closed self_refresh pre_pwr_down act_pwr_down opened undefined : State

pub data Level : Type 0 where
  channel rank bank_group bank row col : Level

pub data Command : Type 0 where
  act pre prea rd wr rda wra ref pde pdx sre srx undefined : Command

-- `int(l)`
abbrev pub level_index : Level → ℕ
level_index channel = 0
level_index rank = 1
level_index bank_group = 2
level_index bank = 3
level_index row = 4
level_index col = 5

-- `int(c)`
abbrev pub command_index : Command → ℕ
command_index Command.act = 0
command_index Command.pre = 1
command_index Command.prea = 2
command_index Command.rd = 3
command_index Command.wr = 4
command_index Command.rda = 5
command_index Command.wra = 6
command_index Command.ref = 7
command_index Command.pde = 8
command_index Command.pdx = 9
command_index Command.sre = 10
command_index Command.srx = 11
command_index Command.undefined = 12

infix 50 ◌is◌ ◌is_level◌
abbrev pub ◌is◌ : Command → Command → Bool
a is b = command_index a == command_index b

abbrev pub ◌is_level◌ : Level → Level → Bool
a is_level b = level_index a == level_index b

-- `DDR4::scope`
abbrev pub scope : Command → Level
scope Command.act = row
scope Command.pre = bank
scope Command.prea = rank
scope Command.rd = col
scope Command.wr = col
scope Command.rda = col
scope Command.wra = col
scope Command.ref = rank
scope Command.pde = rank
scope Command.pdx = rank
scope Command.sre = rank
scope Command.srx = rank
scope Command.undefined = channel

-- `DDR4::init_state`; the array has no entry for the last level, which is set to the first state.
abbrev pub init_state : Level → State
init_state channel = State.undefined
init_state rank = pwr_up
init_state bank_group = closed
init_state bank = closed
init_state row = State.undefined
init_state col = pwr_up

-- `dram_media_request::req_type`
pub data ReqType : Type 0 where
  read write refresh power_down self_refresh : ReqType

-- `DDR4::req_to_cmd`
abbrev pub req_to_cmd : ReqType → Command
req_to_cmd ReqType.read = Command.rd
req_to_cmd ReqType.write = Command.wr
req_to_cmd ReqType.refresh = Command.ref
req_to_cmd ReqType.power_down = Command.pde
req_to_cmd ReqType.self_refresh = Command.sre

unfoldable pub is_opening : Command → Bool
is_opening Command.act = true
is_opening _ = false

unfoldable pub is_accessing : Command → Bool
is_accessing Command.rd = true
is_accessing Command.wr = true
is_accessing Command.rda = true
is_accessing Command.wra = true
is_accessing _ = false

unfoldable pub is_closing : Command → Bool
is_closing Command.rda = true
is_closing Command.wra = true
is_closing Command.pre = true
is_closing Command.prea = true
is_closing _ = false

unfoldable pub is_refreshing : Command → Bool
is_refreshing Command.ref = true
is_refreshing _ = false

-- `DDR4::timing_entry`: `cmd` has to wait for `delay`, a `uint64_t` where it is added to a clock.
pub record TimingEntry : Type 0 where
  pub cmd : Command
  pub delay : ℕ
  pub has_sibling : Bool
  pub dist : ℕ

-- `ddr::timing`
pub record Timing : Type 0 where
  pub n_bl : ℕ
  pub n_ccds : ℕ
  pub n_ccdl : ℕ
  pub n_rtrs : ℕ
  pub n_cl : ℕ
  pub n_rcd : ℕ
  pub n_rp : ℕ
  pub n_cwl : ℕ
  pub n_ras : ℕ
  pub n_rc : ℕ
  pub n_rtp : ℕ
  pub n_wtrs : ℕ
  pub n_wtrl : ℕ
  pub n_wr : ℕ
  pub n_pd : ℕ
  pub n_xp : ℕ
  pub n_xpdll : ℕ
  pub n_ckesr : ℕ
  pub n_xsdll : ℕ
  pub n_rrds : ℕ
  pub n_rrdl : ℕ
  pub n_faw : ℕ
  pub n_rfc : ℕ
  pub n_refi : ℕ
  pub n_xs : ℕ

-- The members of `DDR4` that the DRAM reads. `count` has the number of instances on each level.
pub record Ddr4 : Type 0 where
  pub timing : Timing
  pub timing_table : Level → Command → List TimingEntry
  pub read_latency : ℕ
  pub count : Level → ℕ
