-- ===== src/Ait/Entry.antt =====
-- src/general/ait.h: the request types and states of the AIT, `buffer_entry` and the indirection
-- table. The 16-bit `rmw_bitmap` is the list of its bits, the lowest first.
use vans.Base.{
  ℕ, ◌%◌, Bool, true, false, List, Option, none, ◌==◌, if◌then◌else◌, Result, ok, err,
  assign_to_pending, division_by_zero,
}
use vans.Base.Bits.{add64, mul64}
use vans.Common.{Callback, clk_invalid}
use vans.Common.Address.Ait.{translate_to_block_addr, block_size_rmw}
use vans.Rmw.Entry.{to_bitset}

pub data RequestType : Type 0 where
  read_miss read_hit write_miss write_hit : RequestType

pub data RequestState : Type 0 where
  init pending_read_media pending_write_media pending_read_dram pending_write_dram : RequestState
  pending_migration end : RequestState

pub record Request : Type 0 where
  pub type : RequestType
  pub rmw_block_addr : ℕ
  pub arrive : ℕ

pub record BufferEntry : Type 0 where
  pub last_used_clk : ℕ
  pub next_action_clk : ℕ
  pub buffer_index : ℕ
  pub pending : Bool
  pub waiting_action_clk_update : Bool
  pub valid_to_read : Bool
  pub dirty : Bool
  pub rmw_bitmap : List Bool
  pub cb : Option Callback
  pub pending_request : Request
  pub state : RequestState

abbrev pub is_init : RequestState → Bool
is_init init = true
is_init _ = false

abbrev pub is_end : RequestState → Bool
is_end end = true
is_end _ = false

-- The constructor of `buffer_entry`; `index` is what `internal_buffer::insert` assigns then.
unfoldable pub buffer_entry : ℕ → RequestType → ℕ → ℕ → ℕ → BufferEntry
buffer_entry curr_clk type logic_addr rmw_block_bitmap index = record {
  last_used_clk = curr_clk;
  next_action_clk = clk_invalid;
  buffer_index = index;
  pending = true;
  waiting_action_clk_update = true;
  valid_to_read = false;
  dirty = false;
  rmw_bitmap = to_bitset block_size_rmw rmw_block_bitmap;
  cb = none;
  pending_request = record { type = type; rmw_block_addr = logic_addr; arrive = curr_clk };
  state = init;
}

unfoldable pub assign_new_request : ℕ → RequestType → ℕ → ℕ → BufferEntry → Result BufferEntry
assign_new_request curr_clk type logic_addr rmw_block_bitmap e =
    if e.pending
    then err assign_to_pending
    else ok (record e {
      pending = true;
      waiting_action_clk_update = true;
      valid_to_read = false;
      rmw_bitmap = to_bitset block_size_rmw rmw_block_bitmap;
      state = init;
      pending_request = record { type = type; rmw_block_addr = logic_addr; arrive = curr_clk };
    })

unfoldable pub assign_callback : Option Callback → BufferEntry → BufferEntry
assign_callback callback e = record e { cb = callback }

-- The `unordered_map` of write counts, in which a missing block stands at 0.
pub record IndirectionTable : Type 0 where
  pub write_cnt : ℕ → ℕ
  pub wear_leveling_threshold : ℕ
  pub migration_block_entries : ℕ
  pub migration_latency : ℕ

unfoldable pub record_write : ℕ → IndirectionTable → IndirectionTable
record_write rmw_block_addr t =
    let block = translate_to_block_addr rmw_block_addr in
    record t {
      write_cnt = λ addr. if addr == block then add64 (t.write_cnt addr) 1 else t.write_cnt addr;
    }

unfoldable pub check_wear_leveling : ℕ → IndirectionTable → Result ℕ
check_wear_leveling addr t =
    if t.wear_leveling_threshold == 0
    then err division_by_zero
    else if add64 (t.write_cnt addr) 1 % t.wear_leveling_threshold == 0
    then ok (mul64 t.migration_block_entries t.migration_latency)
    else ok 0
