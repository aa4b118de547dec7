-- ===== src/Rmw/Entry.antt =====
-- src/general/rmw.h: the request types and states of the RMW buffer, and `buffer_entry` with its
-- methods. A `std::bitset<4>` is a list of four truth values, the lowest bit first.
use vans.Base.{
  ℕ, zero, suc, ◌+◌, ◌*◌, ◌/◌, ◌%◌, ◌≡◌, refl, ap, Bool, true, false, List, [], ◌∷◌, ◌++◌, Option,
  none, ltb, leb, ◌==◌, if◌then◌else◌, length, set, replicate, Result, ok, err, cl_index_overflow,
  reset_while_waiting, index_out_of_range,
}
use vans.Common.{Callback, clk_invalid}
use vans.Common.Address.Rmw.{block_size_cl}

pub data RequestType : Type 0 where
  write_rmw write_comb write_patch read_cold read_ff flush_back : RequestType

pub data RequestState : Type 0 where
  init pending_read pending_modify pending_write pending_readout : RequestState
  pending_ait_r pending_ait_w end : RequestState

pub record Request : Type 0 where
  pub type : RequestType
  pub logic_addr : ℕ
  pub arrive : ℕ

pub record BufferEntry : Type 0 where
  pub last_used_clk : ℕ
  pub next_action_clk : ℕ
  pub buffer_index : ℕ
  pub pending : Bool
  pub waiting_action_clk_update : Bool
  pub valid_to_read : Bool
  pub dirty : Bool
  pub cl_bitmap : List Bool
  pub callbacks : List (Option Callback)
  pub cb_bitmap : List Bool
  pub pending_request : Request
  pub state : RequestState
  pub pending_request_cl_index : List ℕ

abbrev pub is_read : RequestType → Bool
is_read read_cold = true
is_read read_ff = true
is_read _ = false

abbrev pub is_write_rmw : RequestType → Bool
is_write_rmw write_rmw = true
is_write_rmw _ = false

abbrev pub is_init : RequestState → Bool
is_init init = true
is_init _ = false

abbrev pub is_end : RequestState → Bool
is_end end = true
is_end _ = false

-- `std::bitset<4>(unsigned)` and `to_ulong`.
unfoldable pub to_bitset : ℕ → ℕ → List Bool
to_bitset zero word = []
to_bitset (suc n) word = (word % 2 == 1) ∷ to_bitset n (word / 2)

pub length-to_bitset : (n word : ℕ) → length (to_bitset n word) ≡ n
unfolding to_bitset
length-to_bitset zero word = refl
length-to_bitset (suc n) word = ap suc (length-to_bitset n (word / 2))

unfoldable pub to_ulong : List Bool → ℕ
to_ulong [] = 0
to_ulong (b ∷ bits) = (if b then 1 else 0) + 2 * to_ulong bits

-- The constructor of `buffer_entry`; `index` is what `internal_buffer::insert` assigns then.
unfoldable pub buffer_entry : ℕ → RequestType → ℕ → ℕ → ℕ → BufferEntry
buffer_entry curr_clk type logic_addr cacheline_bitmap index = record {
  last_used_clk = curr_clk;
  next_action_clk = clk_invalid;
  buffer_index = index;
  pending = true;
  waiting_action_clk_update = true;
  valid_to_read = false;
  dirty = false;
  cl_bitmap = to_bitset block_size_cl cacheline_bitmap;
  callbacks = replicate block_size_cl none;
  cb_bitmap = replicate block_size_cl false;
  pending_request = record { type = type; logic_addr = logic_addr; arrive = curr_clk };
  state = init;
  pending_request_cl_index = [];
}

unfoldable pub assign_new_request : ℕ → RequestType → ℕ → ℕ → BufferEntry → BufferEntry
assign_new_request curr_clk type logic_addr cacheline_bitmap e = record e {
  pending = true;
  waiting_action_clk_update = true;
  valid_to_read = false;
  cl_bitmap = to_bitset block_size_cl cacheline_bitmap;
  state = init;
  pending_request = record { type = type; logic_addr = logic_addr; arrive = curr_clk };
}

-- `callbacks.at(cl_index)` throws out of range.
unfoldable pub assign_callback : ℕ → Option Callback → BufferEntry → Result BufferEntry
assign_callback cl_index callback e =
    if leb block_size_cl cl_index
    then err index_out_of_range
    else if ltb block_size_cl (length e.pending_request_cl_index + 1)
    then err cl_index_overflow
    else ok (record e {
      callbacks = set e.callbacks cl_index callback;
      pending_request_cl_index = e.pending_request_cl_index ++ cl_index ∷ [];
    })

unfoldable pub reset_callback : BufferEntry → Result BufferEntry
reset_callback e =
    if length e.pending_request_cl_index == 0
    then ok (record e {
      cb_bitmap = replicate block_size_cl false;
      callbacks = replicate block_size_cl none;
    })
    else err reset_while_waiting
