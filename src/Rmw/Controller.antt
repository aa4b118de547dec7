-- ===== src/Rmw/Controller.antt =====
-- src/general/rmw.h, class `rmw_controller`: its state, and the requests that its state transfers
-- issue (src/general/rmw.cpp:54-96). `Core` holds the members that a state transfer works on beside
-- its buffer entry.
use vans.Base.{
  ℕ, ◌^◌, ◌-◌, Bool, false, List, [], ◌∷◌, ◌++◌, Option, none, ◌==◌, if◌then◌else◌, get_or, set,
  Result, ok, err, ◌>>=◌, empty_front, no_read_callback, roq_full as full_roq,
}
use vans.Base.Bits.{add64, mul64}
use vans.Common.{
  BaseRequest, base_request, BaseRequestType, read, BaseResponse, Call, Callback, clk_invalid,
  cpu_cl_size,
}
use vans.Common.Address.Rmw.{translate_to_block_addr}
use vans.Mapping.{ComponentMapping, apply_mapping}
use vans.RequestQueue
use vans.RequestQueue.{RequestQueue}
use vans.Buffer.{Buffer}
use vans.Counter.{increment, add_duration}
use vans.StaticMemory
use vans.StaticMemory.{StaticMedia}
use vans.NextLevel.{NextLevel}
use vans.Rmw.Entry.{BufferEntry}

pub record Timing : Type 0 where
  pub readout_latency : ℕ
  pub modify_latency : ℕ
  pub ait_to_rmw_latency : ℕ
  pub rmw_to_ait_latency : ℕ
  pub wpq_ff_latency : ℕ

-- The names of `cnt_events` and of `cnt_duration`.
pub data Event : Type 0 where
  read_access write_access eviction write_rmw write_comb write_patch flush_back : Event
  read_patch read_fast_forward read_cold patch_rmw patch_rmw_comb next_level_full : Event
  roq_full next_level_issue_fail local_memory_issue_fail : Event

pub data Duration : Type 0 where
  w_rmw_par w_rmw_pr w_rmw_paw w_rmw_pm w_rmw_pw : Duration
  w_comb_paw w_comb_pm w_comb_pw w_patch_paw w_patch_pm w_patch_pw : Duration
  w_flush_paw w_flush_pw r_cold_par r_cold_pr r_cold_pro r_ff_pro : Duration

pub Event-discrete : Discrete Event
Event-discrete = hlevel

pub Duration-discrete : Discrete Duration
Duration-discrete = hlevel

pub record Core (N : Type 0) : Type 0 where
  pub timing : Timing
  pub mapping_func : ComponentMapping
  pub local_memory_model : StaticMedia
  pub next_level_components : N
  pub roq : RequestQueue BaseRequest
  pub start_addr : ℕ
  pub evicting : Bool
  pub cnt_events : Event → ℕ
  pub cnt_duration : Duration → ℕ
  -- the callbacks called so far, the last one first
  pub calls : List Call

pub record RmwController (N : Type 0) : Type 0 where
  pub core : Core N
  pub open core use *
  pub buffer : Buffer BufferEntry
  pub lsq : RequestQueue BaseRequest

-- `deterministic ? next_clk : clk_invalid`
abbrev pub next_action : BaseResponse → ℕ
next_action r = if r.deterministic then r.next_clk else clk_invalid

module _ {N : Type 0} where
  unfoldable pub count : Event → Core N → Core N
  count name c = record c { cnt_events = increment Event-discrete name c.cnt_events }

  unfoldable pub count_duration : Duration → ℕ → BufferEntry → Core N → Core N
  count_duration name curr_clk entry c = record c {
    cnt_duration = add_duration Duration-discrete name curr_clk entry.last_used_clk c.cnt_duration;
  }

  unfoldable pub issue_local_memory :
      BaseRequestType → BufferEntry → ℕ → Core N → Result (BaseResponse × Core N)
  issue_local_memory type entry curr_clk c =
      let req = base_request type entry.pending_request.logic_addr curr_clk none in
      StaticMemory.issue_request c.local_memory_model req >>= λ r. ok (r, c)

  -- `issue_roq`: the oldest pending read goes to the read-out queue, to depart at the clock of the
  -- entry's last action.
  unfoldable pub issue_roq : BufferEntry → Core N → Result (BufferEntry × Core N)
  issue_roq entry c = elim entry.pending_request_cl_index [
    | [] ↦ err empty_front
    | cl_index ∷ rest ↦
        if cl_index == 2 ^ 32 - 1
        then err no_read_callback
        else (RequestQueue.full c.roq >>= λ is_full.
            if is_full
            then err full_roq
            else let addr =
                add64 (translate_to_block_addr entry.pending_request.logic_addr)
                  (mul64 cl_index cpu_cl_size) in
              let callback = get_or entry.callbacks cl_index none in
              let req = base_request read addr entry.pending_request.arrive callback in
              ok (
                record entry {
                  pending_request_cl_index = rest;
                  cb_bitmap = set entry.cb_bitmap cl_index false;
                },
                record c {
                  roq = record (c.roq) {
                    queue = c.roq.queue ++ record req { depart = entry.next_action_clk } ∷ [];
                  };
                },
              ))
  ]

  module _ (next : NextLevel N) where
    unfoldable pub get_next_level : ℕ → Core N → ℕ × ℕ
    get_next_level addr c = apply_mapping c.mapping_func addr next.count

    -- `issue_read_next_level` and `issue_write_next_level`: a read brings its callback, a write none.
    unfoldable pub issue_next_level :
        BaseRequestType
        → Option Callback
        → ℕ
        → BufferEntry
        → ℕ
        → Core N
        → Result (BaseResponse × Core N)
    unfolding get_next_level
    issue_next_level type callback block_addr entry curr_clk c =
        let rmw_addr = translate_to_block_addr entry.pending_request.logic_addr in
        let req = base_request type rmw_addr curr_clk callback in
        next.issue_request (get_next_level block_addr c).1 req c.next_level_components >>= λ p.
        ok (p.0, record c { next_level_components = p.1 })
