-- ===== src/Ait/Controller.antt =====
-- src/general/ait.h, class `ait_controller`: its state, and the requests that its state transfers
-- issue (src/general/ait.cpp:10-29). `Core` holds the members that a state transfer works on beside
-- its buffer entry. The local memory is a component of its own, seen as a `NextLevel`.
use vans.Base.{
  ◌≡◌, refl, ℕ, Bool, false, List, [], ◌∷◌, map, codes, Option, none, some, if◌then◌else◌, Result,
  ok, ◌>>=◌,
}
use vans.Common.{
  BaseRequest, base_request, BaseRequestType, BaseResponse, Call, ait_next_level_read, clk_invalid,
}
use vans.Common.Address.Ait.{translate_to_block_addr}
use vans.Mapping.{ComponentMapping, apply_mapping}
use vans.RequestQueue
use vans.RequestQueue.{RequestQueue}
use vans.Buffer.{Buffer}
use vans.Counter.{increment, add_duration, at_name}
use Prim.Native.String.{String}
use vans.NextLevel.{NextLevel}
use vans.Ait.Entry.{BufferEntry, IndirectionTable}

-- The names of `cnt_events` and of `cnt_duration`.
pub data Event : Type 0 where
  read_access write_access eviction migration read_miss read_hit write_miss write_hit : Event
  lmem_read_access lmem_write_access local_memory_issue_fail : Event

pub data Duration : Type 0 where
  w_miss_prm w_miss_pwd w_miss_pm w_miss_pwm w_hit_pwd w_hit_pm w_hit_pwm : Duration
  r_miss_prm r_miss_prd r_hit_prd : Duration

unfoldable pub event_name : Event → String
event_name read_access = "read_access"
event_name write_access = "write_access"
event_name eviction = "eviction"
event_name migration = "migration"
event_name read_miss = "read_miss"
event_name read_hit = "read_hit"
event_name write_miss = "write_miss"
event_name write_hit = "write_hit"
event_name lmem_read_access = "lmem_read_access"
event_name lmem_write_access = "lmem_write_access"
event_name local_memory_issue_fail = "local_memory_issue_fail"

-- The names that `cnt_events` is constructed with.
unfoldable pub event_names : List (List ℕ × Event)
unfolding event_name
event_names =
    map (λ e. (codes (event_name e), e))
      (read_access ∷ write_access ∷ eviction ∷ migration ∷ read_miss ∷ read_hit ∷ write_miss
        ∷ write_hit ∷ lmem_read_access ∷ lmem_write_access ∷ local_memory_issue_fail ∷ [])

pub Event-discrete : Discrete Event
Event-discrete = hlevel

pub Duration-discrete : Discrete Duration
Duration-discrete = hlevel

-- `subreq_pending_index` counts from the setup stage: `none` is -1.
pub record LmemqState : Type 0 where
  pub subreq_cnt : ℕ
  pub subreq_pending_index : Option ℕ
  pub subreq_served : List Bool
  pub pending_front : Bool

pub record Core (N M : Type 0) : Type 0 where
  pub mapping_func : ComponentMapping
  pub next_level_components : N
  pub local_memory_model : M
  pub table : IndirectionTable
  pub lmemq : RequestQueue BaseRequest
  pub lmemq_state : LmemqState
  pub evicting : Bool
  pub cnt_events : Event → ℕ
  pub cnt_duration : Duration → ℕ
  -- the callbacks called so far, the last one first
  pub calls : List Call

pub record AitController (N M : Type 0) : Type 0 where
  pub core : Core N M
  pub open core use *
  pub buffer : Buffer BufferEntry
  pub lsq : RequestQueue BaseRequest

-- `deterministic ? next_clk : clk_invalid`
abbrev pub next_action : BaseResponse → ℕ
next_action r = if r.deterministic then r.next_clk else clk_invalid

module _ {N M : Type 0} where
  unfoldable pub count : Event → Core N M → Core N M
  count name c = record c { cnt_events = increment Event-discrete name c.cnt_events }

  unfoldable pub count_duration : Duration → ℕ → BufferEntry → Core N M → Core N M
  count_duration name curr_clk entry c = record c {
    cnt_duration = add_duration Duration-discrete name curr_clk entry.last_used_clk c.cnt_duration;
  }

  -- `cnt_events[name]++`, for any name
  unfoldable pub count_named : List ℕ → Core N M → Result (Core N M)
  unfolding count at_name event_names
  count_named name c = at_name event_names name >>= λ event. ok (count event c)

  -- `cnt_events["next_level_issue_fail"]++; return;`
  unfoldable pub count_next_level_issue_fail :
      BufferEntry → Core N M → Result (BufferEntry × Core N M)
  unfolding count_named
  count_next_level_issue_fail entry c =
      count_named (codes "next_level_issue_fail") c >>= λ c'. ok (entry, c')

  -- For each declared name it is the count of that event, as the transfers below write it.
  pub count_named-declared :
      (e : Event) (c : Core N M) → count_named (codes (event_name e)) c ≡ ok (count e c)
  unfolding count_named event_name at_name event_names
  count_named-declared read_access c = refl
  count_named-declared write_access c = refl
  count_named-declared eviction c = refl
  count_named-declared migration c = refl
  count_named-declared read_miss c = refl
  count_named-declared read_hit c = refl
  count_named-declared write_miss c = refl
  count_named-declared write_hit c = refl
  count_named-declared lmem_read_access c = refl
  count_named-declared lmem_write_access c = refl
  count_named-declared local_memory_issue_fail c = refl

  unfoldable pub issue_lmemq :
      BufferEntry → BaseRequestType → ℕ → Core N M → Result (BaseResponse × Core N M)
  issue_lmemq entry type curr_clk c =
      let req = base_request type entry.pending_request.rmw_block_addr curr_clk none in
      RequestQueue.enqueue req c.lmemq >>= λ (issued, q). ok (
        record { issued = issued; deterministic = false; next_clk = clk_invalid },
        record c { lmemq = q },
      )

  -- `if (entry.cb) entry.cb(entry.pending_request.rmw_block_addr, curr_clk)`
  unfoldable pub run_callback : BufferEntry → ℕ → Core N M → Core N M
  run_callback entry curr_clk c = elim entry.cb [
    | none ↦ c
    | some f ↦ record c {
      calls =
          record { callback = f; addr = entry.pending_request.rmw_block_addr; clk = curr_clk }
          ∷ c.calls;
    }
  ]

  module _ (next : NextLevel N) where
    unfoldable pub get_next_level : ℕ → Core N M → ℕ × ℕ
    get_next_level addr c = apply_mapping c.mapping_func addr next.count

    -- `issue_read_next_level` and `issue_write_next_level`, both with the controller's callback.
    unfoldable pub issue_next_level :
        BaseRequestType → ℕ → BufferEntry → ℕ → Core N M → Result (BaseResponse × Core N M)
    unfolding get_next_level
    issue_next_level type block_addr entry curr_clk c =
        let blk_addr = translate_to_block_addr entry.pending_request.rmw_block_addr in
        let req = base_request type blk_addr curr_clk (some ait_next_level_read) in
        next.issue_request (get_next_level block_addr c).1 req c.next_level_components >>= λ p.
        ok (p.0, record c { next_level_components = p.1 })
