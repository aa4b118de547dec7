-- ===== src/Imc.antt =====
-- src/general/imc.cpp and src/general/imc.h: the integrated memory controller, with its queue of
-- reads and its queue of writes.
pub mod Flush
pub mod Retry
pub mod Tick
pub mod Starve
mod Tests
use vans.Base.{
  ℕ, zero, suc, ◌+◌, ◌%◌, ◌^◌, ◌-◌, Bool, true, false, not, ◌&&◌, ◌||◌, List, [], ◌∷◌, Option, none,
  some, ltb, ◌==◌, if◌then◌else◌, Result, ok, err, ◌>>=◌, out_of_fuel,
}
use vans.Base.Bits.{add64}
use vans.Common.{BaseRequest, BaseResponse, read, write, Call, clk_invalid}
use vans.Mapping.{ComponentMapping, apply_mapping}
use vans.RequestQueue
use vans.RequestQueue.{RequestQueue}
use vans.NextLevel.{NextLevel}

pub record ImcController (N : Type 0) : Type 0 where
  pub wpq : RequestQueue BaseRequest
  pub rpq : RequestQueue BaseRequest
  pub imc_curr_clk : ℕ
  pub adr_epoch : ℕ
  pub mapping_func : ComponentMapping
  pub next_level_components : N
  -- the callbacks called so far, the last one first
  pub calls : List Call

pub data QueueToTick : Type 0 where
  no_queue read_queue write_queue : QueueToTick

-- The read queue's front is older than `req`.
unfoldable pub older_read : List BaseRequest → BaseRequest → Bool
older_read [] req = false
older_read (front ∷ rest) req = ltb front.arrive req.arrive

unfoldable pub queue_to_tick : List BaseRequest → List BaseRequest → QueueToTick
unfolding older_read
queue_to_tick [] [] = no_queue
queue_to_tick [] (w ∷ wpq) = write_queue
queue_to_tick (r ∷ rpq) [] = read_queue
queue_to_tick (r ∷ rpq) (w ∷ wpq) = if older_read (r ∷ rpq) w then read_queue else write_queue

-- The calls after those of `req`'s callback, if it has one.
unfoldable pub call_back : BaseRequest → ℕ → List Call → List Call
call_back req clk calls = elim req.callback [
  | none ↦ calls
  | some f ↦ record { callback = f; addr = req.addr; clk = clk } ∷ calls
]

module _ {N : Type 0} where
  unfoldable pub issue_request :
      BaseRequest → ImcController N → Result (BaseResponse × ImcController N)
  issue_request request c = elim request.type [
    | read ↦ RequestQueue.enqueue request c.rpq >>= λ (success, q). ok (
      record { issued = success; deterministic = false; next_clk = clk_invalid },
      record c { rpq = q },
    )
    | write ↦ RequestQueue.enqueue request c.wpq >>= λ (success, q). ok (
      record { issued = success; deterministic = false; next_clk = clk_invalid },
      record c { wpq = q },
    )
  ]

  unfoldable pub drain_current : ImcController N → ImcController N
  drain_current c = c

  unfoldable pub pending_current : ImcController N → Bool
  pending_current c = RequestQueue.pending c.wpq || RequestQueue.pending c.rpq

  unfoldable pub full : ImcController N → Result Bool
  full c = RequestQueue.full c.wpq >>= λ w. if w then RequestQueue.full c.rpq else ok false

  module _ (next : NextLevel N) where
    -- The mapped address and the index of the component that it belongs to.
    unfoldable pub get_next_level : ℕ → ImcController N → ℕ × ℕ
    get_next_level addr c = apply_mapping c.mapping_func addr next.count

    -- The loop takes one round for each request that is sent, and one to see that it ends. The
    -- request is sent under its own address.
    unfoldable pub flush_wpq : ℕ → ImcController N → Result (ImcController N)
    unfolding get_next_level older_read call_back
    flush_wpq zero c = err out_of_fuel
    flush_wpq (suc fuel) c = elim c.wpq.queue [
      | [] ↦ ok c
      | req ∷ rest ↦
          let id = (get_next_level req.addr c).1 in
          elim (older_read c.rpq.queue req || next.full id c.next_level_components) [
            | true ↦ ok c
            | false ↦ next.issue_request id req c.next_level_components >>= λ (r, n).
                elim r.issued [
                  | false ↦ flush_wpq fuel (record c { next_level_components = n })
                  | true ↦ flush_wpq fuel (record c {
                    next_level_components = n;
                    wpq = record (c.wpq) { queue = rest };
                    calls = call_back req c.imc_curr_clk c.calls;
                  })
                ]
          ]
    ]

    unfoldable pub adr : ℕ → ImcController N → Result (ImcController N)
    unfolding flush_wpq
    adr fuel c =
        if c.adr_epoch == 0
        then ok c
        else if add64 c.imc_curr_clk 1 % c.adr_epoch == 0
        then flush_wpq fuel c
        else ok c

    -- The read queue's front goes to the component that its address maps to. Its address is replaced
    -- in the queue, also when it is not issued.
    unfoldable pub tick_read : ImcController N → Result (ImcController N)
    unfolding get_next_level
    tick_read c = elim c.rpq.queue [
      | [] ↦ ok c
      | front ∷ rest ↦
          let (next_addr, id) = get_next_level front.addr c in
          let req = record front { addr = next_addr } in
          let kept = record c { rpq = record (c.rpq) { queue = req ∷ rest } } in
          if next.full id c.next_level_components
          then ok kept
          else (next.issue_request id req c.next_level_components >>= λ (r, n).
              if r.issued
              then ok
                  (record c { next_level_components = n; rpq = record (c.rpq) { queue = rest } })
              else ok (record kept { next_level_components = n }))
    ]

    unfoldable pub tick_write : ℕ → ImcController N → Result (ImcController N)
    unfolding flush_wpq
    tick_write fuel c =
        RequestQueue.full c.wpq >>= λ is_full. if is_full then flush_wpq fuel c else ok c

    unfoldable pub tick : ℕ → ℕ → ImcController N → Result (ImcController N)
    unfolding tick_read tick_write adr queue_to_tick
    tick fuel curr_clk c =
        let c' = record c { imc_curr_clk = curr_clk } in
        elim (queue_to_tick c.rpq.queue c.wpq.queue) [
          | no_queue ↦ ok c'
          | read_queue ↦ tick_read c'
          | write_queue ↦ tick_write fuel c'
        ]
        >>= λ d. if RequestQueue.empty d.wpq then ok d else adr fuel d
