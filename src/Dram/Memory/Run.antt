-- ===== src/Dram/Memory/Run.antt =====
-- src/general/dram_memory.h, class `dram_memory`: the memory from its configuration on, through any
-- requests and ticks. Every address leads to a bank, so the controller's requirement on its requests
-- holds.
use Prim.Native.String.{String}
use vans.Base.{
  ◌⊎◌, ◌+◌, ◌<◌, refresh_refused, Partial-both, ℕ, ◌+◌, ◌≤◌, ◌≡◌, refl, sym, ap, subst, ◌∙◌, inl,
  inr, Bool, true, false, not, ◌||◌, ◌==◌, if◌then◌else◌, Bool-cases, Result, ok, err, ◌>>=◌,
  Partial, Partial-at, Partial-any, Partial-bind, Returns, Returns-at, Returns-bind, Returns-mono,
  Returns-Partial, returned, returns, thrown,
}
use vans.Common.{BaseRequest, BaseRequestType, BaseResponse}
use vans.Common.Power.{is_pwr_of_2}
use vans.RequestQueue
use vans.RequestQueue.{RequestQueue, IsBounded}
use vans.Dram.Continues.{tick-Continues}
use vans.Dram.Controller
use vans.Dram.Controller.{
  DramController, QueueName, queue_of, with_queue, get_queue, count_report, fast_forward, has_write,
  is_read,
}
use vans.Dram.Ddr4.{Level, channel, rank, bank_group, bank, Timing}
use vans.Dram.Ddr4.Rules.{ddr4}
use vans.Dram.Mapping.{DramMapping, dram_mapping, map_addr}
use vans.Dram.Memory.{DramMemory, dram_memory, new_controller, issue_request, tick}
use vans.Dram.Memory.Banks.{IsCount, mapped-Leads}
use vans.Dram.Request.{DramRequest, of_base_request, type_of}
use vans.Dram.Issue.{new_controller-DramOk, issue_request-DramOk}
use vans.Dram.Schedule.{Leads, Leads-Grows, DramOk, IsAccessType}
use vans.Dram.Schedule.Refresh.{HasRoom, NoRoom, serve_first-DramOk, same_queues}
use vans.Dram.Schedule.Tick.{tick-DramOk, tick-Partial}

-- The controller's invariant, and each address leads to a bank.
record MemoryOk (m : DramMemory) : Type 0 where
  ctrl : DramOk m.ctrl
  leads : (addr : ℕ) → Leads 3 (map_addr m.mapper addr) m.ctrl.channel

count_report-channel : (c : DramController) → (count_report c).channel ≡ c.channel
unfolding count_report
count_report-channel c = elim (Bool-cases (c.report_epoch == 0)) [
  | inl off ↦ rw off refl
  | inr on ↦ rw on refl
]

fast_forward-channel :
    (r : DramRequest) (c : DramController) → (fast_forward r c).channel ≡ c.channel
unfolding fast_forward
fast_forward-channel r c = elim (Bool-cases (has_write r.logic_addr c.write_queue.queue)) [
  | inl found ↦ rw found refl
  | inr absent ↦ rw absent refl
]

with_queue-channel :
    (name : QueueName) (q : RequestQueue DramRequest) (c : DramController)
    → (with_queue name q c).channel ≡ c.channel
with_queue-channel QueueName.act q c = refl
with_queue-channel QueueName.misc q c = refl
with_queue-channel QueueName.read q c = refl
with_queue-channel QueueName.write q c = refl

issue_request-channel :
    (r : DramRequest) (c : DramController)
    → Partial (λ o. o.1.channel ≡ c.channel) (Controller.issue_request r c)
unfolding Controller.issue_request
issue_request-channel r c =
    let request = record r { arrive = c.curr_clk } in
    let name = get_queue r.type in
    Partial-bind (Partial-any (RequestQueue.enqueue request (queue_of name c))) (λ (issued, q) t.
      let counted = count_report (with_queue name q c) in
      let same = count_report-channel (with_queue name q c) ∙ with_queue-channel name q c in
      elim (Bool-cases issued) [
        | inr refused ↦ rw refused (returned refl)
        | inl yes_issued ↦ rw yes_issued (elim (Bool-cases (is_read r.type)) [
          | inl a_read ↦ rw a_read (returned (fast_forward-channel request counted ∙ same))
          | inr other ↦ rw other (returned same)
        ])
      ])

type_of-IsAccessType : (type : BaseRequestType) → IsAccessType (type_of type)
type_of-IsAccessType BaseRequestType.read = inl refl
type_of-IsAccessType BaseRequestType.write = inr refl

issue_request-MemoryOk :
    (req : BaseRequest) (m : DramMemory)
    → MemoryOk m
    → Returns (λ o. MemoryOk o.1) (issue_request req m)
unfolding issue_request
issue_request-MemoryOk req m v =
    let inner = record (of_base_request req) { mapped_addr = map_addr m.mapper req.addr } in
    Returns-bind
      (Returns-Partial
        (issue_request-DramOk inner m.ctrl v.ctrl (type_of-IsAccessType req.type)
          (v.leads req.addr))
        (issue_request-channel inner m.ctrl))
      (λ (response, c) (w, same). returns (record {
        ctrl = w;
        leads = λ addr. subst (Leads 3 (map_addr m.mapper addr)) (sym same) (v.leads addr);
      }))

tick-MemoryOk : (clk : ℕ) (m : DramMemory) → MemoryOk m → Partial MemoryOk (tick clk m)
unfolding tick Controller.serve_pending
tick-MemoryOk clk m v =
    let c' = record (m.ctrl) { curr_clk = clk } in
    let (w, same) =
      serve_first-DramOk m.ctrl.pending_queue c' (same_queues v.ctrl refl refl refl refl refl) in
    Partial-bind
      (Partial-both (tick-Partial m.ddr clk m.ctrl v.ctrl) (tick-Continues m.ddr clk m.ctrl))
      (λ c (w, (g, more, calls)). returned (record {
        ctrl = w;
        leads = λ addr.
            Leads-Grows 3 (map_addr m.mapper addr) g
              (subst (Leads 3 (map_addr m.mapper addr)) (sym same.0) (v.leads addr));
      }))

abbrev pub WithinBounds : DramMemory → Type 0
WithinBounds m =
    IsBounded m.ctrl.read_queue × IsBounded m.ctrl.write_queue × IsBounded m.ctrl.misc_queue

within : (m : DramMemory) (c : DramController) → DramOk c → WithinBounds (record m { ctrl = c })
within m c w = (w.read.0, w.write.0, w.misc.0)

-- The two outcomes of a tick: carried out, or refused for want of room for the refreshes.
abbrev pub Ticked : ℕ → DramMemory → Result DramMemory → Type 0
Ticked clk m r =
    (HasRoom m.ddr clk m.ctrl × Returns WithinBounds r)
    ⊎ (NoRoom m.ddr clk m.ctrl × (r ≡ err refresh_refused))

tick-Ticked : (clk : ℕ) (m : DramMemory) → MemoryOk m → Ticked clk m (tick clk m)
unfolding tick
tick-Ticked clk m v = elim (tick-DramOk m.ddr clk m.ctrl v.ctrl) [
  | inl (room, kept) ↦ inl (room, Returns-bind kept (λ c w. returns (within m c w)))
  | inr (over, refused) ↦ inr (over, rw refused refl)
]

module _ (t : Timing) (count : Level → ℕ)
    (counts : IsCount (count rank) × IsCount (count bank_group) × IsCount (count bank)) where
  dram_memory-MemoryOk :
      (mapping_func : String) (queue_size report_epoch start_addr : ℕ)
      → Partial MemoryOk (dram_memory t count mapping_func queue_size report_epoch start_addr)
  unfolding dram_memory new_controller
  dram_memory-MemoryOk mapping_func queue_size report_epoch start_addr =
      by_mapping (dram_mapping count mapping_func) refl
    where
      by_mapping :
          (r : Result DramMapping)
          → dram_mapping count mapping_func ≡ r
          → Partial MemoryOk (
              r >>= λ mapper.
              if not (is_pwr_of_2 (count channel)) || not (is_pwr_of_2 (count rank))
              then err vans.Base.config_error
              else ok (record {
                ddr = ddr4 t count;
                mapper = mapper;
                ctrl = new_controller (ddr4 t count) queue_size report_epoch start_addr;
              }))
      by_mapping (err e) h = thrown
      by_mapping (ok mapper) h =
          elim (Bool-cases (not (is_pwr_of_2 (count channel)) || not (is_pwr_of_2 (count rank)))) [
            | inl unsupported ↦ rw unsupported thrown
            | inr supported ↦ rw supported (
                returned (record {
                  ctrl = new_controller-DramOk (ddr4 t count) queue_size report_epoch start_addr;
                  leads = λ addr. mapped-Leads t count mapping_func counts h addr;
                }))
          ]

  -- The memories that requests and ticks that return make of a configured one.
  pub data Reached : DramMemory → Type 0 where
    constructed :
        (mapping_func : String) (queue_size report_epoch start_addr : ℕ) {m : DramMemory}
        → dram_memory t count mapping_func queue_size report_epoch start_addr ≡ ok m
        → Reached m
    issued :
        {m n : DramMemory}
        → Reached m
        → (req : BaseRequest) (response : BaseResponse) → issue_request req m ≡ ok (response, n)
        → Reached n
    ticked : {m n : DramMemory} → Reached m → (clk : ℕ) → tick clk m ≡ ok n → Reached n

  Reached-MemoryOk : {m : DramMemory} → Reached m → MemoryOk m
  Reached-MemoryOk (constructed mapping_func queue_size report_epoch start_addr e) =
      Partial-at (dram_memory-MemoryOk mapping_func queue_size report_epoch start_addr) e
  Reached-MemoryOk (issued {m} us req response e) =
      Returns-at (issue_request-MemoryOk req m (Reached-MemoryOk us)) e
  Reached-MemoryOk (ticked {m} us clk e) = Partial-at (tick-MemoryOk clk m (Reached-MemoryOk us)) e

  -- Whatever requests and ticks that return a memory has been through since its construction, with the
  -- counts of its ranks, bank groups and banks between 1 and 2^32 - 1: a request of any address is
  -- answered without an exception, within the queues' bounds. A tick at which no refresh is due, or the
  -- misc queue has room for one of each rank, is carried out without an exception or an invalid
  -- iterator or index, within the queues' bounds. A tick at which refreshes are due without that room
  -- throws the exception that a refresh cannot be issued.
  pub Reached-serves :
      {m : DramMemory} (req : BaseRequest) (clk : ℕ)
      → Reached m
      → Returns (λ o. WithinBounds o.1) (issue_request req m) × Ticked clk m (tick clk m)
  Reached-serves {m} req clk us =
      let v = Reached-MemoryOk us in
      (
        Returns-mono (issue_request-MemoryOk req m v) (λ o w. within o.1 o.1.ctrl w.ctrl),
        tick-Ticked clk m v,
      )
