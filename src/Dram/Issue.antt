-- ===== src/Dram/Issue.antt =====
-- src/general/dram_memory.h: the constructor and `issue_request` of the controller, on the invariant.
use vans.Base.{
  ℕ, ◌≡◌, refl, sym, ap, subst, ◌∙◌, ◌⊎◌, inl, inr, Bool, true, false, [], ◌∷◌, ◌++◌, pop_back,
  length, length-append, ◌==◌, All, All-append, arith, Bool-cases, Returns, returns, Returns-bind,
  Returns-mono,
}
use vans.RequestQueue
use vans.RequestQueue.{RequestQueue, IsBounded}
use vans.RequestQueue.Bounds.{enqueue-Enqueued}
use vans.Dram.Ddr4.{ReqType, Ddr4}
use vans.Dram.Node.{Dram, new_node, new_channel}
use vans.Dram.Nodes.{Every}
use vans.Dram.Request.{DramRequest}
use vans.Dram.Rows.{Settled}
use vans.Dram.Constraint.Respected.{new_channel-each, new_channel-Placed}
use vans.Dram.Schedule.{Leads, RequestOk, QueueOk, IsAccessType, DramOk}
use vans.Dram.Schedule.Refresh.{count_report-DramOk}
use vans.Dram.Forward.{pop_back-append}
use vans.Dram.Controller.{
  DramController, get_queue, count_report, fast_forward, has_write, issue_request,
}
use vans.Dram.Memory.{new_controller, new_queue}

new_channel-Settled : (spec : Ddr4) → Every Settled 0 (new_channel spec)
unfolding new_node
new_channel-Settled spec =
    new_channel-each spec Settled (refl, tt) (λ i. (refl, refl)) (λ i. (refl, tt))
      (λ i. (refl, inl refl))

pub new_controller-DramOk :
    (spec : Ddr4) (queue_size report_epoch start_addr : ℕ)
    → DramOk (new_controller spec queue_size report_epoch start_addr)
unfolding new_controller new_queue
new_controller-DramOk spec queue_size report_epoch start_addr = record {
  placed = new_channel-Placed spec;
  settled = new_channel-Settled spec;
  act = tt;
  misc = (omega arith, tt);
  read = (omega arith, tt);
  write = (omega arith, tt);
}

module _ (c : DramController) (v : DramOk c) where
  with_read :
      (q : RequestQueue DramRequest)
      → QueueOk ReqType.read 3 c.channel q
      → DramOk (record c { read_queue = q })
  with_read q h = record {
    placed = v.placed;
    settled = v.settled;
    act = v.act;
    misc = v.misc;
    read = h;
    write = v.write;
  }

  with_write :
      (q : RequestQueue DramRequest)
      → QueueOk ReqType.write 3 c.channel q
      → DramOk (record c { write_queue = q })
  with_write q h = record {
    placed = v.placed;
    settled = v.settled;
    act = v.act;
    misc = v.misc;
    read = v.read;
    write = h;
  }

  -- The read that has just been queued last is taken off again.
  fast_forward-DramOk :
      (r : DramRequest) (q : RequestQueue DramRequest)
      → q.queue ≡ c.read_queue.queue ++ r ∷ []
      → QueueOk ReqType.read 3 c.channel q
      → (d : DramController) → DramOk d
      → d.channel ≡ c.channel
      → d.read_queue ≡ q
      → DramOk (fast_forward r d)
  unfolding fast_forward
  fast_forward-DramOk r q items h d w ch e =
      elim (Bool-cases (has_write r.logic_addr d.write_queue.queue)) [
        | inr absent ↦ rw absent w
        | inl found ↦
            let shorter : pop_back d.read_queue.queue ≡ c.read_queue.queue =
              ap (λ x. pop_back x.queue) e
              ∙ ap pop_back items
              ∙ pop_back-append c.read_queue.queue r in
            let kept =
              subst (λ x. All (RequestOk ReqType.read 3 x) c.read_queue.queue) (sym ch) v.read.1 in
            let size = ap (λ x. length x.queue) e ∙ ap length items in
            let longer = length-append c.read_queue.queue (r ∷ []) in
            let bounded = w.read.0 in
            let fewer = ap length shorter in
            rw found (record {
              placed = w.placed;
              settled = w.settled;
              act = w.act;
              misc = w.misc;
              read = (
                omega arith,
                subst (All (RequestOk ReqType.read 3 d.channel)) (sym shorter) kept,
              );
              write = w.write;
            })
      ]

abbrev Queued :
    ReqType
    → Dram
    → DramRequest
    → RequestQueue DramRequest
    → Bool × RequestQueue DramRequest
    → Type 0
Queued type d r q (issued, q') =
    (issued ≡ false) ⊎ ((issued ≡ true) × (q'.queue ≡ q.queue ++ r ∷ []) × QueueOk type 3 d q')

enqueue-Queued :
    (type : ReqType) (d : Dram) (r : DramRequest) (q : RequestQueue DramRequest)
    → QueueOk type 3 d q
    → RequestOk type 3 d r
    → Returns (Queued type d r q) (RequestQueue.enqueue r q)
enqueue-Queued type d r q h k =
    Returns-mono (enqueue-Enqueued r q h.0) (λ (issued, q') (bounded, enqueued). elim enqueued [
      | inr (full, e) ↦ inl (ap (λ o. o.0) e)
      | inl (room, e, longer) ↦
          let items : q'.queue ≡ q.queue ++ r ∷ [] = ap (λ o. o.1.queue) e in
          let all = All-append (RequestOk type 3 d) q.queue (r ∷ []) h.1 (k, tt) in
          inr (ap (λ o. o.0) e, items, (bounded, subst (All (RequestOk type 3 d)) (sym items) all))
    ])

count_report-reads : (c : DramController) → (count_report c).read_queue ≡ c.read_queue
unfolding count_report
count_report-reads c = elim (Bool-cases (c.report_epoch == 0)) [
  | inl off ↦ rw off refl
  | inr on ↦ rw on refl
]

issue_read :
    (r : DramRequest) (c : DramController)
    → DramOk c
    → Leads 3 r.mapped_addr c.channel
    → Returns (λ o. DramOk o.1) (issue_request (record r { type = ReqType.read }) c)
unfolding issue_request get_queue
issue_read r c v leads =
    let request = record r { type = ReqType.read; arrive = c.curr_clk } in
    Returns-bind (enqueue-Queued ReqType.read c.channel request c.read_queue v.read (refl, leads))
      (λ (issued, q) queued. elim queued [
        | inl refused ↦ rw refused (returns v)
        | inr (yes_issued, items, h) ↦
            let (w, same) = count_report-DramOk (record c { read_queue = q }) (with_read c v q h) in
            let kept = count_report-reads (record c { read_queue = q }) in
            rw yes_issued (
              returns (
                fast_forward-DramOk c v request q items h
                  (count_report (record c { read_queue = q })) w same.0 kept))
      ])

issue_write :
    (r : DramRequest) (c : DramController)
    → DramOk c
    → Leads 3 r.mapped_addr c.channel
    → Returns (λ o. DramOk o.1) (issue_request (record r { type = ReqType.write }) c)
unfolding issue_request get_queue
issue_write r c v leads =
    let request = record r { type = ReqType.write; arrive = c.curr_clk } in
    Returns-bind
      (enqueue-Queued ReqType.write c.channel request c.write_queue v.write (refl, leads))
      (λ (issued, q) queued. elim queued [
        | inl refused ↦ rw refused (returns v)
        | inr (yes_issued, items, h) ↦
            let (w, same) =
              count_report-DramOk (record c { write_queue = q }) (with_write c v q h) in
            rw yes_issued (returns w)
      ])

-- On the invariant, a read or a write whose address leads to a bank of the channel is answered without
-- an exception, and the invariant holds after it.
pub issue_request-DramOk :
    (r : DramRequest) (c : DramController)
    → DramOk c
    → IsAccessType r.type
    → Leads 3 r.mapped_addr c.channel
    → Returns (λ o. DramOk o.1) (issue_request r c)
issue_request-DramOk r c v (inl e) leads =
    subst (λ t. Returns (λ o. DramOk o.1) (issue_request (record r { type = t }) c)) (sym e)
      (issue_read r c v leads)
issue_request-DramOk r c v (inr e) leads =
    subst (λ t. Returns (λ o. DramOk o.1) (issue_request (record r { type = t }) c)) (sym e)
      (issue_write r c v leads)
