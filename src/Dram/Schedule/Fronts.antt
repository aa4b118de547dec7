-- ===== src/Dram/Schedule/Fronts.antt =====
-- src/general/dram_memory.h, `schedule`: the front of each of the four queues keeps the invariant.
use vans.Base.{
  ◌≡◌, refl, sym, ap, subst, ◌∙◌, ◌⊎◌, inl, inr, true, false, List, [], ◌∷◌, get_or, arith, Returns,
  returns, Returns-bind,
}
use vans.Dram.Ddr4.{Command, ReqType, Ddr4, req_to_cmd, is_accessing, is_refreshing, is_opening}
use vans.Dram.Node.{Node, Dram}
use vans.Dram.Request.{DramRequest}
use vans.Dram.Rows.Decode.{IsAccess, rd_access, wr_access}
use vans.Dram.Schedule.{
  QueueOk, IsAccessType, RowOpen, ActOk, DramOk, QueueOk-Grows, schedule_front-DramOk,
}
use vans.Dram.Schedule.Access.{
  Need, to_open, to_close, to_access, Stepped, access-Need, access-check, access-Stepped,
}
use vans.Dram.Shape.{Grows}
use vans.Dram.Controller.{
  DramController, QueueName, get_first_cmd, after_cmd, schedule_front, queue_of, schedule,
}
use vans.Dram.Tree.{decode}
use vans.Dram.Schedule.Queues.{
  carried, emptied, served, AccessQueue, access, with_access, moved_to_act, RowOpen-Stepped,
  reads_queued, writes_queued,
}
use vans.Dram.Schedule.Misc.{schedule_misc}

-- The activated request: its row is open, so the access itself is next.
schedule_act :
    (spec : Ddr4) {cmd : Command} (a : IsAccess cmd) (r : DramRequest) (c : DramController)
    → req_to_cmd r.type ≡ cmd
    → RowOpen r.mapped_addr c.channel
    → DramOk c
    → Returns DramOk (schedule_front spec QueueName.act (r ∷ []) c)
unfolding get_first_cmd after_cmd is_accessing
schedule_act spec {cmd} a r c t (n, at_n, opened, hit) v =
    let (next, e, need) = access-Need spec a r.mapped_addr c.curr_clk v.settled at_n in
    let found = ap (λ k. decode k r.mapped_addr c.channel) t ∙ e in
    schedule_front-DramOk spec QueueName.act r [] c next found
      (access-check spec a r.mapped_addr c.curr_clk v.settled at_n need)
      (Returns-bind (access-Stepped spec a r.mapped_addr c.curr_clk v.settled at_n need)
        (λ m s. after a need m s))
      v
  where
    after :
        {cmd next : Command}
        → IsAccess cmd
        → Need cmd (get_or r.mapped_addr 4 0) n next
        → (m : Dram) → Stepped next r.mapped_addr n c.channel m
        → Returns DramOk (
            after_cmd spec QueueName.act next
              (record r { is_first_cmd = false })
              []
              (record c { channel = m }))
    after a (to_open e) m s = cc
    after a (to_close e miss) m s = cc
    after rd_access (to_access e h) m s =
        served spec QueueName.act (record r { is_first_cmd = false }) [] (record c { channel = m })
          (emptied c v m s.0 s.1)
    after wr_access (to_access e h) m s =
        served spec QueueName.act (record r { is_first_cmd = false }) [] (record c { channel = m })
          (emptied c v m s.0 s.1)

accessing :
    {name : QueueName} {kind : ReqType} {cmd : Command}
    → AccessQueue name kind cmd
    → is_accessing cmd ≡ true
unfolding is_accessing
accessing reads_queued = refl
accessing writes_queued = refl

grown_items :
    {name : QueueName} {kind : ReqType} {cmd : Command} (q : AccessQueue name kind cmd)
    (c : DramController) (m : Dram) (items : List DramRequest)
    → Grows c.channel m
    → QueueOk kind 3 c.channel (record (queue_of name c) { queue = items })
    → QueueOk kind 3 m (record (queue_of name (record c { channel = m })) { queue = items })
grown_items reads_queued c m items g h =
    QueueOk-Grows ReqType.read 3 (record (c.read_queue) { queue = items }) g h
grown_items writes_queued c m items g h =
    QueueOk-Grows ReqType.write 3 (record (c.write_queue) { queue = items }) g h

shorter :
    {name : QueueName} {kind : ReqType} {cmd : Command} (q : AccessQueue name kind cmd)
    (c : DramController) (r : DramRequest) (rest : List DramRequest)
    → QueueOk kind 3 c.channel (record (queue_of name c) { queue = r ∷ rest })
    → QueueOk kind 3 c.channel (record (queue_of name c) { queue = rest })
shorter q c r rest h = (omega (arith, h.0), h.1.1)

module _ (spec : Ddr4) {name : QueueName} {kind : ReqType} {cmd : Command}
    (q : AccessQueue name kind cmd) (c : DramController) (v : DramOk c)
    (no_act : c.act_queue.queue ≡ []) (r : DramRequest) (rest : List DramRequest)
    (h : QueueOk kind 3 c.channel (record (queue_of name c) { queue = r ∷ rest })) where
  after_access :
      {next : Command} {n : Node} (m : Dram)
      → Need cmd (get_or r.mapped_addr 4 0) n next
      → Stepped next r.mapped_addr n c.channel m
      → Returns DramOk (
          after_cmd spec name next
            (record r { is_first_cmd = false })
            rest
            (record c { channel = m }))
  unfolding after_cmd is_accessing is_opening is_refreshing
  after_access {n} m need s =
      let base = carried c v m s.0 s.1 (subst (ActOk m) (sym no_act) tt) in
      let c' = record c { channel = m } in
      let r' = record r { is_first_cmd = false } in
      let left = grown_items q c m rest s.1 (shorter q c r rest h) in
      let kept = grown_items q c m (r ∷ rest) s.1 h in by_need need s base left kept
    where
      by_need :
          {next : Command}
          → Need cmd (get_or r.mapped_addr 4 0) n next
          → Stepped next r.mapped_addr n c.channel m
          → DramOk (record c { channel = m })
          → QueueOk kind 3 m (record (queue_of name (record c { channel = m })) { queue = rest })
          → QueueOk kind 3 m
              (record (queue_of name (record c { channel = m })) { queue = r ∷ rest })
          → Returns DramOk (
              after_cmd spec name next
                (record r { is_first_cmd = false })
                rest
                (record c { channel = m }))
      by_need (to_open e) s base left kept =
          moved_to_act q (record r { is_first_cmd = false }) rest (record c { channel = m }) no_act
            base (subst IsAccessType (sym h.1.0.0) (access q).1) (RowOpen-Stepped r.mapped_addr n s)
            left
      by_need (to_close e miss) s base left kept = returns (
          with_access q (record c { channel = m }) (record r { is_first_cmd = false } ∷ rest) base
            kept)
      by_need (to_access e hit) s base left kept = rw (accessing q) (
          served spec name (record r { is_first_cmd = false }) rest (record c { channel = m })
            (with_access q (record c { channel = m }) rest base left))

  schedule_access : Returns DramOk (schedule_front spec name (r ∷ rest) c)
  unfolding get_first_cmd
  schedule_access =
      let (a, t, k) = access q in
      let (n, at_n) = h.1.0.1 in
      let (next, e, need) = access-Need spec a r.mapped_addr c.curr_clk v.settled at_n in
      let found =
        ap (λ type. decode (req_to_cmd type) r.mapped_addr c.channel) h.1.0.0
        ∙ ap (λ cmd. decode cmd r.mapped_addr c.channel) k
        ∙ e in
      schedule_front-DramOk spec name r rest c next found
        (access-check spec a r.mapped_addr c.curr_clk v.settled at_n need)
        (Returns-bind (access-Stepped spec a r.mapped_addr c.curr_clk v.settled at_n need)
          (λ m s. after_access m need s))
        v

module _ (spec : Ddr4) (c : DramController) (v : DramOk c) where
  act_front :
      (items : List DramRequest)
      → ActOk c.channel items
      → Returns DramOk (schedule_front spec QueueName.act items c)
  unfolding schedule_front
  act_front [] h = returns v
  act_front (r ∷ []) (inl t, o) = schedule_act spec rd_access r c (ap req_to_cmd t) o v
  act_front (r ∷ []) (inr t, o) = schedule_act spec wr_access r c (ap req_to_cmd t) o v
  act_front (r ∷ (s ∷ rest)) h = absurd h

  module _ (no_act : c.act_queue.queue ≡ []) where
    misc_front :
        (items : List DramRequest)
        → QueueOk ReqType.refresh 1 c.channel (record (c.misc_queue) { queue = items })
        → Returns DramOk (schedule_front spec QueueName.misc items c)
    unfolding schedule_front
    misc_front [] h = returns v
    misc_front (r ∷ rest) h = schedule_misc spec c v r rest no_act h

    access_front :
        {name : QueueName} {kind : ReqType} {cmd : Command} (q : AccessQueue name kind cmd)
        (items : List DramRequest)
        → QueueOk kind 3 c.channel (record (queue_of name c) { queue = items })
        → Returns DramOk (schedule_front spec name items c)
    unfolding schedule_front
    access_front q [] h = returns v
    access_front q (r ∷ rest) h = schedule_access spec q c v no_act r rest h

  -- On the invariant, the queue that is scheduled being that of the activated request or no request
  -- being activated, `schedule` does not throw and keeps the invariant.
  pub schedule-DramOk :
      (name : QueueName)
      → (name ≡ QueueName.act) ⊎ (c.act_queue.queue ≡ [])
      → Returns DramOk (schedule spec name c)
  unfolding schedule
  schedule-DramOk QueueName.act h = act_front c.act_queue.queue v.act
  schedule-DramOk QueueName.misc (inl e) = cc
  schedule-DramOk QueueName.misc (inr e) = misc_front e c.misc_queue.queue v.misc
  schedule-DramOk QueueName.read (inl e) = cc
  schedule-DramOk QueueName.read (inr e) = access_front e reads_queued c.read_queue.queue v.read
  schedule-DramOk QueueName.write (inl e) = cc
  schedule-DramOk QueueName.write (inr e) = access_front e writes_queued c.write_queue.queue v.write
