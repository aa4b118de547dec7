-- ===== src/Dram/Schedule/Misc.antt =====
-- src/general/dram_memory.h, `schedule` of a refresh.
use vans.Base.{
  ◌≡◌, sym, ap, subst, ◌∙◌, inl, false, List, [], ◌∷◌, arith, Returns, returns, Returns-eq,
  Returns-bind, Returns-Partial, Partial-both,
}
use vans.Dram.Ddr4.{Command, ReqType, Ddr4, req_to_cmd, is_accessing, is_refreshing, is_opening}
use vans.Dram.Node.{Dram}
use vans.Dram.Nodes.{Every}
use vans.Dram.Request.{DramRequest}
use vans.Dram.Rows.{Settled, IsScheduled, prea_scheduled, ref_scheduled, update-Settled}
use vans.Dram.Rows.Decode.{IsRefreshing, refreshes, closes_banks, decode-refresh}
use vans.Dram.Rows.Ready.{check-Returns}
use vans.Dram.Rows.Update.{update-refresh, rank_scope}
use vans.Dram.Schedule.{QueueOk, ActOk, DramOk, QueueOk-Grows, schedule_front-DramOk}
use vans.Dram.Shape.{Grows, update-Grows}
use vans.Dram.Controller.{DramController, QueueName, get_first_cmd, after_cmd, schedule_front}
use vans.Dram.Tree.{decode}
use vans.Dram.Schedule.Queues.{carried, with_misc, served}

-- A refresh goes through all ranks' banks, while no request is activated.
pub schedule_misc :
    (spec : Ddr4) (c : DramController) (v : DramOk c) (r : DramRequest) (rest : List DramRequest)
    → c.act_queue.queue ≡ []
    → QueueOk ReqType.refresh 1 c.channel (record (c.misc_queue) { queue = r ∷ rest })
    → Returns DramOk (schedule_front spec QueueName.misc (r ∷ rest) c)
unfolding get_first_cmd after_cmd is_accessing is_refreshing is_opening
schedule_misc spec c v r rest no_act h =
    let (n, at_n) = h.1.0.1 in
    let (next, e, t) = Returns-eq (decode-refresh r.mapped_addr v.settled at_n) in
    let found = ap (λ type. decode (req_to_cmd type) r.mapped_addr c.channel) h.1.0.0 ∙ e in
    schedule_front-DramOk spec QueueName.misc r rest c next found
      (check-Returns next r.mapped_addr c.curr_clk 1 0 v.settled at_n (inl (sym (rank_scope t))))
      (Returns-bind
        (Returns-Partial (update-refresh spec t r.mapped_addr c.curr_clk v.settled at_n) (
          Partial-both
            (update-Settled spec r.mapped_addr c.curr_clk (refresh_scheduled t) v.settled)
            (update-Grows spec next r.mapped_addr c.curr_clk c.channel)))
        (λ m (u, (w, g)). after m t w g))
      v
  where
    refresh_scheduled : {cmd : Command} → IsRefreshing cmd → IsScheduled cmd
    refresh_scheduled refreshes = ref_scheduled
    refresh_scheduled closes_banks = prea_scheduled

    after :
        {next : Command} (m : Dram)
        → IsRefreshing next
        → Every Settled 0 m
        → Grows c.channel m
        → Returns DramOk (
            after_cmd spec QueueName.misc next
              (record r { is_first_cmd = false })
              rest
              (record c { channel = m }))
    after m refreshes w g =
        served spec QueueName.misc (record r { is_first_cmd = false }) rest
          (record c { channel = m })
          (with_misc (record c { channel = m })
            (carried c v m w g (subst (ActOk m) (sym no_act) tt)) rest
            (QueueOk-Grows ReqType.refresh 1 (record (c.misc_queue) { queue = rest }) g
              (omega (arith, h.0), h.1.1)))
    after m closes_banks w g = returns (
        with_misc (record c { channel = m }) (carried c v m w g (subst (ActOk m) (sym no_act) tt))
          (record r { is_first_cmd = false } ∷ rest)
          (QueueOk-Grows ReqType.refresh 1 (record (c.misc_queue) { queue = r ∷ rest }) g h))
