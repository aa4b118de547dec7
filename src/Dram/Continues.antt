-- ===== src/Dram/Continues.antt =====
-- src/general/dram_memory.h: what refreshing and scheduling leave of the channel, of the reads that
-- wait for their data, and of the callbacks called.
use mathlib.Core.List.{append-nil, append_assoc}
use vans.Base.{
  ℕ, ◌≡◌, refl, sym, ap, ◌∙◌, inl, inr, List, [], ◌∷◌, ◌++◌, leb, ◌==◌, Bool-cases, Partial,
  returned, thrown, Partial-bind, Partial-mono, Partial-any, ◌||◌, false,
}
use vans.Base.Bits.{sub64}
use vans.Common.{BaseResponse}
use vans.RequestQueue
use vans.RequestQueue.{RequestQueue}
use vans.Dram.Ddr4.{Command, ReqType, Ddr4, is_accessing, is_refreshing, is_opening}
use vans.Dram.Node.{Drams, nil, cons, node_of, children_of}
use vans.Dram.Request.{DramRequest, of_mapped_addr}
use vans.Dram.Shape.{Grows, Grows-refl, Grows-trans, update-Grows}
use vans.Dram.Controller.{
  DramController, QueueName, with_items, get_queue, issue_request, count_report, refresh_addr,
  refresh_ranks, refresh, serve_pending, prioritise, choose_queue, move_to_act, await_data,
  after_cmd, issue_front, schedule_front, is_ready, get_first_cmd, queue_of, schedule, tick,
  is_read,
}

-- Reads may have come to wait behind those that waited, and no callback has been called.
abbrev pub Continues : DramController → DramController → Type 0
Continues c d =
    Grows c.channel d.channel
    × ((more : List DramRequest) × (d.pending_queue ≡ c.pending_queue ++ more))
    × (d.calls ≡ c.calls)

Continues-refl : (c : DramController) → Continues c c
Continues-refl c = (Grows-refl c.channel, ([], sym (append-nil c.pending_queue)), refl)

Continues-trans : (b c d : DramController) → Continues b c → Continues c d → Continues b d
Continues-trans b c d (g, (m, e), s) (h, (n, f), t) =
    (Grows-trans g h, (m ++ n, f ∙ ap (λ x. x ++ n) e ∙ append_assoc b.pending_queue m n), t ∙ s)

with_items-Continues :
    (b : DramController) (name : QueueName) (items : List DramRequest) (c : DramController)
    → Continues b c
    → Continues b (with_items name items c)
with_items-Continues b QueueName.act items c h = h
with_items-Continues b QueueName.misc items c h = h
with_items-Continues b QueueName.read items c h = h
with_items-Continues b QueueName.write items c h = h

await_data-Continues :
    (spec : Ddr4) (r : DramRequest) (c : DramController) → Continues c (await_data spec r c)
unfolding await_data
await_data-Continues spec r c = elim (Bool-cases (is_read r.type)) [
  | inl reads ↦ rw reads (Grows-refl c.channel, (_, refl), refl)
  | inr other ↦ rw other (Continues-refl c)
]

move_to_act-Continues :
    (name : QueueName) (r : DramRequest) (rest : List DramRequest) (c : DramController)
    → Partial (Continues c) (move_to_act name r rest c)
unfolding move_to_act
move_to_act-Continues QueueName.act r rest c = thrown
move_to_act-Continues QueueName.misc r rest c = returned (Continues-refl c)
move_to_act-Continues QueueName.read r rest c = returned (Continues-refl c)
move_to_act-Continues QueueName.write r rest c = returned (Continues-refl c)

after_cmd-Continues :
    (spec : Ddr4) (name : QueueName) (cmd : Command) (r : DramRequest) (rest : List DramRequest)
    (c : DramController)
    → Partial (Continues c) (after_cmd spec name cmd r rest c)
unfolding after_cmd
after_cmd-Continues spec name cmd r rest c =
    elim (Bool-cases (is_accessing cmd || is_refreshing cmd)) [
      | inl done ↦ rw done (
          returned (
            with_items-Continues c name rest (await_data spec r c) (await_data-Continues spec r c)))
      | inr more ↦ elim (Bool-cases (is_opening cmd)) [
        | inl opens ↦ rw (more, opens) (move_to_act-Continues name r rest c)
        | inr stays ↦
            rw (more, stays)
              (returned (with_items-Continues c name (r ∷ rest) c (Continues-refl c)))
      ]
    ]

schedule_front-Continues :
    (spec : Ddr4) (name : QueueName) (items : List DramRequest) (c : DramController)
    → Partial (Continues c) (schedule_front spec name items c)
unfolding schedule_front issue_front
schedule_front-Continues spec name [] c = returned (Continues-refl c)
schedule_front-Continues spec name (r ∷ rest) c =
    Partial-bind (Partial-any (is_ready r c)) (λ ready t. elim (Bool-cases ready) [
      | inr waits ↦ rw waits (returned (Continues-refl c))
      | inl now ↦ rw now (
          Partial-bind (Partial-any (get_first_cmd r c)) (λ cmd t.
            Partial-bind (update-Grows spec cmd r.mapped_addr c.curr_clk c.channel) (λ m g.
              Partial-mono
                (after_cmd-Continues spec name cmd (record r { is_first_cmd = false }) rest
                  (record c { channel = m }))
                (λ d h. (Grows-trans g h.0, h.1, h.2)))))
    ])

count_report-Continues : (c : DramController) → Continues c (count_report c)
unfolding count_report
count_report-Continues c = elim (Bool-cases (c.report_epoch == 0)) [
  | inl off ↦ rw off (Continues-refl c)
  | inr on ↦ rw on (Continues-refl c)
]

refresh_ranks-Continues :
    (channel_id : ℕ) (ranks : Drams) (c : DramController)
    → Partial (Continues c) (refresh_ranks channel_id ranks c)
unfolding refresh_ranks issue_request get_queue
refresh_ranks-Continues channel_id nil c = returned (Continues-refl c)
refresh_ranks-Continues channel_id (cons r ranks) c =
    Partial-bind {P = λ (p : BaseResponse × DramController). Continues c p.1}
      (Partial-bind
        (Partial-any (
          RequestQueue.enqueue
            (record (of_mapped_addr (refresh_addr channel_id (node_of r).id) ReqType.refresh) {
              arrive = c.curr_clk;
            })
            c.misc_queue))
        (λ (issued, q) t. elim (Bool-cases issued) [
          | inl queued ↦ rw queued (returned (count_report-Continues (record c { misc_queue = q })))
          | inr no_room ↦ rw no_room (returned (Continues-refl c))
        ]))
      (λ (response, d) h. elim (Bool-cases response.issued) [
        | inl yes_issued ↦ rw yes_issued (
            Partial-mono (refresh_ranks-Continues channel_id ranks d)
              (λ e k. Continues-trans c d e h k))
        | inr refused ↦ rw refused thrown
      ])

refresh-Continues : (spec : Ddr4) (c : DramController) → Partial (Continues c) (refresh spec c)
unfolding refresh
refresh-Continues spec c =
    elim (Bool-cases (leb spec.timing.n_refi (sub64 c.curr_clk c.last_refreshed_clk))) [
      | inl due ↦ rw due (
          Partial-bind (refresh_ranks-Continues (node_of c.channel).id (children_of c.channel) c)
            (λ d h. returned h))
      | inr early ↦ rw early (returned (Continues-refl c))
    ]

-- Whatever a tick does after its callback, the channel only grows, no pending read is removed or
-- overtaken, and no further callback is called.
pub tick-Continues :
    (spec : Ddr4) (clk : ℕ) (c : DramController)
    → Partial (Continues (serve_pending (record c { curr_clk = clk }))) (tick spec clk c)
unfolding tick prioritise schedule
tick-Continues spec clk c =
    let b = serve_pending (record c { curr_clk = clk }) in
    Partial-bind (refresh-Continues spec b) (λ d h.
      Partial-mono
        (schedule_front-Continues spec (choose_queue (prioritise d))
          (queue_of (choose_queue (prioritise d)) (prioritise d)).queue (prioritise d))
        (λ e k. Continues-trans b d e h k))
