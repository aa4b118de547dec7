-- ===== src/Dram/Schedule/Refresh.antt =====
-- src/general/dram_memory.h, `tick`: the callback and the refreshes of one clock.
use vans.Base.{
  ◌⊎◌, false, ltb, ok, err, refresh_refused, Returns-eq, ℕ, zero, suc, ◌+◌, ◌≤◌, ◌<◌, ◌≡◌, refl,
  sym, ap, subst, ◌∙◌, inl, inr, true, List, [], ◌∷◌, ◌++◌, none, some, leb, ◌==◌, get_or, length,
  All, All-append, arith, Bool-cases, Returns, returns, Returns-bind, Option,
}
use vans.Base.Bits.{sub64}
use vans.Common.{Callback, BaseResponse, clk_invalid}
use vans.RequestQueue
use vans.RequestQueue.Bounds.{enqueue-Enqueued}
use vans.Dram.Ddr4.{ReqType, Ddr4}
use vans.Dram.Node.{Node, Dram, Drams, node, nil, cons, node_of, children_of, count_of}
use vans.Dram.Nodes.{Every}
use vans.Dram.Path.{node_at, node_in, Placed, PlacedAll}
use vans.Dram.Request.{DramRequest, of_mapped_addr}
use vans.Dram.Rows.{Settled}
use vans.Dram.Tree.{child_id}
use vans.Dram.Schedule.{Leads, RequestOk, QueueOk, ActOk, DramOk}
use vans.Dram.Controller.{
  DramController, get_queue, issue_request, count_report, refresh_addr, refresh_ranks, refresh,
  complete, serve_first,
}

-- The misc queue has room for one refresh of each rank, where a refresh is due at `clk`.
unfoldable pub RefreshFits : Ddr4 → ℕ → DramController → Type 0
RefreshFits spec clk c =
    leb spec.timing.n_refi (sub64 clk c.last_refreshed_clk) ≡ true
    → length c.misc_queue.queue + count_of (children_of c.channel) ≤ c.misc_queue.max_entries

-- No refresh is due at `clk`, or the misc queue has room for one of each rank.
abbrev pub HasRoom : Ddr4 → ℕ → DramController → Type 0
HasRoom spec clk c =
    (leb spec.timing.n_refi (sub64 clk c.last_refreshed_clk) ≡ false)
    ⊎ (length c.misc_queue.queue + count_of (children_of c.channel) ≤ c.misc_queue.max_entries)

-- A refresh is due at `clk`, and the misc queue has no room for one of each rank.
abbrev pub NoRoom : Ddr4 → ℕ → DramController → Type 0
NoRoom spec clk c =
    (leb spec.timing.n_refi (sub64 clk c.last_refreshed_clk) ≡ true)
    × (c.misc_queue.max_entries < length c.misc_queue.queue + count_of (children_of c.channel))

pub HasRoom-or_NoRoom :
    (spec : Ddr4) (clk : ℕ) (c : DramController) → HasRoom spec clk c ⊎ NoRoom spec clk c
HasRoom-or_NoRoom spec clk c =
    let n = length c.misc_queue.queue + count_of (children_of c.channel) in
    elim (Bool-cases (leb spec.timing.n_refi (sub64 clk c.last_refreshed_clk))) [
      | inr early ↦ inl (inl early)
      | inl due ↦ elim (Bool-cases (leb n c.misc_queue.max_entries)) [
        | inl room ↦ inl (inr (ground arith))
        | inr full ↦ inr (due, ground arith)
      ]
    ]

pub HasRoom-RefreshFits :
    (spec : Ddr4) (clk : ℕ) (c : DramController) → HasRoom spec clk c → RefreshFits spec clk c
unfolding RefreshFits
HasRoom-RefreshFits spec clk c (inl early) due = absurd (ground (arith, early, due))
HasRoom-RefreshFits spec clk c (inr room) due = room

-- The invariant does not read the pending reads, the clocks and the calls.
pub same_queues :
    {c d : DramController}
    → DramOk c
    → d.channel ≡ c.channel
    → d.act_queue ≡ c.act_queue
    → d.misc_queue ≡ c.misc_queue
    → d.read_queue ≡ c.read_queue
    → d.write_queue ≡ c.write_queue
    → DramOk d
same_queues {c} {d} v ch a m r w = record {
  placed = subst (Placed 0 0) (sym ch) v.placed;
  settled = subst (Every Settled 0) (sym ch) v.settled;
  act =
      subst (λ x. ActOk x d.act_queue.queue) (sym ch)
        (subst (λ q. ActOk c.channel q.queue) (sym a) v.act);
  misc =
      subst (λ x. QueueOk ReqType.refresh 1 x d.misc_queue) (sym ch)
        (subst (QueueOk ReqType.refresh 1 c.channel) (sym m) v.misc);
  read =
      subst (λ x. QueueOk ReqType.read 3 x d.read_queue) (sym ch)
        (subst (QueueOk ReqType.read 3 c.channel) (sym r) v.read);
  write =
      subst (λ x. QueueOk ReqType.write 3 x d.write_queue) (sym ch)
        (subst (QueueOk ReqType.write 3 c.channel) (sym w) v.write);
}

-- What the refresh relies on is left alone by the callbacks.
abbrev pub SameRefresh : DramController → DramController → Type 0
SameRefresh c d =
    (d.channel ≡ c.channel)
    × (d.misc_queue ≡ c.misc_queue)
    × (d.curr_clk ≡ c.curr_clk)
    × (d.last_refreshed_clk ≡ c.last_refreshed_clk)

complete-DramOk :
    (o : Option Callback) (r : DramRequest) (rest : List DramRequest) (c : DramController)
    → DramOk c
    → DramOk (complete o r rest c) × SameRefresh c (complete o r rest c)
unfolding complete
complete-DramOk none r rest c v = (v, (refl, refl, refl, refl))
complete-DramOk (some f) r rest c v =
    (same_queues v refl refl refl refl refl, (refl, refl, refl, refl))

pub serve_first-DramOk :
    (items : List DramRequest) (c : DramController)
    → DramOk c
    → DramOk (serve_first items c) × SameRefresh c (serve_first items c)
unfolding serve_first
serve_first-DramOk [] c v = (v, (refl, refl, refl, refl))
serve_first-DramOk (r ∷ rest) c v = elim (Bool-cases (leb r.depart c.curr_clk)) [
  | inl due ↦ rw due (complete-DramOk r.callback r rest c v)
  | inr later ↦ rw later (v, (refl, refl, refl, refl))
]

pub count_report-DramOk :
    (c : DramController) → DramOk c → DramOk (count_report c) × SameRefresh c (count_report c)
unfolding count_report
count_report-DramOk c v = elim (Bool-cases (c.report_epoch == 0)) [
  | inl off ↦ rw off (v, (refl, refl, refl, refl))
  | inr on ↦ rw on (same_queues v refl refl refl refl refl, (refl, refl, refl, refl))
]

abbrev Issued : DramController → BaseResponse × DramController → Type 0
Issued c (r, d) =
    (r.issued ≡ true)
    × DramOk d
    × (d.channel ≡ c.channel)
    × (length d.misc_queue.queue ≡ length c.misc_queue.queue + 1)
    × (d.misc_queue.max_entries ≡ c.misc_queue.max_entries)

-- A refresh is queued where there is room.
issue_refresh :
    (addr : List ℕ) (c : DramController)
    → DramOk c
    → Leads 1 addr c.channel
    → length c.misc_queue.queue < c.misc_queue.max_entries
    → Returns (Issued c) (issue_request (of_mapped_addr addr ReqType.refresh) c)
unfolding issue_request get_queue
issue_refresh addr c v leads room =
    let request = record (of_mapped_addr addr ReqType.refresh) { arrive = c.curr_clk } in
    Returns-bind (enqueue-Enqueued request c.misc_queue v.misc.0)
      (λ (issued, q) (bounded, enqueued). elim enqueued [
        | inr (full, e) ↦ absurd (omega arith)
        | inl (r, e, longer) ↦
            let yes_issued : issued ≡ true = ap (λ o. o.0) e in
            let appended : q
                ≡ record (c.misc_queue) { queue = c.misc_queue.queue ++ request ∷ [] } =
              ap (λ o. o.1) e in
            let items : QueueOk ReqType.refresh 1 c.channel q = (
              bounded,
              subst (λ x. All (RequestOk ReqType.refresh 1 c.channel) x.queue) (sym appended)
                  (All-append (RequestOk ReqType.refresh 1 c.channel) c.misc_queue.queue
                    (request ∷ []) v.misc.1 ((refl, leads), tt)),
            ) in
            let queued : DramOk (record c { misc_queue = q }) = record {
              placed = v.placed;
              settled = v.settled;
              act = v.act;
              misc = items;
              read = v.read;
              write = v.write;
            } in
            let (counted, same) = count_report-DramOk (record c { misc_queue = q }) queued in
            rw yes_issued (
              returns (
                refl,
                counted,
                same.0,
                ap (λ x. length x.queue) same.1 ∙ longer,
                ap (λ x. x.max_entries) same.1 ∙ ap (λ x. x.max_entries) appended,
              ))
      ])

child-Leads :
    (l b i : ℕ) (addr : List ℕ) (ds : Drams)
    → i < count_of ds
    → (n : Node) × (node_in 0 addr i ds ≡ some n)
unfolding node_at
child-Leads l b i addr nil h = absurd (omega arith)
child-Leads l b zero addr (cons (node n es) ds) h = (n, refl)
child-Leads l b (suc i) addr (cons d ds) h = child-Leads l b i addr ds (omega arith)

rank-Leads :
    (channel_id i : ℕ) (d : Dram)
    → Placed 0 0 d
    → i < count_of (children_of d)
    → Leads 1 (refresh_addr channel_id i) d
unfolding node_at
rank-Leads channel_id i (node n ds) p h =
    let at : child_id n (refresh_addr channel_id i) ≡ i =
      ap (λ k. get_or (refresh_addr channel_id i) (k + 1) 0) p.0 in
    rw at (child-Leads 1 0 i (refresh_addr channel_id i) ds h)

refresh_ranks-DramOk :
    (channel_id b : ℕ) (ranks : Drams) (c : DramController)
    → DramOk c
    → PlacedAll 1 b ranks
    → b + count_of ranks ≤ count_of (children_of c.channel)
    → length c.misc_queue.queue + count_of ranks ≤ c.misc_queue.max_entries
    → Returns DramOk (refresh_ranks channel_id ranks c)
unfolding refresh_ranks
refresh_ranks-DramOk channel_id b nil c v p h room = returns v
refresh_ranks-DramOk channel_id b (cons (node r es) ranks) c v p h room =
    let leads =
      subst (λ i. Leads 1 (refresh_addr channel_id i) c.channel) (sym p.0.1)
        (rank-Leads channel_id b c.channel v.placed (omega arith)) in
    Returns-bind (issue_refresh (refresh_addr channel_id r.id) c v leads (omega arith))
      (λ (response, d) (issued, w, ch, longer, m). rw issued (
        refresh_ranks-DramOk channel_id (suc b) ranks d w p.1
          (subst (λ x. suc b + count_of ranks ≤ count_of (children_of x)) (sym ch) (omega arith))
          (omega arith)))

refused_refresh :
    (addr : List ℕ) (c : DramController)
    → (length c.misc_queue.queue == c.misc_queue.max_entries) ≡ true
    → issue_request (of_mapped_addr addr ReqType.refresh) c
      ≡ ok (record { issued = false; deterministic = false; next_clk = clk_invalid }, c)
unfolding issue_request get_queue RequestQueue.enqueue RequestQueue.full
refused_refresh addr c full =
    let fits : ltb c.misc_queue.max_entries (length c.misc_queue.queue) ≡ false = ground arith in
    rw (fits, full) refl

-- The refreshes are issued until the queue is full; the next one is refused.
refresh_ranks-refused :
    (channel_id b : ℕ) (ranks : Drams) (c : DramController)
    → DramOk c
    → PlacedAll 1 b ranks
    → b + count_of ranks ≤ count_of (children_of c.channel)
    → c.misc_queue.max_entries < length c.misc_queue.queue + count_of ranks
    → refresh_ranks channel_id ranks c ≡ err refresh_refused
unfolding refresh_ranks
refresh_ranks-refused channel_id b nil c v p h over = let bounded = v.misc.0 in absurd (omega arith)
refresh_ranks-refused channel_id b (cons (node r es) ranks) c v p h over =
    let addr = refresh_addr channel_id r.id in
    let bounded = v.misc.0 in
    elim (Bool-cases (length c.misc_queue.queue == c.misc_queue.max_entries)) [
      | inl full ↦ rw (refused_refresh addr c full) refl
      | inr some_room ↦
          let leads =
            subst (λ i. Leads 1 (refresh_addr channel_id i) c.channel) (sym p.0.1)
              (rank-Leads channel_id b c.channel v.placed (omega arith)) in
          let ((response, d), e, (issued, w, ch, longer, m)) =
            Returns-eq (issue_refresh addr c v leads (ground arith)) in
          let more =
            refresh_ranks-refused channel_id (suc b) ranks d w p.1
              (subst (λ x. suc b + count_of ranks ≤ count_of (children_of x)) (sym ch)
                (omega arith))
              (omega arith) in
          rw (e, issued) more
    ]

children-Placed : (d : Dram) → Placed 0 0 d → PlacedAll 1 0 (children_of d)
children-Placed (node n ds) p = p.2

pub refresh-DramOk :
    (spec : Ddr4) (c : DramController)
    → DramOk c
    → RefreshFits spec c.curr_clk c
    → Returns DramOk (refresh spec c)
unfolding refresh RefreshFits
refresh-DramOk spec c v fits =
    elim (Bool-cases (leb spec.timing.n_refi (sub64 c.curr_clk c.last_refreshed_clk))) [
      | inr early ↦ rw early (returns v)
      | inl due ↦ rw due (
          Returns-bind
            (refresh_ranks-DramOk (node_of c.channel).id 0 (children_of c.channel) c v
              (children-Placed c.channel v.placed) (omega arith) (fits due))
            (λ d w. returns (same_queues w refl refl refl refl refl)))
    ]

pub refresh-refused :
    (spec : Ddr4) (c : DramController)
    → DramOk c
    → NoRoom spec c.curr_clk c
    → refresh spec c ≡ err refresh_refused
unfolding refresh
refresh-refused spec c v (due, over) =
    let refused =
      refresh_ranks-refused (node_of c.channel).id 0 (children_of c.channel) c v
        (children-Placed c.channel v.placed) (omega arith) over in
    rw (due, refused) refl
