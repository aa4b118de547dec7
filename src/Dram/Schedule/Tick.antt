-- ===== src/Dram/Schedule/Tick.antt =====
-- src/general/dram_memory.h, `tick`: the whole of one clock, on the invariant.
use vans.Base.{
  ◌<◌, err, refresh_refused, Partial, Returns-weaken, thrown, ℕ, ◌+◌, ◌≤◌, ◌≡◌, refl, sym, ap,
  subst, ◌∙◌, ◌⊎◌, inl, inr, true, false, List, [], ◌∷◌, leb, ◌==◌, if◌then◌else◌, length, arith,
  Bool-cases, Returns, Returns-bind,
}
use vans.Base.Bits.{sub64}
use vans.RequestQueue
use vans.RequestQueue.{RequestQueue, IsBounded}
use vans.Dram.Ddr4.{Ddr4}
use vans.Dram.Node.{children_of, count_of}
use vans.Dram.Request.{DramRequest}
use vans.Dram.Schedule.{DramOk}
use vans.Dram.Schedule.Fronts.{schedule-DramOk}
use vans.Dram.Controller.{
  DramController, QueueName, serve_first, serve_pending, prioritise, choose_queue, tick,
}
use vans.Dram.Schedule.Refresh.{
  HasRoom, NoRoom, HasRoom-or_NoRoom, HasRoom-RefreshFits, refresh-refused, RefreshFits,
  SameRefresh, same_queues, serve_first-DramOk, refresh-DramOk,
}

prioritise-DramOk : (c : DramController) → DramOk c → DramOk (prioritise c)
unfolding prioritise
prioritise-DramOk c v = same_queues v refl refl refl refl refl

size-empty : (q : RequestQueue DramRequest) → RequestQueue.size q ≡ false → q.queue ≡ []
unfolding RequestQueue.size
size-empty q h = by_items q.queue h
  where
    by_items :
        (items : List DramRequest)
        → (if length items == 0 then false else true) ≡ false
        → items ≡ []
    by_items [] e = refl
    by_items (r ∷ rest) e = absurd (ground arith)

choose_queue-act :
    (c : DramController) → (choose_queue c ≡ QueueName.act) ⊎ (c.act_queue.queue ≡ [])
unfolding choose_queue
choose_queue-act c = elim (Bool-cases (RequestQueue.size c.act_queue)) [
  | inl some_act ↦ inl (rw some_act refl)
  | inr no_act ↦ inr (size-empty c.act_queue no_act)
]

RefreshFits-same :
    (spec : Ddr4) (c d : DramController)
    → SameRefresh c d
    → RefreshFits spec c.curr_clk c
    → RefreshFits spec d.curr_clk d
unfolding RefreshFits
RefreshFits-same spec c d (ch, m, t, l) fits due =
    let was_due =
      ap (λ x. leb spec.timing.n_refi (sub64 x c.last_refreshed_clk)) (sym t)
      ∙ ap (λ x. leb spec.timing.n_refi (sub64 d.curr_clk x)) (sym l)
      ∙ due in
    subst (λ q. length q.queue + count_of (children_of d.channel) ≤ q.max_entries) (sym m)
      (subst (λ x. length c.misc_queue.queue + count_of (children_of x) ≤ c.misc_queue.max_entries)
        (sym ch) (fits was_due))

NoRoom-same :
    (spec : Ddr4) (c d : DramController)
    → SameRefresh c d
    → NoRoom spec c.curr_clk c
    → NoRoom spec d.curr_clk d
NoRoom-same spec c d (ch, m, t, l) (due, over) = (
  ap (λ x. leb spec.timing.n_refi (sub64 x d.last_refreshed_clk)) t
      ∙ ap (λ x. leb spec.timing.n_refi (sub64 c.curr_clk x)) l
      ∙ due,
  subst (λ q. q.max_entries < length q.queue + count_of (children_of d.channel)) (sym m)
      (subst (λ x. c.misc_queue.max_entries < length c.misc_queue.queue + count_of (children_of x))
        (sym ch) over),
)

tick_with_room :
    (spec : Ddr4) (clk : ℕ) (c : DramController)
    → DramOk c
    → RefreshFits spec clk c
    → Returns DramOk (tick spec clk c)
unfolding tick serve_pending RefreshFits
tick_with_room spec clk c v fits =
    let c' = record c { curr_clk = clk } in
    let (served, same) =
      serve_first-DramOk c.pending_queue c' (same_queues v refl refl refl refl refl) in
    let d = serve_first c.pending_queue c' in
    Returns-bind (refresh-DramOk spec d served (RefreshFits-same spec c' d same fits)) (λ e w.
      schedule-DramOk spec (prioritise e) (prioritise-DramOk e w) (choose_queue (prioritise e))
        (choose_queue-act (prioritise e)))

tick-refused :
    (spec : Ddr4) (clk : ℕ) (c : DramController)
    → DramOk c
    → NoRoom spec clk c
    → tick spec clk c ≡ err refresh_refused
unfolding tick serve_pending
tick-refused spec clk c v over =
    let c' = record c { curr_clk = clk } in
    let (served, same) =
      serve_first-DramOk c.pending_queue c' (same_queues v refl refl refl refl refl) in
    let d = serve_first c.pending_queue c' in
    rw (refresh-refused spec d served (NoRoom-same spec c' d same over)) refl

-- On the invariant, there are two outcomes of a tick. Where no refresh is due, or the misc queue has
-- room for one of each rank, it throws no exception and reaches no invalid iterator or index, and the
-- invariant holds after it. Where refreshes are due and have no room, it throws the exception that a
-- refresh cannot be issued.
pub tick-DramOk :
    (spec : Ddr4) (clk : ℕ) (c : DramController)
    → DramOk c
    → (HasRoom spec clk c × Returns DramOk (tick spec clk c))
      ⊎ (NoRoom spec clk c × (tick spec clk c ≡ err refresh_refused))
tick-DramOk spec clk c v = elim (HasRoom-or_NoRoom spec clk c) [
  | inl room ↦ inl (room, tick_with_room spec clk c v (HasRoom-RefreshFits spec clk c room))
  | inr over ↦ inr (over, tick-refused spec clk c v over)
]

-- So a tick that returns keeps the invariant.
pub tick-Partial :
    (spec : Ddr4) (clk : ℕ) (c : DramController) → DramOk c → Partial DramOk (tick spec clk c)
tick-Partial spec clk c v = elim (tick-DramOk spec clk c v) [
  | inl (room, kept) ↦ Returns-weaken kept
  | inr (over, refused) ↦ rw refused thrown
]
