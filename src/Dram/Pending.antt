-- ===== src/Dram/Pending.antt =====
-- src/general/dram_memory.h, `tick`: the reads that wait for their data are called back in their order;
-- one without a callback is never removed.
use vans.Base.{
  ℕ, ◌≤◌, ◌<◌, ◌≡◌, refl, sym, ap, ◌∙◌, ◌⊎◌, inl, inr, true, false, List, [], ◌∷◌, ◌++◌, none, some,
  leb, Bool-cases, arith, ok, Partial, Partial-mono, Partial-at,
}
use mathlib.Core.List.{append-nil, append_assoc}
use vans.Base.Bits.{add64}
use vans.Common.{Callback, Call}
use vans.Dram.Continues.{tick-Continues}
use vans.Dram.Ddr4.{Ddr4}
use vans.Dram.Request.{DramRequest}
use vans.Dram.Controller.{DramController, complete, serve_first, serve_pending, tick, pending}

abbrev call_of : DramController → ℕ → Callback → DramRequest → Call
call_of c clk f r = record { callback = f; addr = add64 r.logic_addr c.start_addr; clk = clk }

-- The front of the pending reads has been called back, or it is not due.
abbrev pub FrontServed :
    ℕ → DramController → Callback → DramRequest → List DramRequest → DramController → Type 0
FrontServed clk c f r rest d =
    (more : List DramRequest) × (((r.depart ≤ clk)
        × (d.pending_queue ≡ rest ++ more)
        × (d.calls ≡ call_of c clk f r ∷ c.calls))
      ⊎ ((clk < r.depart) × (d.pending_queue ≡ r ∷ (rest ++ more)) × (d.calls ≡ c.calls)))

-- Where the first of the reads that wait has a callback, a tick that returns has called it back and
-- removed it, exactly if its data are there; no other callback has been called, and the others wait
-- in their order.
pub tick-FrontServed :
    (spec : Ddr4) (clk : ℕ) (c : DramController) (f : Callback) (r : DramRequest)
    (rest : List DramRequest)
    → c.pending_queue ≡ r ∷ rest
    → r.callback ≡ some f
    → Partial (FrontServed clk c f r rest) (tick spec clk c)
unfolding serve_pending serve_first complete
tick-FrontServed spec clk c f r rest e h =
    let c' = record c { curr_clk = clk } in
    Partial-mono (tick-Continues spec clk c) (λ d (g, (more, p), s).
      elim (Bool-cases (leb r.depart clk)) [
        | inl due ↦
            let done : serve_first c.pending_queue c' ≡ complete (some f) r rest c' =
              ap (λ q. serve_first q c') e ∙ (rw due (ap (λ o. complete o r rest c') h)) in
            (
              more,
              inl (
                ground arith,
                p ∙ ap (λ x. x.pending_queue ++ more) done,
                s ∙ ap (λ x. x.calls) done,
              ),
            )
        | inr early ↦
            let done : serve_first c.pending_queue c' ≡ c' =
              ap (λ q. serve_first q c') e ∙ (rw early refl) in
            (
              more,
              inr (
                ground arith,
                p ∙ ap (λ x. x.pending_queue ++ more) done ∙ ap (λ q. q ++ more) e,
                s ∙ ap (λ x. x.calls) done,
              ),
            )
      ])

pub data Ticks (spec : Ddr4) (c : DramController) : DramController → Type 0 where
  start : Ticks spec c c
  next_tick :
      {d e : DramController} → Ticks spec c d → (clk : ℕ) → tick spec clk d ≡ ok e → Ticks spec c e

-- The read stands in front for ever, and no callback has been called.
abbrev pub Blocked : DramController → DramRequest → List DramRequest → DramController → Type 0
Blocked c r rest d =
    ((more : List DramRequest) × (d.pending_queue ≡ r ∷ (rest ++ more))) × (d.calls ≡ c.calls)

tick-Blocked :
    (spec : Ddr4) (clk : ℕ) (c : DramController) (r : DramRequest) (rest : List DramRequest)
    → c.pending_queue ≡ r ∷ rest
    → r.callback ≡ none
    → Partial (Blocked c r rest) (tick spec clk c)
unfolding serve_pending serve_first complete
tick-Blocked spec clk c r rest e h =
    let c' = record c { curr_clk = clk } in
    let stays : serve_first c.pending_queue c' ≡ c' =
      ap (λ q. serve_first q c') e ∙ (elim (Bool-cases (leb r.depart clk)) [
        | inl due ↦ rw due (ap (λ o. complete o r rest c') h)
        | inr early ↦ rw early refl
      ]) in
    Partial-mono (tick-Continues spec clk c) (λ d (g, (more, p), s). (
      (more, p ∙ ap (λ x. x.pending_queue ++ more) stays ∙ ap (λ q. q ++ more) e),
      s ∙ ap (λ x. x.calls) stays,
    ))

Ticks-Blocked :
    (spec : Ddr4) {c d : DramController} (r : DramRequest) (rest : List DramRequest)
    → c.pending_queue ≡ r ∷ rest
    → r.callback ≡ none
    → Ticks spec c d
    → Blocked c r rest d
Ticks-Blocked spec r rest e h start = (([], e ∙ ap (λ q. r ∷ q) (sym (append-nil rest))), refl)
Ticks-Blocked spec r rest e h (next_tick {d} us clk t) =
    let ((more, p), s) = Ticks-Blocked spec r rest e h us in
    let ((more', p'), s') = Partial-at (tick-Blocked spec clk d r (rest ++ more) p h) t in
    ((more ++ more', p' ∙ ap (λ q. r ∷ q) (append_assoc rest more more')), s' ∙ s)

-- Where the first of the pending reads has no callback, then after any ticks that return no
-- callback has been called, whatever reads wait behind it, and the controller is pending.
pub no_callback-blocks :
    (spec : Ddr4) {c d : DramController} (r : DramRequest) (rest : List DramRequest)
    → c.pending_queue ≡ r ∷ rest
    → r.callback ≡ none
    → Ticks spec c d
    → (pending d ≡ true) × (d.calls ≡ c.calls)
unfolding pending
no_callback-blocks spec {d} r rest e h us =
    let ((more, p), s) = Ticks-Blocked spec r rest e h us in
    (ap (λ q. elim q [ [] ↦ false | x ∷ xs ↦ true ]) p, s)
