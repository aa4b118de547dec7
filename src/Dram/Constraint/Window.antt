-- ===== src/Dram/Constraint/Window.antt =====
-- src/general/dram.h, `update_timing`: the clock -1 of the constructor. `clk_t` is unsigned, so the test
-- `past_clk < 0` never skips it, and the sum with a delay wraps around.
use vans.Base.{
  ℕ, zero, suc, ◌+◌, ◌-◌, ◌^◌, ◌≤◌, ◌<◌, ◌≡◌, refl, sym, ap, ◌∙◌, true, List, ◌∷◌, some, get_or,
  pop_back, replicate, Has, Has-get_elem, All-Has, arith, ok, Partial, Partial-at, Partial-bind,
  Partial-both, returned,
}
use vans.Common.{clk_invalid}
use vans.Dram.Clocks.{NodeOk, update-NodeOk}
use vans.Dram.Constraint.{Has-dist}
use vans.Dram.Constraint.Respected.{
  IsQuick, new_channel-Every, new_channel-Placed, new_children-Every, table_ok, at-Has, level-eq,
}
use vans.Dram.Ddr4.{Level, rank, bank_group, bank, State, Command, Timing, Ddr4}
use vans.Dram.Ddr4.Rules.{Rule, ddr4, timing_rules, following_fourth}
use vans.Dram.Node.{Node, Dram, max_dist, new_node, new_bank, new_bank_group, new_rank, new_channel}
use vans.Dram.Nodes.{every, no_child}
use vans.Dram.Nodes.Timed.{EveryNode, with_clk-EveryNode, update_state-EveryNode}
use vans.Dram.Path.Ready.{node_at-check}
use vans.Dram.Path.{
  node_at, Grows-Placed, node_at-Placed, node_at-Grows, node_at-Every, node_at-update_timing,
  node_at-agree,
}
use vans.Dram.Shape.{Grows-trans, with_clk-Grows, update_state-Grows, update-Grows}
use vans.Dram.Timing.{own_next-Has}
use vans.Dram.Tree.{check, is_busy, own_timing, push_clk, update, with_clk}

-- No command has been recorded at the node.
IsUnused : Ddr4 → Node → Type 0
IsUnused spec n =
    (c : Command) → n.prev c ≡ replicate (max_dist (spec.timing_table n.level c)) (2 ^ 64 - 1)

new_channel-IsUnused : (spec : Ddr4) → EveryNode (IsUnused spec) (new_channel spec)
unfolding new_channel new_rank new_bank_group new_bank new_node IsUnused
new_channel-IsUnused spec =
    let P = λ (l : ℕ). IsUnused spec in
    every (λ c. refl)
      (new_children-Every P 1 (new_rank spec) 0 (spec.count rank) (λ i.
        every (λ c. refl)
          (new_children-Every P 2 (new_bank_group spec) 0 (spec.count bank_group) (λ j.
            every (λ c. refl)
              (new_children-Every P 3 (new_bank spec) 0 (spec.count bank)
                (λ k. every (λ c. refl) no_child))))))

pop_back-replicate : (n x : ℕ) → pop_back (replicate (suc n) x) ≡ replicate n x
pop_back-replicate zero x = refl
pop_back-replicate (suc n) x = ap (λ l. x ∷ l) (pop_back-replicate n x)

fourth_unset :
    (clk n : ℕ) → 4 ≤ n → get_or (push_clk clk (replicate n (2 ^ 64 - 1))) 3 0 ≡ 2 ^ 64 - 1
unfolding push_clk
fourth_unset clk (suc (suc (suc (suc n)))) h =
    ap (λ l. get_or l 2 0) (pop_back-replicate (suc (suc (suc n))) (2 ^ 64 - 1))
fourth_unset clk zero h = absurd (omega arith)
fourth_unset clk (suc zero) h = absurd (omega arith)
fourth_unset clk (suc (suc zero)) h = absurd (omega arith)
fourth_unset clk (suc (suc (suc zero))) h = absurd (omega arith)

pub window_rule : Timing → Rule
window_rule t = following_fourth rank Command.act Command.act t.n_faw

window_rule-Has : (t : Timing) → Has (window_rule t) (timing_rules t)
unfolding timing_rules window_rule
window_rule-Has t = Has-get_elem (timing_rules t) 51 refl

module _ (t : Timing) (count : Level → ℕ) (horizon : ℕ) (quick : IsQuick horizon t) where
  -- What the first activation leaves behind at its rank.
  Waiting : List ℕ → Dram → Type 0
  Waiting addr e = (n : Node) × (node_at 1 addr e ≡ some n) × (t.n_faw ≤ n.next Command.act + 1)

  update-Waiting :
      (addr : List ℕ) (clk : ℕ) {n : Node}
      → node_at 1 addr (new_channel (ddr4 t count)) ≡ some n
      → get_or addr 0 0 ≡ 0
      → Partial
          (Waiting addr)
          (update (ddr4 t count) Command.act addr clk (new_channel (ddr4 t count)))
  unfolding update Waiting IsUnused own_timing ddr4 window_rule
  update-Waiting addr clk {n} at_n a =
      let spec = ddr4 t count in
      let d = new_channel spec in
      let P = IsUnused spec in
      let timed =
        λ (n : Node) (s : State) (rows : List (ℕ × State)) (clk : ℕ) (u : IsUnused spec n). u in
      Partial-bind
        (Partial-both (update_state-Grows Command.act addr (with_clk clk d)) (
          update_state-EveryNode P timed Command.act addr
            (with_clk-EveryNode P timed clk (new_channel-IsUnused spec))))
        (λ m (g, w).
          let grown = Grows-trans (with_clk-Grows clk d) g in
          let (n', at_n', later) = node_at-Grows 1 addr grown at_n in
          let placed = Grows-Placed 0 0 grown (new_channel-Placed spec) in
          let unused = node_at-Every (λ l. P) 1 0 addr w at_n' Command.act in
          let at_rank : n'.level ≡ rank =
            level-eq n'.level rank (node_at-Placed 1 0 0 addr m placed at_n') in
          let entry : Has (window_rule t).entry (spec.timing_table n'.level Command.act) =
            rw at_rank (at-Has (window_rule t) (timing_rules t) (window_rule-Has t)) in
          let far = Has-dist (window_rule t).entry (spec.timing_table n'.level Command.act) entry in
          let waits =
            own_next-Has (push_clk clk (n'.prev Command.act)) (window_rule t).entry
              (spec.timing_table n'.level Command.act) n'.next entry refl in
          let unset : get_or (push_clk clk (n'.prev Command.act)) 3 0 ≡ 2 ^ 64 - 1 =
            ap (λ ps. get_or (push_clk clk ps) 3 0) unused
            ∙ fourth_unset clk (max_dist (spec.timing_table n'.level Command.act)) far in
          let fits =
            All-Has (λ (r : Rule). horizon + r.entry.delay < clk_invalid) (window_rule t)
              (timing_rules t) quick.fits (window_rule-Has t) in
          let w3 = quick.window in
          returned (
            own_timing spec Command.act clk n',
            node_at-update_timing spec Command.act addr clk 1 0 0 m placed a at_n',
            omega (arith, waits, unset),
          ))

  -- Where the delays leave room for the clocks up to the horizon: after the first activation, at
  -- any of these clocks, in channel 0 as it is constructed, no bank of the same rank may be
  -- activated before the clock `nFAW - 1`: the window of four activations delays the second.
  pub first_activation-delays :
      {e : Dram} {n : Node} (addr addr' : List ℕ) (clk clk' : ℕ)
      → node_at 1 addr (new_channel (ddr4 t count)) ≡ some n
      → get_or addr 0 0 ≡ 0
      → ((k : ℕ) → k ≤ 1 → get_or addr k 0 ≡ get_or addr' k 0)
      → clk ≤ horizon
      → update (ddr4 t count) Command.act addr clk (new_channel (ddr4 t count)) ≡ ok e
      → check Command.act addr' clk' e ≡ ok true
      → t.n_faw ≤ clk' + 1
  unfolding Waiting is_busy
  first_activation-delays {e} addr addr' clk clk' at_n a agree h u c =
      let spec = ddr4 t count in
      let d = new_channel spec in
      let (n', at_n', waits) = Partial-at (update-Waiting addr clk at_n a) u in
      let placed =
        Grows-Placed 0 0 (Partial-at (update-Grows spec Command.act addr clk d) u)
          (new_channel-Placed spec) in
      let at_addr' =
        sym (node_at-agree 1 0 0 addr addr' e placed (λ k b. agree k (omega arith))) ∙ at_n' in
      let ready = node_at-check Command.act addr' clk' 1 0 0 e placed (omega arith) c at_addr' in
      let timed =
        Partial-at
          (update-NodeOk spec horizon (table_ok t count horizon quick) Command.act clk h addr
            (new_channel-Every spec horizon))
          u in
      let valid =
        (node_at-Every (λ l. NodeOk spec horizon) 1 0 addr timed at_n').valid Command.act in
      ground arith
