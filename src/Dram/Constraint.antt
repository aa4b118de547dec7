-- ===== src/Dram/Constraint.antt =====
-- src/general/dram.h and ddr4.cpp: the timing table is respected by the commands that the controller
pub mod Respected
pub mod Window
-- issues, since it issues a command only where `check` answers yes.
use native.Mathlib.Nat.{le_trans}
use vans.Base.{
  ℕ, zero, suc, ◌+◌, ◌-◌, ◌^◌, ◌≤◌, ◌<◌, max, ◌≡◌, refl, sym, ap, subst, ◌∙◌, ◌⊎◌, inl, inr, Bool,
  true, false, List, [], ◌∷◌, Option, some, if◌then◌else◌, get_or, replicate, length,
  length-replicate, All, All-Has, Has, arith, Bool-cases, ok, Partial, Partial-at, Partial-bind,
  Partial-both, returned,
}
use vans.Base.Bits.{add64}
use vans.Common.{clk_invalid}
use vans.Dram.Clocks.{EntryOk, TableOk, NodeOk, update_state-NodeOk, update-NodeOk}
use vans.Dram.Ddr4.{Level, Command, TimingEntry, Ddr4, level_index, scope}
use vans.Dram.Node.{Node, Dram, Drams, node, nil, cons, max_dist, new_channel}
use vans.Dram.Nodes.Timed.{EveryNode}
use vans.Dram.Path.Ready.{node_at-check}
use vans.Dram.Path.{
  node_at, Placed, Grows-Placed, node_at-Grows, node_at-Every, node_at-update_timing, node_at-agree,
}
use vans.Dram.Shape.{
  Later, Grows, Grows-refl, Grows-trans, update_state-Grows, update_timing-Grows, update-Grows,
  with_clk-Grows,
}
use vans.Dram.Timing.{own_next-Has}
use vans.Dram.Tree.{
  check, is_busy, own_timing, push_clk, update, update_state, update_timing, with_clk,
}

-- Updates of a channel, the last one outside, at clocks up to the horizon.
pub data Updates (spec : Ddr4) (horizon : ℕ) (d : Dram) : Dram → Type 0 where
  unchanged : Updates spec horizon d d
  updated :
      {e f : Dram}
      → Updates spec horizon d e
      → (cmd : Command) (addr : List ℕ) (clk : ℕ) → clk ≤ horizon
      → update spec cmd addr clk e ≡ ok f
      → Updates spec horizon d f

module _ (spec : Ddr4) (horizon : ℕ) (table : TableOk spec horizon) where
  Updates-Grows : {d e : Dram} → Updates spec horizon d e → Grows d e
  Updates-Grows {d} unchanged = Grows-refl d
  Updates-Grows (updated {e} us cmd addr clk h u) =
      Grows-trans (Updates-Grows us) (Partial-at (update-Grows spec cmd addr clk e) u)

  Updates-Every :
      {d e : Dram}
      → Updates spec horizon d e
      → EveryNode (NodeOk spec horizon) d
      → EveryNode (NodeOk spec horizon) e
  Updates-Every unchanged v = v
  Updates-Every (updated us cmd addr clk h u) v =
      Partial-at (update-NodeOk spec horizon table cmd clk h addr (Updates-Every us v)) u

pub Has-dist : (t : TimingEntry) (ts : List TimingEntry) → Has t ts → t.dist ≤ max_dist ts
unfolding max_dist
Has-dist t [] h = absurd h
Has-dist t (x ∷ ts) (inl e) = rw (sym e) (omega arith)
Has-dist t (x ∷ ts) (inr h) = omega (arith, Has-dist t ts h)

newest : (clk : ℕ) (ps : List ℕ) → 0 < length ps → get_or (push_clk clk ps) 0 0 ≡ clk
unfolding push_clk
newest clk [] h = absurd (omega arith)
newest clk (p ∷ ps) h = refl

module _ (spec : Ddr4) (horizon : ℕ) where
  -- What a command leaves behind at a node on its way, for each of its entries.
  Delays : Command → List ℕ → ℕ → ℕ → TimingEntry → Dram → Type 0
  Delays cmd addr clk depth t e =
      (n : Node) × (node_at depth addr e ≡ some n) × (add64 clk t.delay ≤ n.next t.cmd)

  update-Delays :
      (cmd : Command) (addr : List ℕ) (clk depth : ℕ) (t : TimingEntry) (d : Dram) (n : Node)
      → Placed 0 0 d
      → get_or addr 0 0 ≡ 0
      → EveryNode (NodeOk spec horizon) d
      → node_at depth addr d ≡ some n
      → Has t (spec.timing_table n.level cmd)
      → t.has_sibling ≡ false
      → t.dist ≡ 1
      → Partial (Delays cmd addr clk depth t) (update spec cmd addr clk d)
  unfolding update Delays own_timing
  update-Delays cmd addr clk depth t d n p a v at_n has own last =
      Partial-bind
        (Partial-both (update_state-Grows cmd addr (with_clk clk d))
          (update_state-NodeOk spec horizon cmd addr clk v))
        (λ m (g, w).
          let grown = Grows-trans (with_clk-Grows clk d) g in
          let (n', at_n', later) = node_at-Grows depth addr grown at_n in
          let ok_n' = node_at-Every (λ l. NodeOk spec horizon) depth 0 addr w at_n' in
          let entry : Has t (spec.timing_table n'.level cmd) =
            subst (λ l. Has t (spec.timing_table l cmd)) (sym later.0) has in
          let nonempty : 0 < length (n'.prev cmd) =
            omega (arith, ok_n'.sized cmd, Has-dist t _ entry) in
          let waits =
            own_next-Has (push_clk clk (n'.prev cmd)) t (spec.timing_table n'.level cmd) n'.next
              entry own in
          let at_zero : t.dist - 1 ≡ 0 = omega arith in
          let first = newest clk (n'.prev cmd) nonempty in
          returned (
            own_timing spec cmd clk n',
            node_at-update_timing spec cmd addr clk depth 0 0 m (Grows-Placed 0 0 grown p) a at_n',
            rw (at_zero, first) at waits,
          ))

  pub delay_respected :
      TableOk spec horizon
      → {d e f : Dram} {n : Node} (cmd : Command) (addr addr' : List ℕ) (clk clk' depth : ℕ)
        (t : TimingEntry)
      → Placed 0 0 d
      → EveryNode (NodeOk spec horizon) d
      → node_at depth addr d ≡ some n
      → Has t (spec.timing_table n.level cmd)
      → t.has_sibling ≡ false
      → t.dist ≡ 1
      → depth ≤ level_index (scope t.cmd)
      → get_or addr 0 0 ≡ 0
      → ((k : ℕ) → k ≤ depth → get_or addr k 0 ≡ get_or addr' k 0)
      → clk ≤ horizon
      → update spec cmd addr clk d ≡ ok e
      → Updates spec horizon e f
      → check t.cmd addr' clk' f ≡ ok true
      → add64 clk t.delay ≤ clk'
  unfolding Delays is_busy
  delay_respected table {d} {e} {f} {n} cmd addr addr' clk clk' depth t p v at_n has own last deep a
        agree h u us c =
      let (n', at_n', waits) =
        Partial-at (update-Delays cmd addr clk depth t d n p a v at_n has own last) u in
      let to_e = Partial-at (update-Grows spec cmd addr clk d) u in
      let to_f = Updates-Grows spec horizon table us in
      let (n'', at_n'', later) = node_at-Grows depth addr to_f at_n' in
      let placed = Grows-Placed 0 0 (Grows-trans to_e to_f) p in
      let at_addr' =
        sym (node_at-agree depth 0 0 addr addr' f placed (λ k b. agree k (omega arith))) ∙ at_n'' in
      let ready = node_at-check t.cmd addr' clk' depth 0 0 f placed (omega arith) c at_addr' in
      let timed_f =
        Updates-Every spec horizon table us
          (Partial-at (update-NodeOk spec horizon table cmd clk h addr v) u) in
      let valid =
        (node_at-Every (λ l. NodeOk spec horizon) depth 0 addr timed_f at_n'').valid t.cmd in
      let grown = later.2 t.cmd in ground arith
