-- ===== src/Dram/Rows/Ready.antt =====
-- src/general/dram.h, `check`: whether a command is ready can be answered where its address leads to
-- its scope, or to a bank.
use vans.Base.{
  ℕ, zero, suc, ◌+◌, ◌≡◌, refl, subst, ◌⊎◌, inl, inr, true, false, List, some, arith, Bool-cases,
  Returns, returns,
}
use vans.Dram.Ddr4.{Command, level_index, scope}
use vans.Dram.Node.{Node, Dram, Drams, node}
use vans.Dram.Nodes.{Every, EveryChild, every, no_child, each_child}
use vans.Dram.Path.{node_at, node_in}
use vans.Dram.Rows.{StateAt, Settled}
use vans.Dram.Tree.{child_id, check, check_child, ends_at, is_busy, has_children}

-- The walk for a command ends at this depth at the latest.
abbrev pub EndsBy : ℕ → Command → Type 0
EndsBy depth cmd = (depth ≡ level_index (scope cmd)) ⊎ (depth ≡ 3)

no_leaf_children : {l : ℕ} {ds : Drams} → l ≡ 4 → EveryChild Settled l ds → has_children ds ≡ false
no_leaf_children e no_child = refl
no_leaf_children e (each_child (every {n} p q) r) =
    absurd (subst (λ k. StateAt k n.curr_state) e p.1)

pub ends_at-EndsBy :
    (cmd : Command) (l : ℕ) {n : Node} {ds : Drams}
    → Every Settled l (node n ds)
    → EndsBy l cmd
    → ends_at cmd n ds ≡ true
unfolding ends_at
ends_at-EndsBy cmd l (every p q) (inl e) = let at = p.0 in ground arith
ends_at-EndsBy cmd l (every p q) (inr e) =
    let none_below = no_leaf_children (omega arith) q in ground arith

mutual
  unfolding node_at check

  pub check-Returns :
      (cmd : Command) (addr : List ℕ) (clk depth l : ℕ) {d : Dram} {n : Node}
      → Every Settled l d
      → node_at depth addr d ≡ some n
      → EndsBy (l + depth) cmd
      → Returns (λ b. Unit) (check cmd addr clk d)
  check-Returns cmd addr clk zero l (every {n = m} {ds} p q) h e =
      let last =
        ends_at-EndsBy cmd l {n = m} {ds = ds} (every p q)
          (subst (λ k. EndsBy k cmd) (omega arith) e) in
      elim (Bool-cases (is_busy cmd clk m)) [
        | inl busy ↦ rw busy (returns tt)
        | inr ready ↦ rw (ready, last) (returns tt)
      ]
  check-Returns cmd addr clk (suc depth) l (every {n = m} {ds} p q) h e =
      let below =
        check_child-Returns cmd addr clk depth (suc l) (child_id m addr) q h
          (subst (λ k. EndsBy k cmd) (omega arith) e) in
      elim (Bool-cases (is_busy cmd clk m)) [
        | inl busy ↦ rw busy (returns tt)
        | inr ready ↦ elim (Bool-cases (ends_at cmd m ds)) [
          | inl last ↦ rw (ready, last) (returns tt)
          | inr more ↦ rw (ready, more) below
        ]
      ]

  check_child-Returns :
      (cmd : Command) (addr : List ℕ) (clk depth l i : ℕ) {ds : Drams} {n : Node}
      → EveryChild Settled l ds
      → node_in depth addr i ds ≡ some n
      → EndsBy (l + depth) cmd
      → Returns (λ b. Unit) (check_child cmd addr clk i ds)
  check_child-Returns cmd addr clk depth l i no_child h e = cc
  check_child-Returns cmd addr clk depth l zero (each_child v r) h e =
      check-Returns cmd addr clk depth l v h e
  check_child-Returns cmd addr clk depth l (suc i) (each_child v r) h e =
      check_child-Returns cmd addr clk depth l i r h e
