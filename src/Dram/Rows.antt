-- ===== src/Dram/Rows.antt =====
-- src/general/ddr4.cpp and dram.h: the states that the commands of the scheduler leave behind. The
-- ranks stay powered up, each bank is closed or open, and a bank has no children.
pub mod Decode
pub mod Ready
pub mod Update
use vans.Base.{
  ℕ, zero, suc, ◌+◌, ◌≡◌, refl, sym, ap, subst, ◌∙◌, ◌⊎◌, inl, inr, Bool, true, false, List, [],
  ◌∷◌, get_or, arith, ok, Partial, Partial-bind, returned,
}
use vans.Dram.Ddr4.{
  Level, channel, rank, bank_group, bank, row, col, State, Command, Ddr4, level_index,
}
use vans.Dram.Node.{Node, Dram, Drams, node, nil, cons}
use vans.Dram.Nodes.{
  Every, EveryChild, every, no_child, each_child, update_state-Every, update_timing-Every,
}
use vans.Dram.Tables.{
  state_trans, rank_trans, bank_trans, close_groups, close_banks, close, open_row,
}
use vans.Dram.Tree.{own_timing, sibling_timing, update, with_clk}

abbrev pub StateAt : ℕ → State → Type 0
StateAt zero s = Unit
StateAt (suc zero) s = s ≡ State.pwr_up
StateAt (suc (suc zero)) s = Unit
StateAt (suc (suc (suc zero))) s = (s ≡ State.closed) ⊎ (s ≡ State.opened)
StateAt (suc (suc (suc (suc l)))) s = ⊥

abbrev pub Settled : ℕ → Node → Type 0
Settled l n = (level_index n.level ≡ l) × StateAt l n.curr_state

-- The commands that the prerequisites of reads, writes and refreshes lead to.
pub data IsScheduled : Command → Type 0 where
  act_scheduled : IsScheduled Command.act
  pre_scheduled : IsScheduled Command.pre
  prea_scheduled : IsScheduled Command.prea
  rd_scheduled : IsScheduled Command.rd
  wr_scheduled : IsScheduled Command.wr
  ref_scheduled : IsScheduled Command.ref

close_banks-Settled :
    {banks : Drams} → EveryChild Settled 3 banks → EveryChild Settled 3 (close_banks banks)
unfolding close_banks close
close_banks-Settled no_child = no_child
close_banks-Settled (each_child (every p q) r) =
    each_child (every (p.0, inl refl) q) (close_banks-Settled r)

close_groups-Settled :
    {groups : Drams} → EveryChild Settled 2 groups → EveryChild Settled 2 (close_groups groups)
unfolding close_groups
close_groups-Settled no_child = no_child
close_groups-Settled (each_child (every p q) r) =
    each_child (every p (close_banks-Settled q)) (close_groups-Settled r)

rank_trans-Settled :
    {cmd : Command} {d : Dram}
    → IsScheduled cmd
    → Every Settled 1 d
    → Every Settled 1 (rank_trans cmd d)
unfolding rank_trans
rank_trans-Settled prea_scheduled (every p q) = every p (close_groups-Settled q)
rank_trans-Settled act_scheduled v = v
rank_trans-Settled pre_scheduled v = v
rank_trans-Settled rd_scheduled v = v
rank_trans-Settled wr_scheduled v = v
rank_trans-Settled ref_scheduled v = v

bank_trans-Settled :
    {cmd : Command} {d : Dram} (id : ℕ)
    → IsScheduled cmd
    → Every Settled 3 d
    → Every Settled 3 (bank_trans cmd id d)
unfolding bank_trans close open_row
bank_trans-Settled id act_scheduled (every p q) = every (p.0, inr refl) q
bank_trans-Settled id pre_scheduled (every p q) = every (p.0, inl refl) q
bank_trans-Settled id prea_scheduled v = v
bank_trans-Settled id rd_scheduled v = v
bank_trans-Settled id wr_scheduled v = v
bank_trans-Settled id ref_scheduled v = v

state_trans-Settled :
    (level : Level) {cmd : Command} {d : Dram} (l id : ℕ)
    → level_index level ≡ l
    → IsScheduled cmd
    → Every Settled l d
    → Every Settled l (state_trans level cmd id d)
unfolding state_trans
state_trans-Settled rank {cmd} {d} l id e s v =
    subst (λ k. Every Settled k (rank_trans cmd d)) e
      (rank_trans-Settled s (subst (λ k. Every Settled k d) (sym e) v))
state_trans-Settled bank {cmd} {d} l id e s v =
    subst (λ k. Every Settled k (bank_trans cmd id d)) e
      (bank_trans-Settled id s (subst (λ k. Every Settled k d) (sym e) v))
state_trans-Settled channel l id e s v = v
state_trans-Settled bank_group l id e s v = v
state_trans-Settled row l id e s v = v
state_trans-Settled col l id e s v = v

level_of : {l : ℕ} {n : Node} {ds : Drams} → Every Settled l (node n ds) → level_index n.level ≡ l
level_of (every p q) = p.0

pub with_clk-Settled : (clk : ℕ) {d : Dram} → Every Settled 0 d → Every Settled 0 (with_clk clk d)
with_clk-Settled clk (every p q) = every p q

-- A scheduled command keeps the ranks powered up and the banks closed or open.
pub update-Settled :
    (spec : Ddr4) {cmd : Command} (addr : List ℕ) (clk : ℕ) {d : Dram}
    → IsScheduled cmd
    → Every Settled 0 d
    → Partial (Every Settled 0) (update spec cmd addr clk d)
unfolding update own_timing sibling_timing
update-Settled spec {cmd} addr clk s v =
    Partial-bind
      (update_state-Every Settled cmd
        (λ l id n ds w. state_trans-Settled n.level l id (level_of w) s w) addr 0
        (with_clk-Settled clk v))
      (λ e w.
        returned (update_timing-Every Settled spec cmd clk (λ l n p. p) (λ l n p. p) addr 0 w))
