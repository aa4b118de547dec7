-- ===== src/Dram/Nodes/Timed.antt =====
-- src/general/dram.h: a property of the level and the clocks of single nodes is kept by each
-- transition, since those change states and rows only.
use vans.Base.{ℕ, suc, List, [], Partial, returned, Partial-bind}
use vans.Dram.Ddr4.{Level, State, Command, Ddr4}
use vans.Dram.Node.{Node, Dram, Drams, node}
use vans.Dram.Nodes.{
  Every, EveryChild, every, no_child, each_child, update_state-Every, update_timing-Every,
}
use vans.Dram.Tables.{
  state_trans, rank_trans, bank_trans, close_groups, close_banks, close, open_row,
}
use vans.Dram.Tree.{update_state, own_timing, sibling_timing, update, with_clk}

module _ (P : Node → Type 0) where
  abbrev pub EveryNode : Dram → Type 0
  EveryNode d = Every (λ l. P) 0 d

  abbrev At : ℕ → Dram → Type 0
  At l d = Every (λ l. P) l d

  abbrev In : ℕ → Drams → Type 0
  In l ds = EveryChild (λ l. P) l ds

  module _
      (timed : (n : Node) (s : State) (rows : List (ℕ × State)) (clk : ℕ)
        → P n
        → P (record n { curr_state = s; row_state = rows; curr_clk = clk })) where
    change :
        (l : ℕ) {n : Node} {ds : Drams} (s : State) (rows : List (ℕ × State))
        → At l (node n ds)
        → At l (node (record n { curr_state = s; row_state = rows }) ds)
    change l {n} s rows (every p q) = every (timed n s rows n.curr_clk p) q

    close_banks-Every : (l : ℕ) {banks : Drams} → In l banks → In l (close_banks banks)
    unfolding close_banks close
    close_banks-Every l no_child = no_child
    close_banks-Every l (each_child (every p q) r) =
        each_child (change l State.closed [] (every p q)) (close_banks-Every l r)

    close_groups-Every : (l : ℕ) {groups : Drams} → In l groups → In l (close_groups groups)
    unfolding close_groups
    close_groups-Every l no_child = no_child
    close_groups-Every l (each_child (every p q) r) =
        each_child (every p (close_banks-Every (suc l) q)) (close_groups-Every l r)

    rank_trans-Every : (c : Command) (l : ℕ) {d : Dram} → At l d → At l (rank_trans c d)
    unfolding rank_trans
    rank_trans-Every Command.prea l (every p q) = every p (close_groups-Every (suc l) q)
    rank_trans-Every Command.pde l (every {n} p q) = change l _ n.row_state (every p q)
    rank_trans-Every Command.pdx l (every {n} p q) = change l State.pwr_up n.row_state (every p q)
    rank_trans-Every Command.sre l (every {n} p q) =
        change l State.self_refresh n.row_state (every p q)
    rank_trans-Every Command.srx l (every {n} p q) = change l State.pwr_up n.row_state (every p q)
    rank_trans-Every Command.ref l v = v
    rank_trans-Every Command.act l v = v
    rank_trans-Every _ l v = v

    bank_trans-Every : (c : Command) (l id : ℕ) {d : Dram} → At l d → At l (bank_trans c id d)
    unfolding bank_trans open_row close
    bank_trans-Every Command.act l id (every p q) = change l State.opened _ (every p q)
    bank_trans-Every Command.pre l id (every p q) = change l State.closed [] (every p q)
    bank_trans-Every Command.rda l id (every p q) = change l State.closed [] (every p q)
    bank_trans-Every Command.wra l id (every p q) = change l State.closed [] (every p q)
    bank_trans-Every Command.rd l id v = v
    bank_trans-Every _ l id v = v

    state_trans-Every :
        (level : Level) (c : Command) (l id : ℕ) {d : Dram}
        → At l d
        → At l (state_trans level c id d)
    unfolding state_trans
    state_trans-Every Level.rank c l id v = rank_trans-Every c l v
    state_trans-Every Level.bank c l id v = bank_trans-Every c l id v
    state_trans-Every Level.channel c l id v = v
    state_trans-Every _ c l id v = v

    pub with_clk-EveryNode : (clk : ℕ) {d : Dram} → EveryNode d → EveryNode (with_clk clk d)
    with_clk-EveryNode clk (every {n} p q) = every (timed n n.curr_state n.row_state clk p) q

    pub update_state-EveryNode :
        (cmd : Command) (addr : List ℕ) {d : Dram}
        → EveryNode d
        → Partial EveryNode (update_state cmd addr d)
    update_state-EveryNode cmd addr v =
        update_state-Every (λ l. P) cmd (λ l id n ds. state_trans-Every n.level cmd l id) addr 0 v

    module _ (spec : Ddr4) (cmd : Command) (clk : ℕ)
        (own : (n : Node) → P n → P (own_timing spec cmd clk n))
        (sibling : (n : Node) → P n → P (sibling_timing spec cmd clk n)) where
      pub update-EveryNode :
          (addr : List ℕ) {d : Dram} → EveryNode d → Partial EveryNode (update spec cmd addr clk d)
      unfolding update
      update-EveryNode addr v =
          Partial-bind (update_state-EveryNode cmd addr (with_clk-EveryNode clk v)) (λ e w.
            returned (update_timing-Every (λ l. P) spec cmd clk (λ l. own) (λ l. sibling) addr 0 w))
