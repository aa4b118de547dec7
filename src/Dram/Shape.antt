-- ===== src/Dram/Shape.antt =====
-- src/general/dram.h: what the updates keep of the tree. A walk over the tree leaves its shape, the
-- levels and the identifiers alone, and no clock of `next` falls; a property of single nodes that each
-- change of a node keeps is kept for all nodes.
use vans.Base.{
  ℕ, zero, suc, ◌≤◌, ◌≡◌, refl, ◌∙◌, List, [], arith, Bool-cases, inl, inr, Partial, returned,
  thrown, Partial-bind,
}
use vans.Dram.Ddr4.{Level, State, Command, Ddr4}
use vans.Dram.Node.{Node, Dram, Drams, node, nil, cons, node_of}
use vans.Dram.Tables.{
  state_trans, rank_trans, bank_trans, close_groups, close_banks, close, open_row,
}
use vans.Dram.Tree.{
  child_id, ends_at, update_state, own_timing, sibling_timing, is_addressed, update_timing, update,
  push_clk, update_timings, update_state_child, with_clk,
}
use vans.Dram.Timing.{own_next-le, sibling_next-le}

-- A node after some updates: only its state, its rows and its clocks differ.
abbrev pub Later : Node → Node → Type 0
Later n n' = (n'.level ≡ n.level) × (n'.id ≡ n.id) × ((c : Command) → n.next c ≤ n'.next c)

mutual
  pub data Grows : Dram → Dram → Type 0 where
    grown :
        {n n' : Node} {ds ds' : Drams}
        → Later n n'
        → GrowsAll ds ds'
        → Grows (node n ds) (node n' ds')

  pub data GrowsAll : Drams → Drams → Type 0 where
    none_grown : GrowsAll nil nil
    all_grown :
        {d d' : Dram} {ds ds' : Drams}
        → Grows d d'
        → GrowsAll ds ds'
        → GrowsAll (cons d ds) (cons d' ds')

mutual
  pub Grows-refl : (d : Dram) → Grows d d
  Grows-refl (node n ds) = grown (refl, refl, λ c. omega arith) (GrowsAll-refl ds)

  pub GrowsAll-refl : (ds : Drams) → GrowsAll ds ds
  GrowsAll-refl nil = none_grown
  GrowsAll-refl (cons d ds) = all_grown (Grows-refl d) (GrowsAll-refl ds)

Later-trans : (l m n : Node) → Later l m → Later m n → Later l n
Later-trans l m n a b = (b.0 ∙ a.0, b.1 ∙ a.1, λ c. omega (arith, a.2 c, b.2 c))

mutual
  pub Grows-trans : {d e f : Dram} → Grows d e → Grows e f → Grows d f
  Grows-trans (grown {n = l} {n' = m} a p) (grown {n' = n} b q) =
      grown (Later-trans l m n a b) (GrowsAll-trans p q)

  pub GrowsAll-trans : {d e f : Drams} → GrowsAll d e → GrowsAll e f → GrowsAll d f
  GrowsAll-trans none_grown q = q
  GrowsAll-trans (all_grown a p) (all_grown b q) = all_grown (Grows-trans a b) (GrowsAll-trans p q)

pub moved :
    (n : Node) (s : State) (rows : List (ℕ × State)) (ds : Drams)
    → Grows (node n ds) (node (record n { curr_state = s; row_state = rows }) ds)
moved n s rows ds = grown (refl, refl, λ c. omega arith) (GrowsAll-refl ds)

close_banks-GrowsAll : (banks : Drams) → GrowsAll banks (close_banks banks)
unfolding close_banks close
close_banks-GrowsAll nil = none_grown
close_banks-GrowsAll (cons (node n ds) banks) =
    all_grown (moved n State.closed [] ds) (close_banks-GrowsAll banks)

close_groups-GrowsAll : (groups : Drams) → GrowsAll groups (close_groups groups)
unfolding close_groups
close_groups-GrowsAll nil = none_grown
close_groups-GrowsAll (cons (node n banks) groups) =
    all_grown (grown (refl, refl, λ c. omega arith) (close_banks-GrowsAll banks))
      (close_groups-GrowsAll groups)

rank_trans-Grows : (c : Command) (d : Dram) → Grows d (rank_trans c d)
unfolding rank_trans
rank_trans-Grows Command.prea (node n groups) =
    grown (refl, refl, λ c. omega arith) (close_groups-GrowsAll groups)
rank_trans-Grows Command.pde (node n groups) = moved n _ n.row_state groups
rank_trans-Grows Command.pdx (node n groups) = moved n State.pwr_up n.row_state groups
rank_trans-Grows Command.sre (node n groups) = moved n State.self_refresh n.row_state groups
rank_trans-Grows Command.srx (node n groups) = moved n State.pwr_up n.row_state groups
rank_trans-Grows Command.ref d = Grows-refl d
rank_trans-Grows Command.act d = Grows-refl d
rank_trans-Grows _ d = Grows-refl d

bank_trans-Grows : (c : Command) (id : ℕ) (d : Dram) → Grows d (bank_trans c id d)
unfolding bank_trans open_row close
bank_trans-Grows Command.act id (node n ds) = moved n State.opened _ ds
bank_trans-Grows Command.pre id (node n ds) = moved n State.closed [] ds
bank_trans-Grows Command.rda id (node n ds) = moved n State.closed [] ds
bank_trans-Grows Command.wra id (node n ds) = moved n State.closed [] ds
bank_trans-Grows Command.rd id d = Grows-refl d
bank_trans-Grows _ id d = Grows-refl d

state_trans-Grows : (l : Level) (c : Command) (id : ℕ) (d : Dram) → Grows d (state_trans l c id d)
unfolding state_trans
state_trans-Grows Level.rank c id d = rank_trans-Grows c d
state_trans-Grows Level.bank c id d = bank_trans-Grows c id d
state_trans-Grows Level.channel c id d = Grows-refl d
state_trans-Grows _ c id d = Grows-refl d

own_timing-Later :
    (spec : Ddr4) (cmd : Command) (clk : ℕ) (n : Node) → Later n (own_timing spec cmd clk n)
unfolding own_timing
own_timing-Later spec cmd clk n =
    (refl, refl, own_next-le (push_clk clk (n.prev cmd)) (spec.timing_table n.level cmd) n.next)

sibling_timing-Later :
    (spec : Ddr4) (cmd : Command) (clk : ℕ) (n : Node) → Later n (sibling_timing spec cmd clk n)
unfolding sibling_timing
sibling_timing-Later spec cmd clk n =
    (refl, refl, sibling_next-le clk (spec.timing_table n.level cmd) n.next)

mutual
  unfolding update_timing

  pub update_timing-Grows :
      (spec : Ddr4) (cmd : Command) (addr : List ℕ) (clk : ℕ) (d : Dram)
      → Grows d (update_timing spec cmd addr clk d)
  update_timing-Grows spec cmd addr clk (node n ds) = elim (Bool-cases (is_addressed n addr)) [
    | inl here ↦
        rw here
          (grown (own_timing-Later spec cmd clk n) (update_timings-GrowsAll spec cmd addr clk ds))
    | inr elsewhere ↦ rw elsewhere (grown (sibling_timing-Later spec cmd clk n) (GrowsAll-refl ds))
  ]

  pub update_timings-GrowsAll :
      (spec : Ddr4) (cmd : Command) (addr : List ℕ) (clk : ℕ) (ds : Drams)
      → GrowsAll ds (update_timings spec cmd addr clk ds)
  update_timings-GrowsAll spec cmd addr clk nil = none_grown
  update_timings-GrowsAll spec cmd addr clk (cons d ds) =
      all_grown (update_timing-Grows spec cmd addr clk d)
        (update_timings-GrowsAll spec cmd addr clk ds)

root_grown :
    {n : Node} {ds es : Drams} {d : Dram}
    → Grows (node n ds) d
    → GrowsAll ds es
    → Grows (node n ds) (node (node_of d) es)
root_grown (grown a p) q = grown a q

mutual
  unfolding update_state

  pub update_state-Grows :
      (cmd : Command) (addr : List ℕ) (d : Dram) → Partial (Grows d) (update_state cmd addr d)
  update_state-Grows cmd addr (node n ds) =
      let here = state_trans-Grows n.level cmd (child_id n addr) (node n ds) in
      let below = update_state_child-GrowsAll cmd addr (child_id n addr) ds in
      elim (Bool-cases (ends_at cmd n ds)) [
        | inl done ↦ rw done (returned here)
        | inr more ↦ rw more (Partial-bind below (λ es q. returned (root_grown here q)))
      ]

  pub update_state_child-GrowsAll :
      (cmd : Command) (addr : List ℕ) (i : ℕ) (ds : Drams)
      → Partial (GrowsAll ds) (update_state_child cmd addr i ds)
  update_state_child-GrowsAll cmd addr i nil = thrown
  update_state_child-GrowsAll cmd addr zero (cons d ds) =
      Partial-bind (update_state-Grows cmd addr d)
        (λ e q. returned (all_grown q (GrowsAll-refl ds)))
  update_state_child-GrowsAll cmd addr (suc i) (cons d ds) =
      Partial-bind (update_state_child-GrowsAll cmd addr i ds)
        (λ es q. returned (all_grown (Grows-refl d) q))

pub with_clk-Grows : (clk : ℕ) (d : Dram) → Grows d (with_clk clk d)
with_clk-Grows clk (node n ds) = grown (refl, refl, λ c. omega arith) (GrowsAll-refl ds)

pub update-Grows :
    (spec : Ddr4) (cmd : Command) (addr : List ℕ) (clk : ℕ) (d : Dram)
    → Partial (Grows d) (update spec cmd addr clk d)
unfolding update
update-Grows spec cmd addr clk d =
    Partial-bind (update_state-Grows cmd addr (with_clk clk d)) (λ e q. returned (
      Grows-trans (Grows-trans (with_clk-Grows clk d) q) (update_timing-Grows spec cmd addr clk e)))
