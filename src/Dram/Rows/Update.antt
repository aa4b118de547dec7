-- ===== src/Dram/Rows/Update.antt =====
-- src/general/dram.h, `update`: a command whose address leads to its scope is carried out, and its
-- bank has the state and rows that the command gives it.
use vans.Base.{
  ℕ, zero, suc, ◌+◌, ◌<◌, ◌≤◌, ◌≡◌, refl, ap, ◌∙◌, inl, inr, List, none, some, get_or, arith,
  Bool-cases, Returns, returns, Returns-bind,
}
use vans.Dram.Ddr4.{
  Level, channel, rank, bank_group, bank, row, col, Command, Ddr4, level_index, scope,
}
use vans.Dram.Node.{Node, Dram, Drams, node, nil, cons}
use vans.Dram.Nodes.{Every, EveryChild, every, no_child, each_child}
use vans.Dram.Path.{node_at, node_in}
use vans.Dram.Path.Ready.{goes_on}
use vans.Dram.Rows.{Settled, with_clk-Settled}
use vans.Dram.Rows.Decode.{IsRefreshing, refreshes, closes_banks}
use vans.Dram.Rows.Ready.{ends_at-EndsBy}
use vans.Dram.Tables.{state_trans, close, open_row}
use vans.Dram.Tree.{
  child_id, update_state, update_state_child, own_timing, sibling_timing, is_addressed,
  update_timing, update_timings, update, with_clk,
}

-- The commands to one bank that an access needs.
pub data IsBankCommand : Command → Type 0 where
  activates : IsBankCommand Command.act
  precharges : IsBankCommand Command.pre
  reads : IsBankCommand Command.rd
  writes : IsBankCommand Command.wr

abbrev pub bank_node : Command → ℕ → Node → Node
bank_node Command.act id n = open_row id n
bank_node Command.pre id n = close n
bank_node _ id n = n

state_trans-bank :
    {cmd : Command} (b : IsBankCommand cmd) (level : Level) (id : ℕ) (n : Node) (ds : Drams)
    → level_index level ≡ 3
    → state_trans level cmd id (node n ds) ≡ node (bank_node cmd id n) ds
unfolding state_trans
state_trans-bank activates bank id n ds h = refl
state_trans-bank precharges bank id n ds h = refl
state_trans-bank reads bank id n ds h = refl
state_trans-bank writes bank id n ds h = refl
state_trans-bank b channel id n ds h = absurd (omega arith)
state_trans-bank b rank id n ds h = absurd (omega arith)
state_trans-bank b bank_group id n ds h = absurd (omega arith)
state_trans-bank b row id n ds h = absurd (omega arith)
state_trans-bank b col id n ds h = absurd (omega arith)

state_trans-above :
    {cmd : Command} (b : IsBankCommand cmd) (level : Level) (id : ℕ) (d : Dram)
    → level_index level < 3
    → state_trans level cmd id d ≡ d
unfolding state_trans
state_trans-above activates rank id d h = refl
state_trans-above precharges rank id d h = refl
state_trans-above reads rank id d h = refl
state_trans-above writes rank id d h = refl
state_trans-above b channel id d h = refl
state_trans-above b bank_group id d h = refl
state_trans-above b bank id d h = absurd (omega arith)
state_trans-above b row id d h = absurd (omega arith)
state_trans-above b col id d h = absurd (omega arith)

deep_scope : {cmd : Command} → IsBankCommand cmd → 3 ≤ level_index (scope cmd)
deep_scope activates = omega arith
deep_scope precharges = omega arith
deep_scope reads = omega arith
deep_scope writes = omega arith

mutual
  unfolding node_at update_state

  update_state-bank :
      {cmd : Command} (b : IsBankCommand cmd) (addr : List ℕ) (depth l : ℕ) {d : Dram} {n : Node}
      → Every Settled l d
      → node_at depth addr d ≡ some n
      → l + depth ≡ 3
      → Returns
          (λ e. node_at depth addr e ≡ some (bank_node cmd (get_or addr 4 0) n))
          (update_state cmd addr d)
  update_state-bank {cmd} b addr zero l (every {n = m} {ds} p q) h e =
      let last = ends_at-EndsBy cmd l {n = m} {ds = ds} (every p q) (inr (omega arith)) in
      let at_bank : level_index m.level ≡ 3 = omega (arith, p.0) in
      let moved = state_trans-bank b m.level (child_id m addr) m ds at_bank in
      let same : m ≡ _ = ap (λ o. elim o [ none ↦ m | some x ↦ x ]) h in
      rw (last, moved)
        (returns (
          ap (λ k. some (bank_node cmd (get_or addr (k + 1) 0) m)) at_bank
          ∙ ap (λ x. some (bank_node cmd (get_or addr 4 0) x)) same))
  update_state-bank {cmd} b addr (suc depth) l (every {n = m} {ds} p q) h e =
      let deep = deep_scope b in
      let more = goes_on cmd depth (child_id m addr) addr m ds (omega (arith, p.0)) h in
      let still = state_trans-above b m.level (child_id m addr) (node m ds) (omega (arith, p.0)) in
      rw (more, still)
        (Returns-bind
          (update_state_child-bank b addr depth (suc l) (child_id m addr) q h (omega arith))
          (λ es r. returns r))

  update_state_child-bank :
      {cmd : Command} (b : IsBankCommand cmd) (addr : List ℕ) (depth l i : ℕ) {ds : Drams}
      {n : Node}
      → EveryChild Settled l ds
      → node_in depth addr i ds ≡ some n
      → l + depth ≡ 3
      → Returns
          (λ es. node_in depth addr i es ≡ some (bank_node cmd (get_or addr 4 0) n))
          (update_state_child cmd addr i ds)
  update_state_child-bank b addr depth l i no_child h e = cc
  update_state_child-bank b addr depth l zero (each_child v r) h e =
      Returns-bind (update_state-bank b addr depth l v h e) (λ x s. returns s)
  update_state_child-bank b addr depth l (suc i) (each_child v r) h e =
      Returns-bind (update_state_child-bank b addr depth l i r h e) (λ xs s. returns s)

pub rank_scope : {cmd : Command} → IsRefreshing cmd → level_index (scope cmd) ≡ 1
rank_scope refreshes = refl
rank_scope closes_banks = refl

mutual
  unfolding node_at update_state

  update_state-refresh :
      {cmd : Command} (b : IsRefreshing cmd) (addr : List ℕ) (depth l : ℕ) {d : Dram} {n : Node}
      → Every Settled l d
      → node_at depth addr d ≡ some n
      → l + depth ≡ 1
      → Returns (λ e. Unit) (update_state cmd addr d)
  update_state-refresh {cmd} b addr zero l (every {n = m} {ds} p q) h e =
      let s = rank_scope b in
      let last = ends_at-EndsBy cmd l {n = m} {ds = ds} (every p q) (inl (omega arith)) in
      rw last (returns tt)
  update_state-refresh {cmd} b addr (suc depth) l (every {n = m} {ds} p q) h e =
      let s = rank_scope b in
      let more = goes_on cmd depth (child_id m addr) addr m ds (omega (arith, p.0)) h in
      rw more (
        Returns-bind
          (update_state_child-refresh b addr depth (suc l) (child_id m addr) q h (omega arith))
          (λ es r. returns tt))

  update_state_child-refresh :
      {cmd : Command} (b : IsRefreshing cmd) (addr : List ℕ) (depth l i : ℕ) {ds : Drams} {n : Node}
      → EveryChild Settled l ds
      → node_in depth addr i ds ≡ some n
      → l + depth ≡ 1
      → Returns (λ es. Unit) (update_state_child cmd addr i ds)
  update_state_child-refresh b addr depth l i no_child h e = cc
  update_state_child-refresh b addr depth l zero (each_child v r) h e =
      Returns-bind (update_state-refresh b addr depth l v h e) (λ x s. returns tt)
  update_state_child-refresh b addr depth l (suc i) (each_child v r) h e =
      Returns-bind (update_state_child-refresh b addr depth l i r h e) (λ xs s. returns tt)

-- The timing of a command changes no state and no rows.
abbrev pub SameRows : Node → Node → Type 0
SameRows n n' = (n'.curr_state ≡ n.curr_state) × (n'.row_state ≡ n.row_state)

module _ (spec : Ddr4) (cmd : Command) (addr : List ℕ) (clk : ℕ) where
  mutual
    unfolding node_at update_timing own_timing sibling_timing

    timing-SameRows :
        (depth : ℕ) (a : List ℕ) (d : Dram) {n : Node}
        → node_at depth a d ≡ some n
        → (n' : Node) × (node_at depth a (update_timing spec cmd addr clk d) ≡ some n')
          × SameRows n n'
    timing-SameRows zero a (node m ds) h =
        let state : m.curr_state ≡ _ =
          ap (λ o. elim o [ none ↦ m.curr_state | some x ↦ x.curr_state ]) h in
        let rows : m.row_state ≡ _ =
          ap (λ o. elim o [ none ↦ m.row_state | some x ↦ x.row_state ]) h in
        elim (Bool-cases (is_addressed m addr)) [
          | inl here ↦ rw here (own_timing spec cmd clk m, refl, (state, rows))
          | inr elsewhere ↦ rw elsewhere (sibling_timing spec cmd clk m, refl, (state, rows))
        ]
    timing-SameRows (suc depth) a (node m ds) {n} h = elim (Bool-cases (is_addressed m addr)) [
      | inl here ↦ rw here (timings-SameRows depth a (child_id m a) ds h)
      | inr elsewhere ↦ rw elsewhere (n, h, (refl, refl))
    ]

    timings-SameRows :
        (depth : ℕ) (a : List ℕ) (i : ℕ) (ds : Drams) {n : Node}
        → node_in depth a i ds ≡ some n
        → (n' : Node) × (node_in depth a i (update_timings spec cmd addr clk ds) ≡ some n')
          × SameRows n n'
    timings-SameRows depth a i nil h = cc
    timings-SameRows depth a zero (cons d ds) h = timing-SameRows depth a d h
    timings-SameRows depth a (suc i) (cons d ds) h = timings-SameRows depth a i ds h

with_clk-node_at :
    (clk depth : ℕ) (addr : List ℕ) (d : Dram)
    → node_at (suc depth) addr (with_clk clk d) ≡ node_at (suc depth) addr d
unfolding node_at
with_clk-node_at clk depth addr (node n ds) = refl

pub update-bank :
    (spec : Ddr4) {cmd : Command} (b : IsBankCommand cmd) (addr : List ℕ) (clk : ℕ) {d : Dram}
    {n : Node}
    → Every Settled 0 d
    → node_at 3 addr d ≡ some n
    → Returns
        (λ e.
          (n' : Node) × (node_at 3 addr e ≡ some n')
          × SameRows (bank_node cmd (get_or addr 4 0) n) n')
        (update spec cmd addr clk d)
unfolding update
update-bank spec {cmd} b addr clk {d} v h =
    Returns-bind
      (update_state-bank b addr 3 0 (with_clk-Settled clk v) (with_clk-node_at clk 2 addr d ∙ h)
        (omega arith))
      (λ m at_n. returns (timing-SameRows spec cmd addr clk 3 addr m at_n))

pub update-refresh :
    (spec : Ddr4) {cmd : Command} (b : IsRefreshing cmd) (addr : List ℕ) (clk : ℕ) {d : Dram}
    {n : Node}
    → Every Settled 0 d
    → node_at 1 addr d ≡ some n
    → Returns (λ e. Unit) (update spec cmd addr clk d)
unfolding update
update-refresh spec b addr clk {d} v h =
    Returns-bind
      (update_state-refresh b addr 1 0 (with_clk-Settled clk v) (with_clk-node_at clk 0 addr d ∙ h)
        (omega arith))
      (λ m t. returns tt)
