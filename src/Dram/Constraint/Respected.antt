-- ===== src/Dram/Constraint/Respected.antt =====
-- src/general/ddr4.cpp, `init_timing_table`: from the constructor on, the rules between two commands
-- along the same address are respected.
use vans.Base.{
  ℕ, zero, suc, ◌+◌, ◌-◌, ◌^◌, ◌≤◌, ◌<◌, ◌≡◌, refl, sym, ap, ◌∙◌, ◌⊎◌, inl, inr, true, false, List,
  [], ◌∷◌, some, ◌&&◌, get_or, replicate, length-replicate, All, All-Has, Has, arith, Bool-cases,
  ok,
}
use vans.Common.{clk_invalid}
use vans.Dram.Clocks.{EntryOk, TableOk, NodeOk}
use vans.Dram.Constraint.{Updates, Updates-Grows, Updates-Every, delay_respected}
use vans.Dram.Ddr4.{
  Level, channel, rank, bank_group, bank, row, col, Command, TimingEntry, Timing, Ddr4, level_index,
  scope, ◌is◌, ◌is_level◌,
}
use vans.Dram.Ddr4.Rules.{Rule, at, ddr4, timing_rules}
use vans.Dram.Node.{
  Node, Dram, max_dist, new_node, new_children, new_bank, new_bank_group, new_rank, new_channel,
}
use vans.Dram.Nodes.{Every, EveryChild, every, no_child, each_child}
use vans.Dram.Path.{node_at, Placed, PlacedAll, Grows-Placed, node_at-Placed}
use vans.Dram.Tree.{check, update}

-- The delays leave room for the clocks up to the horizon, and the window of four activations is not
-- shorter than three clocks.
pub record IsQuick (horizon : ℕ) (t : Timing) : Type 0 where
  pub fits : All (λ (r : Rule). horizon + r.entry.delay < clk_invalid) (timing_rules t)
  pub window : 3 ≤ t.n_faw

-- The rules look back at a command that is there, and no rule is at a level below its command's scope.
abbrev IsSound : Rule → Type 0
IsSound r =
    (r.entry.dist ≤ r.entry.delay + 1) × (level_index r.level ≤ level_index (scope r.entry.cmd))

rules-IsSound : (t : Timing) → 3 ≤ t.n_faw → All IsSound (timing_rules t)
unfolding timing_rules
rules-IsSound t h = omega arith

new_node-NodeOk :
    (spec : Ddr4) (horizon : ℕ) (l : Level) (id : ℕ) → NodeOk spec horizon (new_node spec l id)
unfolding new_node
new_node-NodeOk spec horizon l id = record {
  sized = λ c. length-replicate (max_dist (spec.timing_table l c)) (2 ^ 64 - 1);
  recent = λ c. unset (max_dist (spec.timing_table l c));
  valid = λ c. omega arith;
}
  where
    unset : (n : ℕ) → All (λ p. (p ≤ horizon) ⊎ (p ≡ 2 ^ 64 - 1)) (replicate n (2 ^ 64 - 1))
    unset zero = tt
    unset (suc n) = (inr refl, unset n)

pub new_children-Every :
    (P : ℕ → Node → Type 0) (l : ℕ) (child : ℕ → Dram) (id count : ℕ)
    → ((i : ℕ) → Every P l (child i))
    → EveryChild P l (new_children child id count)
unfolding new_children
new_children-Every P l child id zero h = no_child
new_children-Every P l child id (suc count) h =
    each_child (h id) (new_children-Every P l child (suc id) count h)

new_children-Placed :
    (l : ℕ) (child : ℕ → Dram) (id count : ℕ)
    → ((i : ℕ) → Placed l i (child i))
    → PlacedAll l id (new_children child id count)
unfolding new_children
new_children-Placed l child id zero h = tt
new_children-Placed l child id (suc count) h = (h id, new_children-Placed l child (suc id) count h)

module _ (spec : Ddr4) where
  pub new_channel-each :
      (P : ℕ → Node → Type 0)
      → P 0 (new_node spec channel 0)
      → ((i : ℕ) → P 1 (new_node spec rank i))
      → ((i : ℕ) → P 2 (new_node spec bank_group i))
      → ((i : ℕ) → P 3 (new_node spec bank i))
      → Every P 0 (new_channel spec)
  unfolding new_channel new_rank new_bank_group new_bank
  new_channel-each P of_channel of_rank of_bank_group of_bank = every of_channel (
      new_children-Every P 1 (new_rank spec) 0 (spec.count rank) (λ i. every (of_rank i) (
        new_children-Every P 2 (new_bank_group spec) 0 (spec.count bank_group) (λ j.
          every (of_bank_group j) (
            new_children-Every P 3 (new_bank spec) 0 (spec.count bank)
              (λ k. every (of_bank k) no_child))))))

  pub new_channel-Every : (horizon : ℕ) → Every (λ l. NodeOk spec horizon) 0 (new_channel spec)
  new_channel-Every horizon =
      let fresh = new_node-NodeOk spec horizon in
      new_channel-each (λ l. NodeOk spec horizon) (fresh channel 0) (fresh rank) (fresh bank_group)
        (fresh bank)

  pub new_channel-Placed : Placed 0 0 (new_channel spec)
  unfolding new_channel new_rank new_bank_group new_bank new_node
  new_channel-Placed = (
    refl,
    refl,
    new_children-Placed 1 (new_rank spec) 0 (spec.count rank) (λ j. (
      refl,
      refl,
      new_children-Placed 2 (new_bank_group spec) 0 (spec.count bank_group) (λ k. (
        refl,
        refl,
        new_children-Placed 3 (new_bank spec) 0 (spec.count bank) (λ b. (refl, refl, tt)),
      )),
    )),
  )

at-All :
    (P : TimingEntry → Type 0) (rules : List Rule) (l : Level) (c : Command)
    → All (λ (r : Rule). P r.entry) rules
    → All P (at rules l c)
unfolding at
at-All P [] l c h = tt
at-All P (r ∷ rules) l c h = elim (Bool-cases (r.level is_level l && r.prev is c)) [
  | inl this ↦ rw this (h.0, at-All P rules l c h.1)
  | inr other ↦ rw other (at-All P rules l c h.1)
]

pub at-Has : (r : Rule) (rules : List Rule) → Has r rules → Has r.entry (at rules r.level r.prev)
unfolding at
at-Has r [] h = absurd h
at-Has r (x ∷ rules) (inl e) =
    let this : (x.level is_level r.level && x.prev is r.prev) ≡ true = rw e (ground arith) in
    rw this (inl (ap Rule.entry e))
at-Has r (x ∷ rules) (inr h) = elim (Bool-cases (x.level is_level r.level && x.prev is r.prev)) [
  | inl this ↦ rw this (inr (at-Has r rules h))
  | inr other ↦ rw other (at-Has r rules h)
]

levels : List Level
levels = channel ∷ rank ∷ bank_group ∷ bank ∷ row ∷ col ∷ []

level-retract : (l : Level) → get_or levels (level_index l) channel ≡ l
unfolding levels
level-retract channel = refl
level-retract rank = refl
level-retract bank_group = refl
level-retract bank = refl
level-retract row = refl
level-retract col = refl

pub level-eq : (a b : Level) → level_index a ≡ level_index b → a ≡ b
level-eq a b h = sym (level-retract a) ∙ ap (λ i. get_or levels i channel) h ∙ level-retract b

entries_ok :
    (horizon : ℕ) (rules : List Rule)
    → All (λ (r : Rule). horizon + r.entry.delay < clk_invalid) rules
    → All IsSound rules
    → All (λ (r : Rule). EntryOk horizon r.entry) rules
entries_ok horizon [] h s = tt
entries_ok horizon (r ∷ rules) h s =
    (record { fits = h.0; looks_back = s.0.0 }, entries_ok horizon rules h.1 s.1)

module _ (t : Timing) (count : Level → ℕ) (horizon : ℕ) (quick : IsQuick horizon t) where
  pub table_ok : TableOk (ddr4 t count) horizon
  unfolding ddr4
  table_ok l c =
      at-All (EntryOk horizon) (timing_rules t) l c
        (entries_ok horizon (timing_rules t) quick.fits (rules-IsSound t quick.window))

  -- Where the delays leave room for the clocks up to the horizon, take channel 0 after any updates
  -- from its constructor on, at such clocks, and a rule of the timing table that is neither for
  -- siblings nor looks further back than the last command. Once the rule's first command is issued
  -- along an address, then whatever is issued in between, the rule's second command is ready along
  -- an address through the same node of the rule's level only when the rule's delay has passed.
  pub rule_respected :
      {d e f : Dram} {n : Node} (r : Rule) (addr addr' : List ℕ) (clk clk' : ℕ)
      → Has r (timing_rules t)
      → r.entry.has_sibling ≡ false
      → r.entry.dist ≡ 1
      → Updates (ddr4 t count) horizon (new_channel (ddr4 t count)) d
      → node_at (level_index r.level) addr d ≡ some n
      → get_or addr 0 0 ≡ 0
      → ((k : ℕ) → k ≤ level_index r.level → get_or addr k 0 ≡ get_or addr' k 0)
      → clk ≤ horizon
      → update (ddr4 t count) r.prev addr clk d ≡ ok e
      → Updates (ddr4 t count) horizon e f
      → check r.entry.cmd addr' clk' f ≡ ok true
      → clk + r.entry.delay ≤ clk'
  unfolding ddr4
  rule_respected {d} {n} r addr addr' clk clk' has own last us at_n a agree h u vs c =
      let spec = ddr4 t count in
      let placed =
        Grows-Placed 0 0 (Updates-Grows spec horizon table_ok us) (new_channel-Placed spec) in
      let at_level : n.level ≡ r.level =
        level-eq n.level r.level
          (node_at-Placed (level_index r.level) 0 0 addr d placed at_n ∙ (omega arith)) in
      let entry : Has r.entry (spec.timing_table n.level r.prev) =
        rw at_level (at-Has r (timing_rules t) has) in
      let scoped = (All-Has IsSound r (timing_rules t) (rules-IsSound t quick.window) has).1 in
      let fits =
        All-Has (λ (r : Rule). horizon + r.entry.delay < clk_invalid) r (timing_rules t) quick.fits
          has in
      let waits =
        delay_respected spec horizon table_ok r.prev addr addr' clk clk' (level_index r.level)
          r.entry placed (Updates-Every spec horizon table_ok us (new_channel-Every spec horizon))
          at_n entry own last scoped a agree h u vs c in
      omega arith
