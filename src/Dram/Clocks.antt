-- ===== src/Dram/Clocks.antt =====
-- src/general/dram.h: the clocks of a node stay valid. A node remembers as many clocks of a command as
-- its timing entries look back; each is one of the run, or the -1 of the constructor; and no clock of
-- `next` is `clk_invalid`, which `check` would take for none.
use vans.Base.{
  ℕ, zero, suc, ◌+◌, ◌-◌, ◌^◌, ◌≤◌, ◌<◌, ◌≡◌, refl, sym, ap, ◌∙◌, ◌⊎◌, inl, inr, true, List, [],
  ◌∷◌, leb, get_or, pop_back, length, All, arith, Bool-cases, Partial,
}
use vans.Base.Bits.{add64}
use vans.Common.{clk_invalid}
use vans.Dram.Ddr4.{Level, State, Command, TimingEntry, Ddr4, ◌is◌, command_index}
use vans.Dram.Node.{Node, Dram, max_dist}
use vans.Dram.Nodes.Timed.{EveryNode, with_clk-EveryNode, update_state-EveryNode, update-EveryNode}
use vans.Dram.Tree.{
  wait_until, sibling_next, own_next, push_clk, own_timing, sibling_timing, update_state, with_clk,
  update,
}

-- No clock up to the horizon is carried past the valid ones, and an entry that looks further back than
-- the last command has a delay: the clock -1 wraps to one less than it.
pub record EntryOk (horizon : ℕ) (t : TimingEntry) : Type 0 where
  pub fits : horizon + t.delay < clk_invalid
  pub looks_back : t.dist ≤ t.delay + 1

abbrev pub TableOk : Ddr4 → ℕ → Type 0
TableOk spec horizon = (l : Level) (c : Command) → All (EntryOk horizon) (spec.timing_table l c)

abbrev IsPast : ℕ → ℕ → Type 0
IsPast horizon p = (p ≤ horizon) ⊎ (p ≡ 2 ^ 64 - 1)

pub record NodeOk (spec : Ddr4) (horizon : ℕ) (n : Node) : Type 0 where
  pub sized : (c : Command) → length (n.prev c) ≡ max_dist (spec.timing_table n.level c)
  pub recent : (c : Command) → All (IsPast horizon) (n.prev c)
  pub valid : (c : Command) → n.next c < clk_invalid

all_commands : List Command
all_commands =
    Command.act ∷ Command.pre ∷ Command.prea ∷ Command.rd ∷ Command.wr ∷ Command.rda ∷ Command.wra
    ∷ Command.ref ∷ Command.pde ∷ Command.pdx ∷ Command.sre ∷ Command.srx ∷ Command.undefined ∷ []

index-retract : (c : Command) → get_or all_commands (command_index c) Command.undefined ≡ c
unfolding all_commands
index-retract Command.act = refl
index-retract Command.pre = refl
index-retract Command.prea = refl
index-retract Command.rd = refl
index-retract Command.wr = refl
index-retract Command.rda = refl
index-retract Command.wra = refl
index-retract Command.ref = refl
index-retract Command.pde = refl
index-retract Command.pdx = refl
index-retract Command.sre = refl
index-retract Command.srx = refl
index-retract Command.undefined = refl

is-eq : (a b : Command) → (a is b) ≡ true → a ≡ b
is-eq a b h =
    let same : command_index a ≡ command_index b = ground arith in
    sym (index-retract a) ∙ ap (λ i. get_or all_commands i Command.undefined) same ∙ index-retract b

length-push_clk : (clk : ℕ) (ps : List ℕ) → length (push_clk clk ps) ≡ length ps
unfolding push_clk
length-push_clk clk [] = refl
length-push_clk clk (p ∷ []) = refl
length-push_clk clk (p ∷ (q ∷ ps)) = ap suc (length-push_clk clk (q ∷ ps))

All-pop_back : (P : ℕ → Type 0) (ps : List ℕ) → All P ps → All P (pop_back ps)
All-pop_back P [] h = tt
All-pop_back P (p ∷ []) h = tt
All-pop_back P (p ∷ (q ∷ ps)) h = (h.0, All-pop_back P (q ∷ ps) h.1)

All-push_clk : (P : ℕ → Type 0) (clk : ℕ) (ps : List ℕ) → P clk → All P ps → All P (push_clk clk ps)
unfolding push_clk
All-push_clk P clk [] h hs = tt
All-push_clk P clk (p ∷ ps) h hs = (h, All-pop_back P (p ∷ ps) hs)

get_or-All : (P : ℕ → Type 0) (ps : List ℕ) (i : ℕ) → P 0 → All P ps → P (get_or ps i 0)
get_or-All P [] i h hs = h
get_or-All P (p ∷ ps) zero h hs = hs.0
get_or-All P (p ∷ ps) (suc i) h hs = get_or-All P ps i h hs.1

first-push_clk :
    (clk horizon : ℕ) (ps : List ℕ) → clk ≤ horizon → get_or (push_clk clk ps) 0 0 ≤ horizon
unfolding push_clk
first-push_clk clk horizon [] h = omega arith
first-push_clk clk horizon (p ∷ ps) h = h

-- The clock that an entry asks for is valid.
entry-valid :
    (horizon clk : ℕ) (ps : List ℕ) (t : TimingEntry)
    → clk ≤ horizon
    → All (IsPast horizon) ps
    → EntryOk horizon t
    → add64 (get_or (push_clk clk ps) (t.dist - 1) 0) t.delay < clk_invalid
entry-valid horizon clk ps t h hs v =
    let fits = v.fits in
    let looks_back = v.looks_back in
    elim (Bool-cases (leb t.dist 1)) [
      | inl last ↦
          let at_zero : t.dist - 1 ≡ 0 = ground arith in
          rw at_zero (let f = first-push_clk clk horizon ps h in omega arith)
      | inr far ↦
          elim (get_or-All (IsPast horizon) (push_clk clk ps) (t.dist - 1) (inl (omega arith))
            (All-push_clk (IsPast horizon) clk ps (inl h) hs)) [
              | inl early ↦ omega arith
              | inr unset ↦ rw unset (ground arith)
            ]
    ]

wait_until-lt :
    (cmd : Command) (clk bound : ℕ) (next : Command → ℕ) (c : Command)
    → clk < bound
    → next c < bound
    → wait_until cmd clk next c < bound
unfolding wait_until
wait_until-lt cmd clk bound next c h k = ground arith

own_next-lt :
    (past : List ℕ) (entries : List TimingEntry) (next : Command → ℕ)
    → All (λ t. add64 (get_or past (t.dist - 1) 0) t.delay < clk_invalid) entries
    → ((c : Command) → next c < clk_invalid)
    → (c : Command) → own_next past entries next c < clk_invalid
unfolding own_next
own_next-lt past [] next hs h = h
own_next-lt past (t ∷ entries) next hs h = elim (Bool-cases t.has_sibling) [
  | inl skipped ↦ rw skipped (own_next-lt past entries next hs.1 h)
  | inr own ↦
      rw own
        (own_next-lt past entries _ hs.1 (λ c. wait_until-lt t.cmd _ clk_invalid next c hs.0 (h c)))
]

sibling_next-lt :
    (horizon clk : ℕ) (entries : List TimingEntry) (next : Command → ℕ)
    → clk ≤ horizon
    → All (EntryOk horizon) entries
    → ((c : Command) → next c < clk_invalid)
    → (c : Command) → sibling_next clk entries next c < clk_invalid
unfolding sibling_next
sibling_next-lt horizon clk [] next b hs h = h
sibling_next-lt horizon clk (t ∷ entries) next b hs h = elim (Bool-cases t.has_sibling) [
  | inr skipped ↦ rw skipped (sibling_next-lt horizon clk entries next b hs.1 h)
  | inl between ↦
      let f = hs.0.fits in
      rw between (
        sibling_next-lt horizon clk entries _ b hs.1
          (λ c. wait_until-lt t.cmd _ clk_invalid next c (omega arith) (h c)))
]

All-map :
    {P Q : TimingEntry → Type 0}
    → ((t : TimingEntry) → P t → Q t)
    → (ts : List TimingEntry) → All P ts
    → All Q ts
All-map f [] h = tt
All-map f (t ∷ ts) h = (f t h.0, All-map f ts h.1)

timed :
    (spec : Ddr4) (horizon : ℕ) (n : Node) (s : State) (rows : List (ℕ × State)) (clk : ℕ)
    → NodeOk spec horizon n
    → NodeOk spec horizon (record n { curr_state = s; row_state = rows; curr_clk = clk })
timed spec horizon n s rows clk v = record { sized = v.sized; recent = v.recent; valid = v.valid }

pub update_state-NodeOk :
    (spec : Ddr4) (horizon : ℕ) (cmd : Command) (addr : List ℕ) (clk : ℕ) {d : Dram}
    → EveryNode (NodeOk spec horizon) d
    → Partial (EveryNode (NodeOk spec horizon)) (update_state cmd addr (with_clk clk d))
update_state-NodeOk spec horizon cmd addr clk v =
    update_state-EveryNode (NodeOk spec horizon) (timed spec horizon) cmd addr
      (with_clk-EveryNode (NodeOk spec horizon) (timed spec horizon) clk v)

module _ (spec : Ddr4) (horizon : ℕ) (table : TableOk spec horizon) (cmd : Command) (clk : ℕ)
    (early : clk ≤ horizon) where
  own_timing-NodeOk :
      (n : Node) → NodeOk spec horizon n → NodeOk spec horizon (own_timing spec cmd clk n)
  unfolding own_timing
  own_timing-NodeOk n v = record {
    sized = λ c. elim (Bool-cases (c is cmd)) [
      | inl same ↦ rw (same, is-eq c cmd same) (length-push_clk clk (n.prev cmd) ∙ v.sized cmd)
      | inr other ↦ rw other (v.sized c)
    ];
    recent = λ c. elim (Bool-cases (c is cmd)) [
      | inl same ↦
          rw same (All-push_clk (IsPast horizon) clk (n.prev cmd) (inl early) (v.recent cmd))
      | inr other ↦ rw other (v.recent c)
    ];
    valid =
        own_next-lt (push_clk clk (n.prev cmd)) (spec.timing_table n.level cmd) n.next
          (All-map (λ t. entry-valid horizon clk (n.prev cmd) t early (v.recent cmd)) _
            (table n.level cmd))
          v.valid;
  }

  sibling_timing-NodeOk :
      (n : Node) → NodeOk spec horizon n → NodeOk spec horizon (sibling_timing spec cmd clk n)
  unfolding sibling_timing
  sibling_timing-NodeOk n v = record {
    sized = v.sized;
    recent = v.recent;
    valid =
        sibling_next-lt horizon clk (spec.timing_table n.level cmd) n.next early (table n.level cmd)
          v.valid;
  }

  pub update-NodeOk :
      (addr : List ℕ) {d : Dram}
      → EveryNode (NodeOk spec horizon) d
      → Partial (EveryNode (NodeOk spec horizon)) (update spec cmd addr clk d)
  update-NodeOk addr =
      update-EveryNode (NodeOk spec horizon) (timed spec horizon) spec cmd clk own_timing-NodeOk
        sibling_timing-NodeOk addr
