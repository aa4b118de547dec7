-- ===== src/Dram/Untimed.antt =====
-- src/general/dram_memory.h builds one channel, with the identifier 0, whatever the number of channels
-- by which `dram_mapping` spreads the addresses: what this does to the timing (src/general/dram.h).
use vans.Base.{
  ℕ, ◌≡◌, ◌≢◌, refl, ap, inl, inr, Bool, true, false, not, ◌&&◌, List, [], ◌∷◌, get_or, Bool-cases,
  arith, ok, ◌>>=◌, Result, Partial, returned, thrown,
}
use vans.Dram.Ddr4.{Level, channel, Command, Timing, level_index, ◌is◌, ◌is_level◌}
use vans.Dram.Ddr4.Rules.{Rule, at, ddr4, timing_rules}
use vans.Dram.Node.{Dram, node}
use vans.Dram.Path.{Placed, Grows-Placed}
use vans.Dram.Shape.{Grows, update_state-Grows, with_clk-Grows, Grows-trans}
use vans.Dram.Tree.{
  sibling_next, sibling_timing, is_addressed, update_timing, update, update_state, with_clk,
}

no_sibling_rule : List Rule → Bool
no_sibling_rule [] = true
no_sibling_rule (r ∷ rules) =
    not (r.level is_level channel && r.entry.has_sibling) && no_sibling_rule rules

channel_rules_own : (t : Timing) → no_sibling_rule (timing_rules t) ≡ true
unfolding no_sibling_rule timing_rules
channel_rules_own t = refl

-- No entry of the channel is one for its siblings.
sibling_next-none :
    (clk : ℕ) (rules : List Rule) (l : Level) (cmd : Command) (next : Command → ℕ)
    → level_index l ≡ 0
    → no_sibling_rule rules ≡ true
    → sibling_next clk (at rules l cmd) next ≡ next
unfolding no_sibling_rule at sibling_next
sibling_next-none clk [] l cmd next e h = refl
sibling_next-none clk (r ∷ rules) l cmd next e h =
    elim (Bool-cases (r.level is_level l && r.prev is cmd)) [
      | inl this ↦
          let own : r.entry.has_sibling ≡ false = ground arith in
          rw (this, own) (sibling_next-none clk rules l cmd next e (ground arith))
      | inr other ↦ rw other (sibling_next-none clk rules l cmd next e (ground arith))
    ]

update_timing-other :
    (t : Timing) (count : Level → ℕ) (cmd : Command) (addr : List ℕ) (clk : ℕ) (d : Dram)
    → Placed 0 0 d
    → get_or addr 0 0 ≢ 0
    → update_timing (ddr4 t count) cmd addr clk d ≡ d
unfolding update_timing sibling_timing ddr4
update_timing-other t count cmd addr clk (node n ds) p other =
    let elsewhere : is_addressed n addr ≡ false = elim (Bool-cases (is_addressed n addr)) [
      | inl here ↦ absurd (other (let k = ap (λ l. get_or addr l 0) p.0 in ground arith))
      | inr no_match ↦ no_match
    ] in
    let same =
      sibling_next-none clk (timing_rules t) n.level cmd n.next p.0 (channel_rules_own t) in
    rw elsewhere (ap (λ next. node (record n { next = next }) ds) same)

-- In a channel whose nodes stand at their places, the update for an address of a channel other than
-- 0 is that of the states alone: it records no clock, neither of the command nor of what has to
-- wait for it.
pub other_channel-untimed :
    (t : Timing) (count : Level → ℕ) (cmd : Command) (addr : List ℕ) (clk : ℕ) (d : Dram)
    → Placed 0 0 d
    → get_or addr 0 0 ≢ 0
    → update (ddr4 t count) cmd addr clk d ≡ update_state cmd addr (with_clk clk d)
unfolding update
other_channel-untimed t count cmd addr clk d p other =
    by_state (update_state cmd addr (with_clk clk d)) (update_state-Grows cmd addr (with_clk clk d))
  where
    by_state :
        (m : Result Dram)
        → Partial (Grows (with_clk clk d)) m
        → (m >>= λ e. ok (update_timing (ddr4 t count) cmd addr clk e)) ≡ m
    by_state m (returned {a = e} g) = ap ok (
        update_timing-other t count cmd addr clk e
          (Grows-Placed 0 0 (Grows-trans (with_clk-Grows clk d) g) p) other)
    by_state m thrown = refl
