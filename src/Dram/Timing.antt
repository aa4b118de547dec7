-- ===== src/Dram/Timing.antt =====
-- src/general/dram.h, `update_timing`: the clocks of `next` after the entries of one command.
use vans.Base.{ℕ, ◌-◌, ◌≤◌, ◌≡◌, false, List, [], ◌∷◌, if◌then◌else◌, get_or, Has, arith, inl, inr}
use vans.Base.Bits.{add64}
use vans.Dram.Ddr4.{Command, TimingEntry}
use vans.Dram.Tree.{wait_until, sibling_next, own_next}

-- No clock of `next` falls.
pub wait_until-le :
    (cmd : Command) (clk : ℕ) (next : Command → ℕ) (c : Command)
    → next c ≤ wait_until cmd clk next c
unfolding wait_until
wait_until-le cmd clk next c = ground arith

pub sibling_next-le :
    (clk : ℕ) (entries : List TimingEntry) (next : Command → ℕ) (c : Command)
    → next c ≤ sibling_next clk entries next c
unfolding sibling_next
sibling_next-le clk [] next c = omega arith
sibling_next-le clk (t ∷ entries) next c = ground (
  arith,
  wait_until-le t.cmd (add64 clk t.delay) next c,
  sibling_next-le clk entries
      (if t.has_sibling then wait_until t.cmd (add64 clk t.delay) next else next) c,
)

pub own_next-le :
    (past : List ℕ) (entries : List TimingEntry) (next : Command → ℕ) (c : Command)
    → next c ≤ own_next past entries next c
unfolding own_next
own_next-le past [] next c = omega arith
own_next-le past (t ∷ entries) next c = ground (
  arith,
  wait_until-le t.cmd (add64 (get_or past (t.dist - 1) 0) t.delay) next c,
  own_next-le past entries
      (if t.has_sibling
        then next
        else wait_until t.cmd (add64 (get_or past (t.dist - 1) 0) t.delay) next)
      c,
)

-- An entry for the command itself makes its command wait for the clock that the entry looks back to.
pub own_next-Has :
    (past : List ℕ) (t : TimingEntry) (entries : List TimingEntry) (next : Command → ℕ)
    → Has t entries
    → t.has_sibling ≡ false
    → add64 (get_or past (t.dist - 1) 0) t.delay ≤ own_next past entries next t.cmd
unfolding own_next wait_until
own_next-Has past t [] next h own = absurd h
own_next-Has past t (x ∷ entries) next (inl e) own =
    let bound =
      own_next-le past entries (wait_until t.cmd (add64 (get_or past (t.dist - 1) 0) t.delay) next)
        t.cmd in
    rw (e, own) (ground arith)
own_next-Has past t (x ∷ entries) next (inr h) own = own_next-Has past t entries _ h own
