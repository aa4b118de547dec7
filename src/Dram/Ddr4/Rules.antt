-- ===== src/Dram/Ddr4/Rules.antt =====
-- src/general/ddr4.cpp, `DDR4::init_timing_table`: one rule for each call of `at`, in its order.
-- A difference of two delays that would be negative wraps around where it is added to a clock.
use vans.Base.{ℕ, ◌+◌, true, false, List, [], ◌∷◌, ◌++◌, if◌then◌else◌, ◌&&◌}
use vans.Base.Bits.{sub64}
use vans.Dram.Ddr4.{
  Level, channel, rank, bank_group, bank, Command, TimingEntry, Timing, Ddr4, ◌is◌, ◌is_level◌,
}

pub record Rule : Type 0 where
  pub level : Level
  pub prev : Command
  pub entry : TimingEntry

-- The calls `at(level, prev, {cmd, delay})`, `at(level, prev, {cmd, delay, true})` and
-- `at(level, prev, {cmd, delay, false, 4})`.
abbrev pub following : Level → Command → Command → ℕ → Rule
following level prev cmd delay = record {
  level = level;
  prev = prev;
  entry = record { cmd = cmd; delay = delay; has_sibling = false; dist = 1 };
}

abbrev pub following_sibling : Level → Command → Command → ℕ → Rule
following_sibling level prev cmd delay = record {
  level = level;
  prev = prev;
  entry = record { cmd = cmd; delay = delay; has_sibling = true; dist = 1 };
}

abbrev pub following_fourth : Level → Command → Command → ℕ → Rule
following_fourth level prev cmd delay = record {
  level = level;
  prev = prev;
  entry = record { cmd = cmd; delay = delay; has_sibling = false; dist = 4 };
}

unfoldable pub channel_rules : Timing → List Rule
channel_rules t =
    (following channel Command.rd Command.rd t.n_bl)
    ∷ (following channel Command.rd Command.rda t.n_bl)
    ∷ (following channel Command.rda Command.rd t.n_bl)
    ∷ (following channel Command.rda Command.rda t.n_bl)
    ∷ (following channel Command.wr Command.wr t.n_bl)
    ∷ (following channel Command.wr Command.wra t.n_bl)
    ∷ (following channel Command.wra Command.wr t.n_bl)
    ∷ (following channel Command.wra Command.wra t.n_bl)
    ∷ []

unfoldable pub rank_rules : Timing → List Rule
rank_rules t =
    (following rank Command.rd Command.rd t.n_ccds)
    ∷ (following rank Command.rd Command.rda t.n_ccds)
    ∷ (following rank Command.rda Command.rd t.n_ccds)
    ∷ (following rank Command.rda Command.rda t.n_ccds)
    ∷ (following rank Command.wr Command.wr t.n_ccds)
    ∷ (following rank Command.wr Command.wra t.n_ccds)
    ∷ (following rank Command.wra Command.wr t.n_ccds)
    ∷ (following rank Command.wra Command.wra t.n_ccds)
    ∷ (following rank Command.rd Command.wr (sub64 (t.n_cl + t.n_bl + 2) t.n_cwl))
    ∷ (following rank Command.rd Command.wra (sub64 (t.n_cl + t.n_bl + 2) t.n_cwl))
    ∷ (following rank Command.rda Command.wr (sub64 (t.n_cl + t.n_bl + 2) t.n_cwl))
    ∷ (following rank Command.rda Command.wra (sub64 (t.n_cl + t.n_bl + 2) t.n_cwl))
    ∷ (following rank Command.wr Command.rd (t.n_cwl + t.n_bl + t.n_wtrs))
    ∷ (following rank Command.wr Command.rda (t.n_cwl + t.n_bl + t.n_wtrs))
    ∷ (following rank Command.wra Command.rd (t.n_cwl + t.n_bl + t.n_wtrs))
    ∷ (following rank Command.wra Command.rda (t.n_cwl + t.n_bl + t.n_wtrs))
    ∷ (following_sibling rank Command.rd Command.rd (t.n_bl + t.n_rtrs))
    ∷ (following_sibling rank Command.rd Command.rda (t.n_bl + t.n_rtrs))
    ∷ (following_sibling rank Command.rda Command.rd (t.n_bl + t.n_rtrs))
    ∷ (following_sibling rank Command.rda Command.rda (t.n_bl + t.n_rtrs))
    ∷ (following_sibling rank Command.rd Command.wr (t.n_bl + t.n_rtrs))
    ∷ (following_sibling rank Command.rd Command.wra (t.n_bl + t.n_rtrs))
    ∷ (following_sibling rank Command.rda Command.wr (t.n_bl + t.n_rtrs))
    ∷ (following_sibling rank Command.rda Command.wra (t.n_bl + t.n_rtrs))
    ∷ (following_sibling rank Command.rd Command.wr (sub64 (t.n_cl + t.n_bl + t.n_rtrs) t.n_cwl))
    ∷ (following_sibling rank Command.rd Command.wra (sub64 (t.n_cl + t.n_bl + t.n_rtrs) t.n_cwl))
    ∷ (following_sibling rank Command.rda Command.wr (sub64 (t.n_cl + t.n_bl + t.n_rtrs) t.n_cwl))
    ∷ (following_sibling rank Command.rda Command.wra (sub64 (t.n_cl + t.n_bl + t.n_rtrs) t.n_cwl))
    ∷ (following_sibling rank Command.wr Command.rd (sub64 (t.n_cwl + t.n_bl + t.n_rtrs) t.n_cl))
    ∷ (following_sibling rank Command.wr Command.rda (sub64 (t.n_cwl + t.n_bl + t.n_rtrs) t.n_cl))
    ∷ (following_sibling rank Command.wra Command.rd (sub64 (t.n_cwl + t.n_bl + t.n_rtrs) t.n_cl))
    ∷ (following_sibling rank Command.wra Command.rda (sub64 (t.n_cwl + t.n_bl + t.n_rtrs) t.n_cl))
    ∷ (following rank Command.rd Command.prea t.n_rtp)
    ∷ (following rank Command.wr Command.prea (t.n_cwl + t.n_bl + t.n_wr))
    ∷ (following rank Command.rd Command.pde (t.n_cl + t.n_bl + 1))
    ∷ (following rank Command.rda Command.pde (t.n_cl + t.n_bl + 1))
    ∷ (following rank Command.wr Command.pde (t.n_cwl + t.n_bl + t.n_wr))
    ∷ (following rank Command.wra Command.pde (t.n_cwl + t.n_bl + t.n_wr + 1))
    ∷ (following rank Command.pdx Command.rd t.n_xp)
    ∷ (following rank Command.pdx Command.rda t.n_xp)
    ∷ (following rank Command.pdx Command.wr t.n_xp)
    ∷ (following rank Command.pdx Command.wra t.n_xp)
    ∷ (following rank Command.act Command.act t.n_rrds)
    ∷ (following_fourth rank Command.act Command.act t.n_faw)
    ∷ (following rank Command.act Command.prea t.n_ras)
    ∷ (following rank Command.prea Command.act t.n_rp)
    ∷ (following rank Command.pre Command.ref t.n_rp)
    ∷ (following rank Command.prea Command.ref t.n_rp)
    ∷ (following rank Command.rda Command.ref (t.n_rtp + t.n_rp))
    ∷ (following rank Command.wra Command.ref (t.n_cwl + t.n_bl + t.n_wr + t.n_rp))
    ∷ (following rank Command.ref Command.act t.n_rfc)
    ∷ (following rank Command.act Command.pde 1)
    ∷ (following rank Command.pdx Command.act t.n_xp)
    ∷ (following rank Command.pdx Command.pre t.n_xp)
    ∷ (following rank Command.pdx Command.prea t.n_xp)
    ∷ (following rank Command.pre Command.sre t.n_rp)
    ∷ (following rank Command.prea Command.sre t.n_rp)
    ∷ (following rank Command.srx Command.act t.n_xs)
    ∷ (following rank Command.ref Command.ref t.n_rfc)
    ∷ (following rank Command.ref Command.pde 1)
    ∷ (following rank Command.pdx Command.ref t.n_xp)
    ∷ (following rank Command.srx Command.ref t.n_xs)
    ∷ (following rank Command.pde Command.pdx t.n_pd)
    ∷ (following rank Command.pdx Command.pde t.n_xp)
    ∷ (following rank Command.pdx Command.sre t.n_xp)
    ∷ (following rank Command.srx Command.pde t.n_xs)
    ∷ (following rank Command.sre Command.srx t.n_ckesr)
    ∷ (following rank Command.srx Command.sre t.n_xs)
    ∷ []

unfoldable pub bank_group_rules : Timing → List Rule
bank_group_rules t =
    (following bank_group Command.rd Command.rd t.n_ccdl)
    ∷ (following bank_group Command.rd Command.rda t.n_ccdl)
    ∷ (following bank_group Command.rda Command.rd t.n_ccdl)
    ∷ (following bank_group Command.rda Command.rda t.n_ccdl)
    ∷ (following bank_group Command.wr Command.wr t.n_ccdl)
    ∷ (following bank_group Command.wr Command.wra t.n_ccdl)
    ∷ (following bank_group Command.wra Command.wr t.n_ccdl)
    ∷ (following bank_group Command.wra Command.wra t.n_ccdl)
    ∷ (following bank_group Command.wr Command.rd (t.n_cwl + t.n_bl + t.n_wtrl))
    ∷ (following bank_group Command.wr Command.rda (t.n_cwl + t.n_bl + t.n_wtrl))
    ∷ (following bank_group Command.wra Command.rd (t.n_cwl + t.n_bl + t.n_wtrl))
    ∷ (following bank_group Command.wra Command.rda (t.n_cwl + t.n_bl + t.n_wtrl))
    ∷ (following bank_group Command.act Command.act t.n_rrdl)
    ∷ []

unfoldable pub bank_rules : Timing → List Rule
bank_rules t =
    (following bank Command.act Command.rd t.n_rcd)
    ∷ (following bank Command.act Command.rda t.n_rcd)
    ∷ (following bank Command.act Command.wr t.n_rcd)
    ∷ (following bank Command.act Command.wra t.n_rcd)
    ∷ (following bank Command.rd Command.pre t.n_rtp)
    ∷ (following bank Command.wr Command.pre (t.n_cwl + t.n_bl + t.n_wr))
    ∷ (following bank Command.rda Command.act (t.n_rtp + t.n_rp))
    ∷ (following bank Command.wra Command.act (t.n_cwl + t.n_bl + t.n_wr + t.n_rp))
    ∷ (following bank Command.act Command.act t.n_rc)
    ∷ (following bank Command.act Command.pre t.n_ras)
    ∷ (following bank Command.pre Command.act t.n_rp)
    ∷ []

unfoldable pub timing_rules : Timing → List Rule
unfolding channel_rules rank_rules bank_group_rules bank_rules
timing_rules t = channel_rules t ++ (rank_rules t ++ (bank_group_rules t ++ bank_rules t))

-- `timing_table[lev][prev]` after the pushes.
unfoldable pub at : List Rule → Level → Command → List TimingEntry
at [] level prev = []
at (r ∷ rules) level prev =
    let rest = at rules level prev in
    if r.level is_level level && r.prev is prev then r.entry ∷ rest else rest

-- The constructor of `DDR4`.
unfoldable pub ddr4 : Timing → (Level → ℕ) → Ddr4
unfolding at timing_rules
ddr4 t count = record {
  timing = t;
  timing_table = at (timing_rules t);
  read_latency = t.n_cl + t.n_bl;
  count = count;
}
