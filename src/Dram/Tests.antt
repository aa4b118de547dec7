-- ===== src/Dram/Tests.antt =====
-- src/general/ddr4.cpp and dram_memory.h: a channel with the timing of config/vans.cfg.
mod Scheduler
mod Layout
use vans.Base.{
  ℕ, zero, suc, ◌+◌, ◌≤◌, ◌<◌, ◌≡◌, refl, Bool, true, false, List, [], ◌∷◌, Option, none, some,
  arith, ok, Result, Has-get_elem, get_or,
}
use vans.Dram.Ddr4.{Level, channel, rank, bank_group, bank, row, col, Command, Timing, Ddr4}
use vans.Dram.Ddr4.Rules.{Rule, timing_rules, ddr4}
use vans.Dram.Node.{Dram, Node, new_channel}
use vans.Dram.Tree.{check, update}
use vans.Dram.Path.{node_at}
use vans.Dram.Constraint.{Updates, unchanged}
use vans.Dram.Constraint.Respected.{IsQuick, rule_respected}

abbrev pub horizon : ℕ
horizon = 1000000

abbrev pub timing : Timing
timing = record {
  n_bl = 4;
  n_ccds = 4;
  n_ccdl = 7;
  n_rtrs = 2;
  n_cl = 19;
  n_rcd = 19;
  n_rp = 19;
  n_cwl = 18;
  n_ras = 43;
  n_rc = 62;
  n_rtp = 10;
  n_wtrs = 4;
  n_wtrl = 10;
  n_wr = 20;
  n_pd = 6;
  n_xp = 8;
  n_xpdll = 0;
  n_ckesr = 7;
  n_xsdll = 0;
  n_rrds = 4;
  n_rrdl = 7;
  n_faw = 16;
  n_rfc = 467;
  n_refi = 10400;
  n_xs = 324;
}

abbrev pub count : Level → ℕ
count channel = 8
count rank = 1
count bank_group = 4
count bank = 4
count row = 32768
count col = 1024

pub timing-IsQuick : IsQuick horizon timing
unfolding timing_rules
timing-IsQuick = record { fits = omega arith; window = omega arith }

abbrev pub spec : Ddr4
spec = ddr4 timing count

abbrev pub fresh : Dram
fresh = new_channel spec

abbrev pub addr : List ℕ
addr = 0 ∷ 0 ∷ 1 ∷ 2 ∷ 5 ∷ 0 ∷ []

abbrev get_rule : ℕ → Rule
get_rule i = get_or (timing_rules timing) i (record {
  level = bank;
  prev = Command.act;
  entry = record { cmd = Command.rd; delay = 0; has_sibling = false; dist = 1 };
})

abbrev pub get_dram : Result Dram → Dram
get_dram (ok d) = d
get_dram (vans.Base.err e) = fresh

abbrev pub activated : Dram
activated = get_dram (update spec Command.act addr 7 fresh)

activated-update : update spec Command.act addr 7 fresh ≡ ok activated
unfolding update new_channel ddr4
activated-update = refl

read_ready : check Command.rd addr 26 activated ≡ ok true
unfolding update check new_channel ddr4
read_ready = refl

abbrev pub read_addr : List ℕ
read_addr = 0 ∷ 0 ∷ 1 ∷ 2 ∷ 5 ∷ 8 ∷ []

pub same_bank : (k : ℕ) → k ≤ 3 → get_or addr k 0 ≡ get_or read_addr k 0
same_bank zero h = refl
same_bank (suc zero) h = refl
same_bank (suc (suc zero)) h = refl
same_bank (suc (suc (suc zero))) h = refl
same_bank (suc (suc (suc (suc k)))) h = absurd (omega (arith, h))

-- The activation at clock 7 and the first read, `nRCD` clocks later.
rule_respected_example : 7 + 19 ≤ 26
unfolding update check new_channel ddr4 node_at timing_rules
rule_respected_example =
    rule_respected timing count horizon timing-IsQuick (get_rule 89) addr read_addr 7 26
      (Has-get_elem (timing_rules timing) 89 refl) refl refl unchanged refl refl same_bank
      (omega arith) refl unchanged refl
