-- ===== src/Dram/Tests/Layout.antt =====
-- src/general/dram.h and mapping.h: accesses, other channels, the first activation, and addresses.
use vans.Base.{
  ℕ, zero, suc, ◌+◌, ◌<◌, ◌≤◌, ◌≡◌, refl, sym, ap, ◌∙◌, ◌⊎◌, List, [], ◌∷◌, some, arith, ok, err,
  Result, Returns, get_or,
}
use vans.Base.Bits.{shr}
use vans.Common.Power.{is_pwr_of_2, log2}
use vans.Dram.Ddr4.{Command}
use vans.Dram.Ddr4.Rules.{ddr4}
use vans.Dram.Node.{Dram, Node, new_channel}
use vans.Dram.Path.{node_at}
use vans.Dram.Tree.{check, update, update_state, decode, with_clk}
use vans.Dram.Rows.Decode.{rd_access}
use vans.Dram.Schedule.{DramOk}
use vans.Dram.Schedule.Access.{commands_left, access-Advances}
use vans.Dram.Issue.{new_controller-DramOk}
use vans.Dram.Untimed.{other_channel-untimed}
use vans.Dram.Constraint.Respected.{new_channel-Placed}
use vans.Dram.Constraint.Window.{first_activation-delays}
use vans.Dram.Mapping.{DramMapping, dram_mapping, map_addr, level_at, width_at}
use vans.Dram.Mapping.Roundtrip.{IsOrder, join_levels, capacity, map_addr-roundtrip}
use vans.Dram.Tests.{timing, count, horizon, timing-IsQuick, spec, fresh, addr}
use vans.Dram.Memory.{new_controller}

fresh-DramOk : DramOk (new_controller spec 64 0 0)
fresh-DramOk = new_controller-DramOk spec 64 0 0

-- The first read of a bank needs an activation before it.
access-Advances_example :
    (c : Command) × (decode Command.rd addr fresh ≡ ok c)
    × Returns (λ b. Unit) (check c addr 7 fresh)
    × Returns
        (λ e.
          (n' : Node) × (node_at 3 addr e ≡ some n')
          × (((c ≡ Command.rd) × (◌≡◌ {A = ℕ} 2 1)) ⊎ (suc (commands_left 5 n') ≡ 2)))
        (update spec c addr 7 fresh)
unfolding new_channel node_at ddr4 commands_left new_controller
access-Advances_example = access-Advances spec rd_access addr 7 fresh-DramOk.settled refl

abbrev other_addr : List ℕ
other_addr = 3 ∷ 0 ∷ 1 ∷ 2 ∷ 5 ∷ 0 ∷ []

other_channel-untimed_example :
    update spec Command.act other_addr 7 fresh
    ≡ update_state Command.act other_addr (with_clk 7 fresh)
other_channel-untimed_example =
    other_channel-untimed timing count Command.act other_addr 7 fresh (new_channel-Placed spec)
      (λ e. absurd (ground (arith, e)))

abbrev next_bank : List ℕ
next_bank = 0 ∷ 0 ∷ 3 ∷ 1 ∷ 5 ∷ 0 ∷ []

abbrev the_dram : Result Dram → Dram
the_dram (ok d) = d
the_dram (err e) = fresh

abbrev one_active : Dram
one_active = the_dram (update spec Command.act addr 7 fresh)

same_rank : (k : ℕ) → k ≤ 1 → get_or addr k 0 ≡ get_or next_bank k 0
same_rank zero h = refl
same_rank (suc zero) h = refl
same_rank (suc (suc k)) h = absurd (omega (arith, h))

-- `nRRDS` after the first activation is clock 11, but the window holds the second one back.
first_activation-delays_example : 16 ≤ 15 + 1
unfolding update check new_channel ddr4 node_at
first_activation-delays_example =
    first_activation-delays timing count horizon timing-IsQuick {e = one_active} addr next_bank 7 15
      refl refl same_rank (omega arith) refl refl

abbrev pub mapping : DramMapping
mapping = record { tx_bit_width = 6; addr_bit_width = 3 ∷ 0 ∷ 2 ∷ 2 ∷ 15 ∷ 7 ∷ []; code = 0x54231 }

pub mapping-constructed : dram_mapping count "RaBaBgRoCoCh" ≡ ok mapping
unfolding dram_mapping is_pwr_of_2 log2
mapping-constructed = refl

six : (P : ℕ → Type 0) → P 0 → P 1 → P 2 → P 3 → P 4 → P 5 → (i : ℕ) → i < 6 → P i
six P a b c d e f zero h = a
six P a b c d e f (suc zero) h = b
six P a b c d e f (suc (suc zero)) h = c
six P a b c d e f (suc (suc (suc zero))) h = d
six P a b c d e f (suc (suc (suc (suc zero)))) h = e
six P a b c d e f (suc (suc (suc (suc (suc zero))))) h = f
six P a b c d e f (suc (suc (suc (suc (suc (suc i)))))) h = absurd (omega (arith, h))

-- The field of each level.
abbrev field_of : ℕ → ℕ
field_of l = get_or (5 ∷ 0 ∷ 2 ∷ 1 ∷ 3 ∷ 4 ∷ []) l 0

found_again : (i : ℕ) → i < 6 → field_of (level_at mapping i) ≡ i
found_again = six (λ i. field_of (level_at mapping i) ≡ i) refl refl refl refl refl refl

mapping-IsOrder : IsOrder mapping
mapping-IsOrder = record {
  is_level =
      six (λ i. level_at mapping i < 6) (omega arith) (omega arith) (omega arith) (omega arith)
        (omega arith) (omega arith);
  distinct = λ i j h k e.
      let same = sym (found_again i (omega (arith, h, k))) ∙ ap field_of e ∙ found_again j k in
      absurd (omega (arith, h, same));
  narrow =
      six (λ i. width_at mapping i < 32) (omega arith) (omega arith) (omega arith) (omega arith)
        (omega arith) (omega arith);
}

map_addr-roundtrip_example : join_levels mapping 6 (map_addr mapping 0x12345678) ≡ shr 0x12345678 6
unfolding capacity
map_addr-roundtrip_example = map_addr-roundtrip mapping mapping-IsOrder 0x12345678 (omega arith)
