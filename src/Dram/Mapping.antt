-- ===== src/Dram/Mapping.antt =====
-- src/general/mapping.h, class `dram_mapping`: which bits of an address select the channel, rank,
-- bank group, bank, row and column. The counts of the configuration are those of the specification.
pub mod Roundtrip
use Prim.Native.String.{String}
use vans.Base.{
  ℕ, zero, suc, ◌+◌, ◌-◌, ◌*◌, ◌/◌, ◌%◌, ◌^◌, bit_and, bit_or, Bool, ◌&&◌, List, [], ◌∷◌, ◌==◌,
  if◌then◌else◌, get_or, set, replicate, Result, ok, err, ◌>>=◌, index_out_of_range, config_error,
  not_implemented, codes,
}
use vans.Base.Bits.{shl, shr, sub64, mul64}
use vans.Common.Power.{log2, is_pwr_of_2}
use vans.Dram.Ddr4.{Level, channel, rank, bank_group, bank, row, col}

pub record DramMapping : Type 0 where
  pub tx_bit_width : ℕ
  pub addr_bit_width : List ℕ
  pub code : ℕ

-- The comparisons with "Ch", "Ra", "Bg", "Ba", "Ro" and "Co"; any other text is level 0.
unfoldable pub level_num : ℕ → ℕ → ℕ
level_num a b =
    if a == b'R' && b == b'a'
    then 1
    else if a == b'B' && b == b'g'
    then 2
    else if a == b'B' && b == b'a'
    then 3
    else if a == b'R' && b == b'o'
    then 4
    else if a == b'C' && b == b'o'
    then 5
    else 0

-- `substr(i * 2, 2)` throws where the text ends before `i * 2`; it may give fewer characters.
unfoldable pub encode : ℕ → ℕ → List ℕ → ℕ → Result ℕ
unfolding level_num
encode i zero text code = ok code
encode i (suc rounds) (a ∷ (b ∷ text)) code =
    encode (suc i) rounds text (bit_or code (shl (bit_and (level_num a b) 0xf) (i * 4)))
encode i (suc zero) text code = ok code
encode i (suc (suc rounds)) text code = err index_out_of_range

-- `channel_width` and `prefetch_size` are constants of `DDR4`. The width of the last level is less
-- by that of a burst.
unfoldable pub dram_mapping : (Level → ℕ) → String → Result DramMapping
unfolding encode
dram_mapping count mapping_func =
    let tx_size = 64 * 8 / 8 in
    if is_pwr_of_2 tx_size
    then (encode 0 6 (codes mapping_func) 0 >>= λ code. ok (record {
      tx_bit_width = log2 tx_size;
      addr_bit_width =
          log2 (count channel)
          ∷ log2 (count rank)
          ∷ log2 (count bank_group)
          ∷ log2 (count bank)
          ∷ log2 (count row)
          ∷ sub64 (log2 (count col)) (log2 8)
          ∷ [];
      code = code;
    }))
    else err config_error

-- The level whose bits are the `i`-th of the code's fields.
abbrev pub level_at : DramMapping → ℕ → ℕ
level_at m i = bit_and (shr m.code (i * 4)) 0xf

abbrev pub width_at : DramMapping → ℕ → ℕ
width_at m i = get_or m.addr_bit_width (level_at m i) 0

-- `(1U << w) - 1`, on 32 bits
abbrev pub low_mask : ℕ → ℕ
low_mask w = (2 ^ w % 2 ^ 32 + 2 ^ 32 - 1) % 2 ^ 32

-- `for (int i = total_levels - 1; i >= 0; --i)`, with `i` rounds left
unfoldable pub map_levels : DramMapping → ℕ → ℕ → List ℕ → List ℕ
map_levels m zero logic_addr mapped = mapped
map_levels m (suc i) logic_addr mapped =
    map_levels m i (shr logic_addr (width_at m i))
      (set mapped (level_at m i) (bit_and logic_addr (low_mask (width_at m i))))

unfoldable pub map_addr : DramMapping → ℕ → List ℕ
unfolding map_levels
map_addr m logic_addr = map_levels m 6 (shr logic_addr m.tx_bit_width) (replicate 6 0)

pub rev_map {ℓ} : {A : Type ℓ} → List ℕ → Result A
rev_map mapped = err not_implemented
