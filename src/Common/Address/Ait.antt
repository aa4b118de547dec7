-- ===== src/Common/Address/Ait.antt =====
-- src/general/utils.h, namespace ait: the 4096-byte blocks of the AIT, each of sixteen RMW blocks.
use vans.Base.{ℕ, ◌*◌, ◌%◌, ◌^◌, bit_and, ◌≡◌, arith}
use vans.Base.Bits.{shl, shr, bit_and-ones}
use vans.Common.Address.Rmw

abbrev pub block_size_rmw : ℕ
block_size_rmw = 16

unfoldable pub translate_to_block_addr : ℕ → ℕ
translate_to_block_addr logic_addr = shl (shr logic_addr 12) 12

unfoldable pub block_offset : ℕ → ℕ
block_offset logic_addr = bit_and logic_addr 0xfff

unfoldable pub block_offset_rmw : ℕ → ℕ
block_offset_rmw logic_addr = shr (block_offset logic_addr) 8

-- `1U << n` on a 32-bit `unsigned`.
unfoldable pub block_bitshift_rmw : ℕ → ℕ
block_bitshift_rmw logic_addr = 1 * 2 ^ block_offset_rmw logic_addr % 2 ^ 32

pub block_offset-mod : (a : ℕ) → block_offset a ≡ a % 4096
unfolding block_offset
block_offset-mod a = bit_and-ones 12 a

pub translate-translate :
    (a : ℕ) → translate_to_block_addr (translate_to_block_addr a) ≡ translate_to_block_addr a
unfolding translate_to_block_addr
translate-translate a = omega arith

-- An RMW block lies in one AIT block: going through the RMW block's address loses nothing.
pub translate-Rmw :
    (a : ℕ) → translate_to_block_addr (Rmw.translate_to_block_addr a) ≡ translate_to_block_addr a
unfolding translate_to_block_addr Rmw.translate_to_block_addr
translate-Rmw a = omega arith
