-- ===== src/Common/Address/Rmw.antt =====
-- src/general/utils.h, namespace rmw: the 256-byte blocks of the RMW buffer.
use vans.Base.{ℕ, ◌*◌, ◌%◌, ◌^◌, ◌<◌, bit_and, ◌≡◌, ◌≢◌, arith}
use vans.Base.Bits.{shl, shr, bit_and-ones}
use vans.Common.{addr_invalid}

abbrev pub block_size_cl : ℕ
block_size_cl = 4

abbrev pub block_hit_cl_bitmask : ℕ
block_hit_cl_bitmask = 0xf

unfoldable pub translate_to_block_addr : ℕ → ℕ
translate_to_block_addr logic_addr = shl (shr logic_addr 8) 8

unfoldable pub block_offset : ℕ → ℕ
block_offset logic_addr = bit_and logic_addr 0xff

unfoldable pub block_offset_cl : ℕ → ℕ
block_offset_cl logic_addr = shr (block_offset logic_addr) 6

-- `1U << n` on a 32-bit `unsigned`.
unfoldable pub block_bitshift_cl : ℕ → ℕ
block_bitshift_cl logic_addr = 1 * 2 ^ block_offset_cl logic_addr % 2 ^ 32

pub block_offset-mod : (a : ℕ) → block_offset a ≡ a % 256
unfolding block_offset
block_offset-mod a = bit_and-ones 8 a

-- A cache line's index in its block is one of four.
pub block_offset_cl-lt : (a : ℕ) → block_offset_cl a < block_size_cl
unfolding block_offset_cl
block_offset_cl-lt a = omega (arith, block_offset-mod a)

pub translate-translate :
    (a : ℕ) → translate_to_block_addr (translate_to_block_addr a) ≡ translate_to_block_addr a
unfolding translate_to_block_addr
translate-translate a = omega arith

pub aligned-ne-invalid : (k : ℕ) → translate_to_block_addr k ≡ k → k ≢ addr_invalid
unfolding translate_to_block_addr
aligned-ne-invalid k h = omega arith
