-- ===== src/Mapping/Stride.antt =====
-- src/general/mapping.h, `stride_mapping_4096` as arithmetic, and its inverse.
use vans.Base.{ℕ, ◌+◌, ◌*◌, ◌/◌, ◌%◌, ◌^◌, ◌<◌, ◌≤◌, ◌≡◌, arith}
use native.Mathlib.Nat.{div-add-mod'}
use vans.Base.Bits.{shl, bit_and-ones, bit_or_disjoint}
use vans.Mapping.{map_stride_4096}

div-le_self : (a n : ℕ) → a / n ≤ a
div-le_self a n = grind arith

shl-page : (x y : ℕ) → x ≤ y / 2 ^ 12 → y < 2 ^ 64 → shl x 12 ≡ x * 2 ^ 12
shl-page x y h l = omega arith

pub stride_mapping-addr :
    (a n : ℕ) → a < 2 ^ 64 → (map_stride_4096 a n).0 ≡ (a / 2 ^ 12 / n) * 2 ^ 12 + a % 2 ^ 12
unfolding map_stride_4096
stride_mapping-addr a n h =
    rw (shl-page (a / 2 ^ 12 / n) a (div-le_self (a / 2 ^ 12) n) h, bit_and-ones 12 a)
      (bit_or_disjoint 12 (a / 2 ^ 12 / n) (a % 2 ^ 12) (omega arith))

-- The address that was mapped to `next_addr` in component `id` of `n`.
pub unmap : ℕ → ℕ × ℕ → ℕ
unmap n (next_addr, id) = (next_addr / 2 ^ 12 * n + id) * 2 ^ 12 + next_addr % 2 ^ 12

pages : (a n : ℕ) → (a / 2 ^ 12 / n * 2 ^ 12 + a % 2 ^ 12) / 2 ^ 12 ≡ a / 2 ^ 12 / n
pages a n = omega arith

-- For an address of 64 bits and any components: from the mapped address and the component's index the
-- address is had back, the mapped address has the same offset in its page, it is no greater, and the
-- index is one of the components'.
pub stride_mapping_roundtrip :
    (a n : ℕ)
    → a < 2 ^ 64
    → 0 < n
    → (unmap n (map_stride_4096 a n) ≡ a)
      × ((map_stride_4096 a n).0 % 4096 ≡ a % 4096)
      × ((map_stride_4096 a n).0 ≤ a)
      × ((map_stride_4096 a n).1 < n)
unfolding unmap
stride_mapping_roundtrip a n h p = (
  rw (stride_mapping-addr a n h, pages a n) (omega (arith, whole)),
  rw (stride_mapping-addr a n h) (omega arith),
  rw (stride_mapping-addr a n h) (omega (arith, div-le_self (a / 2 ^ 12) n)),
  unfold map_stride_4096 in omega arith,
)
  where
    whole : a / 2 ^ 12 / n * n + (map_stride_4096 a n).1 ≡ a / 2 ^ 12
    whole = unfold map_stride_4096 in div-add-mod' (a / 2 ^ 12) n
