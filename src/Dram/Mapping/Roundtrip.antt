-- ===== src/Dram/Mapping/Roundtrip.antt =====
-- src/general/mapping.h, `dram_mapping::map`: the address is had back from the indices. `rev_map` of
-- the code is not implemented; `join_levels` is what it would compute.
use native.Mathlib.Nat.{one-le-pow, pow-le-pow_right, div-add-mod, div-lt_iff_lt-mul}
use vans.Base.{
  ℕ, zero, suc, ◌+◌, ◌*◌, ◌%◌, ◌^◌, ◌≤◌, ◌<◌, ◌≡◌, ◌≢◌, refl, ap, ◌∙◌, List, arith, get_or, set,
  replicate, length, length-set, get_or-set_self, get_or-set_ne, bit_and,
}
use vans.Base.Bits.{bit_and-ones, ones, ones-pow, shr}
use vans.Dram.Mapping.{DramMapping, level_at, width_at, low_mask, map_levels, map_addr}

-- The address that the fields below `i` make up, the last field lowest.
pub join_levels : DramMapping → ℕ → List ℕ → ℕ
join_levels m zero mapped = 0
join_levels m (suc i) mapped =
    join_levels m i mapped * 2 ^ width_at m i + get_or mapped (level_at m i) 0

-- The number of addresses that the fields below `i` tell apart.
unfoldable pub capacity : DramMapping → ℕ → ℕ
capacity m zero = 1
capacity m (suc i) = capacity m i * 2 ^ width_at m i

-- The fields of the code name the levels, each one once, and no field is wider than a mask can be.
pub record IsOrder (m : DramMapping) : Type 0 where
  pub is_level : (i : ℕ) → i < 6 → level_at m i < 6
  pub distinct : (i j : ℕ) → i < j → j < 6 → level_at m i ≢ level_at m j
  pub narrow : (i : ℕ) → i < 6 → width_at m i < 32

pub low_mask-ones : (w : ℕ) → w < 32 → low_mask w ≡ ones w
low_mask-ones w h = omega (
  arith,
  pow-le-pow_right {n = 2} (omega arith) {i = w} {j = 31} (omega arith),
  one-le-pow w 2,
  ones-pow w,
)

pub masked : (x w : ℕ) → w < 32 → bit_and x (low_mask w) ≡ x % 2 ^ w
masked x w h = ap (bit_and x) (low_mask-ones w h) ∙ bit_and-ones w x

module _ (m : DramMapping) (v : IsOrder m) where
  -- The rounds below `i` leave the fields from `i` on alone.
  map_levels-keeps :
      (i j x : ℕ) (mapped : List ℕ)
      → i ≤ j
      → j < 6
      → get_or (map_levels m i x mapped) (level_at m j) 0 ≡ get_or mapped (level_at m j) 0
  unfolding map_levels
  map_levels-keeps zero j x mapped h k = refl
  map_levels-keeps (suc i) j x mapped h k =
      map_levels-keeps i j (shr x (width_at m i)) _ (omega arith) k
      ∙ get_or-set_ne mapped _ 0 (v.distinct i j h k)

  join_levels-map_levels :
      (i x : ℕ) (mapped : List ℕ)
      → i ≤ 6
      → length mapped ≡ 6
      → x < capacity m i
      → join_levels m i (map_levels m i x mapped) ≡ x
  unfolding join_levels map_levels capacity
  join_levels-map_levels zero x mapped h l c = omega arith
  join_levels-map_levels (suc i) x mapped h l c =
      let w = width_at m i in
      let low = bit_and x (low_mask w) in
      let deeper =
        join_levels-map_levels i (shr x w) (set mapped (level_at m i) low) (omega arith)
          (length-set mapped (level_at m i) low ∙ l)
          ((div-lt_iff_lt-mul (one-le-pow w 2 (omega arith))).1 c) in
      let field =
        map_levels-keeps i i (shr x w) (set mapped (level_at m i) low) (omega arith) h
        ∙ get_or-set_self mapped (level_at m i) low 0 (omega (arith, v.is_level i h))
        ∙ masked x w (v.narrow i h) in
      grind (arith, deeper, field, div-add-mod x (2 ^ w))

  -- Under a mapping whose fields name each level once, an address of the memory is had back from
  -- the indices that it is mapped to, but for its offset in the transaction.
  pub map_addr-roundtrip :
      (logic_addr : ℕ)
      → shr logic_addr m.tx_bit_width < capacity m 6
      → join_levels m 6 (map_addr m logic_addr) ≡ shr logic_addr m.tx_bit_width
  unfolding map_addr
  map_addr-roundtrip logic_addr h =
      join_levels-map_levels 6 (shr logic_addr m.tx_bit_width) (replicate 6 0) (omega arith) refl h
