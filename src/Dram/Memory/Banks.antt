-- ===== src/Dram/Memory/Banks.antt =====
-- src/general/dram_memory.h and mapping.h: the indices of an address lead to a bank of the memory.
use native.Mathlib.Nat.{pow-le-pow_right, one-le-pow, mod-lt}
use Prim.Native.String.{String}
use vans.Base.{
  ℕ, zero, suc, ◌^◌, ◌%◌, ◌≤◌, ◌<◌, ◌≡◌, refl, ap, subst, ◌⊎◌, inl, inr, ltb, List, [], ◌∷◌, get_or,
  set, replicate, bit_and, codes, ◌*◌, ◌/◌, Bool-cases, arith, Result, ok, ◌>>=◌, some, Partial,
  Partial-at, Partial-any, Partial-bind, returned, thrown,
}
use vans.Base.Bits.{shr, sub64}
use vans.Common.Power.{log2, log2-bounds, is_pwr_of_2}
use vans.Dram.Ddr4.{Level, channel, rank, bank_group, bank, row, col, Timing, Ddr4}
use vans.Dram.Ddr4.Rules.{ddr4}
use vans.Dram.Mapping.{
  DramMapping, dram_mapping, encode, level_at, width_at, low_mask, map_levels, map_addr,
}
use vans.Dram.Mapping.Roundtrip.{masked}
use vans.Dram.Node.{
  Node, Dram, new_node, new_children, new_bank, new_bank_group, new_rank, new_channel,
}
use vans.Dram.Path.{node_at, node_in}
use vans.Dram.Schedule.{Leads}

-- Each index whose field is narrow is below the number of values of the field.
Fits : DramMapping → List ℕ → Type 0
Fits m mapped =
    (l : ℕ) → get_or m.addr_bit_width l 0 < 32 → get_or mapped l 0 < 2 ^ get_or m.addr_bit_width l 0

get_or-replicate : (n l : ℕ) → get_or {A = ℕ} (replicate n 0) l 0 ≡ 0
get_or-replicate zero l = refl
get_or-replicate (suc n) zero = refl
get_or-replicate (suc n) (suc l) = get_or-replicate n l

get_or-set :
    (xs : List ℕ) (k l v : ℕ)
    → (get_or (set xs k v) l 0 ≡ get_or xs l 0) ⊎ ((k ≡ l) × (get_or (set xs k v) l 0 ≡ v))
get_or-set [] k l v = inl refl
get_or-set (x ∷ xs) zero zero v = inr (refl, refl)
get_or-set (x ∷ xs) zero (suc l) v = inl refl
get_or-set (x ∷ xs) (suc k) zero v = inl refl
get_or-set (x ∷ xs) (suc k) (suc l) v = elim (get_or-set xs k l v) [
  | inl same ↦ inl same
  | inr (e, h) ↦ inr (ap suc e, h)
]

map_levels-Fits :
    (m : DramMapping) (i x : ℕ) (mapped : List ℕ) → Fits m mapped → Fits m (map_levels m i x mapped)
unfolding map_levels Fits
map_levels-Fits m zero x mapped h = h
map_levels-Fits m (suc i) x mapped h =
    let v = bit_and x (low_mask (width_at m i)) in
    map_levels-Fits m i (shr x (width_at m i)) (set mapped (level_at m i) v) (λ l narrow.
      elim (get_or-set mapped (level_at m i) l v) [
        | inl same ↦ omega (arith, same, h l narrow)
        | inr (e, here) ↦
            let w : width_at m i ≡ get_or m.addr_bit_width l 0 =
              ap (λ k. get_or m.addr_bit_width k 0) e in
            let value = masked x (width_at m i) (omega (arith, w, narrow)) in
            let below : x % 2 ^ width_at m i < 2 ^ width_at m i =
              mod-lt x (one-le-pow (width_at m i) 2 (omega arith)) in
            subst (λ k. get_or (set mapped (level_at m i) v) l 0 < 2 ^ k) w
              (omega (arith, here, value, below))
      ])

map_addr-Fits : (m : DramMapping) (addr : ℕ) → Fits m (map_addr m addr)
unfolding map_addr Fits
map_addr-Fits m addr = map_levels-Fits m 6 (shr addr m.tx_bit_width) (replicate 6 0) (λ l narrow.
    let at = get_or-replicate 6 l in
    omega (arith, at, one-le-pow (get_or m.addr_bit_width l 0) 2 (omega arith)))

log2-narrow : (v : ℕ) → 0 < v → v < 2 ^ 32 → (log2 v < 32) × (2 ^ log2 v ≤ v)
log2-narrow v p h =
    let (lo, hi) = log2-bounds v p (omega (arith, h)) in
    elim (Bool-cases (ltb (log2 v) 32)) [
      | inl less ↦ (ground arith, lo)
      | inr more ↦ absurd (
          omega (
            arith,
            h,
            lo,
            pow-le-pow_right {n = 2} (omega arith) {i = 32} {j = log2 v} (ground arith),
          ))
    ]

node_in-new_children :
    (depth : ℕ) (addr : List ℕ) (child : ℕ → Dram) (i id count : ℕ)
    → i < count
    → ((j : ℕ) → Leads depth addr (child j))
    → (n : Node) × (node_in depth addr i (new_children child id count) ≡ some n)
unfolding node_at new_children
node_in-new_children depth addr child i id zero h k = absurd (omega (arith, h))
node_in-new_children depth addr child zero id (suc count) h k = k id
node_in-new_children depth addr child (suc i) id (suc count) h k =
    node_in-new_children depth addr child i (suc id) count (omega (arith, h)) k

-- In a channel as it is constructed, indices below the counts lead to a bank.
new_channel-Leads :
    (spec : Ddr4) (addr : List ℕ)
    → get_or addr 1 0 < spec.count rank
    → get_or addr 2 0 < spec.count bank_group
    → get_or addr 3 0 < spec.count bank
    → Leads 3 addr (new_channel spec)
unfolding node_at new_channel new_rank new_bank_group new_bank new_node
new_channel-Leads spec addr r g b =
    node_in-new_children 2 addr (new_rank spec) (get_or addr 1 0) 0 (spec.count rank) r (λ i.
      node_in-new_children 1 addr (new_bank_group spec) (get_or addr 2 0) 0 (spec.count bank_group)
        g
        (λ j.
          node_in-new_children 0 addr (new_bank spec) (get_or addr 3 0) 0 (spec.count bank) b
            (λ k. (_, refl))))

-- The widths of the levels down to the bank, as the constructor computes them.
abbrev Widths : (Level → ℕ) → DramMapping → Type 0
Widths count m =
    (get_or m.addr_bit_width 1 0 ≡ log2 (count rank))
    × (get_or m.addr_bit_width 2 0 ≡ log2 (count bank_group))
    × (get_or m.addr_bit_width 3 0 ≡ log2 (count bank))

dram_mapping-Widths :
    (count : Level → ℕ) (mapping_func : String)
    → Partial (Widths count) (dram_mapping count mapping_func)
unfolding dram_mapping
dram_mapping-Widths count mapping_func = elim (Bool-cases (is_pwr_of_2 64)) [
  | inl yes_pwr ↦ rw yes_pwr (
      by_code (encode 0 6 (codes mapping_func) 0)
        (λ code. record {
          tx_bit_width = log2 (64 * 8 / 8);
          addr_bit_width =
              log2 (count channel)
              ∷ log2 (count rank)
              ∷ log2 (count bank_group)
              ∷ log2 (count bank)
              ∷ log2 (count row)
              ∷ sub64 (log2 (count col)) (log2 8)
              ∷ [];
          code = code;
        })
        (λ code. (refl, refl, refl)))
  | inr no_pwr ↦ rw no_pwr thrown
]
  where
    by_code :
        (r : Result ℕ) (mapping : ℕ → DramMapping)
        → ((code : ℕ) → Widths count (mapping code))
        → Partial (Widths count) (r >>= λ code. ok (mapping code))
    by_code r mapping h = Partial-bind (Partial-any r) (λ code t. returned (h code))

abbrev pub IsCount : ℕ → Type 0
IsCount n = (0 < n) × (n < 2 ^ 32)

pub mapped-Leads :
    (t : Timing) (count : Level → ℕ) (mapping_func : String) {m : DramMapping}
    → IsCount (count rank) × IsCount (count bank_group) × IsCount (count bank)
    → dram_mapping count mapping_func ≡ ok m
    → (addr : ℕ) → Leads 3 (map_addr m addr) (new_channel (ddr4 t count))
unfolding Fits ddr4
mapped-Leads t count mapping_func {m} (r, g, b) e addr =
    let (wr, wg, wb) = Partial-at (dram_mapping-Widths count mapping_func) e in
    let fits = map_addr-Fits m addr in
    let (r', rle) = log2-narrow (count rank) r.0 r.1 in
    let (g', gle) = log2-narrow (count bank_group) g.0 g.1 in
    let (b', ble) = log2-narrow (count bank) b.0 b.1 in
    let below =
      λ (l n : ℕ) (w : get_or m.addr_bit_width l 0 ≡ log2 n) (narrow : log2 n < 32)
          (le : 2 ^ log2 n ≤ n).
        subst (λ k. get_or (map_addr m addr) l 0 < 2 ^ k) w (fits l (omega (arith, w, narrow))) in
    new_channel-Leads (ddr4 t count) (map_addr m addr)
      (omega (arith, below 1 (count rank) wr r' rle, rle))
      (omega (arith, below 2 (count bank_group) wg g' gle, gle))
      (omega (arith, below 3 (count bank) wb b' ble, ble))
