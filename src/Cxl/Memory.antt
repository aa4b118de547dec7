-- ===== src/Cxl/Memory.antt =====
-- src/cxl/mocks/MockCxlMemory.h: the memory behind the protocol handler, a table of regions by
-- address. A byte is a number.
use vans.Base.{
  ℕ, zero, suc, Bool, true, false, List, [], ◌∷◌, Option, none, some, ltb, if◌then◌else◌, length,
  replicate,
}
use vans.Base.Bits.{add64}
use vans.Buffer.{lookup, remove, update}

pub record CxlMemory : Type 0 where
  pub next_free_address : ℕ
  pub memory : List (ℕ × List ℕ)

-- The constructor.
abbrev pub empty_memory : CxlMemory
empty_memory = record { next_free_address = 1; memory = [] }

unfoldable pub take : ℕ → List ℕ → List ℕ
take zero bytes = []
take (suc n) [] = []
take (suc n) (b ∷ bytes) = b ∷ take n bytes

-- `memcpy(region, data, size)` where the region is at least as long and `data` has `size` bytes.
unfoldable pub overwrite : List ℕ → List ℕ → List ℕ
overwrite region [] = region
overwrite [] (b ∷ data') = []
overwrite (r ∷ region) (b ∷ data') = b ∷ overwrite region data'

-- The region at an address, where it has `size` bytes.
unfoldable pub find_region : ℕ → ℕ → CxlMemory → Option (List ℕ)
unfolding lookup
find_region address size m = elim (lookup address m.memory) [
  | none ↦ none
  | some region ↦ if ltb (length region) size then none else some region
]

-- The bytes read; `none` is the answer `false`.
unfoldable pub read : ℕ → ℕ → CxlMemory → Option (List ℕ)
unfolding find_region take
read address size m = elim (find_region address size m) [
  | none ↦ none
  | some region ↦ some (take size region)
]

unfoldable pub write : ℕ → List ℕ → ℕ → CxlMemory → Bool × CxlMemory
unfolding find_region overwrite update take
write address data' size m = elim (find_region address size m) [
  | none ↦ (false, m)
  | some region ↦
      (true, record m { memory = update address (overwrite region (take size data')) m.memory })
]

-- `memory[addr] = ...` puts the region in place of one that is there.
unfoldable pub allocate : ℕ → CxlMemory → ℕ × CxlMemory
unfolding remove
allocate size m = (
  m.next_free_address,
  record {
    next_free_address = add64 m.next_free_address 1;
    memory = (m.next_free_address, replicate size 0) ∷ remove m.next_free_address m.memory;
  },
)

unfoldable pub deallocate : ℕ → CxlMemory → CxlMemory
unfolding remove
deallocate address m = record m { memory = remove address m.memory }
