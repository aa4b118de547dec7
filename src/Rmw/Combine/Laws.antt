-- ===== src/Rmw/Combine/Laws.antt =====
-- src/general/rmw.cpp, `tick_lsq_write`: the write-combining loop by the requests that it takes.
use vans.Base.{
  ℕ, suc, ◌<◌, ◌≤◌, ◌≡◌, refl, inl, inr, Bool, true, false, ◌&&◌, ◌||◌, List, [], ◌∷◌, ◌++◌, ◌==◌,
  arith, set, get_or, ap, length, length-set, get_or-set_self, get_or-set_ne, if◌then◌else◌,
  Bool-cases,
}
use vans.Common.{BaseRequest, BaseRequestType, read, write}
use vans.Common.Address.Rmw.{translate_to_block_addr, block_offset_cl}
use vans.Rmw.Combine.{combine_writes, or_bits}

-- The specification, by the requests in front of the first read of the block and those from it on.
in_block : ℕ → BaseRequest → Bool
in_block block req = block == translate_to_block_addr req.addr

is_read_type : BaseRequestType → Bool
is_read_type read = true
is_read_type write = false

pub before_read : ℕ → List BaseRequest → List BaseRequest
before_read block [] = []
before_read block (req ∷ queue) =
    if in_block block req && is_read_type req.type then [] else req ∷ before_read block queue

pub from_read : ℕ → List BaseRequest → List BaseRequest
from_read block [] = []
from_read block (req ∷ queue) =
    if in_block block req && is_read_type req.type then req ∷ queue else from_read block queue

pub other_blocks : ℕ → List BaseRequest → List BaseRequest
other_blocks block [] = []
other_blocks block (req ∷ queue) =
    if in_block block req then other_blocks block queue else req ∷ other_blocks block queue

-- Some request of the list is to line `i` of the block.
pub hits_line : ℕ → ℕ → List BaseRequest → Bool
hits_line block i [] = false
hits_line block i (req ∷ queue) =
    (in_block block req && block_offset_cl req.addr == i) || hits_line block i queue

-- The queue that is left: of the requests before the block's first read those of other blocks, in
-- their order, then that read and all behind it untouched.
pub combine_writes-queue :
    (block : ℕ) (queue : List BaseRequest) (hit : List Bool)
    → (combine_writes block queue hit).0
      ≡ other_blocks block (before_read block queue) ++ from_read block queue
unfolding combine_writes other_blocks before_read from_read in_block is_read_type
combine_writes-queue block [] hit = refl
combine_writes-queue block (req ∷ queue) hit = ground (
  arith,
  combine_writes-queue block queue hit,
  combine_writes-queue block queue (set hit (block_offset_cl req.addr) true),
)

pub length-combine_writes :
    (block : ℕ) (queue : List BaseRequest) (hit : List Bool)
    → length (combine_writes block queue hit).0 ≤ length queue
unfolding combine_writes
length-combine_writes block [] hit = omega arith
length-combine_writes block (req ∷ queue) hit = ground (
  arith,
  length-combine_writes block queue hit,
  length-combine_writes block queue (set hit (block_offset_cl req.addr) true),
)

pub length-combine_writes_hit :
    (block : ℕ) (queue : List BaseRequest) (hit : List Bool)
    → length (combine_writes block queue hit).1 ≡ length hit
unfolding combine_writes
length-combine_writes_hit block [] hit = refl
length-combine_writes_hit block (req ∷ queue) hit = ground (
  arith,
  length-combine_writes_hit block queue hit,
  length-combine_writes_hit block queue (set hit (block_offset_cl req.addr) true),
  length-set hit (block_offset_cl req.addr) true,
)

get_or-set :
    (bits : List Bool) (i j : ℕ)
    → i < length bits
    → get_or (set bits j true) i false ≡ (get_or bits i false || (j == i))
get_or-set bits i j h = elim (Bool-cases (j == i)) [
  | inl same ↦ ground (arith, get_or-set_self bits i true false h)
  | inr other ↦ ground (arith, get_or-set_ne bits {i = j} {j = i} true false (λ e. ground arith))
]

-- For each line that the bitmap has, its bit is set after the loop if it was set before, or if a write
-- that the loop takes is to that line.
pub combine_writes-hit :
    (block : ℕ) (queue : List BaseRequest) (hit : List Bool) (i : ℕ)
    → i < length hit
    → get_or (combine_writes block queue hit).1 i false
      ≡ (get_or hit i false || hits_line block i (before_read block queue))
unfolding combine_writes before_read hits_line in_block is_read_type
combine_writes-hit block [] hit i h = ground arith
combine_writes-hit block (req ∷ queue) hit i h = ground (
  arith,
  combine_writes-hit block queue hit i h,
  combine_writes-hit block queue (set hit (block_offset_cl req.addr) true) i,
  length-set hit (block_offset_cl req.addr) true,
  get_or-set hit i (block_offset_cl req.addr) h,
)

pub length-or_bits : (as' bs : List Bool) → length (or_bits as' bs) ≡ length as'
unfolding or_bits
length-or_bits [] bs = refl
length-or_bits (a ∷ as') [] = refl
length-or_bits (a ∷ as') (b ∷ bs) = ap suc (length-or_bits as' bs)
