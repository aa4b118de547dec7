-- ===== src/Buffer.antt =====
-- src/general/buffer.h: the bounded table of entries of a controller. The `unordered_map` is an
-- association list; a new entry stands first, where the code's order is that of the hash table.
pub mod Laws
pub mod Lru
use vans.Base.{
  ℕ, ◌+◌, ◌-◌, Bool, true, false, ◌||◌, List, [], ◌∷◌, Option, none, some, ltb, leb, ◌==◌,
  if◌then◌else◌, length, Result, ok, err, insert_existing, insert_full, index_out_of_range,
  map_at_missing,
}
use vans.Base.Bits.{add64, sub64}

pub record Buffer {ℓ} (E : Type ℓ) : Type ℓ where
  pub entry_map : List (ℕ × E)
  pub max_entries : ℕ
  pub next_available_index : ℕ

module _ {ℓ} {E : Type ℓ} where
  -- The `unordered_map` operations: `find`, `erase` of a key, a write through an iterator, `at`.
  unfoldable pub lookup : ℕ → List (ℕ × E) → Option E
  lookup k [] = none
  lookup k ((j, e) ∷ m) = if j == k then some e else lookup k m

  unfoldable pub remove : ℕ → List (ℕ × E) → List (ℕ × E)
  remove k [] = []
  remove k ((j, e) ∷ m) = if j == k then m else (j, e) ∷ remove k m

  unfoldable pub update : ℕ → E → List (ℕ × E) → List (ℕ × E)
  update k v [] = []
  update k v ((j, e) ∷ m) = if j == k then (j, v) ∷ m else (j, e) ∷ update k v m

  unfoldable pub at : ℕ → List (ℕ × E) → Result E
  unfolding lookup
  at k m = elim (lookup k m) [ none ↦ err map_at_missing | some e ↦ ok e ]

  unfoldable pub any : (E → Bool) → List (ℕ × E) → Bool
  any p [] = false
  any p ((j, e) ∷ m) = p e || any p m

  unfoldable pub full : Buffer E → Bool
  full b = leb b.max_entries (length b.entry_map)

  unfoldable pub empty : Buffer E → Bool
  empty b = length b.entry_map == 0

  -- `pending` and `dirty`, by the flag that they read.
  unfoldable pub any_entry : (E → Bool) → Buffer E → Bool
  unfolding any
  any_entry flag b = any flag b.entry_map

  -- `insert` also returns the entry that its iterator refers to.
  -- `addr_func` is the template's `AddrFunc`; `make i` is the entry that the constructor's arguments
  -- give, with the index `i` as its `buffer_index`.
  module _ (addr_func : ℕ → ℕ) where
    unfoldable pub find : ℕ → Buffer E → Option E
    unfolding lookup
    find logic_addr b = lookup (addr_func logic_addr) b.entry_map

    unfoldable pub erase : ℕ → Buffer E → Buffer E
    unfolding remove
    erase logic_addr b = record b {
      entry_map = remove (addr_func logic_addr) b.entry_map;
      next_available_index = sub64 b.next_available_index 1;
    }

    unfoldable pub insert : ℕ → (ℕ → E) → Buffer E → Result (E × Buffer E)
    unfolding lookup
    insert addr make b = elim (lookup (addr_func addr) b.entry_map) [
      | some _ ↦ err insert_existing
      | none ↦
          if ltb b.max_entries (length b.entry_map + 1)
          then err insert_full
          else if ltb b.max_entries b.next_available_index
          then err index_out_of_range
          else ok (
            make b.next_available_index,
            record b {
              entry_map = (addr_func addr, make b.next_available_index) ∷ b.entry_map;
              next_available_index = add64 b.next_available_index 1;
            },
          )
    ]
