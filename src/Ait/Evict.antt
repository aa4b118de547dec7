-- ===== src/Ait/Evict.antt =====
-- src/general/ait.cpp, `check_and_evict`: the ways it ends.
use vans.Base.{
  ℕ, ◌<◌, ◌≤◌, ◌≡◌, ◌≢◌, inl, inr, ◌⊎◌, Bool, true, false, List, [], ◌∷◌, some, arith, leb,
  Bool-cases, length, All,
}
use vans.Base.Bits.{sub64}
use vans.Common.{clk_invalid, addr_invalid}
use vans.Common.Address.Ait.{translate_to_block_addr}
use vans.Buffer
use vans.Buffer.{Buffer, lookup, remove}
use vans.Buffer.Laws.{Distinct, All-lookup}
use vans.Buffer.Lru.{scan_oldest, NoneOlder, scan_oldest-Victim, Victim}
use vans.Ait.Entry.{BufferEntry, is_end}
use vans.Ait.Controller.{AitController, Event, count}
use vans.Ait.Lsq.{check_and_evict}

abbrev ended : BufferEntry → Bool
ended e = is_end e.state

abbrev used : BufferEntry → ℕ
used e = e.last_used_clk

-- The keys are addresses of blocks, and none stands twice.
pub record KeysOk (m : List (ℕ × BufferEntry)) : Type 0 where
  pub aligned : All (λ p. translate_to_block_addr p.0 ≡ p.0) m
  pub distinct : Distinct m

aligned_ne_invalid : (k : ℕ) → translate_to_block_addr k ≡ k → k ≢ addr_invalid
unfolding translate_to_block_addr
aligned_ne_invalid k h = omega arith

valid_keys :
    (m : List (ℕ × BufferEntry))
    → All (λ p. translate_to_block_addr p.0 ≡ p.0) m
    → All (λ p. p.0 ≢ addr_invalid) m
valid_keys [] a = tt
valid_keys ((k, e) ∷ m) a = (aligned_ne_invalid k a.0, valid_keys m a.1)

module _ {N M : Type 0} where
  abbrev scanned : AitController N M → ℕ
  scanned c = (scan_oldest ended used c.buffer.entry_map addr_invalid clk_invalid).0

  abbrev without : ℕ → AitController N M → AitController N M
  without k c = record c {
    core = count Event.eviction c.core;
    buffer = record (c.buffer) {
      entry_map = remove k c.buffer.entry_map;
      next_available_index = sub64 c.buffer.next_available_index 1;
    };
  }

  -- The three ways of `check_and_evict`.
  abbrev pub AitEvicts : AitController N M → Bool × AitController N M → Type 0
  AitEvicts c out =
      ((out ≡ (true, c)) × (length c.buffer.entry_map < c.buffer.max_entries))
      ⊎ ((out ≡ (false, c))
          × (c.buffer.max_entries ≤ length c.buffer.entry_map)
          × ((c.evicting ≡ true) ⊎ NoneOlder ended used clk_invalid c.buffer.entry_map))
      ⊎ ((k : ℕ) × (e : BufferEntry) × (lookup k c.buffer.entry_map ≡ some e)
          × (is_end e.state ≡ true)
          × NoneOlder ended used e.last_used_clk c.buffer.entry_map
          × (c.buffer.max_entries ≤ length c.buffer.entry_map)
          × (out ≡ (true, without k c)))

  evict-room :
      (c : AitController N M)
      → leb c.buffer.max_entries (length c.buffer.entry_map) ≡ false
      → check_and_evict c ≡ (true, c)
  unfolding check_and_evict Buffer.full
  evict-room c h = ground arith

  evict-busy :
      (c : AitController N M)
      → leb c.buffer.max_entries (length c.buffer.entry_map) ≡ true
      → c.evicting ≡ true
      → check_and_evict c ≡ (false, c)
  unfolding check_and_evict Buffer.full
  evict-busy c h b = ground arith

  evict-none :
      (c : AitController N M)
      → leb c.buffer.max_entries (length c.buffer.entry_map) ≡ true
      → c.evicting ≡ false
      → scanned c ≡ addr_invalid
      → check_and_evict c ≡ (false, c)
  unfolding check_and_evict Buffer.full
  evict-none c h b a = ground arith

  evict-victim :
      (c : AitController N M)
      → leb c.buffer.max_entries (length c.buffer.entry_map) ≡ true
      → c.evicting ≡ false
      → scanned c ≢ addr_invalid
      → translate_to_block_addr (scanned c) ≡ scanned c
      → check_and_evict c ≡ (true, without (scanned c) c)
  unfolding check_and_evict Buffer.full Buffer.erase
  evict-victim c h b a k = ground arith

  -- Where the keys are addresses of blocks and none stands twice, `check_and_evict` finds room and changes
  -- nothing; or it answers `false` and changes nothing, the buffer being full, since a flush is under way
  -- or no entry in the state `end` has a valid clock; or it removes from the full buffer an entry in that
  -- state of which none was used earlier.
  pub check_and_evict-AitEvicts :
      (c : AitController N M) → KeysOk c.buffer.entry_map → AitEvicts c (check_and_evict c)
  check_and_evict-AitEvicts c v =
      elim (Bool-cases (leb c.buffer.max_entries (length c.buffer.entry_map))) [
        | inr room ↦ inl (evict-room c room, ground arith)
        | inl full ↦ elim (Bool-cases c.evicting) [
          | inl busy ↦ inr (inl (evict-busy c full busy, ground arith, inl busy))
          | inr quiet ↦ by_scan full quiet (
              scan_oldest-Victim ended used c.buffer.entry_map v.distinct
                (valid_keys c.buffer.entry_map v.aligned))
        ]
      ]
    where
      by_scan :
          leb c.buffer.max_entries (length c.buffer.entry_map) ≡ true
          → c.evicting ≡ false
          → Victim ended used c.buffer.entry_map (scanned c)
          → AitEvicts c (check_and_evict c)
      by_scan full quiet (inl (missing, older)) =
          inr (inl (evict-none c full quiet missing, ground arith, inr older))
      by_scan full quiet (inr (e, held, done, older, valid)) =
          let aligned =
            All-lookup (λ p. translate_to_block_addr p.0 ≡ p.0) _ e c.buffer.entry_map v.aligned
              held in
          inr (
            inr (
              scanned c,
              e,
              held,
              done,
              older,
              ground arith,
              evict-victim c full quiet valid aligned,
            ))
