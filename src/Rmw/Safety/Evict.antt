-- ===== src/Rmw/Safety/Evict.antt =====
-- src/general/rmw.cpp, `check_and_evict`: the ways it ends, and the invariant of the controller.
use vans.Base.{
  ℕ, ◌<◌, ◌≤◌, ◌≡◌, ◌≢◌, refl, sym, subst, ◌⊎◌, inl, inr, Bool, true, false, List, [], ◌∷◌, none,
  some, arith, leb, Bool-cases, length, All,
}
use vans.Base.Bits.{sub64}
use vans.Common.{clk_invalid, addr_invalid}
use vans.Common.Address.Rmw.{translate_to_block_addr, aligned-ne-invalid}
use vans.RequestQueue.{IsBounded}
use vans.Buffer
use vans.Buffer.{Buffer, lookup, remove}
use vans.Buffer.Laws.{
  Distinct, length-remove, All-lookup, All-remove, remove-Distinct, lookup-remove-none,
}
use vans.Buffer.Lru.{scan_oldest, NoneOlder, scan_oldest-Victim, Victim}
use vans.NextLevel.{NextLevel, Contract}
use vans.Rmw.Entry.{BufferEntry, is_end}
use vans.Rmw.Controller.{RmwController, Event, count}
use vans.Rmw.Lsq.{check_and_evict}
use vans.Rmw.Safety.{EntryOk, CoreOk, AllOk}
use vans.Rmw.Safety.Issue.{count-CoreOk}

-- Every entry is well-formed, no key stands twice, the table is within its bound, and the index
-- of the next entry is the number of entries.
pub record BufferOk (b : Buffer BufferEntry) : Type 0 where
  pub entries : AllOk b.entry_map
  pub distinct : Distinct b.entry_map
  pub bounded : length b.entry_map ≤ b.max_entries
  pub index : b.next_available_index ≡ length b.entry_map
  pub small : b.max_entries < clk_invalid

aligned_keys : (m : List (ℕ × BufferEntry)) → AllOk m → All (λ p. p.0 ≢ addr_invalid) m
aligned_keys [] a = tt
aligned_keys ((k, e) ∷ m) a = (aligned-ne-invalid k a.0.key_aligned, aligned_keys m a.1)

abbrev ended : BufferEntry → Bool
ended e = is_end e.state

abbrev used : BufferEntry → ℕ
used e = e.last_used_clk

module _ {N : Type 0} where
  -- The three ways of `check_and_evict`.
  abbrev pub Evicts : RmwController N → Bool × RmwController N → Type 0
  Evicts c out =
      ((out ≡ (true, c)) × (length c.buffer.entry_map < c.buffer.max_entries))
      ⊎ ((out ≡ (false, c))
          × (c.buffer.max_entries ≤ length c.buffer.entry_map)
          × ((c.evicting ≡ true) ⊎ NoneOlder ended used clk_invalid c.buffer.entry_map))
      ⊎ ((k : ℕ) × (e : BufferEntry) × (lookup k c.buffer.entry_map ≡ some e)
          × (is_end e.state ≡ true)
          × NoneOlder ended used e.last_used_clk c.buffer.entry_map
          × (c.buffer.max_entries ≤ length c.buffer.entry_map)
          × (out ≡ (
            true,
            record c {
              core = count Event.eviction c.core;
              buffer = record (c.buffer) {
                entry_map = remove k c.buffer.entry_map;
                next_available_index = sub64 c.buffer.next_available_index 1;
              };
            },
          )))

  abbrev scanned : RmwController N → ℕ
  scanned c = (scan_oldest ended used c.buffer.entry_map addr_invalid clk_invalid).0

  abbrev without : ℕ → RmwController N → RmwController N
  without k c = record c {
    core = count Event.eviction c.core;
    buffer = record (c.buffer) {
      entry_map = remove k c.buffer.entry_map;
      next_available_index = sub64 c.buffer.next_available_index 1;
    };
  }

  evict-room :
      (c : RmwController N)
      → leb c.buffer.max_entries (length c.buffer.entry_map) ≡ false
      → check_and_evict c ≡ (true, c)
  unfolding check_and_evict Buffer.full
  evict-room c h = ground arith

  evict-busy :
      (c : RmwController N)
      → leb c.buffer.max_entries (length c.buffer.entry_map) ≡ true
      → c.evicting ≡ true
      → check_and_evict c ≡ (false, c)
  unfolding check_and_evict Buffer.full
  evict-busy c h b = ground arith

  evict-none :
      (c : RmwController N)
      → leb c.buffer.max_entries (length c.buffer.entry_map) ≡ true
      → c.evicting ≡ false
      → scanned c ≡ addr_invalid
      → check_and_evict c ≡ (false, c)
  unfolding check_and_evict Buffer.full
  evict-none c h b a = ground arith

  evict-victim :
      (c : RmwController N)
      → leb c.buffer.max_entries (length c.buffer.entry_map) ≡ true
      → c.evicting ≡ false
      → scanned c ≢ addr_invalid
      → translate_to_block_addr (scanned c) ≡ scanned c
      → check_and_evict c ≡ (true, without (scanned c) c)
  unfolding check_and_evict Buffer.full Buffer.erase
  evict-victim c h b a k = ground arith

  -- On a well-formed buffer `check_and_evict` finds room and changes nothing; or it answers `false` and
  -- changes nothing, the buffer being full, since a flush is under way or no entry in the state `end` has
  -- a valid clock; or it removes from the full buffer an entry in that state of which none was used
  -- earlier.
  pub check_and_evict-Evicts :
      (c : RmwController N) → BufferOk c.buffer → Evicts c (check_and_evict c)
  check_and_evict-Evicts c v =
      elim (Bool-cases (leb c.buffer.max_entries (length c.buffer.entry_map))) [
        | inr room ↦ inl (evict-room c room, ground arith)
        | inl full ↦ elim (Bool-cases c.evicting) [
          | inl busy ↦ inr (inl (evict-busy c full busy, ground arith, inl busy))
          | inr quiet ↦ by_scan full quiet (
              scan_oldest-Victim ended used c.buffer.entry_map v.distinct
                (aligned_keys c.buffer.entry_map v.entries))
        ]
      ]
    where
      by_scan :
          leb c.buffer.max_entries (length c.buffer.entry_map) ≡ true
          → c.evicting ≡ false
          → Victim ended used c.buffer.entry_map (scanned c)
          → Evicts c (check_and_evict c)
      by_scan full quiet (inl (missing, older)) =
          inr (inl (evict-none c full quiet missing, ground arith, inr older))
      by_scan full quiet (inr (e, held, done, older, valid)) =
          let aligned =
            (All-lookup (λ p. EntryOk p.0 p.1) _ e c.buffer.entry_map v.entries held).key_aligned in
          inr (
            inr (
              scanned c,
              e,
              held,
              done,
              older,
              ground arith,
              evict-victim c full quiet valid aligned,
            ))

  without-BufferOk :
      (k : ℕ) (e : BufferEntry) (c : RmwController N)
      → BufferOk c.buffer
      → lookup k c.buffer.entry_map ≡ some e
      → BufferOk (without k c).buffer
        × (length (without k c).buffer.entry_map < c.buffer.max_entries)
  without-BufferOk k e c v held =
      let shorter = length-remove k e c.buffer.entry_map held in
      let i = v.index in
      let b = v.bounded in
      let s = v.small in
      (
        record {
          entries = All-remove (λ p. EntryOk p.0 p.1) k c.buffer.entry_map v.entries;
          distinct = remove-Distinct k c.buffer.entry_map v.distinct;
          bounded = omega arith;
          index = omega arith;
          small = v.small;
        },
        omega arith,
      )

module _ {N : Type 0} {next : NextLevel N} {horizon : ℕ} (contract : Contract next horizon) where
  pub record RmwOk (c : RmwController N) : Type 0 where
    pub core_ok : CoreOk contract c.core
    pub buffer_ok : BufferOk c.buffer
    pub lsq_ok : IsBounded c.lsq

  -- After an eviction the invariant holds, no key is new, and the queue is as it was; if it found
  -- room there is room.
  pub record EvictOk (c : RmwController N) (out : Bool × RmwController N) : Type 0 where
    pub ok : RmwOk out.1
    pub room : out.0 ≡ true → length out.1.buffer.entry_map < out.1.buffer.max_entries
    pub keys : (k : ℕ) → lookup k c.buffer.entry_map ≡ none → lookup k out.1.buffer.entry_map ≡ none
    pub same_lsq : out.1.lsq ≡ c.lsq

  pub check_and_evict-EvictOk : (c : RmwController N) → RmwOk c → EvictOk c (check_and_evict c)
  check_and_evict-EvictOk c v = by_way (check_and_evict c) (check_and_evict-Evicts c v.buffer_ok)
    where
      by_way : (out : Bool × RmwController N) → Evicts c out → EvictOk c out
      by_way out (inl (e, room)) =
          subst (EvictOk c) (sym e)
            (record { ok = v; room = λ _. room; keys = λ k h. h; same_lsq = refl })
      by_way out (inr (inl (e, filled, why))) =
          subst (EvictOk c) (sym e)
            (record { ok = v; room = λ h. absurd (cc); keys = λ k h. h; same_lsq = refl })
      by_way out (inr (inr (k, entry, held, done, older, filled, e))) =
          let w = without-BufferOk k entry c v.buffer_ok held in
          subst (EvictOk c) (sym e) (record {
            ok = record {
              core_ok = count-CoreOk contract Event.eviction c.core v.core_ok;
              buffer_ok = w.0;
              lsq_ok = v.lsq_ok;
            };
            room = λ _. w.1;
            keys = λ j h. lookup-remove-none j k c.buffer.entry_map h;
            same_lsq = refl;
          })
