-- ===== src/Ait/Accept.antt =====
-- src/general/ait.cpp, `tick_lsq`: the requests that the AIT takes from its queue, and the invariant of
-- its table.
pub mod Handlers
use vans.Base.{
  ℕ, suc, ◌+◌, ◌<◌, ◌≤◌, ◌≡◌, ◌≢◌, refl, sym, subst, ap, ◌∙◌, inl, inr, Bool, true, false, not,
  ◌&&◌, List, [], ◌∷◌, Option, none, some, arith, if◌then◌else◌, Bool-cases, Option-cases, length,
  All, Result, ok, ◌>>=◌, Returns, returns, Returns-bind,
}
use vans.Base.Bits.{add64}
use vans.Common.{BaseRequest, BaseRequestType, read, write, clk_invalid}
use vans.Common.Address.Ait.{translate_to_block_addr, translate-translate, block_bitshift_rmw}
use vans.Common.Address.Rmw.{translate_to_block_addr as rmw_block_addr}
use vans.RequestQueue.{IsBounded}
use vans.Buffer
use vans.Buffer.{Buffer, lookup}
use vans.Buffer.Laws.{
  Distinct, insert-eq, length-remove, All-remove, All-update, remove-Distinct, update-Distinct,
  length-update, lookup-remove-none,
}
use vans.Ait.Entry.{
  BufferEntry, RequestType, read_miss, write_miss, read_hit, write_hit, buffer_entry,
  assign_new_request, assign_callback, record_write,
}
use vans.Ait.Controller.{AitController, Event, count}
use vans.Ait.Lsq.{check_and_evict, serve, tick_lsq_read, tick_lsq_write, tick_lsq}
use vans.Ait.Evict.{KeysOk, AitEvicts, check_and_evict-AitEvicts}

module _ {N M : Type 0} where
  -- The keys of the table are addresses of blocks and none stands twice, the table is within its
  -- bound, the index of the next entry is the number of entries, and the queue is within its bound.
  pub record AitOk (c : AitController N M) : Type 0 where
    pub keys : KeysOk c.buffer.entry_map
    pub bounded : length c.buffer.entry_map ≤ c.buffer.max_entries
    pub index : c.buffer.next_available_index ≡ length c.buffer.entry_map
    pub small : c.buffer.max_entries < clk_invalid
    pub lsq_ok : IsBounded c.lsq

  pub record EvictOk (c : AitController N M) (out : Bool × AitController N M) : Type 0 where
    pub ok : AitOk out.1
    pub room : out.0 ≡ true → length out.1.buffer.entry_map < out.1.buffer.max_entries
    pub missing :
        (k : ℕ) → lookup k c.buffer.entry_map ≡ none → lookup k out.1.buffer.entry_map ≡ none
    pub same_lsq : out.1.lsq ≡ c.lsq

  pub check_and_evict-EvictOk : (c : AitController N M) → AitOk c → EvictOk c (check_and_evict c)
  check_and_evict-EvictOk c v = by_way (check_and_evict c) (check_and_evict-AitEvicts c v.keys)
    where
      by_way : (out : Bool × AitController N M) → AitEvicts c out → EvictOk c out
      by_way out (inl (e, room)) =
          subst (EvictOk c) (sym e)
            (record { ok = v; room = λ _. room; missing = λ k h. h; same_lsq = refl })
      by_way out (inr (inl (e, filled, why))) =
          subst (EvictOk c) (sym e)
            (record { ok = v; room = λ h. absurd (cc); missing = λ k h. h; same_lsq = refl })
      by_way out (inr (inr (k, entry, held, done, older, filled, e))) =
          let shorter = length-remove k entry c.buffer.entry_map held in
          let i = v.index in
          let b = v.bounded in
          let s = v.small in
          subst (EvictOk c) (sym e) (record {
            ok = record {
              keys = record {
                aligned =
                    All-remove (λ p. translate_to_block_addr p.0 ≡ p.0) k c.buffer.entry_map
                      v.keys.aligned;
                distinct = remove-Distinct k c.buffer.entry_map v.keys.distinct;
              };
              bounded = omega arith;
              index = omega arith;
              small = v.small;
              lsq_ok = v.lsq_ok;
            };
            room = λ _. omega arith;
            missing = λ j h. lookup-remove-none j k c.buffer.entry_map h;
            same_lsq = refl;
          })

  pub serve-AitOk :
      (name : Event) (ait_addr : ℕ) (front : BaseRequest) (rest : List BaseRequest)
      (e : BufferEntry) (c : AitController N M)
      → c.lsq.queue ≡ front ∷ rest
      → AitOk c
      → AitOk (serve name ait_addr front rest e c)
  unfolding serve
  serve-AitOk name ait_addr front rest e c q v =
      let m = c.buffer.entry_map in
      let k = translate_to_block_addr ait_addr in
      let same = length-update k (assign_callback front.callback e) m in
      let longer : length c.lsq.queue ≡ suc (length rest) = ap length q in
      let b = v.lsq_ok in
      record {
        keys = record {
          aligned =
              All-update (λ p. translate_to_block_addr p.0 ≡ p.0) k _ m v.keys.aligned
                (translate-translate ait_addr);
          distinct = update-Distinct k _ m v.keys.distinct;
        };
        bounded = rw same v.bounded;
        index = rw same v.index;
        small = v.small;
        lsq_ok = omega arith;
      }

  -- The controller with a new entry under the block of `ait_addr`.
  abbrev pub inserted : ℕ → (ℕ → BufferEntry) → AitController N M → AitController N M
  inserted ait_addr make c = record c {
    buffer = record (c.buffer) {
      entry_map =
          (translate_to_block_addr ait_addr, make c.buffer.next_available_index)
          ∷ c.buffer.entry_map;
      next_available_index = add64 c.buffer.next_available_index 1;
    };
  }

  pub inserted-AitOk :
      (ait_addr : ℕ) (make : ℕ → BufferEntry) (c : AitController N M)
      → AitOk c
      → length c.buffer.entry_map < c.buffer.max_entries
      → lookup (translate_to_block_addr ait_addr) c.buffer.entry_map ≡ none
      → AitOk (inserted ait_addr make c)
  inserted-AitOk ait_addr make c v room free =
      let i = v.index in
      let s = v.small in
      record {
        keys = record {
          aligned = (translate-translate ait_addr, v.keys.aligned);
          distinct = (free, v.keys.distinct);
        };
        bounded = omega arith;
        index = omega arith;
        small = s;
        lsq_ok = v.lsq_ok;
      }

  pub recorded-AitOk :
      (addr : ℕ) (c : AitController N M)
      → AitOk c
      → AitOk (record c { core = record (c.core) { table = record_write addr c.core.table } })
  recorded-AitOk addr c v = record {
    keys = v.keys;
    bounded = v.bounded;
    index = v.index;
    small = v.small;
    lsq_ok = v.lsq_ok;
  }
