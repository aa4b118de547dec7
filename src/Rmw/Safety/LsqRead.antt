-- ===== src/Rmw/Safety/LsqRead.antt =====
-- src/general/rmw.cpp, `tick_lsq_read` and the invariant.
use vans.Base.{
  ℕ, ◌*◌, ◌%◌, ◌^◌, ◌∙◌, get_or, patch_without_read, ◌<◌, ◌≡◌, refl, ap, inl, inr, Bool, true,
  false, not, ◌&&◌, ltb, List, ◌∷◌, none, some, arith, ◌==◌, if◌then◌else◌, Bool-cases, length, ok,
  err, ◌>>=◌, Returns, returns,
}
use vans.Common.{BaseRequest}
use vans.Common.Address.Rmw.{
  translate_to_block_addr, translate-translate, block_offset_cl, block_size_cl,
}
use vans.Buffer
use vans.Buffer.{Buffer, lookup, update}
use vans.Buffer.Laws.{insert-eq, All-lookup, All-AllBut}
use vans.NextLevel.{NextLevel, Contract}
use vans.Rmw.Entry.{
  BufferEntry, buffer_entry, assign_new_request, read_cold, read_ff, length-to_bitset,
}
use vans.Rmw.Controller.{RmwController, Event, count}
use vans.Rmw.Lsq.{serve_read, tick_lsq_read, check_and_evict}
use vans.Rmw.Safety.{EntryOk, is_reading}
use vans.Rmw.Safety.Evict.{RmwOk, EvictOk, check_and_evict-EvictOk}
use vans.Rmw.Safety.Lsq.{NewRead, RmwOk-But, counted-RmwOk, serve_patch-RmwOk, serve_new-RmwOk}

module _ {N : Type 0} {next : NextLevel N} {horizon : ℕ} (contract : Contract next horizon) where
  module _ (front : BaseRequest) (rest : List BaseRequest) (clk : ℕ) where
    abbrev line_bit : ℕ → ℕ
    line_bit addr = 1 * 2 ^ block_offset_cl addr % 2 ^ 32

    abbrev block : ℕ
    block = translate_to_block_addr front.addr

    new_entry-NewRead :
        (index : ℕ)
        → NewRead block (buffer_entry clk read_cold front.addr (line_bit front.addr) index)
    unfolding buffer_entry
    new_entry-NewRead index = record {
      key_aligned = translate-translate front.addr;
      in_block = refl;
      reads = refl;
      starts = refl;
      is_pending = refl;
      none_waits = refl;
      cl_size = length-to_bitset block_size_cl (line_bit front.addr);
    }

    -- With room for the block's entry, a new one is made and serves the read.
    insert_read-RmwOk :
        (c : RmwController N)
        → c.lsq.queue ≡ front ∷ rest
        → RmwOk contract c
        → length c.buffer.entry_map < c.buffer.max_entries
        → lookup block c.buffer.entry_map ≡ none
        → Returns (RmwOk contract) (
            Buffer.insert translate_to_block_addr front.addr
              (buffer_entry clk read_cold front.addr (line_bit front.addr))
              c.buffer
            >>= λ (entry, b). serve_read front rest false entry (record c { buffer = b }))
    insert_read-RmwOk c q v room missing =
        let b = v.buffer_ok in
        let i = b.index in
        let s = b.small in
        rw
          (insert-eq translate_to_block_addr front.addr
            (buffer_entry clk read_cold front.addr (line_bit front.addr)) c.buffer missing room i)
          (serve_new-RmwOk contract front rest _ _ q
            (record {
              core_ok = v.core_ok;
              entries =
                  (λ other. absurd (other refl), All-AllBut (λ p. EntryOk p.0 p.1) _ _ b.entries);
              distinct = (missing, b.distinct);
              bounded = omega arith;
              index = omega arith;
              small = s;
              lsq_ok = v.lsq_ok;
            })
            (new_entry-NewRead c.buffer.next_available_index))

    after_evict-RmwOk :
        (c : RmwController N) (out : Bool × RmwController N)
        → c.lsq.queue ≡ front ∷ rest
        → EvictOk contract c out
        → lookup block c.buffer.entry_map ≡ none
        → Returns (RmwOk contract) (
            if out.0
            then (Buffer.insert translate_to_block_addr front.addr
                  (buffer_entry clk read_cold front.addr (line_bit front.addr))
                  out.1.buffer
                >>= λ (entry, b). serve_read front rest false entry (record (out.1) { buffer = b }))
            else ok out.1)
    after_evict-RmwOk c out q v missing = elim (Bool-cases out.0) [
      | inl free ↦ simp free (
          insert_read-RmwOk out.1 (ap (λ l. l.queue) v.same_lsq ∙ q) v.ok (v.room free)
            (v.keys block missing))
      | inr full ↦ simp full (returns v.ok)
    ]

    pub read_absent-RmwOk :
        (c : RmwController N)
        → c.lsq.queue ≡ front ∷ rest
        → RmwOk contract c
        → lookup block c.buffer.entry_map ≡ none
        → Returns (RmwOk contract) (tick_lsq_read front rest clk c)
    unfolding tick_lsq_read Buffer.find
    read_absent-RmwOk c q v missing =
        rw (missing, tick_lsq_read)
          (after_evict-RmwOk c (check_and_evict c) q (check_and_evict-EvictOk contract c v) missing)

    fast_forward-NewRead :
        (e : BufferEntry)
        → EntryOk block e
        → is_reading e ≡ false
        → NewRead block (assign_new_request clk read_ff front.addr (line_bit front.addr) e)
    unfolding assign_new_request
    fast_forward-NewRead e v r =
        let size = length-to_bitset block_size_cl (line_bit front.addr) in
        let idle = v.idle r in ground arith

    pub read_present-RmwOk :
        (c : RmwController N) (e : BufferEntry)
        → c.lsq.queue ≡ front ∷ rest
        → RmwOk contract c
        → lookup block c.buffer.entry_map ≡ some e
        → Returns (RmwOk contract) (tick_lsq_read front rest clk c)
    unfolding tick_lsq_read Buffer.find
    read_present-RmwOk c e q v held =
        rw (held, tick_lsq_read)
          (elim (Bool-cases (is_reading e)) [
            | inl reading ↦ rw reading (patch reading)
            | inr idle ↦ rw idle (elim (Bool-cases e.valid_to_read) [
              | inl valid ↦ simp valid (
                  serve_new-RmwOk contract front rest _ c q (RmwOk-But contract block c v)
                    (fast_forward-NewRead e entry_ok idle))
              | inr invalid ↦ simp invalid (returns v)
            ])
          ])
      where
        entry_ok : EntryOk block e
        entry_ok =
            All-lookup (λ p. EntryOk p.0 p.1) block e c.buffer.entry_map v.buffer_ok.entries held

        patch :
            is_reading e ≡ true
            → Returns (RmwOk contract) (
                if length e.pending_request_cl_index == 0
                then err patch_without_read
                else if ltb (length e.pending_request_cl_index) block_size_cl
                    && not (get_or e.cb_bitmap (block_offset_cl front.addr) false)
                then serve_read front rest true e
                    (record c { core = count Event.read_patch c.core })
                else ok c)
        patch reading =
            let some_wait = entry_ok.reading reading in
            let nonempty : (length e.pending_request_cl_index == 0) ≡ false = ground arith in
            rw nonempty
              (elim (Bool-cases (
                ltb (length e.pending_request_cl_index) block_size_cl
                && not (get_or e.cb_bitmap (block_offset_cl front.addr) false))) [
                  | inl room ↦ rw room (
                      serve_patch-RmwOk contract front rest e _ q (counted-RmwOk contract _ c v)
                        entry_ok reading (ground arith))
                  | inr full ↦ rw full (returns v)
                ])
