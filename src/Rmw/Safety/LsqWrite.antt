-- ===== src/Rmw/Safety/LsqWrite.antt =====
-- src/general/rmw.cpp, `tick_lsq_write` and the invariant.
use vans.Base.{
  ℕ, ◌<◌, ◌≡◌, refl, sym, subst, ◌∙◌, inl, inr, Bool, true, false, List, none, some, arith, ◌==◌,
  if◌then◌else◌, Bool-cases, length, replicate, ok, ◌>>=◌, Returns, returns,
}
use vans.Common.{BaseRequest}
use vans.Common.Address.Rmw.{
  translate_to_block_addr, translate-translate, block_size_cl, block_hit_cl_bitmask,
}
use vans.Buffer
use vans.Buffer.{Buffer, lookup}
use vans.Buffer.Laws.{insert-eq}
use vans.NextLevel.{NextLevel, Contract}
use vans.Rmw.Entry.{
  BufferEntry, buffer_entry, assign_new_request, write_rmw, write_comb, write_patch, is_read,
  length-to_bitset, to_ulong, RequestType, init,
}
use vans.Rmw.Combine.{combine_writes, or_bits, can_patch_rmw}
use vans.Rmw.Combine.Laws.{length-combine_writes, length-combine_writes_hit, length-or_bits}
use vans.Rmw.Controller.{RmwController, Event, count}
use vans.Rmw.Lsq.{write_entry, serve_write}
use vans.Rmw.Safety.{EntryOk, is_reading, goes_through}
use vans.Rmw.Safety.Evict.{RmwOk}
use vans.Rmw.Safety.Lsq.{RmwOk-But, write_entry-RmwOk, counted-RmwOk, with_queue-RmwOk}

init_legal : (type : RequestType) → goes_through type init ≡ true
init_legal write_rmw = refl
init_legal _ = refl

pub new_write-EntryOk :
    (clk : ℕ) (type : RequestType) (addr bitmap index : ℕ)
    → is_read type ≡ false
    → EntryOk (translate_to_block_addr addr) (buffer_entry clk type addr bitmap index)
unfolding buffer_entry
new_write-EntryOk clk type addr bitmap index w =
    let size = length-to_bitset block_size_cl bitmap in
    let aligned = translate-translate addr in
    record {
      key_aligned = aligned;
      in_block = refl;
      legal = init_legal type;
      settled = λ h. cc;
      started = λ h. refl;
      timed = λ h. cc;
      reading = λ h. cc;
      idle = λ h. refl;
      few = omega arith;
      lines = tt;
      callbacks_size = refl;
      cb_clear = refl;
      cl_size = size;
    }

reassign_write-EntryOk :
    (key clk : ℕ) (type : RequestType) (addr bitmap : ℕ) (e : BufferEntry)
    → is_read type ≡ false
    → translate_to_block_addr addr ≡ key
    → EntryOk key e
    → is_reading e ≡ false
    → EntryOk key (assign_new_request clk type addr bitmap e)
unfolding assign_new_request
reassign_write-EntryOk key clk type addr bitmap e w k v r =
    let size = length-to_bitset block_size_cl bitmap in
    let idle = v.idle r in let legal = init_legal type in ground arith

merge_bitmap-EntryOk :
    (key : ℕ) (bits : List Bool) (e : BufferEntry)
    → length bits ≡ block_size_cl
    → EntryOk key e
    → EntryOk key (record e { cl_bitmap = bits })
merge_bitmap-EntryOk key bits e h v = ground arith

pub can_patch_rmw-idle : (e : BufferEntry) → can_patch_rmw e ≡ true → is_reading e ≡ false
unfolding can_patch_rmw
can_patch_rmw-idle e h = ground arith

module _ {N : Type 0} {next : NextLevel N} {horizon : ℕ} (contract : Contract next horizon) where
  module _ (front : BaseRequest) (clk : ℕ) where
    abbrev pub block : ℕ
    block = translate_to_block_addr front.addr

    -- The controller once the writes are taken from the queue.
    abbrev taken : RmwController N → RmwController N
    taken c = record c {
      core = count Event.write_access c.core;
      lsq = record (c.lsq) {
        queue = (combine_writes block c.lsq.queue (replicate block_size_cl false)).0;
      };
    }

    abbrev hit : RmwController N → List Bool
    hit c = (combine_writes block c.lsq.queue (replicate block_size_cl false)).1

    taken-RmwOk : (c : RmwController N) → RmwOk contract c → RmwOk contract (taken c)
    taken-RmwOk c v = counted-RmwOk contract Event.write_access _ (
        with_queue-RmwOk contract _ c
          (length-combine_writes block c.lsq.queue (replicate block_size_cl false)) v)

    insert_write-RmwOk :
        (type : RequestType) (bitmap : ℕ) (c : RmwController N)
        → is_read type ≡ false
        → RmwOk contract c
        → length c.buffer.entry_map < c.buffer.max_entries
        → lookup (translate_to_block_addr block) c.buffer.entry_map ≡ none
        → Returns (RmwOk contract) (
            Buffer.insert translate_to_block_addr block
              (buffer_entry clk type front.addr bitmap)
              c.buffer
            >>= λ (entry, b). ok (record c { buffer = b }))
    insert_write-RmwOk type bitmap c w v room missing =
        let b = v.buffer_ok in
        let i = b.index in
        let s = b.small in
        rw
          (insert-eq translate_to_block_addr block (buffer_entry clk type front.addr bitmap)
            c.buffer missing room i)
          (returns (record {
            core_ok = v.core_ok;
            buffer_ok = record {
              entries = (
                subst
                    (λ k.
                      EntryOk k
                        (buffer_entry clk type front.addr bitmap c.buffer.next_available_index))
                    (sym (translate-translate front.addr))
                    (new_write-EntryOk clk type front.addr bitmap _ w),
                b.entries,
              );
              distinct = (missing, b.distinct);
              bounded = omega arith;
              index = omega arith;
              small = s;
            };
            lsq_ok = v.lsq_ok;
          }))

    pub serve_absent-RmwOk :
        (c : RmwController N)
        → RmwOk contract c
        → length c.buffer.entry_map < c.buffer.max_entries
        → lookup (translate_to_block_addr block) c.buffer.entry_map ≡ none
        → Returns (RmwOk contract) (serve_write front none clk c)
    unfolding serve_write
    serve_absent-RmwOk c v room missing =
        insert_write-RmwOk _ _ (taken c) by_hit (taken-RmwOk c v) room missing
      where
        by_hit :
            is_read (if to_ulong (hit c) == block_hit_cl_bitmask then write_comb else write_rmw)
            ≡ false
        by_hit = ground arith

    written-RmwOk :
        (c : RmwController N) (e : BufferEntry)
        → RmwOk contract c
        → EntryOk (translate_to_block_addr block) e
        → RmwOk contract (write_entry block e (taken c))
    written-RmwOk c e v h =
        write_entry-RmwOk contract block e (taken c) (RmwOk-But contract _ _ (taken-RmwOk c v)) h

    pub serve_present-RmwOk :
        (c : RmwController N) (e : BufferEntry)
        → RmwOk contract c
        → EntryOk (translate_to_block_addr block) e
        → is_reading e ≡ false
        → Returns (RmwOk contract) (serve_write front (some e) clk c)
    unfolding serve_write
    serve_present-RmwOk c e v h r = elim (Bool-cases (can_patch_rmw e)) [
      | inr fresh ↦ rw fresh (returns (written-RmwOk c _ v (reassigned write_patch _ refl)))
      | inl patch ↦ rw patch (elim (Bool-cases (to_ulong merged == block_hit_cl_bitmask)) [
        | inl all ↦ rw all (
            returns (
              counted-RmwOk contract Event.patch_rmw_comb _
                (written-RmwOk c _ v (reassigned write_comb _ refl))))
        | inr part ↦ rw part (
            returns (
              counted-RmwOk contract Event.patch_rmw _
                (written-RmwOk c _ v (merge_bitmap-EntryOk _ merged e merged_size h))))
      ])
    ]
      where
        merged : List Bool
        merged = or_bits (hit c) e.cl_bitmap

        merged_size : length merged ≡ block_size_cl
        merged_size =
            length-or_bits (hit c) e.cl_bitmap
            ∙ length-combine_writes_hit block c.lsq.queue (replicate block_size_cl false)

        reassigned :
            (type : RequestType) (bitmap : ℕ)
            → is_read type ≡ false
            → EntryOk
                (translate_to_block_addr block)
                (assign_new_request clk type front.addr bitmap e)
        reassigned type bitmap w =
            reassign_write-EntryOk _ clk type front.addr bitmap e w
              (sym (translate-translate front.addr)) h r
