-- ===== src/Rmw/Safety/Lsq.antt =====
-- src/general/rmw.cpp, the entries that a read is assigned to, and the invariant.
use vans.Base.{
  ℕ, ◌+◌, ◌<◌, ◌≤◌, ◌≡◌, true, false, ltb, leb, List, [], ◌∷◌, Option, arith, leb, ◌==◌, length,
  length-append, length-set, All, All-append, Returns, returns, Returns-bind, replicate,
}
use vans.Common.{BaseRequest, Callback, clk_invalid}
use vans.RequestQueue.{IsBounded}
use vans.Common.Address.Rmw.{
  translate_to_block_addr, block_offset_cl, block_offset_cl-lt, block_size_cl,
}
use vans.Buffer.Laws.{Distinct, AllBut, All-AllBut, AllBut-update, update-Distinct, length-update}
use vans.NextLevel.{NextLevel, Contract}
use vans.Rmw.Entry.{BufferEntry, assign_callback, reset_callback, is_read, init}
use vans.Rmw.Controller.{RmwController, Event, count}
use vans.Rmw.Lsq.{write_entry, serve_read}
use vans.Rmw.Safety.{EntryOk, CoreOk, is_reading}
use vans.Rmw.Safety.Issue.{count-CoreOk}
use vans.Rmw.Safety.Evict.{RmwOk}

-- An entry to which a new read was just assigned, before its callback is.
pub record NewRead (key : ℕ) (e : BufferEntry) : Type 0 where
  pub key_aligned : translate_to_block_addr key ≡ key
  pub in_block : translate_to_block_addr e.pending_request.logic_addr ≡ key
  pub reads : is_read e.pending_request.type ≡ true
  pub starts : e.state ≡ init
  pub is_pending : e.pending ≡ true
  pub none_waits : length e.pending_request_cl_index ≡ 0
  pub cl_size : length e.cl_bitmap ≡ block_size_cl

patch_read-EntryOk :
    (key : ℕ) (e : BufferEntry) (addr : ℕ) (cb : Option Callback)
    → EntryOk key e
    → is_reading e ≡ true
    → length e.pending_request_cl_index < block_size_cl
    → Returns (EntryOk key) (assign_callback (block_offset_cl addr) cb e)
unfolding assign_callback
patch_read-EntryOk key e addr cb v r few =
    let l = block_offset_cl-lt addr in
    let in_range : leb block_size_cl (block_offset_cl addr) ≡ false = ground arith in
    let fits : ltb block_size_cl (length e.pending_request_cl_index + 1) ≡ false = ground arith in
    let longer = length-append e.pending_request_cl_index (block_offset_cl addr ∷ []) in
    let lines = All-append (λ i. i < block_size_cl) _ (block_offset_cl addr ∷ []) v.lines (l, tt) in
    let same_size = length-set e.callbacks (block_offset_cl addr) cb in
    rw (in_range, fits) (returns (ground arith))

All-of_empty : (l : List ℕ) → length l ≡ 0 → All (λ i. i < block_size_cl) l
All-of_empty [] h = tt
All-of_empty (x ∷ l) h = absurd (omega arith)

abbrev WasReset : ℕ → BufferEntry → Type 0
WasReset key e =
    NewRead key e
    × (length e.callbacks ≡ block_size_cl)
    × (e.cb_bitmap ≡ replicate block_size_cl false)

reset_callback-WasReset :
    (key : ℕ) (e : BufferEntry) → NewRead key e → Returns (WasReset key) (reset_callback e)
unfolding reset_callback
reset_callback-WasReset key e v =
    let n = v.none_waits in
    let none' : (length e.pending_request_cl_index == 0) ≡ true = ground arith in
    rw none' (returns (ground arith))

new_read-EntryOk :
    (key : ℕ) (e : BufferEntry) (addr : ℕ) (cb : Option Callback)
    → WasReset key e
    → Returns (EntryOk key) (assign_callback (block_offset_cl addr) cb e)
unfolding assign_callback
new_read-EntryOk key e addr cb (v, size, clear) =
    let l = block_offset_cl-lt addr in
    let n = v.none_waits in
    let in_range : leb block_size_cl (block_offset_cl addr) ≡ false = ground arith in
    let fits : ltb block_size_cl (length e.pending_request_cl_index + 1) ≡ false = ground arith in
    let longer = length-append e.pending_request_cl_index (block_offset_cl addr ∷ []) in
    let lines =
      All-append (λ i. i < block_size_cl) e.pending_request_cl_index (block_offset_cl addr ∷ [])
        (All-of_empty e.pending_request_cl_index n) (l, tt) in
    let same_size = length-set e.callbacks (block_offset_cl addr) cb in
    rw (in_range, fits) (returns (ground arith))

module _ {N : Type 0} {next : NextLevel N} {horizon : ℕ} (contract : Contract next horizon) where
  -- The invariant, but for the entry of one block.
  pub record RmwOkBut (k : ℕ) (c : RmwController N) : Type 0 where
    pub core_ok : CoreOk contract c.core
    pub entries : AllBut (λ p. EntryOk p.0 p.1) k c.buffer.entry_map
    pub distinct : Distinct c.buffer.entry_map
    pub bounded : length c.buffer.entry_map ≤ c.buffer.max_entries
    pub index : c.buffer.next_available_index ≡ length c.buffer.entry_map
    pub small : c.buffer.max_entries < clk_invalid
    pub lsq_ok : IsBounded c.lsq

  pub RmwOk-But : (k : ℕ) (c : RmwController N) → RmwOk contract c → RmwOkBut k c
  RmwOk-But k c v = record {
    core_ok = v.core_ok;
    entries = All-AllBut (λ p. EntryOk p.0 p.1) k c.buffer.entry_map v.buffer_ok.entries;
    distinct = v.buffer_ok.distinct;
    bounded = v.buffer_ok.bounded;
    index = v.buffer_ok.index;
    small = v.buffer_ok.small;
    lsq_ok = v.lsq_ok;
  }

  -- A well-formed entry is written over the block's entry.
  pub write_entry-RmwOk :
      (addr : ℕ) (e : BufferEntry) (c : RmwController N)
      → RmwOkBut (translate_to_block_addr addr) c
      → EntryOk (translate_to_block_addr addr) e
      → RmwOk contract (write_entry addr e c)
  unfolding write_entry
  write_entry-RmwOk addr e c v h =
      let m = c.buffer.entry_map in
      let k = translate_to_block_addr addr in
      let same = length-update k e m in
      record {
        core_ok = v.core_ok;
        buffer_ok = record {
          entries = AllBut-update (λ p. EntryOk p.0 p.1) k e m v.entries v.distinct h;
          distinct = update-Distinct k e m v.distinct;
          bounded = rw same v.bounded;
          index = rw same v.index;
          small = v.small;
        };
        lsq_ok = v.lsq_ok;
      }

  pub counted-RmwOk :
      (name : Event) (c : RmwController N)
      → RmwOk contract c
      → RmwOk contract (record c { core = count name c.core })
  counted-RmwOk name c v = record {
    core_ok = count-CoreOk contract name c.core v.core_ok;
    buffer_ok = v.buffer_ok;
    lsq_ok = v.lsq_ok;
  }

  pub with_queue-RmwOk :
      (queue : List BaseRequest) (c : RmwController N)
      → length queue ≤ length c.lsq.queue
      → RmwOk contract c
      → RmwOk contract (record c { lsq = record (c.lsq) { queue = queue } })
  with_queue-RmwOk queue c h v =
      let b = v.lsq_ok in
      record { core_ok = v.core_ok; buffer_ok = v.buffer_ok; lsq_ok = omega arith }

  pub serve_patch-RmwOk :
      (front : BaseRequest) (rest : List BaseRequest) (e : BufferEntry) (c : RmwController N)
      → c.lsq.queue ≡ front ∷ rest
      → RmwOk contract c
      → EntryOk (translate_to_block_addr front.addr) e
      → is_reading e ≡ true
      → length e.pending_request_cl_index < block_size_cl
      → Returns (RmwOk contract) (serve_read front rest true e c)
  unfolding serve_read
  serve_patch-RmwOk front rest e c q v h r few =
      Returns-bind (patch_read-EntryOk _ e front.addr front.callback h r few) (λ a k. returns (
        counted-RmwOk _ _ (
          with_queue-RmwOk rest _ (rw q (omega arith))
            (write_entry-RmwOk front.addr a c (RmwOk-But _ c v) k))))

  pub serve_new-RmwOk :
      (front : BaseRequest) (rest : List BaseRequest) (e : BufferEntry) (c : RmwController N)
      → c.lsq.queue ≡ front ∷ rest
      → RmwOkBut (translate_to_block_addr front.addr) c
      → NewRead (translate_to_block_addr front.addr) e
      → Returns (RmwOk contract) (serve_read front rest false e c)
  unfolding serve_read
  serve_new-RmwOk front rest e c q v h = Returns-bind (reset_callback-WasReset _ e h) (λ cleared r.
      Returns-bind (new_read-EntryOk _ cleared front.addr front.callback r) (λ a k. returns (
        counted-RmwOk _ _
          (with_queue-RmwOk rest _ (rw q (omega arith)) (write_entry-RmwOk front.addr a c v k)))))
