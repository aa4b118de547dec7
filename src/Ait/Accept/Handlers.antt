-- ===== src/Ait/Accept/Handlers.antt =====
-- src/general/ait.cpp, `tick_lsq_read` and `tick_lsq_write` and the invariant of the table.
use vans.Base.{
  ℕ, ◌≡◌, refl, sym, subst, ap, ◌∙◌, inl, inr, Bool, false, not, ◌&&◌, List, [], ◌∷◌, none, some,
  arith, if◌then◌else◌, Bool-cases, Option-cases, ok, ◌>>=◌, Returns, returns, Returns-bind,
}
use vans.Common.{BaseRequest, BaseRequestType, read, write}
use vans.Common.Address.Ait.{translate_to_block_addr, translate-translate, block_bitshift_rmw}
use vans.Common.Address.Rmw.{translate_to_block_addr as rmw_block_addr}
use vans.Buffer
use vans.Buffer.{Buffer, lookup}
use vans.Buffer.Laws.{insert-eq}
use vans.Ait.Entry.{
  BufferEntry, RequestType, read_miss, write_miss, read_hit, write_hit, buffer_entry,
  assign_new_request, record_write,
}
use vans.Ait.Controller.{AitController, Event}
use vans.Ait.Lsq.{check_and_evict, serve, tick_lsq_read, tick_lsq_write, tick_lsq}
use vans.Ait.Accept.{
  AitOk, EvictOk, check_and_evict-EvictOk, serve-AitOk, inserted, inserted-AitOk, recorded-AitOk,
}

module _ (front : BaseRequest) (rest : List BaseRequest) (clk : ℕ) where
  abbrev rmw_addr : ℕ
  rmw_addr = rmw_block_addr front.addr

  abbrev ait_addr : ℕ
  ait_addr = translate_to_block_addr rmw_addr

  abbrev new_entry : RequestType → ℕ → BufferEntry
  new_entry type = buffer_entry clk type rmw_addr (block_bitshift_rmw rmw_addr)

  assign_new_request-ok :
      (type : RequestType) (e : BufferEntry)
      → e.pending ≡ false
      → Returns
          (λ _. Unit {0})
          (assign_new_request clk type rmw_addr (block_bitshift_rmw rmw_addr) e)
  unfolding assign_new_request
  assign_new_request-ok type e p = rw p (returns tt)

  module _ {N M : Type 0} where
    read_absent-AitOk :
        (c : AitController N M)
        → c.lsq.queue ≡ front ∷ rest
        → AitOk c
        → lookup (translate_to_block_addr ait_addr) c.buffer.entry_map ≡ none
        → Returns AitOk (tick_lsq_read front rest clk c)
    unfolding tick_lsq_read Buffer.find
    read_absent-AitOk c q v missing =
        rw (missing, tick_lsq_read) (by_room (check_and_evict c) (check_and_evict-EvictOk c v))
      where
        by_room :
            (out : Bool × AitController N M)
            → EvictOk c out
            → Returns AitOk (
                if out.0
                then (Buffer.insert translate_to_block_addr ait_addr
                      (new_entry read_miss)
                      out.1.buffer
                    >>= λ (entry, b). ok (
                        serve Event.read_access ait_addr front rest entry
                          (record (out.1) { buffer = b })))
                else ok out.1)
        by_room out w = elim (Bool-cases out.0) [
          | inr busy ↦ simp busy (returns w.ok)
          | inl free ↦ simp free (
              rw
                (insert-eq translate_to_block_addr ait_addr (new_entry read_miss) out.1.buffer
                  (w.missing _ missing) (w.room free) w.ok.index)
                (returns (
                  serve-AitOk Event.read_access ait_addr front rest _
                    (inserted ait_addr (new_entry read_miss) out.1)
                    (ap (λ l. l.queue) w.same_lsq ∙ q)
                    (inserted-AitOk ait_addr (new_entry read_miss) out.1 w.ok (w.room free)
                      (w.missing _ missing)))))
        ]

    read_present-AitOk :
        (c : AitController N M) (e : BufferEntry)
        → c.lsq.queue ≡ front ∷ rest
        → AitOk c
        → lookup (translate_to_block_addr ait_addr) c.buffer.entry_map ≡ some e
        → Returns AitOk (tick_lsq_read front rest clk c)
    unfolding tick_lsq_read Buffer.find
    read_present-AitOk c e q v held =
        rw (held, tick_lsq_read)
          (elim (Bool-cases (e.valid_to_read && not e.pending)) [
            | inr busy ↦ rw busy (returns v)
            | inl valid ↦ rw valid (
                Returns-bind (assign_new_request-ok read_hit e (ground arith)) (λ assigned h.
                  returns (serve-AitOk Event.read_access ait_addr front rest assigned c q v)))
          ])

    write_absent-AitOk :
        (c : AitController N M)
        → c.lsq.queue ≡ front ∷ rest
        → AitOk c
        → lookup ait_addr c.buffer.entry_map ≡ none
        → Returns AitOk (tick_lsq_write front rest clk c)
    unfolding tick_lsq_write
    write_absent-AitOk c q v missing =
        rw (missing, tick_lsq_write) (by_room (check_and_evict c) (check_and_evict-EvictOk c v))
      where
        by_room :
            (out : Bool × AitController N M)
            → EvictOk c out
            → Returns AitOk (
                if out.0
                then (Buffer.insert translate_to_block_addr ait_addr
                      (new_entry write_miss)
                      out.1.buffer
                    >>= λ (entry, b). ok (
                        serve Event.write_access ait_addr front rest entry (record (out.1) {
                          core = record (out.1.core) {
                            table = record_write rmw_addr out.1.core.table;
                          };
                          buffer = b;
                        })))
                else ok out.1)
        by_room out w = elim (Bool-cases out.0) [
          | inr busy ↦ simp busy (returns w.ok)
          | inl free ↦
              let absent =
                subst (λ k. lookup k out.1.buffer.entry_map ≡ none)
                  (sym (translate-translate rmw_addr)) (w.missing ait_addr missing) in
              simp free (
                rw
                  (insert-eq translate_to_block_addr ait_addr (new_entry write_miss) out.1.buffer
                    absent (w.room free) w.ok.index)
                  (returns (
                    serve-AitOk Event.write_access ait_addr front rest _ _
                      (ap (λ l. l.queue) w.same_lsq ∙ q)
                      (recorded-AitOk rmw_addr (inserted ait_addr (new_entry write_miss) out.1) (
                        inserted-AitOk ait_addr (new_entry write_miss) out.1 w.ok (w.room free)
                          absent)))))
        ]

    write_present-AitOk :
        (c : AitController N M) (e : BufferEntry)
        → c.lsq.queue ≡ front ∷ rest
        → AitOk c
        → lookup ait_addr c.buffer.entry_map ≡ some e
        → Returns AitOk (tick_lsq_write front rest clk c)
    unfolding tick_lsq_write
    write_present-AitOk c e q v held =
        rw (held, tick_lsq_write)
          (elim (Bool-cases (not e.pending)) [
            | inr busy ↦ rw busy (returns v)
            | inl idle ↦ rw idle (
                Returns-bind (assign_new_request-ok write_hit e (ground arith)) (λ assigned h.
                  returns (
                    serve-AitOk Event.write_access ait_addr front rest assigned _ q
                      (recorded-AitOk rmw_addr c v))))
          ])

module _ {N M : Type 0} where
  by_type :
      (t : BaseRequestType) (front : BaseRequest) (rest : List BaseRequest) (clk : ℕ)
      (c : AitController N M)
      → c.lsq.queue ≡ front ∷ rest
      → AitOk c
      → Returns AitOk (elim t [
        | read ↦ tick_lsq_read front rest clk c
        | write ↦ tick_lsq_write front rest clk c
      ])
  by_type read front rest clk c q v =
      elim (Option-cases
        (lookup (translate_to_block_addr (ait_addr front rest clk)) c.buffer.entry_map)) [
          | inl missing ↦ read_absent-AitOk front rest clk c q v missing
          | inr (e, held) ↦ read_present-AitOk front rest clk c e q v held
        ]
  by_type write front rest clk c q v =
      elim (Option-cases (lookup (ait_addr front rest clk) c.buffer.entry_map)) [
        | inl missing ↦ write_absent-AitOk front rest clk c q v missing
        | inr (e, held) ↦ write_present-AitOk front rest clk c e q v held
      ]

  -- Where the keys of the table are addresses of blocks, each once, the table and the queue are within
  -- their bounds and the index of the next entry is the number of entries, the handler of the AIT's
  -- queue does not throw, at any clock, and all of that holds after it.
  pub tick_lsq-AitOk : (clk : ℕ) (c : AitController N M) → AitOk c → Returns AitOk (tick_lsq clk c)
  unfolding tick_lsq
  tick_lsq-AitOk clk c v = by_front c.lsq.queue refl
    where
      by_front :
          (queue : List BaseRequest)
          → c.lsq.queue ≡ queue
          → Returns AitOk (elim queue [
            | [] ↦ ok c
            | front ∷ rest ↦ elim front.type [
              | read ↦ tick_lsq_read front rest clk c
              | write ↦ tick_lsq_write front rest clk c
            ]
          ])
      by_front [] q = returns v
      by_front (front ∷ rest) q = by_type front.type front rest clk c q v
