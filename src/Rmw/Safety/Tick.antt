-- ===== src/Rmw/Safety/Tick.antt =====
-- src/general/rmw.cpp, `tick` and the invariant.
use vans.Base.{
  ℕ, suc, ◌≤◌, ◌≡◌, refl, subst, ap, ◌∙◌, inl, inr, Bool, false, not, ◌&&◌, List, [], ◌∷◌, none,
  some, arith, leb, if◌then◌else◌, Bool-cases, Option-cases, length, ok, Returns, returns,
  Returns-bind,
}
use vans.Common.{BaseRequest, BaseRequestType, read, write, Call}
use vans.Common.Address.Rmw.{translate_to_block_addr}
use vans.Buffer
use vans.Buffer.{Buffer, lookup}
use vans.Buffer.Laws.{All-lookup, SameKeys, SameKeys-length, SameKeys-Distinct}
use vans.NextLevel.{NextLevel, Contract}
use vans.Rmw.Entry.{BufferEntry}
use vans.Rmw.Combine.{can_patch_rmw}
use vans.Rmw.Controller.{RmwController}
use vans.Rmw.Lsq.{check_and_evict, serve_write, tick_lsq_read, tick_lsq_write, tick_lsq}
use vans.Rmw.Tick.{tick_roq, tick_internal_buffer, tick}
use vans.Rmw.Safety.{EntryOk, is_reading}
use vans.Rmw.Safety.Transfer.{tick_entries-Kept}
use vans.Rmw.Safety.Evict.{RmwOk, EvictOk, check_and_evict-EvictOk}
use vans.Rmw.Safety.LsqRead.{read_absent-RmwOk, read_present-RmwOk}
use vans.Rmw.Safety.LsqWrite.{serve_absent-RmwOk, serve_present-RmwOk, can_patch_rmw-idle}

module _ {N : Type 0} {next : NextLevel N} {horizon : ℕ} (contract : Contract next horizon) where
  module _ (front : BaseRequest) (clk : ℕ) where
    abbrev key : ℕ
    key = translate_to_block_addr (translate_to_block_addr front.addr)

    write_absent-RmwOk :
        (c : RmwController N)
        → RmwOk contract c
        → lookup key c.buffer.entry_map ≡ none
        → Returns (RmwOk contract) (tick_lsq_write front clk c)
    unfolding tick_lsq_write Buffer.find
    write_absent-RmwOk c v missing =
        rw (missing, tick_lsq_write)
          (by_room (check_and_evict c) (check_and_evict-EvictOk contract c v))
      where
        by_room :
            (out : Bool × RmwController N)
            → EvictOk contract c out
            → Returns
                (RmwOk contract)
                (if out.0 then serve_write front none clk out.1 else ok out.1)
        by_room out w = elim (Bool-cases out.0) [
          | inl free ↦
              simp free (
                serve_absent-RmwOk contract front clk out.1 w.ok (w.room free) (w.keys key missing))
          | inr busy ↦ simp busy (returns w.ok)
        ]

    write_present-RmwOk :
        (c : RmwController N) (e : BufferEntry)
        → RmwOk contract c
        → lookup key c.buffer.entry_map ≡ some e
        → Returns (RmwOk contract) (tick_lsq_write front clk c)
    unfolding tick_lsq_write Buffer.find
    write_present-RmwOk c e v held =
        rw (held, tick_lsq_write)
          (elim (Bool-cases (not (can_patch_rmw e) && e.pending)) [
            | inl busy ↦ rw busy (returns v)
            | inr free ↦ rw free (serve_present-RmwOk contract front clk c e v entry_ok (idle free))
          ])
      where
        entry_ok : EntryOk key e
        entry_ok =
            All-lookup (λ p. EntryOk p.0 p.1) key e c.buffer.entry_map v.buffer_ok.entries held

        idle : (not (can_patch_rmw e) && e.pending) ≡ false → is_reading e ≡ false
        idle h = elim (Bool-cases (can_patch_rmw e)) [
          | inl patch ↦ can_patch_rmw-idle e patch
          | inr fresh ↦ ground arith
        ]

    tick_lsq_write-RmwOk :
        (c : RmwController N)
        → RmwOk contract c
        → Returns (RmwOk contract) (tick_lsq_write front clk c)
    tick_lsq_write-RmwOk c v = elim (Option-cases (lookup key c.buffer.entry_map)) [
      | inl missing ↦ write_absent-RmwOk c v missing
      | inr (e, held) ↦ write_present-RmwOk c e v held
    ]

  tick_lsq_read-RmwOk :
      (front : BaseRequest) (rest : List BaseRequest) (clk : ℕ) (c : RmwController N)
      → c.lsq.queue ≡ front ∷ rest
      → RmwOk contract c
      → Returns (RmwOk contract) (tick_lsq_read front rest clk c)
  tick_lsq_read-RmwOk front rest clk c q v =
      elim (Option-cases (lookup (translate_to_block_addr front.addr) c.buffer.entry_map)) [
        | inl missing ↦ read_absent-RmwOk contract front rest clk c q v missing
        | inr (e, held) ↦ read_present-RmwOk contract front rest clk c e q v held
      ]

  by_type :
      (t : BaseRequestType) (front : BaseRequest) (rest : List BaseRequest) (clk : ℕ)
      (c : RmwController N)
      → c.lsq.queue ≡ front ∷ rest
      → RmwOk contract c
      → Returns
          (RmwOk contract)
          (elim t [ read ↦ tick_lsq_read front rest clk c | write ↦ tick_lsq_write front clk c ])
  by_type read front rest clk c q v = tick_lsq_read-RmwOk front rest clk c q v
  by_type write front rest clk c q v = tick_lsq_write-RmwOk front clk c v

  pub tick_lsq-RmwOk :
      (clk : ℕ) (c : RmwController N) → RmwOk contract c → Returns (RmwOk contract) (tick_lsq clk c)
  unfolding tick_lsq
  tick_lsq-RmwOk clk c v = by_front c.lsq.queue refl
    where
      by_front :
          (queue : List BaseRequest)
          → c.lsq.queue ≡ queue
          → Returns (RmwOk contract) (elim queue [
            | [] ↦ ok c
            | front ∷ rest ↦ elim front.type [
              | read ↦ tick_lsq_read front rest clk c
              | write ↦ tick_lsq_write front clk c
            ]
          ])
      by_front [] q = returns v
      by_front (front ∷ rest) q = by_type front.type front rest clk c q v

  -- The front of the read-out queue is gone, and some callbacks were called.
  popped-RmwOk :
      (c : RmwController N) (front : BaseRequest) (rest : List BaseRequest) (calls : List Call)
      → c.roq.queue ≡ front ∷ rest
      → RmwOk contract c
      → RmwOk contract (record c {
        core = record (c.core) { roq = record (c.core.roq) { queue = rest }; calls = calls };
      })
  popped-RmwOk c front rest calls q v =
      let w = v.core_ok in
      let b = w.roq_bounded in
      let l : length c.roq.queue ≡ suc (length rest) = ap length q in
      record {
        core_ok = record {
          good = w.good;
          roq_bounded = omega arith;
          next_fits = w.next_fits;
          ait_to_rmw_fits = w.ait_to_rmw_fits;
          rmw_to_ait_fits = w.rmw_to_ait_fits;
          read_fits = w.read_fits;
          write_fits = w.write_fits;
        };
        buffer_ok = v.buffer_ok;
        lsq_ok = v.lsq_ok;
      }

  pub tick_roq-RmwOk :
      (clk : ℕ) (c : RmwController N) → RmwOk contract c → RmwOk contract (tick_roq clk c)
  unfolding tick_roq
  tick_roq-RmwOk clk c v = by_front c.roq.queue refl
    where
      by_front : (queue : List BaseRequest) → c.roq.queue ≡ queue → RmwOk contract (tick_roq clk c)
      by_front [] q = simp (q, tick_roq) v
      by_front (front ∷ rest) q =
          simp (q, tick_roq)
            (elim (Bool-cases (leb front.depart clk)) [
              | inr waits ↦ simp waits v
              | inl departs ↦ simp departs (elim (Option-cases front.callback) [
                | inl absent ↦ simp absent (popped-RmwOk c front rest c.calls q v)
                | inr (f, held) ↦ simp held (popped-RmwOk c front rest (_ ∷ c.calls) q v)
              ])
            ])

  pub tick_internal_buffer-RmwOk :
      (clk : ℕ) (c : RmwController N)
      → clk ≤ horizon
      → RmwOk contract c
      → Returns (RmwOk contract) (tick_internal_buffer next clk c)
  unfolding tick_internal_buffer
  tick_internal_buffer-RmwOk clk c t v =
      let b = v.buffer_ok in
      Returns-bind (tick_entries-Kept contract c.buffer.entry_map clk c.core t b.entries v.core_ok)
        (λ (m, core') (a, same, w). returns (record {
          core_ok = w;
          buffer_ok = record {
            entries = a;
            distinct = SameKeys-Distinct c.buffer.entry_map m same b.distinct;
            bounded = subst (λ n. n ≤ c.buffer.max_entries) (length_kept m same) b.bounded;
            index = b.index ∙ length_kept m same;
            small = b.small;
          };
          lsq_ok = v.lsq_ok;
        }))
    where
      length_kept :
          (m : List (ℕ × BufferEntry))
          → SameKeys c.buffer.entry_map m
          → length c.buffer.entry_map ≡ length m
      length_kept m same = SameKeys-length c.buffer.entry_map m same

  -- In a state of the invariant, a tick with a clock up to the horizon does not throw, and the invariant
  -- holds after it.
  pub tick-RmwOk :
      (clk : ℕ) (c : RmwController N)
      → clk ≤ horizon
      → RmwOk contract c
      → Returns (RmwOk contract) (tick next clk c)
  unfolding tick
  tick-RmwOk clk c t v =
      Returns-bind (tick_lsq-RmwOk clk (tick_roq clk c) (tick_roq-RmwOk clk c v))
        (λ c' w. tick_internal_buffer-RmwOk clk c' t w)
