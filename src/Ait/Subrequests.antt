-- ===== src/Ait/Subrequests.antt =====
-- src/general/ait.cpp, `tick_lmemq`, over a memory that records what it is given.
use vans.Base.{
  ℕ, ◌%◌, ◌^◌, ◌<◌, ◌≡◌, refl, ap, ◌∙◌, Bool, true, false, List, [], ◌∷◌, Option, none, some, arith,
  set, replicate, Result, ok, ◌>>=◌, Returns, returns, Returns-bind,
}
use vans.Base.Bits.{add64, mul64}
use vans.Common.{BaseRequest, base_request, write, clk_invalid, ait_subreq_served, cpu_cl_size}
use vans.Common.Address.Ait.{translate_to_block_addr}
use vans.Common.Address.Rmw.{block_offset_cl, block_offset-mod}
use vans.Buffer
use vans.Buffer.{lookup}
use vans.Buffer.Laws.{lookup-update}
use vans.NextLevel.{NextLevel}
use vans.Ait.Entry.{BufferEntry}
use vans.Ait.Controller.{LmemqState, AitController, count}
use vans.Ait.Lmemq.{
  subreq_waits, last_subreq, next_index, start_subreq, finish_front, process_front, setup_front,
  tick_lmemq, subreq_served, with_lmemq_state,
}

-- The memory takes each request, and puts it before those that it took.
unfoldable pub recorder : NextLevel (List BaseRequest)
recorder = record {
  count = 1;
  issue_request = λ i req log.
      ok (record { issued = true; deterministic = false; next_clk = clk_invalid }, req ∷ log);
  full = λ i log. false;
}

-- The request for line `i` of the front request.
abbrev pub sub_request : BaseRequest → ℕ → ℕ → BaseRequest
sub_request front i clk =
    base_request write (add64 front.addr (mul64 i cpu_cl_size)) clk (some ait_subreq_served)

line_index :
    (addr i : ℕ)
    → addr % 256 ≡ 0
    → addr < 2 ^ 64
    → i < 4
    → block_offset_cl (add64 addr (mul64 i cpu_cl_size)) ≡ i
unfolding block_offset_cl
line_index addr i a h l = omega (arith, block_offset-mod (add64 addr (mul64 i cpu_cl_size)))

abbrev pub state : Option ℕ → List Bool → Bool → LmemqState
state index served pending = record {
  subreq_cnt = 4;
  subreq_pending_index = index;
  subreq_served = served;
  pending_front = pending;
}

of_cons :
    {A : Type 0} (front : BaseRequest) (rest queue : List BaseRequest) (a b : Result A)
    → queue ≡ front ∷ rest
    → (elim queue [ [] ↦ a | _ ∷ _ ↦ b ]) ≡ b
of_cons front rest [] a b q = cc
of_cons front rest (r ∷ queue) a b q = refl

module _ {N : Type 0} (front : BaseRequest) (rest : List BaseRequest) (e : BufferEntry) where
  -- A write stands first in the queue, its entry is in the buffer.
  pub record AtWrite (c : AitController N (List BaseRequest)) : Type 0 where
    pub queue : c.core.lmemq.queue ≡ front ∷ rest
    pub held : lookup (translate_to_block_addr front.addr) c.buffer.entry_map ≡ some e

  process :
      (c : AitController N (List BaseRequest)) (clk : ℕ)
      → AtWrite c
      → c.core.lmemq_state.pending_front ≡ true
      → tick_lmemq recorder clk c ≡ process_front recorder clk c
  unfolding tick_lmemq setup_front
  process c clk v p = simp (v.queue, tick_lmemq) (ground arith)

  started :
      (c : AitController N (List BaseRequest)) (clk : ℕ)
      → AtWrite c
      → subreq_waits c.core.lmemq_state ≡ false
      → last_subreq c.core.lmemq_state ≡ false
      → process_front recorder clk c ≡ start_subreq recorder front clk c
  unfolding process_front recorder
  started c clk v w f = simp (v.queue, w, f) refl

  finished :
      (c : AitController N (List BaseRequest)) (clk : ℕ)
      → AtWrite c
      → subreq_waits c.core.lmemq_state ≡ false
      → last_subreq c.core.lmemq_state ≡ true
      → process_front recorder clk c ≡ finish_front front rest clk c
  unfolding process_front recorder
  finished c clk v w f = simp (v.queue, w, f) refl

  held_at :
      (c : AitController N (List BaseRequest))
      → AtWrite c
      → Buffer.at (translate_to_block_addr front.addr) c.buffer.entry_map ≡ ok e
  unfolding Buffer.at
  held_at c v = rw (v.held, Buffer.at) refl

  -- What a tick leaves that issues line `i`.
  abbrev Issued :
      AitController N (List BaseRequest)
      → ℕ
      → ℕ
      → List Bool
      → AitController N (List BaseRequest)
      → Type 0
  Issued c i clk served d =
      AtWrite d
      × (d.core.lmemq_state ≡ state (some i) (set served i true) true)
      × (d.core.local_memory_model ≡ sub_request front i clk ∷ c.core.local_memory_model)

  issue_line :
      (c : AitController N (List BaseRequest)) (i clk : ℕ) (index : Option ℕ) (served : List Bool)
      → AtWrite c
      → c.core.lmemq_state ≡ state index served true
      → front.type ≡ write
      → next_index (state index served true) ≡ i
      → block_offset_cl (add64 front.addr (mul64 i cpu_cl_size)) ≡ i
      → Returns (Issued c i clk served) (start_subreq recorder front clk c)
  unfolding start_subreq recorder with_lmemq_state subreq_served count
  issue_line c i clk index served v s w n b =
      let m : next_index c.core.lmemq_state ≡ i = ap next_index s ∙ n in
      simp (held_at c v, w, m) (returns (record { queue = v.queue; held = v.held }, moved, refl))
    where
      moved :
          subreq_served
            (add64 front.addr (mul64 i cpu_cl_size))
            (record (c.core.lmemq_state) { subreq_pending_index = some i })
          ≡ state (some i) (set served i true) true
      moved = simp (s, b) refl

  tick_line :
      (c : AitController N (List BaseRequest)) (i clk : ℕ) (index : Option ℕ) (served : List Bool)
      → AtWrite c
      → c.core.lmemq_state ≡ state index served true
      → front.type ≡ write
      → subreq_waits (state index served true) ≡ false
      → last_subreq (state index served true) ≡ false
      → next_index (state index served true) ≡ i
      → block_offset_cl (add64 front.addr (mul64 i cpu_cl_size)) ≡ i
      → Returns (Issued c i clk served) (tick_lmemq recorder clk c)
  tick_line c i clk index served v s w f l n b =
      rw
        (
          process c clk v (ap (λ x. x.pending_front) s),
          started c clk v (ap subreq_waits s ∙ f) (ap last_subreq s ∙ l),
        )
        (issue_line c i clk index served v s w n b)

  -- The setup of a queue's front, from a state in which no sub-request is marked as served.
  abbrev set_up : Option ℕ → AitController N (List BaseRequest) → AitController N (List BaseRequest)
  set_up index c = record c {
    core = record (c.core) { lmemq_state = state index (replicate 4 false) true };
  }

  setup_core :
      (c : AitController N (List BaseRequest)) (index : Option ℕ)
      → c.core.lmemq_state ≡ state index (replicate 4 false) false
      → setup_front c.core ≡ (set_up none c).core
  unfolding setup_front
  setup_core c index s = simp s refl

  first_tick :
      (c : AitController N (List BaseRequest)) (index : Option ℕ) (clk : ℕ)
      → AtWrite c
      → c.core.lmemq_state ≡ state index (replicate 4 false) false
      → tick_lmemq recorder clk c ≡ process_front recorder clk (set_up none c)
  unfolding tick_lmemq
  first_tick c index clk v s =
      of_cons front rest c.core.lmemq.queue _ _ v.queue
      ∙ ap (λ x. process_front recorder clk (record c { core = x })) (setup_core c index s)

  -- What the tick leaves that finishes the front request.
  abbrev Finished :
      AitController N (List BaseRequest) → ℕ → AitController N (List BaseRequest) → Type 0
  Finished c clk d =
      (d.core.lmemq.queue ≡ rest)
      × (d.core.lmemq_state ≡ state (some 3) (replicate 4 false) false)
      × (lookup (translate_to_block_addr front.addr) d.buffer.entry_map
          ≡ some (record e { next_action_clk = add64 clk 1; waiting_action_clk_update = false }))
      × (d.core.local_memory_model ≡ c.core.local_memory_model)

  finish_line :
      (c : AitController N (List BaseRequest)) (clk : ℕ)
      → AtWrite c
      → c.core.lmemq_state ≡ state (some 3) (replicate 4 true) true
      → Returns (Finished c clk) (finish_front front rest clk c)
  unfolding finish_front
  finish_line c clk v s = rw (held_at c v) (
      returns (
        refl,
        simp s refl,
        ground (
          arith,
          lookup-update (translate_to_block_addr front.addr) (translate_to_block_addr front.addr)
              (record e { next_action_clk = add64 clk 1; waiting_action_clk_update = false }) e
              c.buffer.entry_map v.held,
        ),
        refl,
      ))

  tick_finish :
      (c : AitController N (List BaseRequest)) (clk : ℕ)
      → AtWrite c
      → c.core.lmemq_state ≡ state (some 3) (replicate 4 true) true
      → Returns (Finished c clk) (tick_lmemq recorder clk c)
  unfolding subreq_waits last_subreq
  tick_finish c clk v s =
      rw
        (
          process c clk v (ap (λ x. x.pending_front) s),
          finished c clk v (ap subreq_waits s) (ap last_subreq s),
        )
        (finish_line c clk v s)

  tick_first :
      (c : AitController N (List BaseRequest)) (index : Option ℕ) (clk : ℕ)
      → AtWrite c
      → c.core.lmemq_state ≡ state index (replicate 4 false) false
      → front.type ≡ write
      → block_offset_cl (add64 front.addr (mul64 0 cpu_cl_size)) ≡ 0
      → Returns (Issued c 0 clk (replicate 4 false)) (tick_lmemq recorder clk c)
  unfolding subreq_waits last_subreq next_index
  tick_first c index clk v s w b =
      let v' : AtWrite (set_up none c) = record { queue = v.queue; held = v.held } in
      rw (first_tick c index clk v s, started (set_up none c) clk v' refl refl)
        (issue_line (set_up none c) 0 clk none (replicate 4 false) v' refl w refl b)

-- One tick of the queue for each clock of a list.
unfoldable pub ticks :
    {N : Type 0}
    → List ℕ
    → AitController N (List BaseRequest)
    → Result (AitController N (List BaseRequest))
ticks [] c = ok c
ticks (clk ∷ clks) c = tick_lmemq recorder clk c >>= λ d. ticks clks d

module _ {N : Type 0} (front : BaseRequest) (rest : List BaseRequest) (e : BufferEntry) where
  -- What five ticks leave: the four lines' requests, in their order, are with the memory, the front
  -- request is gone, its entry is awake with the clock after the last tick, and the state is as before.
  abbrev pub Served :
      AitController N (List BaseRequest)
      → ℕ
      → ℕ
      → ℕ
      → ℕ
      → ℕ
      → AitController N (List BaseRequest)
      → Type 0
  Served c t0 t1 t2 t3 t4 d =
      (d.core.lmemq.queue ≡ rest)
      × (d.core.lmemq_state ≡ state (some 3) (replicate 4 false) false)
      × (lookup (translate_to_block_addr front.addr) d.buffer.entry_map
          ≡ some (record e { next_action_clk = add64 t4 1; waiting_action_clk_update = false }))
      × (d.core.local_memory_model
          ≡ sub_request front 3 t3
            ∷ sub_request front 2 t2
            ∷ sub_request front 1 t1
            ∷ sub_request front 0 t0
            ∷ c.core.local_memory_model)

  -- A write to a 256-byte block stands first in the local memory queue, its block has an entry, and
  -- no sub-request is under way. Over a memory that takes each request at once, five ticks, at any
  -- clocks, send the requests for the block's four lines in their order, one at a tick, and then take
  -- the write off the queue, wake its entry, and are ready for the next request.
  pub ticks-Served :
      (c : AitController N (List BaseRequest)) (index : Option ℕ) (t0 t1 t2 t3 t4 : ℕ)
      → AtWrite front rest e c
      → c.core.lmemq_state ≡ state index (replicate 4 false) false
      → front.type ≡ write
      → front.addr % 256 ≡ 0
      → front.addr < 2 ^ 64
      → Returns (Served c t0 t1 t2 t3 t4) (ticks (t0 ∷ t1 ∷ t2 ∷ t3 ∷ t4 ∷ []) c)
  unfolding ticks subreq_waits last_subreq next_index
  ticks-Served c index t0 t1 t2 t3 t4 v s w a h =
      Returns-bind
        (tick_first front rest e c index t0 v s w (line_index front.addr 0 a h (omega arith)))
        (λ c1 (v1, s1, m1).
          Returns-bind
            (tick_line front rest e c1 1 t1 _ _ v1 s1 w refl refl refl
              (line_index front.addr 1 a h (omega arith)))
            (λ c2 (v2, s2, m2).
              Returns-bind
                (tick_line front rest e c2 2 t2 _ _ v2 s2 w refl refl refl
                  (line_index front.addr 2 a h (omega arith)))
                (λ c3 (v3, s3, m3).
                  Returns-bind
                    (tick_line front rest e c3 3 t3 _ _ v3 s3 w refl refl refl
                      (line_index front.addr 3 a h (omega arith)))
                    (λ c4 (v4, s4, m4).
                      Returns-bind (tick_finish front rest e c4 t4 v4 s4)
                        (λ d (q, f, l, m). returns (q, f, l, cc))))))
