-- ===== src/Rmw/Run.antt =====
-- Runs of the RMW buffer: the ticks of the simulator's loop in any order with the calls of the
-- components beside it (src/general/rmw.h, the public methods of `rmw_controller`).
use vans.Base.{
  ℕ, ◌+◌, ◌<◌, ◌≤◌, ◌≡◌, refl, subst, false, List, [], none, some, arith, ok, ◌∙◌, ◌∷◌,
  Option-cases, inl, inr, err, map_at_missing, Returns, returns, Returns-bind, Returns-at,
}
use vans.Common.{BaseRequest, BaseResponse, clk_invalid}
use vans.Common.Address.Rmw.{translate_to_block_addr}
use vans.Base.Bits.{add64}
use vans.RequestQueue.Bounds.{enqueue-Enqueued}
use vans.Buffer
use vans.Buffer.{lookup}
use vans.Buffer.Laws.{
  All-lookup, All-update, update-Distinct, length-update, SameKeys, SameKeys-length,
  SameKeys-Distinct,
}
use vans.NextLevel.{NextLevel, Contract}
use vans.Rmw.Entry.{BufferEntry}
use vans.Rmw.Controller.{RmwController}
use vans.Rmw.Tick.{
  tick, issue_request, next_level_read_callback, drain_current, drain_entry, drain_entries,
}
use vans.Rmw.Safety.{EntryOk, CoreOk, AllOk}
use vans.Rmw.Safety.Evict.{RmwOk}
use vans.Rmw.Safety.Tick.{tick-RmwOk}

-- A controller as its constructor leaves it: the table and the queues are empty.
pub record IsFresh {N : Type 0} (c : RmwController N) : Type 0 where
  pub no_entries : c.buffer.entry_map ≡ []
  pub first_index : c.buffer.next_available_index ≡ 0
  pub lsq_empty : c.lsq.queue ≡ []
  pub roq_empty : c.roq.queue ≡ []
  pub small : c.buffer.max_entries < clk_invalid

module _ {N : Type 0} (next : NextLevel N) (horizon : ℕ) where
  -- One call of a public method that returns normally. The component below calls back for a block
  -- that has an entry.
  pub data Step (c : RmwController N) : RmwController N → Type 0 where
    ticked : {d : RmwController N} (clk : ℕ) → clk ≤ horizon → tick next clk c ≡ ok d → Step c d
    issued :
        {d : RmwController N} (req : BaseRequest) (r : BaseResponse)
        → issue_request req c ≡ ok (r, d)
        → Step c d
    called_back :
        {d : RmwController N} (addr clk : ℕ)
        → clk ≤ horizon
        → next_level_read_callback addr clk c ≡ ok d
        → Step c d
    drained : Step c (drain_current c)

  pub data Reachable (c : RmwController N) : RmwController N → Type 0 where
    start : Reachable c c
    next_step : {d e : RmwController N} → Reachable c d → Step d e → Reachable c e

drain_entry-EntryOk : (key : ℕ) (e : BufferEntry) → EntryOk key e → EntryOk key (drain_entry e)
unfolding drain_entry
drain_entry-EntryOk key e v = let done = v.settled in let idle = v.idle in ground arith

drain_entries-AllOk :
    (m : List (ℕ × BufferEntry)) → AllOk m → AllOk (drain_entries m) × SameKeys m (drain_entries m)
unfolding drain_entries
drain_entries-AllOk [] a = (tt, tt)
drain_entries-AllOk ((k, e) ∷ m) a =
    let rest = drain_entries-AllOk m a.1 in ((drain_entry-EntryOk k e a.0, rest.0), (refl, rest.1))

at-some :
    (k : ℕ) (e : BufferEntry) (m : List (ℕ × BufferEntry))
    → lookup k m ≡ some e
    → Buffer.at k m ≡ ok e
unfolding Buffer.at
at-some k e m h = rw (h, Buffer.at) refl

at-none :
    (k : ℕ) (m : List (ℕ × BufferEntry)) → lookup k m ≡ none → Buffer.at k m ≡ err map_at_missing
unfolding Buffer.at
at-none k m h = rw (h, Buffer.at) refl

module _ {N : Type 0} {next : NextLevel N} {horizon : ℕ} (contract : Contract next horizon) where
  pub drain_current-RmwOk :
      (c : RmwController N) → RmwOk contract c → RmwOk contract (drain_current c)
  unfolding drain_current
  drain_current-RmwOk c v =
      let b = v.buffer_ok in
      let d = drain_entries-AllOk c.buffer.entry_map b.entries in
      let same = SameKeys-length c.buffer.entry_map _ d.1 in
      record {
        core_ok = v.core_ok;
        buffer_ok = record {
          entries = d.0;
          distinct = SameKeys-Distinct c.buffer.entry_map _ d.1 b.distinct;
          bounded = subst (λ n. n ≤ c.buffer.max_entries) same b.bounded;
          index = b.index ∙ same;
          small = b.small;
        };
        lsq_ok = v.lsq_ok;
      }

  pub issue_request-RmwOk :
      (req : BaseRequest) (c : RmwController N)
      → RmwOk contract c
      → Returns (λ p. RmwOk contract p.1) (issue_request req c)
  unfolding issue_request
  issue_request-RmwOk req c v =
      Returns-bind (enqueue-Enqueued req c.lsq v.lsq_ok)
        (λ p h. returns (record { core_ok = v.core_ok; buffer_ok = v.buffer_ok; lsq_ok = h.0 }))

  woken-EntryOk :
      (key clk : ℕ) (e : BufferEntry)
      → clk ≤ horizon
      → horizon + 1 < clk_invalid
      → EntryOk key e
      → EntryOk key (record e { waiting_action_clk_update = false; next_action_clk = add64 clk 1 })
  woken-EntryOk key clk e t fits v = ground arith

  pub next_level_read_callback-RmwOk :
      (addr clk : ℕ) (e : BufferEntry) (c : RmwController N)
      → clk ≤ horizon
      → RmwOk contract c
      → lookup (translate_to_block_addr addr) c.buffer.entry_map ≡ some e
      → Returns (RmwOk contract) (next_level_read_callback addr clk c)
  unfolding next_level_read_callback
  next_level_read_callback-RmwOk addr clk e c t v held =
      let m = c.buffer.entry_map in
      let key = translate_to_block_addr addr in
      let woken =
        woken-EntryOk key clk e t v.core_ok.next_fits
          (All-lookup (λ p. EntryOk p.0 p.1) key e m v.buffer_ok.entries held) in
      let same =
        length-update key
          (record e { waiting_action_clk_update = false; next_action_clk = add64 clk 1 }) m in
      rw (at-some key e m held) (
        returns (record {
          core_ok = v.core_ok;
          buffer_ok = record {
            entries = All-update (λ p. EntryOk p.0 p.1) key _ m v.buffer_ok.entries woken;
            distinct = update-Distinct key _ m v.buffer_ok.distinct;
            bounded = rw same v.buffer_ok.bounded;
            index = rw same v.buffer_ok.index;
            small = v.buffer_ok.small;
          };
          lsq_ok = v.lsq_ok;
        }))

  pub fresh-RmwOk : (c : RmwController N) → IsFresh c → CoreOk contract c.core → RmwOk contract c
  fresh-RmwOk c f w = record {
    core_ok = w;
    buffer_ok = record {
      entries = rw f.no_entries tt;
      distinct = rw f.no_entries tt;
      bounded = rw f.no_entries (omega arith);
      index = rw f.no_entries f.first_index;
      small = f.small;
    };
    lsq_ok = rw f.lsq_empty (omega arith);
  }

  callback-RmwOk :
      (addr clk : ℕ) (c d : RmwController N)
      → clk ≤ horizon
      → RmwOk contract c
      → next_level_read_callback addr clk c ≡ ok d
      → RmwOk contract d
  unfolding next_level_read_callback
  callback-RmwOk addr clk c d t v e =
      elim (Option-cases (lookup (translate_to_block_addr addr) c.buffer.entry_map)) [
        | inl missing ↦
            absurd (let m = at-none (translate_to_block_addr addr) c.buffer.entry_map missing in cc)
        | inr (entry, held) ↦
            Returns-at (next_level_read_callback-RmwOk addr clk entry c t v held) e
      ]

  Step-RmwOk : (c d : RmwController N) → Step next horizon c d → RmwOk contract c → RmwOk contract d
  Step-RmwOk c d (ticked clk t e) v = Returns-at (tick-RmwOk contract clk c t v) e
  Step-RmwOk c d (issued req r e) v = Returns-at (issue_request-RmwOk req c v) e
  Step-RmwOk c d (called_back addr clk t e) v = callback-RmwOk addr clk c d t v e
  Step-RmwOk c _ drained v = drain_current-RmwOk c v

  Reachable-RmwOk :
      (c d : RmwController N)
      → Reachable next horizon c d
      → IsFresh c
      → CoreOk contract c.core
      → RmwOk contract d
  Reachable-RmwOk c _ start f w = fresh-RmwOk c f w
  Reachable-RmwOk c e (next_step {d = d} path s) f w =
      Step-RmwOk d e s (Reachable-RmwOk c d path f w)

  -- From a controller as it is constructed, whose core is well-formed, let any calls of the public
  -- methods that return normally happen: ticks and callbacks with clocks up to the horizon, requests,
  -- drains. Then a tick with a clock up to the horizon does not throw, and it leaves the controller in
  -- its invariant.
  pub Reachable-tick :
      (c d : RmwController N) (clk : ℕ)
      → IsFresh c
      → CoreOk contract c.core
      → Reachable next horizon c d
      → clk ≤ horizon
      → Returns (RmwOk contract) (tick next clk d)
  Reachable-tick c d clk f w path t = tick-RmwOk contract clk d t (Reachable-RmwOk c d path f w)
