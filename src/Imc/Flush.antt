-- ===== src/Imc/Flush.antt =====
-- src/general/imc.cpp, `flush_wpq`: its loop, its order and its reasons to stop.
use vans.Base.{
  ℕ, zero, suc, ◌<◌, ◌≤◌, ◌≡◌, refl, subst, ap, ◌∙◌, ◌⊎◌, inl, inr, Bool, true, false, ◌||◌, List,
  [], ◌∷◌, ◌++◌, length, All, arith, Bool-cases, ok, Returns, returns, Returns-bind, Returns-mono,
  Returns-both,
}
use vans.Common.{BaseRequest, Call}
use vans.NextLevel.{NextLevel, Contract}
use vans.Imc.{ImcController, older_read, call_back, get_next_level, flush_wpq}

-- The calls after those for the requests of a list, the first one's first.
pub called : List BaseRequest → ℕ → List Call → List Call
called [] clk calls = calls
called (req ∷ reqs) clk calls = called reqs clk (call_back req clk calls)

module _ {N : Type 0} {next : NextLevel N} {horizon : ℕ} (contract : Contract next horizon) where
  -- A component below that is not full issues each request that it is given.
  abbrev pub Open : Type 0
  Open =
      (i : ℕ) (req : BaseRequest) (s : N)
      → contract.Good s
      → req.arrive ≤ horizon
      → next.full i s ≡ false
      → Returns (λ p. p.0.issued ≡ true) (next.issue_request i req s)

  abbrev pub Timely : List BaseRequest → Type 0
  Timely reqs = All (λ r. r.arrive ≤ horizon) reqs

  -- Why the loop ends: no write is left, or the oldest waits for an older read or for a component
  -- that is full.
  abbrev pub Stops : ImcController N → Type 0
  Stops d =
      (d.wpq.queue ≡ [])
      ⊎ ((req : BaseRequest) × (rest : List BaseRequest) × (d.wpq.queue ≡ req ∷ rest)
          × ((older_read d.rpq.queue req
                || next.full (get_next_level next req.addr d).1 d.next_level_components)
              ≡ true))

  pub record Flushed (c d : ImcController N) : Type 0 where
    pub sent : List BaseRequest
    pub order : c.wpq.queue ≡ sent ++ d.wpq.queue
    pub same_bound : d.wpq.max_entries ≡ c.wpq.max_entries
    pub same_reads : d.rpq ≡ c.rpq
    pub same_clk : d.imc_curr_clk ≡ c.imc_curr_clk
    pub same_epoch : d.adr_epoch ≡ c.adr_epoch
    pub good : contract.Good d.next_level_components
    pub calls : d.calls ≡ called sent c.imc_curr_clk c.calls
    pub stops : Stops d

  module _ (c : ImcController N) (req : BaseRequest) (rest : List BaseRequest) where
    -- The controller once the oldest write is sent.
    abbrev sent_one : N → ImcController N
    sent_one n = record c {
      next_level_components = n;
      wpq = record (c.wpq) { queue = rest };
      calls = call_back req c.imc_curr_clk c.calls;
    }

    Flushed-cons :
        (n : N) (d : ImcController N)
        → c.wpq.queue ≡ req ∷ rest
        → Flushed (sent_one n) d
        → Flushed c d
    unfolding called
    Flushed-cons n d q f = record {
      sent = req ∷ f.sent;
      order = q ∙ ap (◌∷◌ req) f.order;
      same_bound = f.same_bound;
      same_reads = f.same_reads;
      same_clk = f.same_clk;
      same_epoch = f.same_epoch;
      good = f.good;
      calls = f.calls;
      stops = f.stops;
    }

  Flushed-none :
      (c : ImcController N) → contract.Good c.next_level_components → Stops c → Flushed c c
  unfolding called
  Flushed-none c g s = record {
    sent = [];
    order = refl;
    same_bound = refl;
    same_reads = refl;
    same_clk = refl;
    same_epoch = refl;
    good = g;
    calls = refl;
    stops = s;
  }

  flush_nothing :
      (fuel : ℕ) (c : ImcController N) → c.wpq.queue ≡ [] → flush_wpq next (suc fuel) c ≡ ok c
  unfolding flush_wpq
  flush_nothing fuel c q = simp (q, flush_wpq) refl

  flush_waits :
      (fuel : ℕ) (c : ImcController N) (req : BaseRequest) (rest : List BaseRequest)
      → c.wpq.queue ≡ req ∷ rest
      → (older_read c.rpq.queue req
          || next.full (get_next_level next req.addr c).1 c.next_level_components)
        ≡ true
      → flush_wpq next (suc fuel) c ≡ ok c
  unfolding flush_wpq
  flush_waits fuel c req rest q waits = simp (q, flush_wpq, waits) refl

  -- The loop ends so from each state with fewer writes than `fuel`.
  abbrev EndsWithin : ℕ → Type 0
  EndsWithin fuel =
      (c : ImcController N)
      → contract.Good c.next_level_components
      → Timely c.wpq.queue
      → length c.wpq.queue < fuel
      → Returns (Flushed c) (flush_wpq next fuel c)

  abbrev waiting : BaseRequest → ImcController N → Bool
  waiting req c =
      older_read c.rpq.queue req
      || next.full (get_next_level next req.addr c).1 c.next_level_components

  send-Flushed :
      (fuel : ℕ) (c : ImcController N) (req : BaseRequest) (rest : List BaseRequest)
      → Open
      → EndsWithin fuel
      → contract.Good c.next_level_components
      → Timely c.wpq.queue
      → length c.wpq.queue < suc fuel
      → c.wpq.queue ≡ req ∷ rest
      → waiting req c ≡ false
      → Returns (Flushed c) (flush_wpq next (suc fuel) c)
  unfolding flush_wpq
  send-Flushed fuel c req rest o ends g t l q free =
      let timely = subst Timely q t in
      let shorter : length c.wpq.queue ≡ suc (length rest) = ap length q in
      simp (q, flush_wpq, free)
        (Returns-bind
          (Returns-both (contract.issue_ok _ req c.next_level_components g timely.0)
            (o _ req c.next_level_components g timely.0 (ground arith)))
          (λ (r, n) ((good, valid), issued). simp issued (
            Returns-mono (ends (sent_one c req rest n) good timely.1 (omega arith))
              (λ d f. Flushed-cons c req rest n d q f))))

  -- Where the components below are in a good state, issue what they are given unless they are full, and
  -- the queued writes arrived by the horizon: with one round more than there are writes, the loop ends
  -- without an exception. It has sent the oldest writes in their order, called back for each that has a
  -- callback, left the reads alone, and stopped for one of its three reasons.
  pub flush_wpq-Flushed :
      (fuel : ℕ) (c : ImcController N)
      → Open
      → contract.Good c.next_level_components
      → Timely c.wpq.queue
      → length c.wpq.queue < fuel
      → Returns (Flushed c) (flush_wpq next fuel c)
  flush_wpq-Flushed zero c o g t l = absurd (omega arith)
  flush_wpq-Flushed (suc fuel) c o g t l =
      by_queue c.wpq.queue refl (λ d. flush_wpq-Flushed fuel d o)
    where
      by_queue :
          (queue : List BaseRequest)
          → c.wpq.queue ≡ queue
          → EndsWithin fuel
          → Returns (Flushed c) (flush_wpq next (suc fuel) c)
      by_queue [] q ends = rw (flush_nothing fuel c q) (returns (Flushed-none c g (inl q)))
      by_queue (req ∷ rest) q ends = elim (Bool-cases (waiting req c)) [
        | inl waits ↦
            rw (flush_waits fuel c req rest q waits)
              (returns (Flushed-none c g (inr (req, rest, q, waits))))
        | inr free ↦ send-Flushed fuel c req rest o ends g t l q free
      ]
