-- ===== src/Dram/Forward.antt =====
-- src/general/dram_memory.h, `issue_request`: a request is queued, or a read is answered from the
-- queued writes.
use vans.Base.{
  ◌<◌, ℕ, ◌≡◌, ◌↔◌, refl, sym, ap, subst, ◌∙◌, ◌⊎◌, inl, inr, true, false, List, [], ◌∷◌, ◌++◌,
  ◌==◌, pop_back, length, Has, Bool-cases, arith, Returns, returns, Returns-bind,
}
use vans.Base.Bits.{add64}
use vans.Common.{BaseResponse, clk_invalid}
use vans.RequestQueue.{IsBounded}
use vans.RequestQueue.Bounds.{enqueue-Enqueued}
use vans.Dram.Ddr4.{ReqType}
use vans.Dram.Request.{DramRequest}
use vans.Dram.Controller.{
  DramController, get_queue, count_report, has_write, fast_forward, issue_request,
}

pub pop_back-append {ℓ} : {A : Type ℓ} (xs : List A) (x : A) → pop_back (xs ++ x ∷ []) ≡ xs
pop_back-append [] x = refl
pop_back-append (y ∷ []) x = refl
pop_back-append (y ∷ (z ∷ xs)) x = ap (λ l. y ∷ l) (pop_back-append (z ∷ xs) x)

-- The test finds a write exactly where there is one to the address.
pub has_write_iff :
    (addr : ℕ) (writes : List DramRequest)
    → (has_write addr writes ≡ true) ↔ ((w : DramRequest) × Has w writes × (addr ≡ w.logic_addr))
unfolding has_write
has_write_iff addr [] = (λ h. cc, λ (w, h, e). absurd h)
has_write_iff addr (w ∷ writes) = (
  λ h. elim (Bool-cases (addr == w.logic_addr)) [
    | inl same ↦ (w, inl refl, ground arith)
    | inr other ↦ let (x, m, e) = (has_write_iff addr writes).0 (ground arith) in (x, inr m, e)
  ],
  λ (x, h, e). elim h [
    | inl first ↦ let same = ap (λ (y : DramRequest). y.logic_addr) first in ground arith
    | inr later ↦ let found = (has_write_iff addr writes).1 (x, later, e) in ground arith
  ],
)

-- The three outcomes for a read: refused, answered from a queued write, or queued.
abbrev pub ReadIssued : DramRequest → DramController → BaseResponse × DramController → Type 0
ReadIssued r c (response, d) =
    ((response.issued ≡ false) × (length c.read_queue.queue ≡ c.read_queue.max_entries) × (d ≡ c))
    ⊎ ((length c.read_queue.queue < c.read_queue.max_entries)
        × (response.issued ≡ true)
        × (has_write r.logic_addr c.write_queue.queue ≡ true)
        × (d.read_queue.queue ≡ c.read_queue.queue)
        × (d.pending_queue
            ≡ c.pending_queue
              ++ record r { arrive = c.curr_clk; depart = add64 c.curr_clk 1 } ∷ []))
    ⊎ ((length c.read_queue.queue < c.read_queue.max_entries)
        × (response.issued ≡ true)
        × (has_write r.logic_addr c.write_queue.queue ≡ false)
        × (d.read_queue.queue ≡ c.read_queue.queue ++ record r { arrive = c.curr_clk } ∷ [])
        × (d.pending_queue ≡ c.pending_queue))

fast_forward-ReadIssued :
    (r : DramRequest) (c d : DramController)
    → length c.read_queue.queue < c.read_queue.max_entries
    → d.read_queue.queue ≡ c.read_queue.queue ++ record r { arrive = c.curr_clk } ∷ []
    → d.write_queue ≡ c.write_queue
    → d.pending_queue ≡ c.pending_queue
    → d.curr_clk ≡ c.curr_clk
    → ReadIssued r c (
      record { issued = true; deterministic = false; next_clk = clk_invalid },
      fast_forward (record r { arrive = c.curr_clk }) d,
    )
unfolding fast_forward
fast_forward-ReadIssued r c d room q w p t =
    let writes : has_write r.logic_addr d.write_queue.queue
        ≡ has_write r.logic_addr c.write_queue.queue =
      ap (λ x. has_write r.logic_addr x.queue) w in
    elim (Bool-cases (has_write r.logic_addr d.write_queue.queue)) [
      | inl found ↦ rw found (
          inr (
            inl (
              room,
              refl,
              sym writes ∙ found,
              ap pop_back q ∙ pop_back-append c.read_queue.queue (record r { arrive = c.curr_clk }),
              ap (λ x. x ++ record r { arrive = c.curr_clk; depart = add64 d.curr_clk 1 } ∷ []) p
                  ∙ ap
                      (λ x.
                        c.pending_queue
                        ++ record r { arrive = c.curr_clk; depart = add64 x 1 } ∷ [])
                      t,
            )))
      | inr absent ↦ rw absent (inr (inr (room, refl, sym writes ∙ absent, q, p)))
    ]

read_issued :
    (r : DramRequest) (c : DramController)
    → IsBounded c.read_queue
    → Returns
        (ReadIssued (record r { type = ReqType.read }) c)
        (issue_request (record r { type = ReqType.read }) c)
unfolding issue_request get_queue count_report
read_issued r c bounded =
    let read = record r { type = ReqType.read } in
    let request = record read { arrive = c.curr_clk } in
    Returns-bind (enqueue-Enqueued request c.read_queue bounded) (λ (issued, q) (b, enqueued).
      elim enqueued [
        | inr (full, e) ↦
            let no_room : issued ≡ false = ap (λ o. o.0) e in
            rw no_room (returns (inl (refl, full, refl)))
        | inl (room, e, longer) ↦
            let queued : issued ≡ true = ap (λ o. o.0) e in
            let items : q.queue ≡ c.read_queue.queue ++ request ∷ [] = ap (λ o. o.1.queue) e in
            rw queued (elim (Bool-cases (c.report_epoch == 0)) [
              | inl off ↦ rw off (
                  returns (
                    fast_forward-ReadIssued read c (record c { read_queue = q }) room items refl
                      refl refl))
              | inr on ↦ rw on (
                  returns (
                    fast_forward-ReadIssued read c
                      (record c { read_queue = q; report_cnt = add64 c.report_cnt 1 }) room items
                      refl refl refl))
            ])
      ])

-- On a read queue within its bound, a read is refused and changes nothing, exactly when the queue
-- is full. Else it is issued: where a write to its address is queued it waits for its data until
-- the next clock, behind the reads that wait, and the read queue is as it was; where none is, it
-- stands last in the read queue.
pub issue_request-ReadIssued :
    (r : DramRequest) (c : DramController)
    → r.type ≡ ReqType.read
    → IsBounded c.read_queue
    → Returns (ReadIssued r c) (issue_request r c)
issue_request-ReadIssued r c is_a_read bounded =
    subst
      (λ type.
        Returns (ReadIssued (record r { type = type }) c)
          (issue_request (record r { type = type }) c))
      (sym is_a_read) (read_issued r c bounded)
