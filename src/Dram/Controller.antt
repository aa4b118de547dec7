-- ===== src/Dram/Controller.antt =====
-- src/general/dram_memory.h, class `dram_media_controller`: the four queues of requests, the reads
-- that wait for their data, and the scheduler of commands. Messages on the console are left out.
use vans.Base.{
  ℕ, ◌+◌, ◌%◌, ◌^◌, Bool, true, false, ◌||◌, List, [], ◌∷◌, ◌++◌, Option, none, some, ltb, leb,
  ◌==◌, if◌then◌else◌, pop_back, Result, ok, err, ◌>>=◌, refresh_refused, invalidated_iterator,
}
use vans.Base.Bits.{add64, sub64}
use vans.Common.{BaseResponse, Callback, Call, clk_invalid}
use vans.RequestQueue
use vans.RequestQueue.{RequestQueue}
use vans.Dram.Ddr4.{Command, ReqType, Ddr4, req_to_cmd, is_accessing, is_refreshing, is_opening}
use vans.Dram.Node.{Dram, Drams, nil, cons, node_of, children_of}
use vans.Dram.Request.{DramRequest, of_mapped_addr}
use vans.Dram.Tree.{decode, check, update}

pub record DramController : Type 0 where
  pub channel : Dram
  pub act_queue : RequestQueue DramRequest
  pub misc_queue : RequestQueue DramRequest
  pub read_queue : RequestQueue DramRequest
  pub write_queue : RequestQueue DramRequest
  pub pending_queue : List DramRequest
  pub last_refreshed_clk : ℕ
  pub write_prior_mode : Bool
  pub curr_clk : ℕ
  pub report_epoch : ℕ
  pub report_cnt : ℕ
  pub start_addr : ℕ
  -- the callbacks called so far, the last one first
  pub calls : List Call

-- A queue is passed by reference, here by its name.
pub data QueueName : Type 0 where
  act misc read write : QueueName

abbrev pub queue_of : QueueName → DramController → RequestQueue DramRequest
queue_of QueueName.act c = c.act_queue
queue_of QueueName.misc c = c.misc_queue
queue_of QueueName.read c = c.read_queue
queue_of QueueName.write c = c.write_queue

abbrev pub with_queue : QueueName → RequestQueue DramRequest → DramController → DramController
with_queue QueueName.act q c = record c { act_queue = q }
with_queue QueueName.misc q c = record c { misc_queue = q }
with_queue QueueName.read q c = record c { read_queue = q }
with_queue QueueName.write q c = record c { write_queue = q }

abbrev pub with_items : QueueName → List DramRequest → DramController → DramController
with_items name items c = with_queue name (record (queue_of name c) { queue = items }) c

unfoldable pub get_queue : ReqType → QueueName
get_queue ReqType.read = QueueName.read
get_queue ReqType.write = QueueName.write
get_queue ReqType.refresh = QueueName.misc
get_queue ReqType.power_down = QueueName.misc
get_queue ReqType.self_refresh = QueueName.misc

unfoldable pub count_report : DramController → DramController
count_report c = if c.report_epoch == 0 then c else record c { report_cnt = add64 c.report_cnt 1 }

-- A queued write to the same address.
unfoldable pub has_write : ℕ → List DramRequest → Bool
has_write addr [] = false
has_write addr (wr ∷ writes) = addr == wr.logic_addr || has_write addr writes

-- The read that has just been queued takes its data from a queued write, and leaves the read queue.
unfoldable pub fast_forward : DramRequest → DramController → DramController
unfolding has_write
fast_forward request c =
    if has_write request.logic_addr c.write_queue.queue
    then record c {
      pending_queue = c.pending_queue ++ record request { depart = add64 c.curr_clk 1 } ∷ [];
      read_queue = record (c.read_queue) { queue = pop_back c.read_queue.queue };
    }
    else c

abbrev pub is_read : ReqType → Bool
is_read ReqType.read = true
is_read _ = false

unfoldable pub issue_request : DramRequest → DramController → Result (BaseResponse × DramController)
unfolding get_queue count_report fast_forward
issue_request req c =
    let request = record req { arrive = c.curr_clk } in
    let name = get_queue request.type in
    RequestQueue.enqueue request (queue_of name c) >>= λ (issued, q). ok (
      record { issued = issued; deterministic = false; next_clk = clk_invalid },
      if issued
          then (let counted = count_report (with_queue name q c) in
              if is_read request.type then fast_forward request counted else counted)
          else c,
    )

-- The call of a pending read's callback. The code removes the read within the test for a callback.
unfoldable pub complete :
    Option Callback → DramRequest → List DramRequest → DramController → DramController
complete none request rest c = c
complete (some f) request rest c = record c {
  pending_queue = rest;
  calls =
      record { callback = f; addr = add64 request.logic_addr c.start_addr; clk = c.curr_clk }
      ∷ c.calls;
}

-- The first of the pending reads is called back from its `depart` on.
unfoldable pub serve_first : List DramRequest → DramController → DramController
unfolding complete
serve_first [] c = c
serve_first (request ∷ rest) c =
    if leb request.depart c.curr_clk then complete request.callback request rest c else c

unfoldable pub serve_pending : DramController → DramController
unfolding serve_first
serve_pending c = serve_first c.pending_queue c

-- `addr_vec` of a refresh; it has `total_levels - 1` indices.
abbrev pub refresh_addr : ℕ → ℕ → List ℕ
refresh_addr channel_id rank_id = channel_id ∷ rank_id ∷ 0 ∷ 0 ∷ 0 ∷ []

-- A refresh request for each rank.
unfoldable pub refresh_ranks : ℕ → Drams → DramController → Result DramController
unfolding issue_request
refresh_ranks channel_id nil c = ok c
refresh_ranks channel_id (cons r ranks) c =
    issue_request (of_mapped_addr (refresh_addr channel_id (node_of r).id) ReqType.refresh) c
    >>= λ (response, d).
        let rest = refresh_ranks channel_id ranks d in
        if response.issued then rest else err refresh_refused

unfoldable pub refresh : Ddr4 → DramController → Result DramController
unfolding refresh_ranks
refresh spec c =
    let all_ranks = refresh_ranks (node_of c.channel).id (children_of c.channel) c in
    if leb spec.timing.n_refi (sub64 c.curr_clk c.last_refreshed_clk)
    then (all_ranks >>= λ d. ok (record d { last_refreshed_clk = d.curr_clk }))
    else ok c

-- `a < b` on two `long`, by their bit patterns.
abbrev pub signed_lt : ℕ → ℕ → Bool
signed_lt a b = ltb ((a + 2 ^ 63) % 2 ^ 64) ((b + 2 ^ 63) % 2 ^ 64)

unfoldable pub write_priority : List DramRequest → List DramRequest → Bool → Bool
write_priority [] [] mode = mode
write_priority [] (rreq ∷ reads) mode = false
write_priority (wreq ∷ writes) [] mode = true
write_priority (wreq ∷ writes) (rreq ∷ reads) mode = signed_lt wreq.arrive rreq.arrive

unfoldable pub choose_queue : DramController → QueueName
choose_queue c =
    if RequestQueue.size c.act_queue
    then QueueName.act
    else if RequestQueue.size c.misc_queue
    then QueueName.misc
    else if c.write_prior_mode
    then QueueName.write
    else QueueName.read

unfoldable pub get_first_cmd : DramRequest → DramController → Result Command
get_first_cmd req c = decode (req_to_cmd req.type) req.mapped_addr c.channel

unfoldable pub is_ready : DramRequest → DramController → Result Bool
unfolding get_first_cmd
is_ready req c = get_first_cmd req c >>= λ cmd. check cmd req.mapped_addr c.curr_clk c.channel

-- A request whose row has been opened moves to the queue of activated requests. Where it stands in
-- that queue already, the code erases it by an iterator that its `push_back` has made invalid.
unfoldable pub move_to_act :
    QueueName → DramRequest → List DramRequest → DramController → Result DramController
move_to_act QueueName.act req rest c = err invalidated_iterator
move_to_act name req rest c = ok (
    with_items name rest
      (record c { act_queue = record (c.act_queue) { queue = c.act_queue.queue ++ req ∷ [] } }))

-- A read waits for its data.
unfoldable pub await_data : Ddr4 → DramRequest → DramController → DramController
await_data spec req c =
    if is_read req.type
    then record c {
      pending_queue =
          c.pending_queue ++ record req { depart = add64 c.curr_clk spec.read_latency } ∷ [];
    }
    else c

-- What `schedule` does after `cmd` has been issued for the front `req` of the queue.
unfoldable pub after_cmd :
    Ddr4
    → QueueName
    → Command
    → DramRequest
    → List DramRequest
    → DramController
    → Result DramController
unfolding move_to_act await_data
after_cmd spec name cmd req rest c =
    if is_accessing cmd || is_refreshing cmd
    then ok (with_items name rest (await_data spec req c))
    else if is_opening cmd
    then move_to_act name req rest c
    else ok (with_items name (req ∷ rest) c)

unfoldable pub issue_front :
    Ddr4 → QueueName → DramRequest → List DramRequest → DramController → Result DramController
unfolding get_first_cmd after_cmd
issue_front spec name req rest c = get_first_cmd req c >>= λ cmd.
    update spec cmd req.mapped_addr c.curr_clk c.channel >>= λ channel.
    after_cmd spec name cmd (record req { is_first_cmd = false }) rest
      (record c { channel = channel })

unfoldable pub schedule_front :
    Ddr4 → QueueName → List DramRequest → DramController → Result DramController
unfolding is_ready issue_front
schedule_front spec name [] c = ok c
schedule_front spec name (req ∷ rest) c =
    is_ready req c >>= λ ready. if ready then issue_front spec name req rest c else ok c

unfoldable pub schedule : Ddr4 → QueueName → DramController → Result DramController
unfolding schedule_front
schedule spec name c = schedule_front spec name (queue_of name c).queue c

unfoldable pub prioritise : DramController → DramController
unfolding write_priority
prioritise c = record c {
  write_prior_mode = write_priority c.write_queue.queue c.read_queue.queue c.write_prior_mode;
}

unfoldable pub tick : Ddr4 → ℕ → DramController → Result DramController
unfolding serve_pending refresh prioritise choose_queue schedule
tick spec new_clk c = refresh spec (serve_pending (record c { curr_clk = new_clk })) >>= λ d.
    let e = prioritise d in schedule spec (choose_queue e) e

unfoldable pub pending : DramController → Bool
pending c = elim c.pending_queue [ [] ↦ false | request ∷ rest ↦ true ]

unfoldable pub full : DramController → Result Bool
full c = RequestQueue.full c.read_queue >>= λ reads.
    if reads then ok true else RequestQueue.full c.write_queue
