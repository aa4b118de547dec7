-- ===== src/Dram/Schedule/Queues.antt =====
-- src/general/dram_memory.h, `schedule`: each of the four queues, on the invariant.
use vans.Base.{
  ℕ, ◌≡◌, refl, sym, ap, subst, ◌∙◌, inl, inr, List, [], ◌∷◌, ◌++◌, get_or, Bool-cases, ok, Returns,
  returns,
}
use vans.Dram.Ddr4.{Command, ReqType, Ddr4, req_to_cmd}
use vans.Dram.Node.{Node, Dram}
use vans.Dram.Nodes.{Every}
use vans.Dram.Path.{Grows-Placed}
use vans.Dram.Request.{DramRequest}
use vans.Dram.Rows.{Settled}
use vans.Dram.Rows.Decode.{IsAccess, rd_access, wr_access}
use vans.Dram.Schedule.{QueueOk, IsAccessType, RowOpen, ActOk, DramOk, QueueOk-Grows}
use vans.Dram.Schedule.Access.{Stepped, has_row-set_row}
use vans.Dram.Shape.{Grows}
use vans.Dram.Tables.{has_row, to_int, open_row}
use vans.Dram.Controller.{
  DramController, QueueName, with_items, move_to_act, await_data, queue_of, is_read,
}

module _ (c : DramController) (v : DramOk c) where
  pub carried :
      (e : Dram)
      → Every Settled 0 e
      → Grows c.channel e
      → ActOk e c.act_queue.queue
      → DramOk (record c { channel = e })
  carried e w g act = record {
    placed = Grows-Placed 0 0 g v.placed;
    settled = w;
    act = act;
    misc = QueueOk-Grows ReqType.refresh 1 c.misc_queue g v.misc;
    read = QueueOk-Grows ReqType.read 3 c.read_queue g v.read;
    write = QueueOk-Grows ReqType.write 3 c.write_queue g v.write;
  }

  pub awaited : (spec : Ddr4) (r : DramRequest) → DramOk (await_data spec r c)
  unfolding await_data
  awaited spec r = elim (Bool-cases (is_read r.type)) [
    | inl yes_read ↦ rw yes_read (record {
      placed = v.placed;
      settled = v.settled;
      act = v.act;
      misc = v.misc;
      read = v.read;
      write = v.write;
    })
    | inr other ↦ rw other v
  ]

  pub emptied :
      (e : Dram)
      → Every Settled 0 e
      → Grows c.channel e
      → DramOk (with_items QueueName.act [] (record c { channel = e }))
  emptied e w g = record {
    placed = Grows-Placed 0 0 g v.placed;
    settled = w;
    act = tt;
    misc = QueueOk-Grows ReqType.refresh 1 c.misc_queue g v.misc;
    read = QueueOk-Grows ReqType.read 3 c.read_queue g v.read;
    write = QueueOk-Grows ReqType.write 3 c.write_queue g v.write;
  }

  pub with_act :
      (r : DramRequest)
      → IsAccessType r.type
      → RowOpen r.mapped_addr c.channel
      → DramOk (with_items QueueName.act (r ∷ []) c)
  with_act r t o = record {
    placed = v.placed;
    settled = v.settled;
    act = (t, o);
    misc = v.misc;
    read = v.read;
    write = v.write;
  }

  pub with_misc :
      (items : List DramRequest)
      → QueueOk ReqType.refresh 1 c.channel (record (c.misc_queue) { queue = items })
      → DramOk (with_items QueueName.misc items c)
  with_misc items q = record {
    placed = v.placed;
    settled = v.settled;
    act = v.act;
    misc = q;
    read = v.read;
    write = v.write;
  }

-- Waiting for the data and leaving the queue do not interfere.
await_data-with_items :
    (spec : Ddr4) (name : QueueName) (r : DramRequest) (items : List DramRequest)
    (c : DramController)
    → await_data spec r (with_items name items c) ≡ with_items name items (await_data spec r c)
unfolding await_data
await_data-with_items spec QueueName.act r items c = elim (Bool-cases (is_read r.type)) [
  | inl e ↦ rw e
  | inr e ↦ rw e
]
await_data-with_items spec QueueName.misc r items c = elim (Bool-cases (is_read r.type)) [
  | inl e ↦ rw e
  | inr e ↦ rw e
]
await_data-with_items spec QueueName.read r items c = elim (Bool-cases (is_read r.type)) [
  | inl e ↦ rw e
  | inr e ↦ rw e
]
await_data-with_items spec QueueName.write r items c = elim (Bool-cases (is_read r.type)) [
  | inl e ↦ rw e
  | inr e ↦ rw e
]

-- What is left of a queue when its front is served.
pub served :
    (spec : Ddr4) (name : QueueName) (r : DramRequest) (rest : List DramRequest)
    (c : DramController)
    → DramOk (with_items name rest c)
    → Returns DramOk (ok (with_items name rest (await_data spec r c)))
served spec name r rest c v = returns (
    subst DramOk (await_data-with_items spec name r rest c)
      (awaited (with_items name rest c) v spec r))

-- The queues of reads and of writes, with the command that their requests stand for.
pub data AccessQueue : QueueName → ReqType → Command → Type 0 where
  reads_queued : AccessQueue QueueName.read ReqType.read Command.rd
  writes_queued : AccessQueue QueueName.write ReqType.write Command.wr

pub access :
    {name : QueueName} {kind : ReqType} {cmd : Command}
    → AccessQueue name kind cmd
    → IsAccess cmd × IsAccessType kind × (req_to_cmd kind ≡ cmd)
access reads_queued = (rd_access, inl refl, refl)
access writes_queued = (wr_access, inr refl, refl)

pub with_access :
    {name : QueueName} {kind : ReqType} {cmd : Command} (q : AccessQueue name kind cmd)
    (c : DramController) (items : List DramRequest)
    → DramOk c
    → QueueOk kind 3 c.channel (record (queue_of name c) { queue = items })
    → DramOk (with_items name items c)
with_access reads_queued c items v h = record {
  placed = v.placed;
  settled = v.settled;
  act = v.act;
  misc = v.misc;
  read = h;
  write = v.write;
}
with_access writes_queued c items v h = record {
  placed = v.placed;
  settled = v.settled;
  act = v.act;
  misc = v.misc;
  read = v.read;
  write = h;
}

pub queue_ok :
    {name : QueueName} {kind : ReqType} {cmd : Command} (q : AccessQueue name kind cmd)
    (c : DramController)
    → DramOk c
    → QueueOk kind 3 c.channel (queue_of name c)
queue_ok reads_queued c v = v.read
queue_ok writes_queued c v = v.write

pub RowOpen-Stepped :
    (addr : List ℕ) (n : Node) {d e : Dram} → Stepped Command.act addr n d e → RowOpen addr e
unfolding open_row
RowOpen-Stepped addr n (w, g, n', h, s) =
    let id = to_int (get_or addr 4 0) in
    (n', h, s.0, ap (has_row id) s.1 ∙ has_row-set_row id n.row_state)

pub moved_to_act :
    {name : QueueName} {kind : ReqType} {cmd : Command} (q : AccessQueue name kind cmd)
    (r : DramRequest) (rest : List DramRequest) (c : DramController)
    → c.act_queue.queue ≡ []
    → DramOk c
    → IsAccessType r.type
    → RowOpen r.mapped_addr c.channel
    → QueueOk kind 3 c.channel (record (queue_of name c) { queue = rest })
    → Returns DramOk (move_to_act name r rest c)
unfolding move_to_act
moved_to_act reads_queued r rest c e v t o h = returns (
    subst
      (λ items.
        DramOk (with_items QueueName.read rest (with_items QueueName.act (items ++ r ∷ []) c)))
      (sym e)
      (with_access reads_queued (with_items QueueName.act (r ∷ []) c) rest (with_act c v r t o) h))
moved_to_act writes_queued r rest c e v t o h = returns (
    subst
      (λ items.
        DramOk (with_items QueueName.write rest (with_items QueueName.act (items ++ r ∷ []) c)))
      (sym e)
      (with_access writes_queued (with_items QueueName.act (r ∷ []) c) rest (with_act c v r t o) h))
