-- ===== src/Dram/Schedule.antt =====
-- src/general/dram_memory.h, `schedule` and `tick`: the invariant of the DRAM controller. The request
-- for which a row was opened is alone in its queue and its row stays open until it is served, so a
-- second activation never moves it within its queue.
pub mod Access
pub mod Queues
pub mod Misc
pub mod Fronts
pub mod Refresh
pub mod Tick
use vans.Base.{
  ℕ, zero, suc, ◌+◌, ◌≤◌, ◌≡◌, refl, sym, ap, subst, ◌∙◌, ◌⊎◌, inl, inr, Bool, true, false, List,
  [], ◌∷◌, ◌++◌, some, if◌then◌else◌, get_or, All, arith, Bool-cases, ok, ◌>>=◌, Result, Returns,
  returns, Returns-eq, Returns-bind,
}
use vans.RequestQueue.{RequestQueue, IsBounded}
use vans.Dram.Ddr4.{State, Command, ReqType, Ddr4}
use vans.Dram.Node.{Node, Dram}
use vans.Dram.Nodes.{Every}
use vans.Dram.Path.{node_at, Placed, node_at-Grows}
use vans.Dram.Request.{DramRequest}
use vans.Dram.Rows.{Settled}
use vans.Dram.Shape.{Grows}
use vans.Dram.Tables.{has_row, to_int}
use vans.Dram.Controller.{
  DramController, QueueName, with_items, get_first_cmd, is_ready, after_cmd, issue_front,
  schedule_front, queue_of, schedule,
}
use vans.Dram.Tree.{check, update}

-- The address leads to a node of the channel.
abbrev pub Leads : ℕ → List ℕ → Dram → Type 0
Leads depth addr d = (n : Node) × (node_at depth addr d ≡ some n)

abbrev pub RequestOk : ReqType → ℕ → Dram → DramRequest → Type 0
RequestOk type depth d r = (r.type ≡ type) × Leads depth r.mapped_addr d

abbrev pub QueueOk : ReqType → ℕ → Dram → RequestQueue DramRequest → Type 0
QueueOk type depth d q = IsBounded q × All (RequestOk type depth d) q.queue

abbrev pub IsAccessType : ReqType → Type 0
IsAccessType type = (type ≡ ReqType.read) ⊎ (type ≡ ReqType.write)

-- The row of the address is open in its bank.
abbrev pub RowOpen : List ℕ → Dram → Type 0
RowOpen addr d =
    (n : Node) × (node_at 3 addr d ≡ some n)
    × (n.curr_state ≡ State.opened)
    × (has_row (to_int (get_or addr 4 0)) n.row_state ≡ true)

abbrev pub ActOk : Dram → List DramRequest → Type 0
ActOk d [] = Unit
ActOk d (r ∷ []) = IsAccessType r.type × RowOpen r.mapped_addr d
ActOk d (r ∷ (s ∷ rest)) = ⊥

pub record DramOk (c : DramController) : Type 0 where
  pub placed : Placed 0 0 c.channel
  pub settled : Every Settled 0 c.channel
  pub act : ActOk c.channel c.act_queue.queue
  pub misc : QueueOk ReqType.refresh 1 c.channel c.misc_queue
  pub read : QueueOk ReqType.read 3 c.channel c.read_queue
  pub write : QueueOk ReqType.write 3 c.channel c.write_queue

pub Leads-Grows :
    (depth : ℕ) (addr : List ℕ) {d e : Dram} → Grows d e → Leads depth addr d → Leads depth addr e
Leads-Grows depth addr g (n, h) = let (n', h', later) = node_at-Grows depth addr g h in (n', h')

All-Grows :
    (type : ReqType) (depth : ℕ) {d e : Dram} (rs : List DramRequest)
    → Grows d e
    → All (RequestOk type depth d) rs
    → All (RequestOk type depth e) rs
All-Grows type depth [] g h = tt
All-Grows type depth (r ∷ rs) g h =
    ((h.0.0, Leads-Grows depth r.mapped_addr g h.0.1), All-Grows type depth rs g h.1)

pub QueueOk-Grows :
    (type : ReqType) (depth : ℕ) {d e : Dram} (q : RequestQueue DramRequest)
    → Grows d e
    → QueueOk type depth d q
    → QueueOk type depth e q
QueueOk-Grows type depth q g h = (h.0, All-Grows type depth q.queue g h.1)

-- A request whose command is found, can be checked and is carried out.
pub schedule_front-DramOk :
    (spec : Ddr4) (name : QueueName) (r : DramRequest) (rest : List DramRequest)
    (c : DramController) (cmd : Command)
    → get_first_cmd r c ≡ ok cmd
    → Returns (λ b. Unit) (check cmd r.mapped_addr c.curr_clk c.channel)
    → Returns DramOk (
        update spec cmd r.mapped_addr c.curr_clk c.channel >>= λ channel.
        after_cmd spec name cmd
          (record r { is_first_cmd = false })
          rest
          (record c { channel = channel }))
    → DramOk c
    → Returns DramOk (schedule_front spec name (r ∷ rest) c)
unfolding schedule_front is_ready issue_front
schedule_front-DramOk spec name r rest c cmd e checked issued v = rw e (
    Returns-bind checked (λ ready t. elim (Bool-cases ready) [
      | inl yes_ready ↦ rw yes_ready issued
      | inr not_ready ↦ rw not_ready (returns v)
    ]))
