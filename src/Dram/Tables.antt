-- ===== src/Dram/Tables.antt =====
-- src/general/ddr4.cpp, `init_state_trans_table` and `init_prereq_table`. A command that has no
-- function in a table leaves the node as it is, and has no prerequisite.
use vans.Base.{
  ℕ, ◌%◌, ◌^◌, Bool, true, false, List, [], ◌∷◌, ◌==◌, if◌then◌else◌, ◌&&◌, Option, none, some,
  Result, ok, err, wrong_prereq,
}
use vans.Dram.Ddr4.{Level, rank, bank, State, Command}
use vans.Dram.Node.{Node, Dram, Drams, node, nil, cons}

-- `(int)id`, as a bit pattern of 32 bits.
unfoldable pub to_int : ℕ → ℕ
to_int id = id % 2 ^ 32

unfoldable pub set_row : ℕ → List (ℕ × State) → List (ℕ × State)
set_row id [] = (id, State.opened) ∷ []
set_row id ((k, s) ∷ rows) = if k == id then (id, State.opened) ∷ rows else (k, s) ∷ set_row id rows

-- `d->row_state.find(id) != d->row_state.end()`
unfoldable pub has_row : ℕ → List (ℕ × State) → Bool
has_row id [] = false
has_row id ((k, s) ∷ rows) = if k == id then true else has_row id rows

unfoldable pub open_row : ℕ → Node → Node
unfolding set_row to_int
open_row id n = record n { curr_state = State.opened; row_state = set_row (to_int id) n.row_state }

unfoldable pub close : Node → Node
close n = record n { curr_state = State.closed; row_state = [] }

abbrev pub is_closed : State → Bool
is_closed State.closed = true
is_closed _ = false

-- `for (auto bank : group->children)`
unfoldable pub close_banks : Drams → Drams
unfolding close
close_banks nil = nil
close_banks (cons (node n children) banks) = cons (node (close n) children) (close_banks banks)

unfoldable pub close_groups : Drams → Drams
unfolding close_banks
close_groups nil = nil
close_groups (cons (node n banks) groups) = cons (node n (close_banks banks)) (close_groups groups)

-- The loops over all banks of a rank that look for one that is not closed.
unfoldable pub banks_closed : Drams → Bool
banks_closed nil = true
banks_closed (cons (node n children) banks) = is_closed n.curr_state && banks_closed banks

unfoldable pub all_closed : Drams → Bool
unfolding banks_closed
all_closed nil = true
all_closed (cons (node n banks) groups) = banks_closed banks && all_closed groups

abbrev with_state : State → Node → Node
with_state s n = record n { curr_state = s }

unfoldable pub rank_trans : Command → Dram → Dram
unfolding close_groups all_closed
rank_trans Command.prea (node n groups) = node n (close_groups groups)
rank_trans Command.ref d = d
rank_trans Command.pde (node n groups) =
    node (with_state (if all_closed groups then State.pre_pwr_down else State.act_pwr_down) n)
      groups
rank_trans Command.pdx (node n groups) = node (with_state State.pwr_up n) groups
rank_trans Command.sre (node n groups) = node (with_state State.self_refresh n) groups
rank_trans Command.srx (node n groups) = node (with_state State.pwr_up n) groups
rank_trans _ d = d

unfoldable pub bank_trans : Command → ℕ → Dram → Dram
unfolding open_row close
bank_trans Command.act id (node n ds) = node (open_row id n) ds
bank_trans Command.pre id (node n ds) = node (close n) ds
bank_trans Command.rd id d = d
bank_trans Command.wr id d = d
bank_trans Command.rda id (node n ds) = node (close n) ds
bank_trans Command.wra id (node n ds) = node (close n) ds
bank_trans _ id d = d

-- `state_trans_table[level][cmd](this, id)`, if there is one
unfoldable pub state_trans : Level → Command → ℕ → Dram → Dram
unfolding rank_trans bank_trans
state_trans rank cmd id d = rank_trans cmd d
state_trans bank cmd id d = bank_trans cmd id d
state_trans _ cmd id d = d

-- The three ways that a rank's state decides: for a read or write, to power down, and to refresh itself.
unfoldable pub rank_access : State → Result Command
rank_access State.pwr_up = ok Command.undefined
rank_access State.act_pwr_down = ok Command.pdx
rank_access State.pre_pwr_down = ok Command.pdx
rank_access State.self_refresh = ok Command.srx
rank_access _ = err wrong_prereq

unfoldable pub rank_power_down : State → Result Command
rank_power_down State.pwr_up = ok Command.pde
rank_power_down State.act_pwr_down = ok Command.pde
rank_power_down State.pre_pwr_down = ok Command.pde
rank_power_down State.self_refresh = ok Command.srx
rank_power_down _ = err wrong_prereq

unfoldable pub rank_self_refresh : State → Result Command
rank_self_refresh State.pwr_up = ok Command.sre
rank_self_refresh State.act_pwr_down = ok Command.pdx
rank_self_refresh State.pre_pwr_down = ok Command.pdx
rank_self_refresh State.self_refresh = ok Command.sre
rank_self_refresh _ = err wrong_prereq

unfoldable pub rank_refresh : Drams → Command
unfolding all_closed
rank_refresh groups = if all_closed groups then Command.ref else Command.prea

-- An access opens its row, after closing another.
unfoldable pub bank_access : Command → ℕ → Node → Result Command
unfolding to_int has_row
bank_access cmd id n = elim n.curr_state [
  | State.closed ↦ ok Command.act
  | State.opened ↦ ok (if has_row (to_int id) n.row_state then cmd else Command.pre)
  | _ ↦ err wrong_prereq
]

unfoldable pub rank_prereq : Command → Dram → Option (Result Command)
unfolding rank_access rank_power_down rank_self_refresh rank_refresh
rank_prereq Command.rd (node n groups) = some (rank_access n.curr_state)
rank_prereq Command.wr (node n groups) = some (rank_access n.curr_state)
rank_prereq Command.ref (node n groups) = some (ok (rank_refresh groups))
rank_prereq Command.pde (node n groups) = some (rank_power_down n.curr_state)
rank_prereq Command.sre (node n groups) = some (rank_self_refresh n.curr_state)
rank_prereq _ d = none

unfoldable pub bank_prereq : Command → ℕ → Dram → Option (Result Command)
unfolding bank_access
bank_prereq Command.rd id (node n ds) = some (bank_access Command.rd id n)
bank_prereq Command.wr id (node n ds) = some (bank_access Command.wr id n)
bank_prereq _ id d = none

-- `prereq_table[level][cmd](this, cmd, id)`, if there is one
unfoldable pub prereq : Level → Command → ℕ → Dram → Option (Result Command)
unfolding rank_prereq bank_prereq
prereq rank cmd id d = rank_prereq cmd d
prereq bank cmd id d = bank_prereq cmd id d
prereq _ cmd id d = none
