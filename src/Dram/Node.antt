-- ===== src/Dram/Node.antt =====
-- src/general/dram.h, class `DRAM`: the tree of channel, ranks, bank groups and banks, as its
-- constructor builds it. The pointers `parent`, `spec` and to the tables are not kept: the methods take
-- the specification, and none reads the parent.
use vans.Base.{ℕ, zero, suc, ◌-◌, ◌^◌, max, List, [], ◌∷◌, replicate}
use vans.Dram.Ddr4.{
  Level, channel, rank, bank_group, bank, State, Command, TimingEntry, Ddr4, init_state,
}

-- The members of one instance, without its children. `row_state` is the `std::map`, `next` and
-- `prev` are the arrays, by command.
pub record Node : Type 0 where
  pub level : Level
  pub id : ℕ
  pub curr_state : State
  pub row_state : List (ℕ × State)
  pub curr_clk : ℕ
  pub next : Command → ℕ
  pub prev : Command → List ℕ

mutual
  pub data Dram : Type 0 where
    node : Node → Drams → Dram

  pub data Drams : Type 0 where
    nil : Drams
    cons : Dram → Drams → Drams

-- `int dist = 0; for (auto &t : timing_table[i]) dist = std::max(dist, t.dist);`
unfoldable pub max_dist : List TimingEntry → ℕ
max_dist [] = 0
max_dist (t ∷ entries) = max t.dist (max_dist entries)

-- An instance before it has children: `prev` holds the clock -1 as often as the entries look back.
unfoldable pub new_node : Ddr4 → Level → ℕ → Node
unfolding max_dist
new_node spec level id = record {
  level = level;
  id = id;
  curr_state = init_state level;
  row_state = [];
  curr_clk = 0;
  next = λ c. 0;
  prev = λ c. replicate (max_dist (spec.timing_table level c)) (2 ^ 64 - 1);
}

-- The children with the identifiers from `id` on, each built by `child`.
unfoldable pub new_children : (ℕ → Dram) → ℕ → ℕ → Drams
new_children child id zero = nil
new_children child id (suc count) = cons (child id) (new_children child (suc id) count)

-- The constructor at each of the four levels that have instances; the banks have no children.
unfoldable pub new_bank : Ddr4 → ℕ → Dram
unfolding new_node
new_bank spec id = node (new_node spec bank id) nil

unfoldable pub new_bank_group : Ddr4 → ℕ → Dram
unfolding new_node new_children new_bank
new_bank_group spec id =
    node (new_node spec bank_group id) (new_children (new_bank spec) 0 (spec.count bank))

unfoldable pub new_rank : Ddr4 → ℕ → Dram
unfolding new_node new_children new_bank_group
new_rank spec id =
    node (new_node spec rank id) (new_children (new_bank_group spec) 0 (spec.count bank_group))

unfoldable pub new_channel : Ddr4 → Dram
unfolding new_node new_children new_rank
new_channel spec = node (new_node spec channel 0) (new_children (new_rank spec) 0 (spec.count rank))

abbrev pub node_of : Dram → Node
node_of (node n children) = n

abbrev pub children_of : Dram → Drams
children_of (node n children) = children

abbrev pub count_of : Drams → ℕ
count_of nil = 0
count_of (cons d ds) = suc (count_of ds)
