-- ===== src/Dram/Tree.antt =====
-- src/general/dram.h, the methods of `DRAM`. An address is the array of indices by level, with at
-- least five of them. A child's index that is not below the number of children is undefined behaviour
-- of `std::vector`, here an error.
use vans.Base.{
  ℕ, zero, suc, ◌+◌, ◌-◌, max, Bool, true, false, not, ◌&&◌, ◌||◌, List, [], ◌∷◌, Option, none,
  some, ltb, ◌==◌, if◌then◌else◌, get_or, pop_back, Result, ok, err, ◌>>=◌, index_out_of_range,
}
use vans.Base.Bits.{add64}
use vans.Common.{clk_invalid}
use vans.Dram.Ddr4.{Command, TimingEntry, Ddr4, level_index, scope, ◌is◌, ◌is_level◌}
use vans.Dram.Node.{Node, Dram, Drams, node, nil, cons, node_of}
use vans.Dram.Tables.{prereq, state_trans}

abbrev pub has_children : Drams → Bool
has_children nil = false
has_children (cons d ds) = true

-- `addr[int(curr_level) + 1]`
abbrev pub child_id : Node → List ℕ → ℕ
child_id n addr = get_or addr (level_index n.level + 1) 0

-- `curr_level == spec->scope[int(cmd)] || !children.size()`
unfoldable pub ends_at : Command → Node → Drams → Bool
ends_at cmd n children = n.level is_level scope cmd || not (has_children children)

-- A prerequisite other than `undefined` is what `decode` returns; else it asks the child.
unfoldable pub or_deeper : Option (Result Command) → Result Command → Result Command
or_deeper none deeper = deeper
or_deeper (some result) deeper =
    result >>= λ pcmd. if pcmd is Command.undefined then deeper else ok pcmd

unfoldable mutual
  unfolding prereq or_deeper

  pub decode : Command → List ℕ → Dram → Result Command
  decode cmd addr (node n children) =
      let deeper =
        if has_children children
        then decode_child cmd addr (child_id n addr) children
        else ok cmd in
      or_deeper (prereq n.level cmd (child_id n addr) (node n children)) deeper

  pub decode_child : Command → List ℕ → ℕ → Drams → Result Command
  decode_child cmd addr i nil = err index_out_of_range
  decode_child cmd addr zero (cons d ds) = decode cmd addr d
  decode_child cmd addr (suc i) (cons d ds) = decode_child cmd addr i ds

-- The node itself is not ready for `cmd`.
unfoldable pub is_busy : Command → ℕ → Node → Bool
is_busy cmd clk n = not (n.next cmd == clk_invalid) && ltb clk (n.next cmd)

unfoldable mutual
  unfolding ends_at is_busy

  pub check : Command → List ℕ → ℕ → Dram → Result Bool
  check cmd addr clk (node n children) =
      let deeper = check_child cmd addr clk (child_id n addr) children in
      if is_busy cmd clk n then ok false else if ends_at cmd n children then ok true else deeper

  pub check_child : Command → List ℕ → ℕ → ℕ → Drams → Result Bool
  check_child cmd addr clk i nil = err index_out_of_range
  check_child cmd addr clk zero (cons d ds) = check cmd addr clk d
  check_child cmd addr clk (suc i) (cons d ds) = check_child cmd addr clk i ds

-- The loop of `get_next`, at the level `l`, with the maximum so far.
unfoldable mutual
  pub get_next_from : Command → List ℕ → ℕ → ℕ → Dram → Result ℕ
  get_next_from cmd addr l next_clk (node n children) =
      let longest = max next_clk (n.next cmd) in
      let deeper = get_next_child cmd addr (suc l) longest (get_or addr (l + 1) 0) children in
      if ltb l (level_index (scope cmd)) && has_children children then deeper else ok longest

  pub get_next_child : Command → List ℕ → ℕ → ℕ → ℕ → Drams → Result ℕ
  get_next_child cmd addr l next_clk i nil = err index_out_of_range
  get_next_child cmd addr l next_clk zero (cons d ds) = get_next_from cmd addr l next_clk d
  get_next_child cmd addr l next_clk (suc i) (cons d ds) = get_next_child cmd addr l next_clk i ds

unfoldable pub get_next : Command → List ℕ → Dram → Result ℕ
unfolding get_next_from
get_next cmd addr d = get_next_from cmd addr (level_index (node_of d).level) (node_of d).curr_clk d

-- The walk goes on only above the command's scope: a transition that changes children belongs to a
-- command whose scope is the rank, where the walk ends.
unfoldable mutual
  unfolding ends_at state_trans

  pub update_state : Command → List ℕ → Dram → Result Dram
  update_state cmd addr (node n children) =
      let moved = state_trans n.level cmd (child_id n addr) (node n children) in
      let deeper = update_state_child cmd addr (child_id n addr) children in
      if ends_at cmd n children
      then ok moved
      else deeper >>= λ updated. ok (node (node_of moved) updated)

  pub update_state_child : Command → List ℕ → ℕ → Drams → Result Drams
  update_state_child cmd addr i nil = err index_out_of_range
  update_state_child cmd addr zero (cons d ds) = update_state cmd addr d >>= λ d'. ok (cons d' ds)
  update_state_child cmd addr (suc i) (cons d ds) =
      update_state_child cmd addr i ds >>= λ ds'. ok (cons d ds')

-- `next[c] = std::max(next[c], clk)` for the command `cmd`
unfoldable pub wait_until : Command → ℕ → (Command → ℕ) → Command → ℕ
wait_until cmd clk next c = if c is cmd then max (next c) clk else next c

unfoldable pub sibling_next : ℕ → List TimingEntry → (Command → ℕ) → Command → ℕ
unfolding wait_until
sibling_next clk [] next = next
sibling_next clk (t ∷ entries) next =
    sibling_next clk entries
      (if t.has_sibling then wait_until t.cmd (add64 clk t.delay) next else next)

-- `past` is `prev[cmd]`, whose size is the greatest `dist` of the entries. The test `past_clk < 0`
-- is not written: no `clk_t` is below 0.
unfoldable pub own_next : List ℕ → List TimingEntry → (Command → ℕ) → Command → ℕ
unfolding wait_until
own_next past [] next = next
own_next past (t ∷ entries) next = own_next past entries (
    if t.has_sibling
    then next
    else wait_until t.cmd (add64 (get_or past (t.dist - 1) 0) t.delay) next)

-- `if (prev.size()) { prev.pop_back(); prev.push_front(clk); }`
unfoldable pub push_clk : ℕ → List ℕ → List ℕ
push_clk clk [] = []
push_clk clk (x ∷ xs) = clk ∷ pop_back (x ∷ xs)

unfoldable pub own_timing : Ddr4 → Command → ℕ → Node → Node
unfolding own_next push_clk
own_timing spec cmd clk n =
    let past = push_clk clk (n.prev cmd) in
    record n {
      prev = λ c. if c is cmd then past else n.prev c;
      next = own_next past (spec.timing_table n.level cmd) n.next;
    }

unfoldable pub sibling_timing : Ddr4 → Command → ℕ → Node → Node
unfolding sibling_next
sibling_timing spec cmd clk n = record n {
  next = sibling_next clk (spec.timing_table n.level cmd) n.next;
}

-- `this->id == addr[int(curr_level)]`
abbrev pub is_addressed : Node → List ℕ → Bool
is_addressed n addr = n.id == get_or addr (level_index n.level) 0

unfoldable mutual
  unfolding own_timing sibling_timing

  pub update_timing : Ddr4 → Command → List ℕ → ℕ → Dram → Dram
  update_timing spec cmd addr clk (node n children) =
      if is_addressed n addr
      then node (own_timing spec cmd clk n) (update_timings spec cmd addr clk children)
      else node (sibling_timing spec cmd clk n) children

  pub update_timings : Ddr4 → Command → List ℕ → ℕ → Drams → Drams
  update_timings spec cmd addr clk nil = nil
  update_timings spec cmd addr clk (cons d ds) =
      cons (update_timing spec cmd addr clk d) (update_timings spec cmd addr clk ds)

abbrev pub with_clk : ℕ → Dram → Dram
with_clk clk (node n children) = node (record n { curr_clk = clk }) children

unfoldable pub update : Ddr4 → Command → List ℕ → ℕ → Dram → Result Dram
unfolding update_state update_timing
update spec cmd addr clk d =
    update_state cmd addr (with_clk clk d) >>= λ moved. ok (update_timing spec cmd addr clk moved)
