-- ===== src/Dram/Schedule/Access.antt =====
-- src/general/dram_memory.h, `schedule` for reads and writes: the command that an access needs, and
-- the state after it.
use vans.Base.{
  ℕ, suc, ◌≡◌, refl, ap, subst, ◌∙◌, ◌⊎◌, inl, inr, Bool, true, false, List, [], ◌∷◌, some,
  if◌then◌else◌, get_or, arith, Bool-cases, ok, Returns, Returns-mono, Returns-Partial,
  Partial-both,
}
use vans.Dram.Ddr4.{State, Command, Ddr4}
use vans.Dram.Node.{Node, Dram}
use vans.Dram.Nodes.{Every}
use vans.Dram.Path.{node_at, node_at-Every}
use vans.Dram.Rows.{
  Settled, StateAt, IsScheduled, act_scheduled, pre_scheduled, rd_scheduled, wr_scheduled,
  update-Settled,
}
use vans.Dram.Rows.Decode.{IsAccess, rd_access, wr_access, needed, decode-needed}
use vans.Dram.Rows.Ready.{check-Returns}
use vans.Dram.Rows.Update.{
  IsBankCommand, activates, precharges, reads, writes, bank_node, SameRows, update-bank,
}
use vans.Dram.Shape.{Grows, update-Grows}
use vans.Dram.Tables.{has_row, set_row, to_int, open_row, close}
use vans.Dram.Tree.{check, decode, update}

-- The three cases of an access of the row `id` at its bank.
pub data Need (cmd : Command) (id : ℕ) (n : Node) : Command → Type 0 where
  to_open : n.curr_state ≡ State.closed → Need cmd id n Command.act
  to_close :
      n.curr_state ≡ State.opened
      → has_row (to_int id) n.row_state ≡ false
      → Need cmd id n Command.pre
  to_access :
      n.curr_state ≡ State.opened → has_row (to_int id) n.row_state ≡ true → Need cmd id n cmd

needed-Need :
    (cmd : Command) (id : ℕ) (n : Node) → StateAt 3 n.curr_state → Need cmd id n (needed cmd id n)
needed-Need cmd id n (inl e) = subst (Need cmd id n) (rw e) (to_open e)
needed-Need cmd id n (inr e) = elim (Bool-cases (has_row (to_int id) n.row_state)) [
  | inl hit ↦ subst (Need cmd id n) (rw (e, hit)) (to_access e hit)
  | inr miss ↦ subst (Need cmd id n) (rw (e, miss)) (to_close e miss)
]

abbrev left_at : State → Bool → ℕ
left_at State.closed hit = 2
left_at _ hit = if hit then 1 else 3

-- How many commands an access still needs.
unfoldable pub commands_left : ℕ → Node → ℕ
commands_left id n = left_at n.curr_state (has_row (to_int id) n.row_state)

pub has_row-set_row : (k : ℕ) (rows : List (ℕ × State)) → has_row k (set_row k rows) ≡ true
unfolding has_row set_row
has_row-set_row k [] = ground arith
has_row-set_row k ((j, s) ∷ rows) = ground (arith, has_row-set_row k rows)

Need-IsBankCommand :
    {cmd c : Command} {id : ℕ} {n : Node}
    → IsAccess cmd
    → Need cmd id n c
    → IsBankCommand c × IsScheduled c
Need-IsBankCommand a (to_open e) = (activates, act_scheduled)
Need-IsBankCommand a (to_close e m) = (precharges, pre_scheduled)
Need-IsBankCommand rd_access (to_access e h) = (reads, rd_scheduled)
Need-IsBankCommand wr_access (to_access e h) = (writes, wr_scheduled)

commands_left-eq : (id : ℕ) (n n' : Node) → SameRows n n' → commands_left id n' ≡ commands_left id n
unfolding commands_left
commands_left-eq id n n' s =
    ap (λ x. left_at x (has_row (to_int id) n'.row_state)) s.0
    ∙ ap (λ rows. left_at n.curr_state (has_row (to_int id) rows)) s.1

-- The bank after the command is one command nearer, or the access itself has been done.
Need-Advances :
    {cmd c : Command} {id : ℕ} {n : Node}
    → IsAccess cmd
    → Need cmd id n c
    → ((c ≡ cmd) × (commands_left id n ≡ 1))
      ⊎ (suc (commands_left id (bank_node c id n)) ≡ commands_left id n)
unfolding commands_left open_row close
Need-Advances {id} {n} a (to_open e) = inr (rw (e, has_row-set_row (to_int id) n.row_state) refl)
Need-Advances a (to_close e m) = inr (rw (e, m) refl)
Need-Advances a (to_access e h) = inl (refl, rw (e, h) refl)

-- What is known after the command `c` for an access of `addr`, whose bank was `n`.
abbrev pub Stepped : Command → List ℕ → Node → Dram → Dram → Type 0
Stepped c addr n d e =
    Every Settled 0 e
    × Grows d e
    × (n' : Node) × (node_at 3 addr e ≡ some n')
    × SameRows (bank_node c (get_or addr 4 0) n) n'

module _ (spec : Ddr4) {cmd : Command} (a : IsAccess cmd) (addr : List ℕ) (clk : ℕ) {d : Dram}
    {n : Node} (v : Every Settled 0 d) (at_n : node_at 3 addr d ≡ some n) where
  pub access-Need : (c : Command) × (decode cmd addr d ≡ ok c) × Need cmd (get_or addr 4 0) n c
  access-Need = (
    needed cmd (get_or addr 4 0) n,
    decode-needed a addr 3 0 v at_n (omega arith),
    needed-Need cmd (get_or addr 4 0) n (node_at-Every Settled 3 0 addr v at_n).1,
  )

  pub access-check :
      {c : Command} → Need cmd (get_or addr 4 0) n c → Returns (λ b. Unit) (check c addr clk d)
  access-check {c} need = check-Returns c addr clk 3 0 v at_n (inr (omega arith))

  pub access-Stepped :
      {c : Command}
      → Need cmd (get_or addr 4 0) n c
      → Returns (Stepped c addr n d) (update spec c addr clk d)
  access-Stepped {c} need =
      let (b, s) = Need-IsBankCommand a need in
      Returns-mono
        (Returns-Partial (update-bank spec b addr clk v at_n)
          (Partial-both (update-Settled spec addr clk s v) (update-Grows spec c addr clk d)))
        (λ e ((n', h, r), (w, g)). (w, g, n', h, r))

  -- An access whose bank exists, in a settled channel: `decode` gives a command, `check` can be
  -- answered for it, and `update` carries it out. It is the access itself, where one command was
  -- left; or afterwards the access needs exactly one command less.
  pub access-Advances :
      (c : Command) × (decode cmd addr d ≡ ok c)
      × Returns (λ b. Unit) (check c addr clk d)
      × Returns
          (λ e.
            (n' : Node) × (node_at 3 addr e ≡ some n')
            × (((c ≡ cmd) × (commands_left (get_or addr 4 0) n ≡ 1))
                ⊎ (suc (commands_left (get_or addr 4 0) n') ≡ commands_left (get_or addr 4 0) n)))
          (update spec c addr clk d)
  access-Advances =
      let (c, e, need) = access-Need in
      let row = get_or addr 4 0 in
      (
        c,
        e,
        access-check need,
        Returns-mono (access-Stepped need) (λ m (w, g, n', h, r). (
          n',
          h,
          elim (Need-Advances a need) [
            | inl done ↦ inl done
            | inr nearer ↦ inr (ap suc (commands_left-eq row (bank_node c row n) n' r) ∙ nearer)
          ],
        )),
      )
