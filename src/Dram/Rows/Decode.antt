-- ===== src/Dram/Rows/Decode.antt =====
-- src/general/dram.h, `decode` and `check`, over the tables of ddr4.cpp: the command that a read, a
-- write or a refresh needs next.
use vans.Base.{
  ℕ, zero, suc, ◌+◌, ◌<◌, ◌≡◌, refl, ap, subst, ◌∙◌, ◌⊎◌, inl, inr, false, List, Option, none, some,
  if◌then◌else◌, get_or, arith, Bool-cases, Result, ok, Returns, returns,
}
use vans.Dram.Ddr4.{
  Level, channel, rank, bank_group, bank, row, col, State, Command, level_index, ◌is◌,
}
use vans.Dram.Node.{Node, Dram, Drams, node, nil, cons}
use vans.Dram.Nodes.{Every, EveryChild, every, no_child, each_child}
use vans.Dram.Path.{node_at, node_in}
use vans.Dram.Rows.{
  StateAt, Settled, IsScheduled, act_scheduled, pre_scheduled, rd_scheduled, wr_scheduled,
}
use vans.Dram.Tables.{prereq, bank_access, rank_refresh, has_row, to_int, all_closed}
use vans.Dram.Tree.{child_id, or_deeper, decode, decode_child}

pub data IsAccess : Command → Type 0 where
  rd_access : IsAccess Command.rd
  wr_access : IsAccess Command.wr

-- What has no prerequisite here is passed on to the child.
abbrev PassesOn : Option (Result Command) → Type 0
PassesOn p = (p ≡ none) ⊎ (p ≡ some (ok Command.undefined))

prereq-PassesOn :
    {cmd : Command} (a : IsAccess cmd) (level : Level) (id : ℕ) (n : Node) (ds : Drams)
    → level_index level < 3
    → StateAt (level_index level) n.curr_state
    → PassesOn (prereq level cmd id (node n ds))
unfolding prereq
prereq-PassesOn rd_access rank id n ds h s = inr (rw s refl)
prereq-PassesOn wr_access rank id n ds h s = inr (rw s refl)
prereq-PassesOn a channel id n ds h s = inl refl
prereq-PassesOn a bank_group id n ds h s = inl refl
prereq-PassesOn a bank id n ds h s = absurd (omega arith)
prereq-PassesOn a row id n ds h s = absurd (omega arith)
prereq-PassesOn a col id n ds h s = absurd (omega arith)

decode-PassesOn :
    (cmd : Command) (addr : List ℕ) (n : Node) (d : Dram) (ds : Drams)
    → PassesOn (prereq n.level cmd (child_id n addr) (node n (cons d ds)))
    → decode cmd addr (node n (cons d ds)) ≡ decode_child cmd addr (child_id n addr) (cons d ds)
unfolding decode or_deeper
decode-PassesOn cmd addr n d ds (inl e) = rw e
decode-PassesOn cmd addr n d ds (inr e) = rw e

prereq-bank :
    {cmd : Command} (a : IsAccess cmd) (level : Level) (id : ℕ) (n : Node) (ds : Drams)
    → level_index level ≡ 3
    → prereq level cmd id (node n ds) ≡ some (bank_access cmd id n)
unfolding prereq
prereq-bank rd_access bank id n ds h = refl
prereq-bank wr_access bank id n ds h = refl
prereq-bank a channel id n ds h = absurd (omega arith)
prereq-bank a rank id n ds h = absurd (omega arith)
prereq-bank a bank_group id n ds h = absurd (omega arith)
prereq-bank a row id n ds h = absurd (omega arith)
prereq-bank a col id n ds h = absurd (omega arith)

-- The command that an access of the row `id` needs at its bank.
abbrev pub needed : Command → ℕ → Node → Command
needed cmd id n = elim n.curr_state [
  | State.closed ↦ Command.act
  | _ ↦ if has_row (to_int id) n.row_state then cmd else Command.pre
]

bank_access-needed :
    (cmd : Command) (id : ℕ) (n : Node)
    → StateAt 3 n.curr_state
    → bank_access cmd id n ≡ ok (needed cmd id n)
unfolding bank_access
bank_access-needed cmd id n (inl e) = rw e
bank_access-needed cmd id n (inr e) = rw e

access-IsScheduled : {cmd : Command} → IsAccess cmd → IsScheduled cmd
access-IsScheduled rd_access = rd_scheduled
access-IsScheduled wr_access = wr_scheduled

access-ne-undefined : {cmd : Command} → IsAccess cmd → (cmd is Command.undefined) ≡ false
access-ne-undefined rd_access = refl
access-ne-undefined wr_access = refl

needed-IsScheduled :
    {cmd : Command} (a : IsAccess cmd) (id : ℕ) (n : Node)
    → StateAt 3 n.curr_state
    → IsScheduled (needed cmd id n) × ((needed cmd id n is Command.undefined) ≡ false)
needed-IsScheduled a id n (inl e) = rw e (act_scheduled, refl)
needed-IsScheduled a id n (inr e) = elim (Bool-cases (has_row (to_int id) n.row_state)) [
  | inl open_already ↦ rw (e, open_already) (access-IsScheduled a, access-ne-undefined a)
  | inr other ↦ rw (e, other) (pre_scheduled, refl)
]

decode-bank :
    {cmd : Command} (a : IsAccess cmd) (addr : List ℕ) (n : Node) (ds : Drams)
    → level_index n.level ≡ 3
    → StateAt 3 n.curr_state
    → decode cmd addr (node n ds) ≡ ok (needed cmd (child_id n addr) n)
unfolding decode or_deeper
decode-bank {cmd} a addr n ds e s =
    let r = prereq-bank a n.level (child_id n addr) n ds e in
    let b = bank_access-needed cmd (child_id n addr) n s in
    let u = (needed-IsScheduled a (child_id n addr) n s).1 in rw (r, b, u)

mutual
  unfolding node_at decode

  -- A read or write whose bank exists needs the command that its bank's state asks for.
  pub decode-needed :
      {cmd : Command} (a : IsAccess cmd) (addr : List ℕ) (depth l : ℕ) {d : Dram} {n : Node}
      → Every Settled l d
      → node_at depth addr d ≡ some n
      → l + depth ≡ 3
      → decode cmd addr d ≡ ok (needed cmd (get_or addr 4 0) n)
  decode-needed {cmd} a addr zero l (every {n = m} {ds} p q) h e =
      let at_bank : level_index m.level ≡ 3 = omega (arith, p.0) in
      let depth_is : l ≡ 3 = omega arith in
      let state = subst (λ k. StateAt k m.curr_state) depth_is p.1 in
      let same : m ≡ _ = ap (λ o. elim o [ none ↦ m | some x ↦ x ]) h in
      decode-bank a addr m ds at_bank state
      ∙ ap (λ k. ok (needed cmd (get_or addr (k + 1) 0) m)) at_bank
      ∙ ap (λ x. ok (needed cmd (get_or addr 4 0) x)) same
  decode-needed {cmd} a addr (suc depth) l (every {n = m} {ds = nil} p q) h e = cc
  decode-needed {cmd} a addr (suc depth) l (every {n = m} {ds = cons d ds} p q) h e =
      let above =
        prereq-PassesOn a m.level (child_id m addr) m (cons d ds) (omega (arith, p.0))
          (rw p.0 p.1) in
      decode-PassesOn cmd addr m d ds above
      ∙ decode_child-needed a addr depth (suc l) (child_id m addr) q h (omega arith)

  decode_child-needed :
      {cmd : Command} (a : IsAccess cmd) (addr : List ℕ) (depth l i : ℕ) {ds : Drams} {n : Node}
      → EveryChild Settled l ds
      → node_in depth addr i ds ≡ some n
      → l + depth ≡ 3
      → decode_child cmd addr i ds ≡ ok (needed cmd (get_or addr 4 0) n)
  decode_child-needed a addr depth l i no_child h e = cc
  decode_child-needed a addr depth l zero (each_child v r) h e = decode-needed a addr depth l v h e
  decode_child-needed a addr depth l (suc i) (each_child v r) h e =
      decode_child-needed a addr depth l i r h e

prereq-refresh :
    (level : Level) (id : ℕ) (n : Node) (ds : Drams)
    → level_index level ≡ 1
    → prereq level Command.ref id (node n ds) ≡ some (ok (rank_refresh ds))
unfolding prereq
prereq-refresh rank id n ds h = refl
prereq-refresh bank id n ds h = absurd (omega arith)
prereq-refresh channel id n ds h = absurd (omega arith)
prereq-refresh bank_group id n ds h = absurd (omega arith)
prereq-refresh row id n ds h = absurd (omega arith)
prereq-refresh col id n ds h = absurd (omega arith)

prereq-channel :
    (level : Level) (cmd : Command) (id : ℕ) (d : Dram)
    → level_index level ≡ 0
    → prereq level cmd id d ≡ none
unfolding prereq
prereq-channel channel cmd id d h = refl
prereq-channel rank cmd id d h = absurd (omega arith)
prereq-channel bank cmd id d h = absurd (omega arith)
prereq-channel bank_group cmd id d h = absurd (omega arith)
prereq-channel row cmd id d h = absurd (omega arith)
prereq-channel col cmd id d h = absurd (omega arith)

-- A refresh, or the closing of the rank's banks that it needs first.
pub data IsRefreshing : Command → Type 0 where
  refreshes : IsRefreshing Command.ref
  closes_banks : IsRefreshing Command.prea

rank_refresh-IsRefreshing :
    (ds : Drams) → IsRefreshing (rank_refresh ds) × ((rank_refresh ds is Command.undefined) ≡ false)
unfolding rank_refresh
rank_refresh-IsRefreshing ds = elim (Bool-cases (all_closed ds)) [
  | inl closed ↦ rw closed (refreshes, refl)
  | inr opened ↦ rw opened (closes_banks, refl)
]

decode-rank :
    (addr : List ℕ) {d : Dram}
    → Every Settled 1 d
    → Returns IsRefreshing (decode Command.ref addr d)
unfolding decode or_deeper
decode-rank addr (every {n} {ds} p q) =
    let r = prereq-refresh n.level (child_id n addr) n ds p.0 in
    let (t, u) = rank_refresh-IsRefreshing ds in rw (r, u) (returns t)

decode_child-refresh :
    (addr : List ℕ) (i : ℕ) {ds : Drams} {n : Node}
    → EveryChild Settled 1 ds
    → node_in 0 addr i ds ≡ some n
    → Returns IsRefreshing (decode_child Command.ref addr i ds)
unfolding decode node_at
decode_child-refresh addr i no_child h = cc
decode_child-refresh addr zero (each_child v r) h = decode-rank addr v
decode_child-refresh addr (suc i) (each_child v r) h = decode_child-refresh addr i r h

pub decode-refresh :
    (addr : List ℕ) {d : Dram} {n : Node}
    → Every Settled 0 d
    → node_at 1 addr d ≡ some n
    → Returns IsRefreshing (decode Command.ref addr d)
unfolding node_at
decode-refresh addr (every {n = m} {ds = nil} p q) h = cc
decode-refresh addr (every {n = m} {ds = cons d ds} p q) h =
    rw
      (decode-PassesOn Command.ref addr m d ds
        (inl (prereq-channel m.level Command.ref (child_id m addr) (node m (cons d ds)) p.0)))
      (decode_child-refresh addr (child_id m addr) q h)
