-- ===== src/Dram/Nodes.antt =====
-- src/general/dram.h: a property of single nodes, by their depth in the tree, through the updates. It
-- is kept by an update where each transition of the command keeps it, and the new clocks do.
pub mod Timed
use vans.Base.{
  ℕ, zero, suc, ◌≡◌, refl, Bool, List, [], ◌∷◌, if◌then◌else◌, Bool-cases, inl, inr, ok, Partial,
  returned, thrown, Partial-bind,
}
use vans.Dram.Ddr4.{Level, State, Command, Ddr4}
use vans.Dram.Node.{Node, Dram, Drams, node, nil, cons, node_of}
use vans.Dram.Tables.{state_trans}
use vans.Dram.Tree.{
  child_id, ends_at, update_state, update_state_child, own_timing, sibling_timing, is_addressed,
  update_timing, update_timings, update, with_clk,
}

module _ (P : ℕ → Node → Type 0) where
  mutual
    pub data Every : ℕ → Dram → Type 0 where
      every : {l : ℕ} {n : Node} {ds : Drams} → P l n → EveryChild (suc l) ds → Every l (node n ds)

    pub data EveryChild : ℕ → Drams → Type 0 where
      no_child : {l : ℕ} → EveryChild l nil
      each_child :
          {l : ℕ} {d : Dram} {ds : Drams} → Every l d → EveryChild l ds → EveryChild l (cons d ds)

  root-Every :
      (l : ℕ) {d : Dram} {es : Drams}
      → Every l d
      → EveryChild (suc l) es
      → Every l (node (node_of d) es)
  root-Every l (every p q) r = every p r

  module _ (cmd : Command)
      (trans : (l id : ℕ) (n : Node) (ds : Drams)
        → Every l (node n ds)
        → Every l (state_trans n.level cmd id (node n ds))) where
    mutual
      unfolding update_state

      pub update_state-Every :
          (addr : List ℕ) (l : ℕ) {d : Dram}
          → Every l d
          → Partial (Every l) (update_state cmd addr d)
      update_state-Every addr l (every {n} {ds} p q) =
          let here = trans l (child_id n addr) n ds (every p q) in
          let below = update_state_child-Every addr (suc l) (child_id n addr) q in
          elim (Bool-cases (ends_at cmd n ds)) [
            | inl done ↦ rw done (returned here)
            | inr more ↦ rw more (Partial-bind below (λ es r. returned (root-Every l here r)))
          ]

      update_state_child-Every :
          (addr : List ℕ) (l i : ℕ) {ds : Drams}
          → EveryChild l ds
          → Partial (EveryChild l) (update_state_child cmd addr i ds)
      update_state_child-Every addr l i no_child = thrown
      update_state_child-Every addr l zero (each_child v r) =
          Partial-bind (update_state-Every addr l v) (λ e w. returned (each_child w r))
      update_state_child-Every addr l (suc i) (each_child v r) =
          Partial-bind (update_state_child-Every addr l i r) (λ es w. returned (each_child v w))

  module _ (spec : Ddr4) (cmd : Command) (clk : ℕ)
      (own : (l : ℕ) (n : Node) → P l n → P l (own_timing spec cmd clk n))
      (sibling : (l : ℕ) (n : Node) → P l n → P l (sibling_timing spec cmd clk n)) where
    mutual
      unfolding update_timing

      pub update_timing-Every :
          (addr : List ℕ) (l : ℕ) {d : Dram}
          → Every l d
          → Every l (update_timing spec cmd addr clk d)
      update_timing-Every addr l (every {n} {ds} p q) = elim (Bool-cases (is_addressed n addr)) [
        | inl here ↦ rw here (every (own l n p) (update_timings-Every addr (suc l) q))
        | inr elsewhere ↦ rw elsewhere (every (sibling l n p) q)
      ]

      update_timings-Every :
          (addr : List ℕ) (l : ℕ) {ds : Drams}
          → EveryChild l ds
          → EveryChild l (update_timings spec cmd addr clk ds)
      update_timings-Every addr l no_child = no_child
      update_timings-Every addr l (each_child v r) =
          each_child (update_timing-Every addr l v) (update_timings-Every addr l r)
