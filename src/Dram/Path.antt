-- ===== src/Dram/Path.antt =====
-- src/general/dram.h: the nodes along an address, and what `check` and `update_timing` do there. A
-- node is named by its depth below the root and by the address that leads to it.
pub mod Ready
use vans.Base.{
  ℕ, zero, suc, ◌+◌, ◌≤◌, ◌<◌, ◌≡◌, refl, sym, ap, subst, ◌∙◌, true, false, List, Option, none,
  some, get_or, arith, Bool-cases, inl, inr, ◌⊎◌, ok,
}
use vans.Dram.Ddr4.{Command, Ddr4, level_index, scope}
use vans.Dram.Node.{Node, Dram, Drams, node, nil, cons}
use vans.Dram.Nodes.{Every, EveryChild, every, no_child, each_child}
use vans.Dram.Shape.{Later, Grows, GrowsAll, grown, none_grown, all_grown}
use vans.Dram.Tree.{
  child_id, is_busy, ends_at, check, check_child, own_timing, is_addressed, update_timing,
  update_timings,
}

unfoldable mutual
  pub node_at : ℕ → List ℕ → Dram → Option Node
  node_at zero addr (node n children) = some n
  node_at (suc depth) addr (node n children) = node_in depth addr (child_id n addr) children

  pub node_in : ℕ → List ℕ → ℕ → Drams → Option Node
  node_in depth addr i nil = none
  node_in depth addr zero (cons d ds) = node_at depth addr d
  node_in depth addr (suc i) (cons d ds) = node_in depth addr i ds

-- A child has its place among its siblings as identifier, and a level one below its parent's.
abbrev mutual
  pub Placed : ℕ → ℕ → Dram → Type 0
  Placed l i (node n ds) = (level_index n.level ≡ l) × (n.id ≡ i) × PlacedAll (suc l) 0 ds

  pub PlacedAll : ℕ → ℕ → Drams → Type 0
  PlacedAll l i nil = Unit
  PlacedAll l i (cons d ds) = Placed l i d × PlacedAll l (suc i) ds

pub child_id-at :
    (l : ℕ) (n : Node) (addr : List ℕ)
    → level_index n.level ≡ l
    → get_or addr (suc l) 0 ≡ child_id n addr
child_id-at l n addr e = ap (λ k. get_or addr k 0) (omega arith)

mutual
  pub Grows-Placed : (l i : ℕ) {d e : Dram} → Grows d e → Placed l i d → Placed l i e
  Grows-Placed l i (grown (a, b, c) q) p =
      (ap level_index a ∙ p.0, b ∙ p.1, GrowsAll-Placed (suc l) 0 q p.2)

  pub GrowsAll-Placed : (l i : ℕ) {d e : Drams} → GrowsAll d e → PlacedAll l i d → PlacedAll l i e
  GrowsAll-Placed l i none_grown p = tt
  GrowsAll-Placed l i (all_grown g q) p = (Grows-Placed l i g p.0, GrowsAll-Placed l (suc i) q p.1)

mutual
  unfolding node_at

  pub node_at-Grows :
      (depth : ℕ) (addr : List ℕ) {d e : Dram} {n : Node}
      → Grows d e
      → node_at depth addr d ≡ some n
      → (n' : Node) × (node_at depth addr e ≡ some n') × Later n n'
  node_at-Grows zero addr {n} (grown {n = m} {n' = m'} a q) h =
      let same : m ≡ n = cc in (m', refl, subst (λ x. Later x m') same a)
  node_at-Grows (suc depth) addr (grown {n = m} {n' = m'} a q) h =
      let same : child_id m' addr ≡ child_id m addr =
        ap (λ l. get_or addr (level_index l + 1) 0) a.0 in
      rw same (node_in-Grows depth addr (child_id m addr) q h)

  pub node_in-Grows :
      (depth : ℕ) (addr : List ℕ) (i : ℕ) {ds es : Drams} {n : Node}
      → GrowsAll ds es
      → node_in depth addr i ds ≡ some n
      → (n' : Node) × (node_in depth addr i es ≡ some n') × Later n n'
  node_in-Grows depth addr i none_grown h = cc
  node_in-Grows depth addr zero (all_grown g q) h = node_at-Grows depth addr g h
  node_in-Grows depth addr (suc i) (all_grown g q) h = node_in-Grows depth addr i q h

module _ (P : ℕ → Node → Type 0) where
  mutual
    unfolding node_at

    pub node_at-Every :
        (depth l : ℕ) (addr : List ℕ) {d : Dram} {n : Node}
        → Every P l d
        → node_at depth addr d ≡ some n
        → P (depth + l) n
    node_at-Every zero l addr (every {n = m} p q) h =
        subst (P (0 + l)) (cc) (subst (λ k. P k m) (omega arith) p)
    node_at-Every (suc depth) l addr {n} (every {n = m} p q) h =
        subst (λ k. P k n) (omega arith) (node_in-Every depth (suc l) addr (child_id m addr) q h)

    node_in-Every :
        (depth l : ℕ) (addr : List ℕ) (i : ℕ) {ds : Drams} {n : Node}
        → EveryChild P l ds
        → node_in depth addr i ds ≡ some n
        → P (depth + l) n
    node_in-Every depth l addr i no_child h = cc
    node_in-Every depth l addr zero (each_child v r) h = node_at-Every depth l addr v h
    node_in-Every depth l addr (suc i) (each_child v r) h = node_in-Every depth l addr i r h

module _ (spec : Ddr4) (cmd : Command) (addr : List ℕ) (clk : ℕ) where
  mutual
    unfolding node_at update_timing own_timing

    -- Along the address the nodes take the timing of their own entries.
    pub node_at-update_timing :
        (depth l i : ℕ) (d : Dram) {n : Node}
        → Placed l i d
        → get_or addr l 0 ≡ i
        → node_at depth addr d ≡ some n
        → node_at depth addr (update_timing spec cmd addr clk d) ≡ some (own_timing spec cmd clk n)
    node_at-update_timing zero l i (node m ds) p a h =
        let here : is_addressed m addr ≡ true = ground (arith, ap (λ k. get_or addr k 0) p.0) in
        rw here (ap (λ o. elim o [ none ↦ none | some x ↦ some (own_timing spec cmd clk x) ]) h)
    node_at-update_timing (suc depth) l i (node m ds) p a h =
        let here : is_addressed m addr ≡ true = ground (arith, ap (λ k. get_or addr k 0) p.0) in
        rw here (
          node_in-update_timings depth (suc l) 0 (child_id m addr) ds p.2
            (child_id-at l m addr p.0 ∙ (omega arith)) h)

    node_in-update_timings :
        (depth l b j : ℕ) (ds : Drams) {n : Node}
        → PlacedAll l b ds
        → get_or addr l 0 ≡ b + j
        → node_in depth addr j ds ≡ some n
        → node_in depth addr j (update_timings spec cmd addr clk ds)
          ≡ some (own_timing spec cmd clk n)
    node_in-update_timings depth l b j nil p a h = cc
    node_in-update_timings depth l b zero (cons d ds) p a h =
        node_at-update_timing depth l b d p.0 (a ∙ (omega arith)) h
    node_in-update_timings depth l b (suc j) (cons d ds) p a h =
        node_in-update_timings depth l (suc b) j ds p.1 (a ∙ (omega arith)) h

mutual
  unfolding node_at

  -- Addresses that agree down to a node lead to it.
  pub node_at-agree :
      (depth l i : ℕ) (addr addr' : List ℕ) (d : Dram)
      → Placed l i d
      → ((k : ℕ) → k ≤ l + depth → get_or addr k 0 ≡ get_or addr' k 0)
      → node_at depth addr d ≡ node_at depth addr' d
  node_at-agree zero l i addr addr' (node m ds) p h = refl
  node_at-agree (suc depth) l i addr addr' (node m ds) p h =
      let same : child_id m addr ≡ child_id m addr' =
        h (level_index m.level + 1) (omega (arith, p.0)) in
      rw same (
        node_in-agree depth (suc l) 0 (child_id m addr') addr addr' ds p.2
          (λ k b. h k (omega arith)))

  node_in-agree :
      (depth l b j : ℕ) (addr addr' : List ℕ) (ds : Drams)
      → PlacedAll l b ds
      → ((k : ℕ) → k ≤ l + depth → get_or addr k 0 ≡ get_or addr' k 0)
      → node_in depth addr j ds ≡ node_in depth addr' j ds
  node_in-agree depth l b j addr addr' nil p h = refl
  node_in-agree depth l b zero addr addr' (cons d ds) p h =
      node_at-agree depth l b addr addr' d p.0 h
  node_in-agree depth l b (suc j) addr addr' (cons d ds) p h =
      node_in-agree depth l (suc b) j addr addr' ds p.1 h

mutual
  unfolding node_at

  pub node_at-Placed :
      (depth l i : ℕ) (addr : List ℕ) (d : Dram) {n : Node}
      → Placed l i d
      → node_at depth addr d ≡ some n
      → level_index n.level ≡ l + depth
  node_at-Placed zero l i addr (node m ds) {n} p h =
      let same : m ≡ n = cc in rw (sym same) (omega (arith, p.0))
  node_at-Placed (suc depth) l i addr (node m ds) p h =
      omega (arith, node_in-Placed depth (suc l) 0 (child_id m addr) addr ds p.2 h)

  node_in-Placed :
      (depth l b j : ℕ) (addr : List ℕ) (ds : Drams) {n : Node}
      → PlacedAll l b ds
      → node_in depth addr j ds ≡ some n
      → level_index n.level ≡ l + depth
  node_in-Placed depth l b j addr nil p h = cc
  node_in-Placed depth l b zero addr (cons d ds) p h = node_at-Placed depth l b addr d p.0 h
  node_in-Placed depth l b (suc j) addr (cons d ds) p h =
      node_in-Placed depth l (suc b) j addr ds p.1 h
