-- ===== src/Dram/Path/Ready.antt =====
-- src/general/dram.h, `check`: a command that may be issued finds each node on its way ready.
use vans.Base.{
  ℕ, zero, suc, ◌+◌, ◌≤◌, ◌<◌, ◌≡◌, ap, subst, true, false, List, none, some, arith, Bool-cases,
  inl, inr, ◌⊎◌, ok,
}
use vans.Dram.Ddr4.{Command, level_index, scope}
use vans.Dram.Node.{Node, Dram, Drams, node, nil, cons}
use vans.Dram.Tree.{child_id, is_busy, ends_at, check, check_child}
use vans.Dram.Path.{node_at, node_in, Placed, PlacedAll}

-- Where `check` answers yes, the node is ready, and it is the last one or the child is ready too.
check-ready :
    (cmd : Command) (addr : List ℕ) (clk : ℕ) (n : Node) (ds : Drams)
    → check cmd addr clk (node n ds) ≡ ok true
    → (is_busy cmd clk n ≡ false)
      × ((ends_at cmd n ds ≡ true) ⊎ (check_child cmd addr clk (child_id n addr) ds ≡ ok true))
unfolding check
check-ready cmd addr clk n ds h = elim (Bool-cases (is_busy cmd clk n)) [
  | inl busy ↦ let refused = rw busy at h in cc
  | inr ready ↦ elim (Bool-cases (ends_at cmd n ds)) [
    | inl last ↦ (ready, inl last)
    | inr more ↦ (ready, inr (rw (ready, more) at h))
  ]
]

pub goes_on :
    (cmd : Command) (depth j : ℕ) (addr : List ℕ) (m : Node) (ds : Drams) {n : Node}
    → level_index m.level < level_index (scope cmd)
    → node_in depth addr j ds ≡ some n
    → ends_at cmd m ds ≡ false
unfolding node_at ends_at
goes_on cmd depth j addr m nil s h = cc
goes_on cmd depth j addr m (cons d ds) s h = ground arith

mutual
  unfolding node_at check

  -- A command that may be issued finds each node on its way ready, down to its scope.
  pub node_at-check :
      (cmd : Command) (addr : List ℕ) (clk depth l i : ℕ) (d : Dram) {n : Node}
      → Placed l i d
      → l + depth ≤ level_index (scope cmd)
      → check cmd addr clk d ≡ ok true
      → node_at depth addr d ≡ some n
      → is_busy cmd clk n ≡ false
  node_at-check cmd addr clk zero l i (node m ds) p s c h =
      let same : m ≡ _ = ap (λ o. elim o [ none ↦ m | some x ↦ x ]) h in
      subst (λ x. is_busy cmd clk x ≡ false) same (check-ready cmd addr clk m ds c).0
  node_at-check cmd addr clk (suc depth) l i (node m ds) p s c h =
      elim (check-ready cmd addr clk m ds c).1 [
        | inl last ↦
            let more = goes_on cmd depth (child_id m addr) addr m ds (omega (arith, p.0)) h in cc
        | inr below ↦
            node_in-check_child cmd addr clk depth (suc l) 0 (child_id m addr) ds p.2 (omega arith)
              below h
      ]

  node_in-check_child :
      (cmd : Command) (addr : List ℕ) (clk depth l b j : ℕ) (ds : Drams) {n : Node}
      → PlacedAll l b ds
      → l + depth ≤ level_index (scope cmd)
      → check_child cmd addr clk j ds ≡ ok true
      → node_in depth addr j ds ≡ some n
      → is_busy cmd clk n ≡ false
  node_in-check_child cmd addr clk depth l b j nil p s c h = cc
  node_in-check_child cmd addr clk depth l b zero (cons d ds) p s c h =
      node_at-check cmd addr clk depth l b d p.0 s c h
  node_in-check_child cmd addr clk depth l b (suc j) (cons d ds) p s c h =
      node_in-check_child cmd addr clk depth l (suc b) j ds p.1 s c h
