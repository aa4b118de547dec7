-- ===== src/Counter.antt =====
-- src/general/utils.h, class `counter`: named `size_t` counters. The names of a controller's
-- counters are the constructors of a data type, so a counter that is declared is never missing. Where
-- a name may be undeclared, it is looked up in the table of the declared names.
use mathlib.Core.Logic.{ite}
use vans.Base.{
  ℕ, Bool, true, false, ◌&&◌, ◌==◌, List, [], ◌∷◌, if◌then◌else◌, Result, ok, err, counter_missing,
}
use vans.Base.Bits.{add64, sub64}

module _ {K : Type 0} (same : Discrete K) where
  pub increment_by : ℕ → K → (K → ℕ) → K → ℕ
  increment_by n name counters k = ite (same name k) (add64 (counters k) n) (counters k)

  -- `cnt[name]++`
  unfoldable pub increment : K → (K → ℕ) → K → ℕ
  unfolding increment_by
  increment = increment_by 1

  -- `update_duration_cnt`: `cnt[name] += curr_clk - entry.last_used_clk`
  unfoldable pub add_duration : K → ℕ → ℕ → (K → ℕ) → K → ℕ
  unfolding increment_by
  add_duration name curr_clk last_used_clk = increment_by (sub64 curr_clk last_used_clk) name

abbrev pub same_text : List ℕ → List ℕ → Bool
same_text [] [] = true
same_text (c ∷ s) (d ∷ t) = c == d && same_text s t
same_text _ _ = false

-- `counters.at(name)`, over the names with which the counter was constructed.
unfoldable pub at_name : {K : Type 0} → List (List ℕ × K) → List ℕ → Result K
at_name [] name = err counter_missing
at_name ((declared, counter) ∷ names) name =
    let rest = at_name names name in if same_text declared name then ok counter else rest
