-- ===== src/Buffer/Lru.antt =====
-- The scan for the entry to evict that `rmw_controller::check_and_evict` and
-- `ait_controller::check_and_evict` share (src/general/rmw.cpp, src/general/ait.cpp): the entry in
-- the state `end` with the least `last_used_clk`.
use vans.Base.{
  ℕ, ◌≤◌, ◌<◌, ◌≡◌, ◌≢◌, refl, ap, sym, subst, ◌⊎◌, inl, inr, Bool, true, false, ◌&&◌, List, [],
  ◌∷◌, none, some, arith, ltb, Bool-cases, All,
}
use vans.Common.{addr_invalid, clk_invalid}
use vans.Buffer.{lookup}
use vans.Buffer.Laws.{Distinct, All-lookup}

module _ {E : Type 0} (is_end : E → Bool) (last : E → ℕ) where
  -- `(oldest_addr, oldest_clk)` after the loop, from its value before.
  unfoldable pub scan_oldest : List (ℕ × E) → ℕ → ℕ → ℕ × ℕ
  scan_oldest [] addr clk = (addr, clk)
  scan_oldest ((k, e) ∷ m) addr clk = elim (is_end e && ltb (last e) clk) [
    | true ↦ scan_oldest m k (last e)
    | false ↦ scan_oldest m addr clk
  ]

  scan_takes :
      (k : ℕ) (e : E) (m : List (ℕ × E)) (a c : ℕ)
      → (is_end e && ltb (last e) c) ≡ true
      → scan_oldest ((k, e) ∷ m) a c ≡ scan_oldest m k (last e)
  unfolding scan_oldest
  scan_takes k e m a c t = ground arith

  scan_skips :
      (k : ℕ) (e : E) (m : List (ℕ × E)) (a c : ℕ)
      → (is_end e && ltb (last e) c) ≡ false
      → scan_oldest ((k, e) ∷ m) a c ≡ scan_oldest m a c
  unfolding scan_oldest
  scan_skips k e m a c t = ground arith

  -- No entry that could go was used before `clk`.
  abbrev pub NoneOlder : ℕ → List (ℕ × E) → Type 0
  NoneOlder clk [] = Unit
  NoneOlder clk ((k, e) ∷ m) = (is_end e ≡ true → clk ≤ last e) × NoneOlder clk m

  pub scan_oldest-le : (m : List (ℕ × E)) (a c : ℕ) → (scan_oldest m a c).1 ≤ c
  scan_oldest-le [] a c = unfold scan_oldest in omega arith
  scan_oldest-le ((k, e) ∷ m) a c = elim (Bool-cases (is_end e && ltb (last e) c)) [
    | inl t ↦ rw (scan_takes k e m a c t) (ground (arith, scan_oldest-le m k (last e)))
    | inr f ↦ rw (scan_skips k e m a c f) (scan_oldest-le m a c)
  ]

  pub scan_oldest-NoneOlder : (m : List (ℕ × E)) (a c : ℕ) → NoneOlder (scan_oldest m a c).1 m
  scan_oldest-NoneOlder [] a c = tt
  scan_oldest-NoneOlder ((k, e) ∷ m) a c = elim (Bool-cases (is_end e && ltb (last e) c)) [
    | inl t ↦
        subst (λ o. NoneOlder o.1 ((k, e) ∷ m)) (sym (scan_takes k e m a c t))
          (λ _. scan_oldest-le m k (last e), scan_oldest-NoneOlder m k (last e))
    | inr f ↦
        subst (λ o. NoneOlder o.1 ((k, e) ∷ m)) (sym (scan_skips k e m a c f))
          (λ t. ground (arith, scan_oldest-le m a c), scan_oldest-NoneOlder m a c)
  ]

  -- Where the scan's result comes from: no entry changed it, or it is an entry's.
  abbrev pub Origin : List (ℕ × E) → ℕ × ℕ → ℕ × ℕ → Type 0
  Origin m acc out =
      (out ≡ acc)
      ⊎ ((e : E) × (lookup out.0 m ≡ some e)
          × (is_end e ≡ true)
          × (last e ≡ out.1)
          × (out.1 < acc.1))

  Origin-head :
      (k : ℕ) (e : E) (m : List (ℕ × E)) (a c : ℕ) (out : ℕ × ℕ)
      → (is_end e && ltb (last e) c) ≡ true
      → lookup k m ≡ none
      → Origin m (k, last e) out
      → Origin ((k, e) ∷ m) (a, c) out
  unfolding lookup
  Origin-head k e m a c out t d (inl same) =
      inr (e, ground arith, ground arith, ground arith, ground arith)
  Origin-head k e m a c out t d (inr (f, held, ended, used, less)) =
      inr (f, ground arith, ended, used, ground arith)

  Origin-tail :
      (k : ℕ) (e : E) (m : List (ℕ × E)) (acc out : ℕ × ℕ)
      → lookup k m ≡ none
      → Origin m acc out
      → Origin ((k, e) ∷ m) acc out
  unfolding lookup
  Origin-tail k e m acc out d (inl same) = inl same
  Origin-tail k e m acc out d (inr (f, held, ended, used, less)) =
      inr (f, ground arith, ended, used, less)

  pub scan_oldest-Origin :
      (m : List (ℕ × E)) (a c : ℕ) → Distinct m → Origin m (a, c) (scan_oldest m a c)
  scan_oldest-Origin [] a c d = inl (unfold scan_oldest in refl)
  scan_oldest-Origin ((k, e) ∷ m) a c d = elim (Bool-cases (is_end e && ltb (last e) c)) [
    | inl t ↦
        rw (scan_takes k e m a c t)
          (Origin-head k e m a c _ t d.0 (scan_oldest-Origin m k (last e) d.1))
    | inr f ↦
        rw (scan_skips k e m a c f) (Origin-tail k e m (a, c) _ d.0 (scan_oldest-Origin m a c d.1))
  ]

  -- The whole scan: either nothing can go, or it names an entry that can and that no other such
  -- entry is older than.
  abbrev pub Victim : List (ℕ × E) → ℕ → Type 0
  Victim m k =
      ((k ≡ addr_invalid) × NoneOlder clk_invalid m)
      ⊎ ((e : E) × (lookup k m ≡ some e)
          × (is_end e ≡ true)
          × NoneOlder (last e) m
          × (k ≢ addr_invalid))

  pub scan_oldest-Victim :
      (m : List (ℕ × E))
      → Distinct m
      → All (λ p. p.0 ≢ addr_invalid) m
      → Victim m (scan_oldest m addr_invalid clk_invalid).0
  scan_oldest-Victim m d valid =
      from_origin (scan_oldest m addr_invalid clk_invalid)
        (scan_oldest-Origin m addr_invalid clk_invalid d)
        (scan_oldest-NoneOlder m addr_invalid clk_invalid)
    where
      from_origin :
          (out : ℕ × ℕ)
          → Origin m (addr_invalid, clk_invalid) out
          → NoneOlder out.1 m
          → Victim m out.0
      from_origin out (inl same) oldest =
          inl (ap (λ o. o.0) same, subst (λ o. NoneOlder o.1 m) same oldest)
      from_origin out (inr (e, held, ended, used, less)) oldest = inr (
        e,
        held,
        ended,
        subst (λ n. NoneOlder n m) (sym used) oldest,
        All-lookup (λ p. p.0 ≢ addr_invalid) out.0 e m valid held,
      )
