-- ===== src/Common/Power.antt =====
-- src/general/utils.h, `is_pwr_of_2` and `log2`.
use vans.Base.{
  ℕ, zero, suc, ◌+◌, ◌-◌, ◌*◌, ◌/◌, ◌%◌, ◌^◌, ◌≤◌, ◌<◌, bit_and, ◌≡◌, refl, ap, subst, sym, Bool,
  true, not, ◌&&◌, ◌==◌, if◌then◌else◌, ◌↔◌, arith, Bool-cases, inl, inr,
}
use native.Mathlib.Nat.{pow-suc, one-le-pow}
use vans.Base.Bits.{and_peel, bit_and_self}

unfoldable pub is_pwr_of_2 : ℕ → Bool
is_pwr_of_2 n = not (n == 0) && bit_and n (n - 1) == 0

-- `while ((val >>= 1U)) n++;` The rounds bound the loop: 64 are enough for a `size_t`.
unfoldable pub log2_loop : ℕ → ℕ → ℕ → ℕ
log2_loop zero val n = n
log2_loop (suc rounds) val n =
    let rest = log2_loop rounds (val / 2) (suc n) in if val / 2 == 0 then n else rest

unfoldable pub log2 : ℕ → ℕ
unfolding log2_loop
log2 val = log2_loop 64 val 0

-- The loop ends with the place of the highest bit set.
log2_loop-bounds :
    (rounds val n : ℕ)
    → 0 < val
    → val < 2 ^ rounds
    → (k : ℕ) × (log2_loop rounds val n ≡ n + k) × (2 ^ k ≤ val) × (val < 2 ^ suc k)
unfolding log2_loop
log2_loop-bounds zero val n p h = absurd (omega arith)
log2_loop-bounds (suc rounds) val n p h = elim (Bool-cases (val / 2 == 0)) [
  | inl done ↦ rw done (0, omega arith, omega arith, ground arith)
  | inr more ↦ rw more (
      let (k, e, lo, hi) =
        log2_loop-bounds rounds (val / 2) (suc n) (ground arith)
          (omega (arith, pow-suc 2 rounds)) in
      (
        suc k,
        omega (arith, e),
        omega (arith, pow-suc 2 k),
        omega (arith, pow-suc 2 (suc k), pow-suc 2 k),
      ))
]

pub log2-bounds : (v : ℕ) → 0 < v → v < 2 ^ 64 → (2 ^ log2 v ≤ v) × (v < 2 ^ suc (log2 v))
unfolding log2
log2-bounds v p h =
    let (k, e, lo, hi) = log2_loop-bounds 64 v 0 p h in
    let at_k : log2_loop 64 v 0 ≡ k = omega (arith, e) in rw at_k (lo, hi)

even_test : (m : ℕ) → m % 2 ≡ 0 → 0 < m → bit_and m (m - 1) ≡ 2 * bit_and (m / 2) (m / 2 - 1)
even_test m e p =
    let halved : (m - 1) / 2 ≡ m / 2 - 1 = omega arith in
    omega (arith, and_peel m (m - 1), ap (bit_and (m / 2)) halved)

odd_test : (m : ℕ) → m % 2 ≡ 1 → bit_and m (m - 1) ≡ m - 1
odd_test m e =
    let halved : (m - 1) / 2 ≡ m / 2 = omega arith in
    omega (arith, and_peel m (m - 1), ap (bit_and (m / 2)) halved, bit_and_self (m / 2))

pow_of_test : (n m : ℕ) → m ≤ n → is_pwr_of_2 m ≡ true → (k : ℕ) × (m ≡ 2 ^ k)
unfolding is_pwr_of_2
pow_of_test zero m h t = absurd (ground arith)
pow_of_test (suc n) m h t = elim (Bool-cases (m % 2 == 0)) [
  | inl even ↦
      let (k, e) = pow_of_test n (m / 2) (ground arith) (ground (arith, even_test m)) in
      (suc k, ground (arith, pow-suc 2 k))
  | inr odd ↦ (0, ground (arith, odd_test m))
]

test_of_pow : (k : ℕ) → is_pwr_of_2 (2 ^ k) ≡ true
unfolding is_pwr_of_2
test_of_pow zero = refl
test_of_pow (suc k) =
    let half : 2 ^ suc k / 2 ≡ 2 ^ k = omega (arith, pow-suc 2 k) in
    let previous : bit_and (2 ^ suc k / 2) (2 ^ suc k / 2 - 1) ≡ bit_and (2 ^ k) (2 ^ k - 1) =
      ap (λ (x : ℕ). bit_and x (x - 1)) half in
    ground (
      arith,
      even_test (2 ^ suc k) (omega (arith, pow-suc 2 k)) (omega (arith, one-le-pow (suc k) 2)),
      previous,
      test_of_pow k,
      one-le-pow k 2,
      one-le-pow (suc k) 2,
    )

-- The bit trick of `is_pwr_of_2` recognises exactly the powers of two.
pub is_pwr_of_2_iff : (n : ℕ) → (is_pwr_of_2 n ≡ true) ↔ ((k : ℕ) × (n ≡ 2 ^ k))
is_pwr_of_2_iff n = (
  pow_of_test n n (omega arith),
  λ (k, e). subst (λ x. is_pwr_of_2 x ≡ true) (sym e) (test_of_pow k),
)
