-- ===== src/Base/Bits.antt =====
-- 64-bit words: wrap-around, shifts, and what `&` with a low mask and `|` of disjoint fields mean as
-- arithmetic.
use Prim.Native.Nat.{
  ℕ, zero, suc, ◌+◌, ◌-◌, ◌*◌, ◌/◌, ◌%◌, ◌^◌, ◌≤◌, ◌<◌, min, max, bit_and, bit_or, digits, bitwise,
  bit_and-bitwise, bit_or-bitwise,
}
use mathlib.Core.Path.{◌≡◌, refl, ap, ◌∙◌}
use native.Mathlib.Nat.{pow-suc, one-le-pow}
use native.Mathlib.Omega.{arith}

-- `x >> k`, `x << k`, `a + b`, `a - b` and `a * b` on `uint64_t`.
abbrev pub shr : ℕ → ℕ → ℕ
shr x k = x / 2 ^ k

abbrev pub shl : ℕ → ℕ → ℕ
shl x k = x * 2 ^ k % 2 ^ 64

abbrev pub add64 : ℕ → ℕ → ℕ
add64 a b = (a + b) % 2 ^ 64

abbrev pub sub64 : ℕ → ℕ → ℕ
sub64 a b = (a + 2 ^ 64 - b) % 2 ^ 64

abbrev pub mul64 : ℕ → ℕ → ℕ
mul64 a b = a * b % 2 ^ 64

-- A native operation recurs on the digits of its first operand, on fuel: any enough fuel will do.
module _ (low : ℕ → ℕ) (op : ℕ → ℕ → ℕ) where
  enough_fuel : (a b f g : ℕ) → a ≤ f → a ≤ g → digits low op f a b ≡ digits low op g a b
  enough_fuel a b f g p q = go f g a b p q
    where
      go : (f g a b : ℕ) → a ≤ f → a ≤ g → digits low op f a b ≡ digits low op g a b
      go zero zero zero b p q = refl
      go zero (suc g) zero b p q = refl
      go (suc f) zero zero b p q = refl
      go (suc f) (suc g) zero b p q = refl
      go zero g (suc a) b p q = absurd (omega arith)
      go (suc f) zero (suc a) b p q = absurd (omega arith)
      go (suc f) (suc g) (suc a) b p q =
          ap (λ d. d * 2 + op (suc a % 2) (b % 2))
            (go f g (suc a / 2) (b / 2) (omega arith) (omega arith))

  peel :
      (a b : ℕ)
      → bitwise low op (suc a) b ≡ bitwise low op (suc a / 2) (b / 2) * 2 + op (suc a % 2) (b % 2)
  peel a b =
      ap (λ d. d * 2 + op (suc a % 2) (b % 2))
        (enough_fuel (suc a / 2) (b / 2) a (suc a / 2) (omega arith) (omega arith))

pub and_peel : (a b : ℕ) → bit_and a b ≡ bit_and (a / 2) (b / 2) * 2 + min (a % 2) (b % 2)
and_peel zero b = simp bit_and-bitwise (omega arith)
and_peel (suc a) b = simp bit_and-bitwise (peel (λ d. 0) min a b)

or_peel : (a b : ℕ) → bit_or a b ≡ bit_or (a / 2) (b / 2) * 2 + max (a % 2) (b % 2)
or_peel zero b = simp bit_or-bitwise (omega arith)
or_peel (suc a) b = simp bit_or-bitwise (peel (λ d. d) max a b)

and_zero_below : (n a : ℕ) → a ≤ n → bit_and a 0 ≡ 0
and_zero_below n zero h = refl
and_zero_below zero (suc a) h = absurd (omega arith)
and_zero_below (suc n) (suc a) h =
    omega (arith, and_peel (suc a) 0, and_zero_below n (suc a / 2) (omega arith))

or_zero_below : (n a : ℕ) → a ≤ n → bit_or a 0 ≡ a
or_zero_below n zero h = refl
or_zero_below zero (suc a) h = absurd (omega arith)
or_zero_below (suc n) (suc a) h =
    omega (arith, or_peel (suc a) 0, or_zero_below n (suc a / 2) (omega arith))

-- The mask of `k` ones.
abbrev pub ones : ℕ → ℕ
ones zero = 0
ones (suc k) = 2 * ones k + 1

double_field : (q k : ℕ) → q * 2 ^ suc k ≡ 2 * (q * 2 ^ k)
double_field q k = omega (arith, ap (λ (t : ℕ). q * t) (pow-suc 2 k))

and_ones_split : (k q r : ℕ) → r < 2 ^ k → bit_and (q * 2 ^ k + r) (ones k) ≡ r
and_ones_split zero q r h = and_zero_below (q * 1 + r) (q * 1 + r) (omega arith) ∙ (omega arith)
and_ones_split (suc k) q r h = ground (
  arith,
  and_peel (q * 2 ^ suc k + r) (ones (suc k)),
  double_field q k,
  pow-suc 2 k,
  and_ones_split k q (r / 2) (omega arith),
)

pub bit_and-ones : (k a : ℕ) → bit_and a (ones k) ≡ a % 2 ^ k
bit_and-ones k a = ground (arith, one-le-pow k 2, and_ones_split k (a / 2 ^ k) (a % 2 ^ k))

pub bit_or_disjoint : (k q r : ℕ) → r < 2 ^ k → bit_or (q * 2 ^ k) r ≡ q * 2 ^ k + r
bit_or_disjoint zero q r h = ground (arith, or_zero_below q q)
bit_or_disjoint (suc k) q r h = ground (
  arith,
  or_peel (q * 2 ^ suc k) r,
  double_field q k,
  pow-suc 2 k,
  bit_or_disjoint k q (r / 2) (omega arith),
)

and_self_below : (n a : ℕ) → a ≤ n → bit_and a a ≡ a
and_self_below n zero h = refl
and_self_below zero (suc a) h = absurd (omega arith)
and_self_below (suc n) (suc a) h =
    omega (arith, and_peel (suc a) (suc a), and_self_below n (suc a / 2) (omega arith))

pub bit_and_self : (a : ℕ) → bit_and a a ≡ a
bit_and_self a = and_self_below a a (omega arith)

pub ones-pow : (k : ℕ) → ones k + 1 ≡ 2 ^ k
ones-pow zero = refl
ones-pow (suc k) = omega (arith, ones-pow k, pow-suc 2 k)

or_zero_left : (q : ℕ) → bit_or 0 q ≡ q
or_zero_left q = simp bit_or-bitwise

-- A field above the bits that are there.
pub bit_or_above : (k q r : ℕ) → r < 2 ^ k → bit_or r (q * 2 ^ k) ≡ q * 2 ^ k + r
bit_or_above zero q r h = ground (arith, or_peel r (q * 1), or_zero_left q)
bit_or_above (suc k) q r h = ground (
  arith,
  or_peel r (q * 2 ^ suc k),
  double_field q k,
  pow-suc 2 k,
  bit_or_above k q (r / 2) (omega arith),
)
