-- ===== src/Trace/Number.antt =====
-- src/general/trace.cpp: what `std::stoul` reads of hexadecimal digits.
use vans.Base.{
  ℕ, ◌+◌, ◌*◌, ◌^◌, ◌<◌, ◌≡◌, refl, ap, ◌∙◌, true, false, ◌||◌, List, [], ◌∷◌, ◌++◌, ltb, ◌==◌,
  length, All, Bool-cases, inl, inr, arith, ok,
}
use vans.Trace.{
  is_space, digit_value, read_digits, read_number, skip_prefix, skip_sign, stoul_at, stoul,
}

abbrev pub IsHex : ℕ → Type 0
IsHex c = digit_value 16 c < 16

-- The value of hexadecimal digits after those that make up `v`.
unfoldable pub hex_value : List ℕ → ℕ → ℕ
hex_value [] v = v
hex_value (c ∷ ds) v = hex_value ds (v * 16 + digit_value 16 c)

-- No digit follows.
abbrev pub Stops : List ℕ → Type 0
Stops [] = Unit
Stops (c ∷ s) = digit_value 16 c ≡ 16

read_digits-hex :
    (ds s : List ℕ) (v p : ℕ)
    → All IsHex ds
    → Stops s
    → read_digits 16 (ds ++ s) v p ≡ (hex_value ds v, p + length ds)
unfolding read_digits hex_value
read_digits-hex [] [] v p h e = ap (λ k. (v, k)) (omega arith)
read_digits-hex [] (c ∷ s) v p h e =
    let stop : ltb (digit_value 16 c) 16 ≡ false = ground arith in
    rw stop (ap (λ k. (v, k)) (omega arith))
read_digits-hex (c ∷ ds) s v p h e =
    let digit : ltb (digit_value 16 c) 16 ≡ true = ground arith in
    let w = v * 16 + digit_value 16 c in
    rw digit (read_digits-hex ds s w (p + 1) h.1 e ∙ ap (λ k. (hex_value ds w, k)) (omega arith))

hex_space : (c : ℕ) → IsHex c → is_space c ≡ false
unfolding is_space digit_value
hex_space c h = ground arith

hex_signs : (c : ℕ) → IsHex c → ((c == b'-') ≡ false) × ((c == b'+') ≡ false)
unfolding digit_value
hex_signs c h = (ground arith, ground arith)

-- A letter that is no digit, or a space.
hex_x : (c : ℕ) → IsHex c → (c == b'x' || c == b'X') ≡ false
unfolding digit_value
hex_x c h = ground arith

no_prefix :
    (z x : ℕ) (s : List ℕ)
    → (x == b'x' || x == b'X') ≡ false
    → skip_prefix 16 (z ∷ (x ∷ s)) 0 false ≡ read_number 16 (z ∷ (x ∷ s)) 0 false
unfolding skip_prefix
no_prefix z x [] h = refl
no_prefix z x (d ∷ s) h = elim (Bool-cases (z == b'0')) [
  | inl zero_first ↦ rw (zero_first, h) refl
  | inr other ↦ rw other refl
]

read_number-hex :
    (d : ℕ) (ds s : List ℕ)
    → All IsHex (d ∷ ds)
    → Stops s
    → hex_value (d ∷ ds) 0 < 2 ^ 64
    → read_number 16 (d ∷ (ds ++ s)) 0 false ≡ ok (hex_value (d ∷ ds) 0, length (d ∷ ds))
unfolding read_number
read_number-hex d ds s h e small =
    let r = read_digits-hex (d ∷ ds) s 0 0 h e in
    let some_digits : (0 + length (d ∷ ds) == 0) ≡ false = ground arith in
    let fits : ltb (hex_value (d ∷ ds) 0) (2 ^ 64) ≡ true = ground arith in
    rw (r, some_digits, fits) (ap (λ k. ok (hex_value (d ∷ ds) 0, k)) (omega arith))

-- What follows the digits is no `x`.
abbrev pub NoX : List ℕ → Type 0
NoX [] = Unit
NoX (c ∷ s) = (c == b'x' || c == b'X') ≡ false

prefix-hex :
    (d : ℕ) (ds s : List ℕ)
    → All IsHex ds
    → NoX s
    → skip_prefix 16 (d ∷ (ds ++ s)) 0 false ≡ read_number 16 (d ∷ (ds ++ s)) 0 false
prefix-hex d [] [] h n = unfold skip_prefix in refl
prefix-hex d [] (c ∷ s) h n = no_prefix d c s n
prefix-hex d (x ∷ ds) s h n = no_prefix d x (ds ++ s) (hex_x x h.0)

pub stoul-hex :
    (d : ℕ) (ds s : List ℕ)
    → All IsHex (d ∷ ds)
    → Stops s
    → NoX s
    → hex_value (d ∷ ds) 0 < 2 ^ 64
    → stoul 16 (d ∷ (ds ++ s)) ≡ ok (hex_value (d ∷ ds) 0, length (d ∷ ds))
unfolding stoul stoul_at skip_sign
stoul-hex d ds s h e n small =
    let (minus, plus) = hex_signs d h.0 in
    rw (hex_space d h.0, minus, plus) (prefix-hex d ds s h.1 n ∙ read_number-hex d ds s h e small)
