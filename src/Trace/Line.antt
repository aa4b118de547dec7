-- ===== src/Trace/Line.antt =====
-- src/general/trace.cpp, `get_dram_trace_request`: the lines that it reads as they are meant, and those
-- that it does not.
use mathlib.Core.List.{append-nil}
use vans.Base.{
  ℕ, zero, suc, ◌+◌, ◌^◌, ◌≤◌, ◌<◌, ◌≡◌, refl, sym, ap, ◌∙◌, Bool, true, false, List, [], ◌∷◌, ◌++◌,
  ◌==◌, length, length-append, All, arith, Result, ok, err, ◌>>=◌,
}
use vans.Base.Bits.{add64}
use vans.Common.{BaseRequestType, read, write, clk_invalid}
use vans.Trace.{
  TraceRequest, npos, drop, digit_value, stoul, first_not, find_first_not_of, operation, idle_clk,
  parse_operation, parse_line,
}
use vans.Trace.Number.{IsHex, hex_value, stoul-hex}

drop-append : (ds s : List ℕ) (k : ℕ) → drop (length ds + k) (ds ++ s) ≡ drop k s
drop-append [] s k = ap (λ j. drop j s) (omega arith)
drop-append (c ∷ ds) s k =
    ap (λ j. drop j (c ∷ (ds ++ s))) (suc_out (length ds) k) ∙ drop-append ds s k
  where
    suc_out : (n k : ℕ) → suc n + k ≡ suc (n + k)
    suc_out n k = omega arith

drop-past : (s : List ℕ) (k : ℕ) → length s ≤ k → drop k s ≡ []
drop-past [] zero h = refl
drop-past [] (suc k) h = refl
drop-past (c ∷ s) zero h = elim h [ ]
drop-past (c ∷ s) (suc k) h = drop-past s k (omega arith)

find-past : (c k : ℕ) (s : List ℕ) → length s ≤ k → find_first_not_of c s k ≡ npos
unfolding find_first_not_of first_not
find-past c k s h = ap (λ l. first_not c l k) (drop-past s k h)

abbrev a_read : ℕ → ℕ → TraceRequest
a_read addr idle = record { addr = addr; type = read; critical = false; idle_clk_injection = idle }

-- Where no operation is found, the search for the clocks to wait begins at 0.
no_operation :
    (line : List ℕ) (addr : ℕ)
    → parse_operation line addr npos ≡ (
        idle_clk line 0 >>= λ idle.
        ok (record { addr = addr; type = read; critical = false; idle_clk_injection = idle }))
unfolding parse_operation operation
no_operation line addr = refl

starts_with_digit :
    (d : ℕ) (ds : List ℕ)
    → IsHex d
    → idle_clk (d ∷ ds) 0 ≡ (stoul 10 (d ∷ ds) >>= λ (value, after). ok value)
unfolding idle_clk find_first_not_of first_not digit_value
starts_with_digit d ds h = let no_colon : (d == b':') ≡ false = ground arith in rw no_colon refl

-- A line of hexadecimal digits alone, which make up an address of 64 bits and which the reader
-- takes for a read, is searched once more from its start for the clocks to wait, since `npos + 1`
-- is 0: these are what `stoul` reads of the address in decimal, and where it throws the reader
-- throws.
pub address_only-idles :
    (d : ℕ) (ds : List ℕ)
    → All IsHex (d ∷ ds)
    → hex_value (d ∷ ds) 0 < 2 ^ 64
    → parse_line (d ∷ ds) ≡ (
        stoul 10 (d ∷ ds) >>= λ (value, after). ok (record {
          addr = hex_value (d ∷ ds) 0;
          type = read;
          critical = false;
          idle_clk_injection = value;
        }))
unfolding parse_line parse_operation
address_only-idles d ds h small =
    let line = d ∷ ds in
    let addr = hex_value line 0 in
    let read_addr : stoul 16 line ≡ ok (addr, length line) =
      ap (λ l. stoul 16 (d ∷ l)) (sym (append-nil ds)) ∙ stoul-hex d ds [] h tt tt small in
    ap
      (λ r.
        r >>= λ (addr, after). parse_operation line addr (find_first_not_of 32 line (after + 1)))
      read_addr
    ∙ ap (parse_operation line addr) (find-past 32 (length line + 1) line (omega arith))
    ∙ no_operation line addr
    ∙ ap (λ r. r >>= λ idle. ok (a_read addr idle)) (starts_with_digit d ds h.0)
    ∙ rebind (stoul 10 line)
  where
    rebind :
        (m : Result (ℕ × ℕ))
        → ((m >>= λ (value, after). ok value) >>= λ idle. ok (a_read (hex_value (d ∷ ds) 0) idle))
          ≡ (m >>= λ (value, after). ok (a_read (hex_value (d ∷ ds) 0) value))
    rebind (ok v) = refl
    rebind (err e) = refl

-- The operations of a trace, and what they ask for.
pub data Operation : ℕ → BaseRequestType → Bool → Type 0 where
  reads : Operation b'R' read false
  writes : Operation b'W' write false
  reads_critically : Operation b'C' read true

found :
    {c : ℕ} {type : BaseRequestType} {critical : Bool} (line : List ℕ) (k : ℕ)
    → Operation c type critical
    → drop k line ≡ c ∷ []
    → find_first_not_of 32 line k ≡ k
unfolding find_first_not_of first_not
found line k reads h = ap (λ l. first_not 32 l k) h
found line k writes h = ap (λ l. first_not 32 l k) h
found line k reads_critically h = ap (λ l. first_not 32 l k) h

no_idle :
    (line : List ℕ) (k : ℕ)
    → length line ≤ k + 1
    → k < 2 ^ 63
    → idle_clk line (add64 k 1) ≡ ok clk_invalid
unfolding idle_clk
no_idle line k h small =
    let next : add64 k 1 ≡ k + 1 = omega arith in rw next (rw (find-past b':' (k + 1) line h) refl)

operation-eq :
    {c : ℕ} {type : BaseRequestType} {critical : Bool}
    → Operation c type critical
    → operation (c ∷ []) ≡ ok (type, critical)
unfolding operation
operation-eq reads = refl
operation-eq writes = refl
operation-eq reads_critically = refl

last_operation :
    {c : ℕ} {type : BaseRequestType} {critical : Bool} (line : List ℕ) (addr k : ℕ)
    → Operation c type critical
    → drop k line ≡ c ∷ []
    → length line ≤ k + 1
    → k < 2 ^ 63
    → parse_operation line addr k
      ≡ ok (record {
        addr = addr;
        type = type;
        critical = critical;
        idle_clk_injection = clk_invalid;
      })
unfolding parse_operation
last_operation line addr k op h l small =
    let at_letter : (k == npos) ≡ false = ground arith in
    rw (at_letter, h, operation-eq op, no_idle line k l small) refl

-- A line of hexadecimal digits that make up a number of 64 bits, a space and the letter of an
-- operation, no longer than 32-bit positions reach, is read as that request to that address, with
-- no clocks to wait.
pub parse_line-request :
    (d : ℕ) (ds : List ℕ) {c : ℕ} {type : BaseRequestType} {critical : Bool}
    → All IsHex (d ∷ ds)
    → hex_value (d ∷ ds) 0 < 2 ^ 64
    → length ds < 2 ^ 32
    → Operation c type critical
    → parse_line (d ∷ (ds ++ 32 ∷ c ∷ []))
      ≡ ok (record {
        addr = hex_value (d ∷ ds) 0;
        type = type;
        critical = critical;
        idle_clk_injection = clk_invalid;
      })
unfolding parse_line
parse_line-request d ds {c} {type} {critical} h small short op =
    let line = d ∷ (ds ++ 32 ∷ c ∷ []) in
    let addr = hex_value (d ∷ ds) 0 in
    let n = length (d ∷ ds) in
    let here : drop (n + 1) line ≡ c ∷ [] = drop-append (d ∷ ds) (32 ∷ c ∷ []) 1 in
    ap
      (λ r.
        r >>= λ (addr, after). parse_operation line addr (find_first_not_of 32 line (after + 1)))
      (stoul-hex d ds (32 ∷ c ∷ []) h refl refl small)
    ∙ ap (parse_operation line addr) (found line (n + 1) op here)
    ∙ last_operation line addr (n + 1) op here (omega (arith, length-append ds (32 ∷ c ∷ [])))
        (omega arith)
