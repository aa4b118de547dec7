-- ===== src/Trace.antt =====
-- src/general/trace.cpp, `trace::get_dram_trace_request`: one request from the text of a trace. The file
-- is the list of its lines that end with a newline, and the text after the last newline, which is read
-- together with the end of the file. `stoul` and the searches are those of the standard library.
pub mod File
pub mod Number
pub mod Line
mod Tests
use vans.Base.{
  out_of_fuel, ℕ, zero, suc, ◌+◌, ◌-◌, ◌*◌, ◌^◌, Bool, true, false, ◌&&◌, ◌||◌, List, [], ◌∷◌,
  Option, none, some, ltb, leb, ◌==◌, if◌then◌else◌, length, Result, ok, err, ◌>>=◌,
  invalid_argument, out_of_range, trace_format,
}
use vans.Base.Bits.{add64, sub64}
use vans.Common.{BaseRequestType, read, write, clk_invalid}

-- `std::string::npos`
abbrev pub npos : ℕ
npos = 2 ^ 64 - 1

abbrev pub drop : ℕ → List ℕ → List ℕ
drop zero s = s
drop (suc n) [] = []
drop (suc n) (c ∷ s) = drop n s

unfoldable pub is_space : ℕ → Bool
is_space c = c == 32 || leb 9 c && leb c 13

-- The value of a digit, or the base if it is none.
unfoldable pub digit_value : ℕ → ℕ → ℕ
digit_value base c =
    let value =
      if leb b'0' c && leb c b'9'
      then c - 48
      else if leb b'a' c && leb c b'f'
      then c - 87
      else if leb b'A' c && leb c b'F'
      then c - 55
      else base in
    if ltb value base then value else base

-- The digits from `pos` on: their value and the position after them.
unfoldable pub read_digits : ℕ → List ℕ → ℕ → ℕ → ℕ × ℕ
unfolding digit_value
read_digits base [] value pos = (value, pos)
read_digits base (c ∷ s) value pos =
    let rest = read_digits base s (value * base + digit_value base c) (pos + 1) in
    if ltb (digit_value base c) base then rest else (value, pos)

-- At least one digit, and a value of 64 bits.
unfoldable pub read_number : ℕ → List ℕ → ℕ → Bool → Result (ℕ × ℕ)
unfolding read_digits
read_number base s pos negative =
    let (value, after) = read_digits base s 0 pos in
    if after == pos
    then err invalid_argument
    else if ltb value (2 ^ 64)
    then ok (if negative then sub64 0 value else value, after)
    else err out_of_range

-- "0x" before a digit is skipped where the base is 16.
unfoldable pub skip_prefix : ℕ → List ℕ → ℕ → Bool → Result (ℕ × ℕ)
unfolding read_number
skip_prefix base (z ∷ (x ∷ (d ∷ s))) pos negative =
    if base == 16 && z == b'0' && (x == b'x' || x == b'X') && ltb (digit_value base d) base
    then read_number base (d ∷ s) (pos + 2) negative
    else read_number base (z ∷ (x ∷ (d ∷ s))) pos negative
skip_prefix base s pos negative = read_number base s pos negative

unfoldable pub skip_sign : ℕ → List ℕ → ℕ → Result (ℕ × ℕ)
unfolding skip_prefix
skip_sign base [] pos = skip_prefix base [] pos false
skip_sign base (c ∷ s) pos =
    if c == b'-'
    then skip_prefix base s (pos + 1) true
    else if c == b'+'
    then skip_prefix base s (pos + 1) false
    else skip_prefix base (c ∷ s) pos false

unfoldable pub stoul_at : ℕ → List ℕ → ℕ → Result (ℕ × ℕ)
unfolding skip_sign is_space
stoul_at base [] pos = skip_sign base [] pos
stoul_at base (c ∷ s) pos =
    let rest = stoul_at base s (pos + 1) in if is_space c then rest else skip_sign base (c ∷ s) pos

-- `std::stoul(s, &pos, base)`: the value and `pos`
unfoldable pub stoul : ℕ → List ℕ → Result (ℕ × ℕ)
unfolding stoul_at
stoul base s = stoul_at base s 0

unfoldable pub first_not : ℕ → List ℕ → ℕ → ℕ
first_not c [] pos = npos
first_not c (x ∷ s) pos = let rest = first_not c s (pos + 1) in if x == c then rest else pos

-- `line.find_first_not_of(c, pos)`
unfoldable pub find_first_not_of : ℕ → List ℕ → ℕ → ℕ
unfolding first_not
find_first_not_of c line pos = first_not c (drop pos line) pos

pub record TraceRequest : Type 0 where
  pub addr : ℕ
  pub type : BaseRequestType
  pub critical : Bool
  pub idle_clk_injection : ℕ

-- `line.substr(pos)[0]`, the letter of the operation; none at the end of the line.
unfoldable pub operation : List ℕ → Result (BaseRequestType × Bool)
operation [] = ok (read, false)
operation (c ∷ s) =
    if c == b'R'
    then ok (read, false)
    else if c == b'W'
    then ok (write, false)
    else if c == b'C'
    then ok (read, true)
    else err trace_format

unfoldable pub idle_clk : List ℕ → ℕ → Result ℕ
unfolding find_first_not_of stoul
idle_clk line pos =
    let start = find_first_not_of b':' line pos in
    let number = stoul 10 (drop start line) in
    if start == npos then ok clk_invalid else (number >>= λ (value, after). ok value)

-- The operation at `pos`, and the clocks to wait after it. The position after it is `pos + 1`, which
-- wraps around at `npos`.
unfoldable pub parse_operation : List ℕ → ℕ → ℕ → Result TraceRequest
unfolding operation idle_clk
parse_operation line addr pos =
    operation (if pos == npos then [] else drop pos line) >>= λ (type, critical).
    idle_clk line (add64 pos 1) >>= λ idle.
    ok (record { addr = addr; type = type; critical = critical; idle_clk_injection = idle })

unfoldable pub parse_line : List ℕ → Result TraceRequest
unfolding stoul find_first_not_of parse_operation
parse_line line = stoul 16 line >>= λ (addr, after).
    parse_operation line addr (find_first_not_of 32 line (after + 1))

-- `last` is the text after the last newline.
pub record TraceFile : Type 0 where
  pub lines : List (List ℕ)
  pub last : List ℕ
  pub eof : Bool

-- `getline(file, line)`: at the end of the file it leaves `line` as it was.
unfoldable pub getline : List ℕ → TraceFile → List ℕ × TraceFile
getline line f = if f.eof then (line, f) else elim f.lines [
  | [] ↦ (f.last, record f { last = []; eof = true })
  | next ∷ lines ↦ (next, record f { lines = lines })
]

-- `line.rfind('#', 0) == 0`
abbrev pub is_comment : List ℕ → Bool
is_comment [] = false
is_comment (c ∷ line) = c == b'#'

-- `do { getline(file, line); } while (line.rfind('#', 0) == 0)`, in at most so many rounds
unfoldable pub skip_comments : ℕ → List ℕ → TraceFile → Result (List ℕ × TraceFile)
unfolding getline
skip_comments zero line f = err out_of_fuel
skip_comments (suc rounds) line f =
    let (next, g) = getline line f in
    let again = skip_comments rounds next g in if is_comment next then again else ok (next, g)

unfoldable pub get_dram_trace_request : ℕ → TraceFile → Result (Option TraceRequest × TraceFile)
unfolding skip_comments parse_line
get_dram_trace_request rounds f = skip_comments rounds [] f >>= λ (line, g).
    let request = parse_line line in
    if g.eof then ok (none, g) else (request >>= λ req. ok (some req, g))
