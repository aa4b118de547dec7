-- ===== src/Trace/Tests.antt =====
-- src/general/trace.cpp: lines of a trace.
use vans.Base.{
  ℕ, ◌<◌, true, List, [], ◌∷◌, some, none, out_of_fuel, false, err, ◌≡◌, arith, ok, codes, All,
}
use vans.Common.{read, write, clk_invalid}
use vans.Trace.File.{after_comments, get_dram_trace_request-reads}
use vans.Trace.{get_dram_trace_request, parse_line, stoul, digit_value}
use vans.Trace.Number.{IsHex, hex_value}
use vans.Trace.Line.{writes, address_only-idles, parse_line-request}

digits : All IsHex (codes "1f40")
unfolding digit_value
digits = omega arith

decimal_digits : All IsHex (codes "1040")
unfolding digit_value
decimal_digits = omega arith

-- The address 1040 alone makes the simulation wait for 1040 clocks.
address_only-idles_example :
    parse_line (codes "1040")
    ≡ ok (record { addr = 0x1040; type = read; critical = false; idle_clk_injection = 1040 })
unfolding hex_value stoul digit_value
address_only-idles_example = address_only-idles b'1' (codes "040") decimal_digits (omega arith)

parse_line-request_example :
    parse_line (codes "1f40 W")
    ≡ ok
        (record { addr = 0x1f40; type = write; critical = false; idle_clk_injection = clk_invalid })
unfolding hex_value digit_value
parse_line-request_example =
    parse_line-request b'1' (codes "f40") digits (omega arith) (omega arith) writes

abbrev lines : List (List ℕ)
lines = codes "# trace" ∷ codes "1f40 W" ∷ codes "1040 R" ∷ []

get_dram_trace_request-reads_example :
    get_dram_trace_request 4 (record { lines = lines; last = codes "2000 R"; eof = false })
    ≡ ok (
      some (record {
        addr = 0x1f40;
        type = write;
        critical = false;
        idle_clk_injection = clk_invalid;
      }),
      record { lines = codes "1040 R" ∷ []; last = codes "2000 R"; eof = false },
    )
unfolding after_comments parse_line
get_dram_trace_request-reads_example =
    get_dram_trace_request-reads 4 lines (codes "2000 R") (omega arith)

-- The last request has no newline behind it and is dropped.
last_dropped :
    get_dram_trace_request 1 (record { lines = []; last = codes "2000 R"; eof = false })
    ≡ ok (none, record { lines = []; last = []; eof = true })
unfolding after_comments
last_dropped = get_dram_trace_request-reads 1 [] (codes "2000 R") (omega arith)

-- The last comment has no newline behind it: no number of rounds ends the loop.
comment_repeated :
    (rounds : ℕ)
    → 0 < rounds
    → get_dram_trace_request rounds (record { lines = []; last = codes "# end"; eof = false })
      ≡ err out_of_fuel
unfolding after_comments
comment_repeated rounds h = get_dram_trace_request-reads rounds [] (codes "# end") h
