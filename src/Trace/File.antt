-- ===== src/Trace/File.antt =====
-- src/general/trace.cpp, `get_dram_trace_request`: which line it takes, to the end of the file.
use vans.Base.{
  ℕ, zero, suc, ◌<◌, ◌≡◌, refl, ap, ◌∙◌, true, false, List, [], ◌∷◌, Option, none, some,
  if◌then◌else◌, length, Bool-cases, inl, inr, arith, Result, ok, err, ◌>>=◌, out_of_fuel,
}
use vans.Trace.{
  TraceFile, TraceRequest, getline, is_comment, skip_comments, parse_line, get_dram_trace_request,
}

-- The lines from the first one on that is no comment.
unfoldable pub after_comments : List (List ℕ) → List (List ℕ)
after_comments [] = []
after_comments (line ∷ lines) =
    let rest = after_comments lines in if is_comment line then rest else line ∷ lines

-- The line that ends the loop and the file after it, at a file that is not at its end.
abbrev line_found : List (List ℕ) → List ℕ → Result (List ℕ × TraceFile)
line_found [] last =
    if is_comment last
    then err out_of_fuel
    else ok (last, record { lines = []; last = []; eof = true })
line_found (line ∷ lines) last = ok (line, record { lines = lines; last = last; eof = false })

-- At the end of the file a comment is read again and again.
at_end :
    (rounds : ℕ) (line : List ℕ) (lines : List (List ℕ)) (last : List ℕ)
    → is_comment line ≡ true
    → skip_comments rounds line (record { lines = lines; last = last; eof = true })
      ≡ err out_of_fuel
unfolding skip_comments getline
at_end zero line lines last h = refl
at_end (suc rounds) line lines last h = rw h (at_end rounds line lines last h)

skip_comments-line_found :
    (rounds : ℕ) (line : List ℕ) (lines : List (List ℕ)) (last : List ℕ)
    → length lines < rounds
    → skip_comments rounds line (record { lines = lines; last = last; eof = false })
      ≡ line_found (after_comments lines) last
unfolding skip_comments getline after_comments
skip_comments-line_found zero line lines last h = absurd (omega (arith, h))
skip_comments-line_found (suc rounds) line [] last h = elim (Bool-cases (is_comment last)) [
  | inl comment ↦ rw comment (at_end rounds last [] [] comment)
  | inr text ↦ rw text refl
]
skip_comments-line_found (suc rounds) line (next ∷ lines) last h =
    elim (Bool-cases (is_comment next)) [
      | inl comment ↦
          rw comment (skip_comments-line_found rounds next lines last (omega (arith, h)))
      | inr text ↦ rw text refl
    ]

-- The request of the first of these lines, and the file after it.
abbrev pub first_request : List (List ℕ) → List ℕ → Result (Option TraceRequest × TraceFile)
first_request [] last =
    if is_comment last
    then err out_of_fuel
    else ok (none, record { lines = []; last = []; eof = true })
first_request (line ∷ lines) last =
    parse_line line >>= λ req. ok (some req, record { lines = lines; last = last; eof = false })

-- With any number of rounds beyond the number of lines, the reader takes the first line that is no
-- comment, as `parse_line` reads it, and leaves the lines behind it. Where every line is a comment it
-- answers that there is no request, whatever text without a newline stands at the end; but if that
-- text is a comment, the loop does not end within any such number of rounds.
pub get_dram_trace_request-reads :
    (rounds : ℕ) (lines : List (List ℕ)) (last : List ℕ)
    → length lines < rounds
    → get_dram_trace_request rounds (record { lines = lines; last = last; eof = false })
      ≡ first_request (after_comments lines) last
unfolding get_dram_trace_request
get_dram_trace_request-reads rounds lines last h =
    ap
      (λ r. r >>= λ (line, g).
        let request = parse_line line in
        if g.eof then ok (none, g) else (request >>= λ req. ok (some req, g)))
      (skip_comments-line_found rounds [] lines last h)
    ∙ by_lines (after_comments lines)
  where
    by_lines :
        (found : List (List ℕ))
        → (line_found found last >>= λ (line, g).
            let request = parse_line line in
            if g.eof then ok (none, g) else (request >>= λ req. ok (some req, g)))
          ≡ first_request found last
    by_lines [] = elim (Bool-cases (is_comment last)) [
      | inl comment ↦ rw comment refl
      | inr text ↦ rw text refl
    ]
    by_lines (line ∷ rest) = refl
