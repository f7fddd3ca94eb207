-- ===== src/Mask.antt =====
-- src/commands/mask.rs: code, quotations and HTML comments become spaces of the same byte length.
pub mod Blanking
pub mod Inline
pub mod Masked
pub mod Openers
pub mod Hidden
pub mod Fuel
pub mod Tests
use xero_bot.Prelude.{
  ℕ, List, length, Bool, ◌++◌, Option, all, ◌∷◌, [], false, none, if◌then◌else◌, suc, ◌==◌, some,
  ◌+◌, not, true, zero, ◌||◌, ◌&&◌, leb,
}
use xero_bot.Text.{
  Text, codes, take_while, is_whitespace, text_eq, starts_with, len_utf8, strip_prefix,
}

-- `s.trim().is_empty()`
unfoldable pub is_blank : Text → Bool
is_blank s = all is_whitespace s

unfoldable pub trim_start : Text → Text
trim_start s = (take_while is_whitespace s).1

unfoldable pub spaces : ℕ → Text
spaces zero = []
spaces (suc n) = 32 ∷ spaces n

-- `blank_into`: a space for each byte, line feeds stay
unfoldable pub blank : Text → Text
unfolding spaces
blank [] = []
blank (c ∷ cs) = if c == 10 then 10 ∷ blank cs else spaces (len_utf8 c) ++ blank cs

abbrev pub Line : Type 0
Line = Text × Bool

unfoldable pub add_char : ℕ → List Line → List Line
add_char c [] = (c ∷ [], false) ∷ []
add_char c ((body, ended) ∷ ls) = (c ∷ body, ended) ∷ ls

-- `split_inclusive('\n')`: each line's body, with whether a line feed ends it
unfoldable pub lines_of : Text → List Line
unfolding add_char
lines_of [] = []
lines_of (c ∷ cs) = let ls = lines_of cs in if c == 10 then ([], true) ∷ ls else add_char c ls

-- `fence_delimiter`: the fence character, the length of its run, and the text after it
unfoldable pub fence_delimiter : Text → Option (ℕ × ℕ × Text)
fence_delimiter [] = none
fence_delimiter (c ∷ cs) =
    let r = take_while (λ d. d == c) (c ∷ cs) in
    if (c == b'`' || c == b'~') && leb 3 (length r.0) then some (c, length r.0, r.1) else none

unfoldable pub is_indented_code : Text → Bool
is_indented_code body =
    not (is_blank body) && (starts_with body (9 ∷ []) || starts_with body (codes "    "))

-- The variables of the loop over lines.
pub record Lines : Type 0 where
  pub fence : Option (ℕ × ℕ)
  pub prev_line_blank : Bool
  pub indented : Bool

-- whether a line closes the open fence
unfoldable pub closes : ℕ × ℕ → Option (ℕ × ℕ × Text) → Bool
closes (fc, fl) none = false
closes (fc, fl) (some (c, n, after)) = c == fc && leb fl n && is_blank after

-- The `if` chain for a line outside a fence: whether to mask it, and the variables after it.
unfoldable pub open_line : Option (ℕ × ℕ × Text) → Lines → Text → Bool × Lines
open_line (some (c, n, after)) st body = (true, record st { fence = some (c, n) })
open_line none st body =
    let trimmed = trim_start body in
    if starts_with trimmed (codes ">")
    then (true, st)
    else if (st.prev_line_blank || st.indented) && is_indented_code body
    then (true, record st { indented = true })
    else if not (text_eq trimmed [])
    then (false, record st { indented = false })
    else (false, st)

unfoldable pub fence_line : Option (ℕ × ℕ) → Lines → Text → Bool × Lines
fence_line (some f) st body =
    (true, if closes f (fence_delimiter (trim_start body)) then record st { fence = none } else st)
fence_line none st body = open_line (fence_delimiter (trim_start body)) st body

-- a line, with `prev_line_blank` for the next one
unfoldable pub mask_line : Lines → Text → Bool × Lines
mask_line st body =
    let (masked, st') = fence_line st.fence st body in
    (
      masked,
      record st' { prev_line_blank = if masked then false else text_eq (trim_start body) [] },
    )

abbrev pub line_end : Bool → Text → Text
line_end true rest = 10 ∷ rest
line_end false rest = rest

unfoldable pub mask_lines : Lines → List Line → Text
mask_lines st [] = []
mask_lines st ((body, ended) ∷ ls) =
    let (masked, st') = mask_line st body in
    (if masked then blank body else body) ++ line_end ended (mask_lines st' ls)

abbrev pub not_tick : ℕ → Bool
not_tick c = not (c == b'`')

abbrev pub is_tick : ℕ → Bool
is_tick c = c == b'`'

-- `find_closing_run`: what stands before the first run of exactly n backticks, and after it
unfoldable pub closing_run : ℕ → ℕ → Text → Option (Text × Text)
closing_run zero n s = none
closing_run (suc fuel) n s =
    let before = take_while not_tick s in
    let run = take_while is_tick before.1 in
    let later = closing_run fuel n run.1 in
    if text_eq run.0 []
    then none
    else if length run.0 == n
    then some (before.0, run.1)
    else (elim later [ none ↦ none | some (b, a) ↦ some (before.0 ++ (run.0 ++ b), a) ])

-- the text of a code span, between runs of the same length
unfoldable pub code_span : Text → Text → Text
code_span ticks content = ticks ++ (content ++ ticks)

-- `mask_inline_code`
unfoldable pub mask_inline : ℕ → Text → Text
mask_inline zero s = s
mask_inline (suc fuel) s =
    let before = take_while not_tick s in
    let run = take_while is_tick before.1 in
    let unmatched = mask_inline fuel run.1 in
    if text_eq run.0 []
    then s
    else before.0 ++ (elim (closing_run (length run.1 + 1) (length run.0) run.1) [
      | some (content, after) ↦ blank (code_span run.0 content) ++ mask_inline fuel after
      | none ↦ run.0 ++ unmatched
    ])

unfoldable pub inline_code : Text → Text
inline_code s = mask_inline (length s + 1) s

-- The loop over paragraphs; `paragraph` is the text since the last blank line.
unfoldable pub mask_paragraphs : Text → List Line → Text
mask_paragraphs paragraph [] = inline_code paragraph
mask_paragraphs paragraph ((body, ended) ∷ ls) =
    let flush = inline_code paragraph ++ (body ++ line_end ended (mask_paragraphs [] ls)) in
    let more = mask_paragraphs (paragraph ++ (body ++ line_end ended [])) ls in
    if is_blank body then flush else more

-- `find(pattern)` as a split: what stands before the pattern's first place, and after it
unfoldable pub split_at : Text → Text → Option (Text × Text)
split_at pattern [] = none
split_at pattern (c ∷ cs) =
    let later = split_at pattern cs in
    elim (strip_prefix pattern (c ∷ cs)) [
      | some rest ↦ some ([], rest)
      | none ↦ elim later [ none ↦ none | some (b, a) ↦ some (c ∷ b, a) ]
    ]

abbrev pub comment_open : Text
comment_open = codes "<!--"

abbrev pub comment_close : Text
comment_close = codes "-->"

-- `mask_html_comments`
unfoldable pub mask_html : ℕ → Text → Text
mask_html zero s = s
mask_html (suc fuel) s = elim (split_at comment_open s) [
  | none ↦ s
  | some (before, content) ↦ before ++ (elim (split_at comment_close content) [
    | none ↦ blank (comment_open ++ content)
    | some (inner, after) ↦ blank (comment_open ++ (inner ++ comment_close)) ++ mask_html fuel after
  ])
]

-- `mask_noncommand_regions`
unfoldable pub mask : Text → Text
unfolding mask_lines mask_line fence_line open_line closes is_indented_code fence_delimiter lines_of
    blank is_blank trim_start mask_paragraphs inline_code mask_inline code_span closing_run
    mask_html split_at is_whitespace take_while text_eq starts_with strip_prefix len_utf8
mask text =
    let out =
      mask_lines (record { fence = none; prev_line_blank = true; indented = false })
        (lines_of text) in
    let inline = mask_paragraphs [] (lines_of out) in mask_html (length inline + 1) inline
