-- ===== src/Glob.antt =====
-- src/path_triggers.rs: the path globs of a rule, their compilation and their two dynamic-programming
-- matchers. A row of the table is a list of Booleans, aligned with the suffixes of what is matched:
-- `row[start]` is the head of the row at the suffix from `start`.
pub mod Rows
pub mod Segment
pub mod Path
pub mod Compiled
pub mod Rules
pub mod Safe
pub mod Matched
pub mod Tests
use xero_bot.Parser.Args.{is_empty}
use xero_bot.Text.{Text, codes, text_eq, mem_char, starts_with}
use xero_bot.Policy.{Domain, ok, refused, invalid_rule}
use xero_bot.Prelude.{
  none, some, ℕ, List, ◌∷◌, Option, Bool, false, ◌==◌, if◌then◌else◌, suc, true, reverse, all, not,
  [], leb, ◌||◌, ◌++◌, zero, length, ◌&&◌, take, any,
}

abbrev pub nth {ℓ} : {A : Type ℓ} → A → ℕ → List A → A
nth d n [] = d
nth d zero (x ∷ xs) = x
nth d (suc n) (x ∷ xs) = nth d n xs

abbrev pub tail {ℓ} : {A : Type ℓ} → List A → List A
tail [] = []
tail (x ∷ xs) = xs

-- `vec![false; count + 1]` with the last cell set
abbrev pub last_cell {ℓ} : {A : Type ℓ} → List A → List Bool
last_cell [] = true ∷ []
last_cell (x ∷ xs) = false ∷ last_cell xs

-- the pieces of a text between the separators
unfoldable pub split : ℕ → Text → List Text
split sep [] = [] ∷ []
split sep (c ∷ cs) =
    let rest = split sep cs in if c == sep then [] ∷ rest else (c ∷ nth [] 0 rest) ∷ tail rest

-- `segment.contains("**")`
abbrev pub has_two_stars : Text → Bool
has_two_stars (c ∷ d ∷ cs) = (c == b'*' && d == b'*') || has_two_stars (d ∷ cs)
has_two_stars _ = false

abbrev pub is_dots : Text → Bool
is_dots segment =
    text_eq segment (codes ".") || (text_eq segment (codes "..") || text_eq segment [])

abbrev pub is_bracket : ℕ → Bool
is_bracket c = mem_char c (codes "!{}[]")

abbrev pub any_depth_text : Text
any_depth_text = codes "**"

unfoldable pub valid_segments : List Text → Bool
valid_segments segments = all (λ s. text_eq s any_depth_text || not (has_two_stars s)) segments

-- the last disjunct of the first test, then the last lines of `valid_glob`
unfoldable pub valid_glob : Text → Bool
valid_glob pattern =
    if is_empty pattern
      || (starts_with pattern (codes "/")
          || (mem_char b'\\' pattern
              || (mem_char 0 pattern
                  || (any is_dots (split b'/' pattern) || any is_bracket pattern))))
    then false
    else valid_segments (split b'/' pattern)

unfoldable pub valid_repo_path : Text → Bool
valid_repo_path path =
    not (is_empty path)
    && (not (starts_with path (codes "/"))
        && (not (mem_char b'\\' path)
            && (not (mem_char 0 path) && not (any is_dots (split b'/' path)))))

-- `glob::Pattern` is another package's: the type, `Pattern::new` and `Pattern::matches` are parameters.
pub record GlobPiece (Pattern : Type 0) : Type 0 where
  pub pattern : Pattern
  pub width : ℕ

pub data GlobSegment (Pattern : Type 0) : Type 0 where
  any_depth : GlobSegment Pattern
  pieces : List (GlobPiece Pattern) → GlobSegment Pattern

abbrev pub CompiledGlob : Type 0 → Type 0
CompiledGlob Pattern = List (GlobSegment Pattern)

module _ {Pattern : Type 0} (pattern_new : Text → Option Pattern) where
  -- the pieces of a segment, collected into a `Result`
  unfoldable pub compile_pieces : List Text → Domain (List (GlobPiece Pattern))
  compile_pieces [] = ok []
  compile_pieces (piece ∷ texts) = elim (pattern_new piece) [
    | none ↦ refused invalid_rule
    | some p ↦ elim (compile_pieces texts) [
      | refused e ↦ refused e
      | ok rest ↦ ok (record { pattern = p; width = length piece } ∷ rest)
    ]
  ]

  abbrev pub ends_in_depth : CompiledGlob Pattern → Bool
  ends_in_depth segments = elim (reverse segments) [ any_depth ∷ _ ↦ true | _ ↦ false ]

  unfoldable pub push_depth : CompiledGlob Pattern → CompiledGlob Pattern
  push_depth segments = if ends_in_depth segments then segments else segments ++ any_depth ∷ []

  -- the body of the loop of `compile_glob`
  unfoldable pub compile_segment : CompiledGlob Pattern → Text → Domain (CompiledGlob Pattern)
  unfolding compile_pieces push_depth split
  compile_segment segments text =
      if text_eq text any_depth_text
      then ok (push_depth segments)
      else (elim (compile_pieces (split b'*' text)) [
        | refused e ↦ refused e
        | ok ps ↦ ok (segments ++ pieces ps ∷ [])
      ])

  unfoldable pub compile_segments : CompiledGlob Pattern → List Text → Domain (CompiledGlob Pattern)
  unfolding compile_segment
  compile_segments segments [] = ok segments
  compile_segments segments (text ∷ texts) = elim (compile_segment segments text) [
    | refused e ↦ refused e
    | ok more ↦ compile_segments more texts
  ]

  unfoldable pub compile_glob : Text → Domain (CompiledGlob Pattern)
  unfolding valid_glob valid_segments compile_segments split
  compile_glob pattern =
      if valid_glob pattern then compile_segments [] (split b'/' pattern) else refused invalid_rule

module _ {Pattern : Type 0} (matches : Pattern → Text → Bool) where
  -- `end <= count && next[end] && matches(..)`, at the suffix that starts at `start`
  abbrev pub cell : GlobPiece Pattern → Text → List Bool → Bool
  cell piece path next =
      leb piece.width (length path)
      && (nth false piece.width next && matches piece.pattern (take piece.width path))

  -- the loop over `start`: a piece but the first may stand further on
  unfoldable pub segment_row : Bool → GlobPiece Pattern → Text → List Bool → List Bool
  segment_row further piece [] next = cell piece [] next ∷ []
  segment_row further piece (c ∷ cs) next =
      let rest = segment_row further piece cs (tail next) in
      (cell piece (c ∷ cs) next || (further && nth false 0 rest)) ∷ rest

  -- the loop over the pieces, from the last one
  unfoldable pub segment_rows : Bool → List (GlobPiece Pattern) → Text → List Bool
  unfolding segment_row
  segment_rows further [] path = last_cell path
  segment_rows further (p ∷ ps) path = segment_row further p path (segment_rows true ps path)

  unfoldable pub segment_matches : List (GlobPiece Pattern) → Text → Bool
  unfolding segment_rows
  segment_matches ps path = nth false 0 (segment_rows false ps path)

  unfoldable pub path_row : GlobSegment Pattern → List Text → List Bool → List Bool
  unfolding segment_matches
  path_row any_depth [] next = nth false 0 next ∷ []
  path_row any_depth (p ∷ ps) next =
      let rest = path_row any_depth ps (tail next) in (nth false 0 next || nth false 0 rest) ∷ rest
  path_row (pieces gs) [] next = false ∷ []
  path_row (pieces gs) (p ∷ ps) next =
      let rest = path_row (pieces gs) ps (tail next) in
      (nth false 1 next && segment_matches gs p) ∷ rest

  unfoldable pub path_rows : CompiledGlob Pattern → List Text → List Bool
  unfolding path_row
  path_rows [] paths = last_cell paths
  path_rows (g ∷ gs) paths = path_row g paths (path_rows gs paths)

  unfoldable pub path_matches : CompiledGlob Pattern → List Text → Bool
  unfolding path_rows
  path_matches gs paths = nth false 0 (path_rows gs paths)
