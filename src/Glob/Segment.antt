-- ===== src/Glob/Segment.antt =====
-- The table of `segment_matches` (src/path_triggers.rs) against the meaning of the stars in a segment.
use xero_bot.Glob.Rows.{
  RowOf, RowOf-nth, drop-append, take-drop, RowOf-head, length-take, RowOf-tail,
}
use xero_bot.Prelude.{
  drop, Bool, List, ℕ, take, true, ◌≡◌, [], ◌∷◌, ◌≤◌, length, sym, ◌++◌, ◌↔◌, arith, refl,
  length-append, and-true_inv, leb, take-append, false, leb→le, le→leb, ◌||◌, ◌&&◌,
}
use xero_bot.Glob.{
  GlobPiece, true, take, [], length, last_cell, cell, leb, nth, false, segment_matches,
  segment_rows, segment_row, tail,
}
use xero_bot.Text.{Text}

module _ {Pattern : Type 0} (matches : Pattern → Text → Bool) where
  -- A segment's text is read piece by piece; before a piece that is not the first, and then only,
  -- a star may stand for any characters.
  pub data Splits : Bool → List (GlobPiece Pattern) → Text → Type 0 where
    end : {further : Bool} {path : Text} → path ≡ [] → Splits further [] path
    piece :
        {further : Bool} {p : GlobPiece Pattern} {ps : List (GlobPiece Pattern)} {path : Text}
        (w rest : Text)
        → path ≡ w ++ rest
        → length w ≡ p.width
        → matches p.pattern w ≡ true
        → Splits true ps rest
        → Splits further (p ∷ ps) path
    skip :
        {further : Bool} {p : GlobPiece Pattern} {ps : List (GlobPiece Pattern)} {c : ℕ}
        {path : Text}
        → further ≡ true
        → Splits further (p ∷ ps) path
        → Splits further (p ∷ ps) (c ∷ path)

  last_cell-RowOf : (further : Bool) (path : Text) → RowOf (Splits further []) path (last_cell path)
  last_cell-RowOf further [] = (λ _. end refl, λ _. refl)
  last_cell-RowOf further (c ∷ cs) =
      ((λ h. cc, λ m. elim m [ end e ↦ cc ]), last_cell-RowOf further cs)

  -- a piece that stands here
  abbrev Here : GlobPiece Pattern → List (GlobPiece Pattern) → Text → Type 0
  Here p ps path =
      (p.width ≤ length path)
      × (matches p.pattern (take p.width path) ≡ true)
      × Splits true ps (drop p.width path)

  Here-Splits :
      (further : Bool) (p : GlobPiece Pattern) (ps : List (GlobPiece Pattern)) (path : Text)
      → Here p ps path
      → Splits further (p ∷ ps) path
  Here-Splits further p ps path h =
      piece (take p.width path) (drop p.width path) (sym (take-drop p.width path))
        (length-take p.width path h.0) h.1 h.2

  piece-Here :
      (p : GlobPiece Pattern) (ps : List (GlobPiece Pattern)) (path w rest : Text)
      → path ≡ w ++ rest
      → length w ≡ p.width
      → matches p.pattern w ≡ true
      → Splits true ps rest
      → Here p ps path
  piece-Here p ps path w rest e l m s = rw e (
      rw (sym l)
        (omega (arith, length-append w rest), rw (take-append w rest) m, rw (drop-append w rest) s))

  cell_iff :
      (p : GlobPiece Pattern) (ps : List (GlobPiece Pattern)) (path : Text) (next : List Bool)
      → RowOf (Splits true ps) path next
      → (cell matches p path next ≡ true) ↔ Here p ps path
  cell_iff p ps path next h = (
    λ e.
        let parts = and-true_inv (leb p.width (length path)) _ e in
        let cells = and-true_inv (nth false p.width next) _ parts.1 in
        let fits = leb→le p.width (length path) parts.0 in
        (fits, cells.1, (RowOf-nth (Splits true ps) p.width path next h fits).0 cells.0),
    λ k.
        let here = (RowOf-nth (Splits true ps) p.width path next h k.0).1 k.2 in
        rw (le→leb p.width (length path) k.0) (rw here k.1),
  )

  segment_row_cell :
      (further : Bool) (p : GlobPiece Pattern) (ps : List (GlobPiece Pattern)) (c : ℕ) (cs : Text)
      (here there : Bool)
      → (here ≡ true) ↔ Here p ps (c ∷ cs)
      → (there ≡ true) ↔ Splits further (p ∷ ps) cs
      → ((here || (further && there)) ≡ true) ↔ Splits further (p ∷ ps) (c ∷ cs)
  segment_row_cell further p ps c cs true there h k =
      (λ _. Here-Splits further p ps (c ∷ cs) (h.0 refl), λ _. refl)
  segment_row_cell further p ps c cs false there h k = (
    λ e. let both = and-true_inv further there e in skip both.0 (k.0 both.1),
    λ m. elim m [
      | piece w rest e l t s ↦ cc (h.1 (piece-Here p ps (c ∷ cs) w rest e l t s))
      | skip f s ↦ rw f (k.1 s)
    ],
  )

  segment_row-RowOf :
      (further : Bool) (p : GlobPiece Pattern) (ps : List (GlobPiece Pattern)) (path : Text)
      (next : List Bool)
      → RowOf (Splits true ps) path next
      → RowOf (Splits further (p ∷ ps)) path (segment_row matches further p path next)
  unfolding segment_row
  segment_row-RowOf further p ps [] next h =
      let i = cell_iff p ps [] next h in
      (
        λ e. Here-Splits further p ps [] (i.0 e),
        λ m. elim m [ piece w rest e l t s ↦ i.1 (piece-Here p ps [] w rest e l t s) ],
      )
  segment_row-RowOf further p ps (c ∷ cs) next h =
      let ih =
        segment_row-RowOf further p ps cs (tail next) (RowOf-tail (Splits true ps) c cs next h) in
      (
        segment_row_cell further p ps c cs _ _ (cell_iff p ps (c ∷ cs) next h)
            (RowOf-head (Splits further (p ∷ ps)) cs _ ih),
        ih,
      )

  segment_rows-RowOf :
      (further : Bool) (ps : List (GlobPiece Pattern)) (path : Text)
      → RowOf (Splits further ps) path (segment_rows matches further ps path)
  unfolding segment_rows
  segment_rows-RowOf further [] path = last_cell-RowOf further path
  segment_rows-RowOf further (p ∷ ps) path =
      segment_row-RowOf further p ps path _ (segment_rows-RowOf true ps path)

  -- Whatever the pattern package answers, the table says that a segment matches exactly when its
  -- text splits into the pieces in order, with any characters before each piece but the first.
  pub segment_matches_iff :
      (ps : List (GlobPiece Pattern)) (path : Text)
      → (segment_matches matches ps path ≡ true) ↔ Splits false ps path
  unfolding segment_matches
  segment_matches_iff ps path =
      RowOf-head (Splits false ps) path _ (segment_rows-RowOf false ps path)
