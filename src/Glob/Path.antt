-- ===== src/Glob/Path.antt =====
-- The table of `path_matches` (src/path_triggers.rs) against the meaning of `**` in a path.
use xero_bot.Glob.Segment.{Splits, segment_matches_iff}
use xero_bot.Glob.Rows.{RowOf, RowOf-head, RowOf-tail, RowOf-nth}
use xero_bot.Glob.{
  path_row, path_rows, CompiledGlob, path_matches, [], GlobSegment, GlobPiece, true, last_cell,
  any_depth, ◌∷◌, tail, false, segment_matches, pieces,
}
use xero_bot.Prelude.{
  Bool, List, [], ◌≡◌, ◌∷◌, true, ◌↔◌, ◌&&◌, ◌||◌, false, refl, and-true_inv, arith,
}
use xero_bot.Text.{Text}

module _ {Pattern : Type 0} (matches : Pattern → Text → Bool) where
  -- A path is read segment by segment; a `**` stands for any number of whole segments.
  pub data Fits : CompiledGlob Pattern → List Text → Type 0 where
    end : Fits [] []
    none_left :
        {gs : CompiledGlob Pattern} {paths : List Text}
        → Fits gs paths
        → Fits (any_depth ∷ gs) paths
    one_more :
        {gs : CompiledGlob Pattern} {p : Text} {paths : List Text}
        → Fits (any_depth ∷ gs) paths
        → Fits (any_depth ∷ gs) (p ∷ paths)
    segment :
        {ps : List (GlobPiece Pattern)} {gs : CompiledGlob Pattern} {p : Text} {paths : List Text}
        → Splits matches false ps p
        → Fits gs paths
        → Fits (pieces ps ∷ gs) (p ∷ paths)

  last_cell-RowOf : (paths : List Text) → RowOf (Fits []) paths (last_cell paths)
  last_cell-RowOf [] = (λ _. end, λ _. refl)
  last_cell-RowOf (p ∷ paths) = ((λ h. cc, λ m. elim m [ ]), last_cell-RowOf paths)

  depth_cell :
      (gs : CompiledGlob Pattern) (p : Text) (paths : List Text) (here there : Bool)
      → (here ≡ true) ↔ Fits gs (p ∷ paths)
      → (there ≡ true) ↔ Fits (any_depth ∷ gs) paths
      → ((here || there) ≡ true) ↔ Fits (any_depth ∷ gs) (p ∷ paths)
  depth_cell gs p paths true there h k = (λ _. none_left (h.0 refl), λ _. refl)
  depth_cell gs p paths false there h k =
      (λ e. one_more (k.0 e), λ m. elim m [ none_left f ↦ cc (h.1 f) | one_more f ↦ k.1 f ])

  segment_cell :
      (ps : List (GlobPiece Pattern)) (gs : CompiledGlob Pattern) (p : Text) (paths : List Text)
      (there : Bool)
      → (there ≡ true) ↔ Fits gs paths
      → ((there && segment_matches matches ps p) ≡ true) ↔ Fits (pieces ps ∷ gs) (p ∷ paths)
  segment_cell ps gs p paths there k =
      let s = segment_matches_iff matches ps p in
      (
        λ e.
            let both = and-true_inv there (segment_matches matches ps p) e in
            segment (s.0 both.1) (k.0 both.0),
        λ m. elim m [ segment t f ↦ rw (k.1 f) (s.1 t) ],
      )

  path_row-RowOf :
      (g : GlobSegment Pattern) (gs : CompiledGlob Pattern) (paths : List Text) (next : List Bool)
      → RowOf (Fits gs) paths next
      → RowOf (Fits (g ∷ gs)) paths (path_row matches g paths next)
  unfolding path_row
  path_row-RowOf any_depth gs [] next h =
      let i = RowOf-head (Fits gs) [] next h in
      (λ e. none_left (i.0 e), λ m. elim m [ none_left f ↦ i.1 f ])
  path_row-RowOf any_depth gs (p ∷ paths) next h =
      let ih =
        path_row-RowOf any_depth gs paths (tail next) (RowOf-tail (Fits gs) p paths next h) in
      (
        depth_cell gs p paths _ _ (RowOf-head (Fits gs) (p ∷ paths) next h)
            (RowOf-head (Fits (any_depth ∷ gs)) paths _ ih),
        ih,
      )
  path_row-RowOf (pieces ps) gs [] next h = (λ e. cc, λ m. elim m [ ])
  path_row-RowOf (pieces ps) gs (p ∷ paths) next h =
      let t = RowOf-tail (Fits gs) p paths next h in
      (
        segment_cell ps gs p paths _ (RowOf-nth (Fits gs) 1 (p ∷ paths) next h (omega arith)),
        path_row-RowOf (pieces ps) gs paths (tail next) t,
      )

  path_rows-RowOf :
      (gs : CompiledGlob Pattern) (paths : List Text)
      → RowOf (Fits gs) paths (path_rows matches gs paths)
  unfolding path_rows
  path_rows-RowOf [] paths = last_cell-RowOf paths
  path_rows-RowOf (g ∷ gs) paths = path_row-RowOf g gs paths _ (path_rows-RowOf gs paths)

  -- Whatever the pattern package answers, the table says that a path matches exactly when its
  -- segments fit the glob's in order, each `**` standing for any number of segments.
  pub path_matches_iff :
      (gs : CompiledGlob Pattern) (paths : List Text)
      → (path_matches matches gs paths ≡ true) ↔ Fits gs paths
  unfolding path_matches
  path_matches_iff gs paths = RowOf-head (Fits gs) paths _ (path_rows-RowOf gs paths)
