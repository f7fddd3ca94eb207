-- ===== src/Suggest.antt =====
-- The suggestion for a mistyped verb: `suggest` and `edit_distance` of src/commands/diag.rs.
use xero_bot.Command.{word_aliases}
use xero_bot.Prelude.{
  ℕ, if◌then◌else◌, List, Option, length, [], Bool, ◌∷◌, none, ◌+◌, ◌≡◌, ◌==◌, min, true, leb, some,
  suc, refl, ◌&&◌, zero, ltb,
}
use xero_bot.Text.{Text, codes}

-- `usize::from(ca != cb)`
abbrev pub cost : ℕ → ℕ → ℕ
cost a b = if a == b then 0 else 1

-- One entry after another of the current row: `left` is `cur[j]`, and the list is `prev` from `j` on.
unfoldable pub fill_row : ℕ → ℕ → List ℕ → Text → List ℕ
fill_row ca left (p ∷ q ∷ prev) (cb ∷ bs) =
    let d = min (min (p + cost ca cb) (q + 1)) (left + 1) in d ∷ fill_row ca d (q ∷ prev) bs
fill_row ca left _ _ = []

-- the loop over `a`, with the index of its next character
unfoldable pub rows : ℕ → List ℕ → Text → Text → List ℕ
unfolding fill_row
rows i prev [] b = prev
rows i prev (ca ∷ a) b = rows (i + 1) ((i + 1) ∷ fill_row ca (i + 1) prev b) a b

-- `(from..).take(n)`
unfoldable pub count_up : ℕ → ℕ → List ℕ
count_up from zero = []
count_up from (suc n) = from ∷ count_up (from + 1) n

unfoldable pub last_or : ℕ → List ℕ → ℕ
last_or d [] = d
last_or d (x ∷ xs) = last_or x xs

unfoldable pub edit_distance : Text → Text → ℕ
unfolding rows count_up last_or
edit_distance [] b = length b
edit_distance a [] = length a
edit_distance a b = last_or 0 (rows 0 (count_up 0 (length b + 1)) a b)

-- whether the distance is below the best one so far
abbrev pub improves : ℕ → Option (ℕ × Text) → Bool
improves d none = true
improves d (some (bd, v)) = ltb d bd

unfoldable pub suggest_from : Text → Option (ℕ × Text) → List Text → Option (ℕ × Text)
unfolding edit_distance
suggest_from w best [] = best
suggest_from w best (v ∷ vs) =
    let d = edit_distance w v in
    suggest_from w (if leb d 2 && improves d best then some (d, v) else best) vs

unfoldable pub suggest : Text → Option Text
unfolding suggest_from
suggest w = elim (suggest_from w none word_aliases) [ none ↦ none | some (d, v) ↦ some v ]

suggests_the_obvious_typo : suggest (codes "reviwe") ≡ some (codes "review")
unfolding suggest
suggests_the_obvious_typo = refl

no_suggestion_for_unrelated_words : suggest (codes "thanks") ≡ none
unfolding suggest
no_suggestion_for_unrelated_words = refl
