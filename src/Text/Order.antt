-- ===== src/Text/Order.antt =====
-- The order of strings, and `sort` and `dedup` of a vector of them.
-- the order of strings: by bytes, which is by code points
use xero_bot.Prelude.{List, Bool, ◌∷◌, if◌then◌else◌, false, [], true, ltb, ◌||◌, ◌==◌, ◌&&◌}
use xero_bot.Text.{Text, text_eq}

unfoldable pub text_lt : Text → Text → Bool
text_lt s [] = false
text_lt [] (c ∷ t) = true
text_lt (c ∷ s) (d ∷ t) = ltb c d || (c == d && text_lt s t)

unfoldable pub insert_text : Text → List Text → List Text
insert_text s [] = s ∷ []
insert_text s (t ∷ ts) =
    let further = t ∷ insert_text s ts in if text_lt t s then further else s ∷ t ∷ ts

-- `sort()` of strings
unfoldable pub sort_texts : List Text → List Text
unfolding insert_text text_lt
sort_texts [] = []
sort_texts (s ∷ ss) = insert_text s (sort_texts ss)

-- `dedup()`
unfoldable pub dedup : List Text → List Text
dedup [] = []
dedup (s ∷ []) = s ∷ []
dedup (s ∷ t ∷ ts) = let rest = dedup (t ∷ ts) in if text_eq s t then rest else s ∷ rest
