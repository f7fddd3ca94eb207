-- ===== src/Mask/Hidden.antt =====
-- The comments that `mask_html_comments` (src/commands/mask.rs) hides, from their openers to their closers.
use xero_bot.Prelude.{
  ℕ, ◌∷◌, ◌≢◌, All, ◌<◌, ◌≡◌, ◌++◌, Option, length, [], ◌⊎◌, ◌≤◌, ◌+◌, some, if_cases, arith, none,
  ==_refl, refl, ◌==◌, ap, true, inl, subst, zero, false, length-append, inr,
}
use xero_bot.Mask.{
  mask, blank, mask_lines, mask_html, split_at, spaces, ◌∷◌, mask_paragraphs, comment_open, Option,
  length, none, comment_close, lines_of, suc, some, true, len_utf8, false,
}
use xero_bot.Text.{Text, strip_prefix, len_utf8}
use xero_bot.Mask.Masked.{Found, split_at-Found}
use xero_bot.Mask.Openers.{mask_html-Without, Without-append, Without}
use xero_bot.Mask.Blanking.{Blanking, blank-Blanking}

-- the pattern stands nowhere in the text
abbrev pub Absent : Text → Text → Type 0
Absent p s = (before after : Text) → s ≢ before ++ (p ++ after)

-- no place of the pattern in the text is before the end of this beginning of it
abbrev pub IsFirst : Text → Text → Text → Type 0
IsFirst p s start =
    (before after : Text) → s ≡ before ++ (p ++ after) → length start ≤ length before

-- The text is blanked in place, and nothing but spaces and line feeds is left of it.
abbrev pub Blanked : Text → Text → Type 0
Blanked s void = Blanking s void × All (λ c. (c ≡ 32) ⊎ (c ≡ 10)) void

-- `out` is `s` with its comments blanked: the text before the first opener stays, a comment goes from the
-- opener to the first closer after it, or to the end if there is none, and so on behind the closer.
pub data Hides : Text → Text → Type 0 where
  visible : {s : Text} → Absent comment_open s → Hides s s
  unclosed :
      {s : Text} (before content : Text) {void : Text}
      → s ≡ before ++ (comment_open ++ content)
      → IsFirst comment_open s before
      → Absent comment_close content
      → Blanked (comment_open ++ content) void
      → Hides s (before ++ void)
  closed :
      {s : Text} (before content inner after : Text) {void out : Text}
      → s ≡ before ++ (comment_open ++ content)
      → IsFirst comment_open s before
      → content ≡ inner ++ (comment_close ++ after)
      → IsFirst comment_close content inner
      → Blanked (comment_open ++ (inner ++ comment_close)) void
      → Hides after out
      → Hides s (before ++ (void ++ out))

strip_prefix_self : (p a : Text) → strip_prefix p (p ++ a) ≡ some a
unfolding strip_prefix
strip_prefix_self [] a = refl
strip_prefix_self (c ∷ p) a = rw (==_refl c) (strip_prefix_self p a)

-- What a split says of the pattern's places: there is none, or none before the split.
abbrev Place : Text → Text → Option (Text × Text) → Type 0
Place p s none = Absent p s
Place p s (some (b, a)) = IsFirst p s b

abbrev rest_of : Text → Text
rest_of [] = []
rest_of (c ∷ s) = s

Absent-later : (p s : Text) (c : ℕ) → strip_prefix p (c ∷ s) ≡ none → Absent p s → Absent p (c ∷ s)
Absent-later p s c e h [] after k = cc (e, ap (strip_prefix p) k, strip_prefix_self p after)
Absent-later p s c e h (d ∷ before) after k = h before after (ap rest_of k)

IsFirst-later :
    (p s b : Text) (c : ℕ)
    → strip_prefix p (c ∷ s) ≡ none
    → IsFirst p s b
    → IsFirst p (c ∷ s) (c ∷ b)
IsFirst-later p s b c e h [] after k =
    absurd (cc (e, ap (strip_prefix p) k, strip_prefix_self p after))
IsFirst-later p s b c e h (d ∷ before) after k = omega (arith, h before after (ap rest_of k))

Place-later :
    (p s : Text) (c : ℕ) (o : Option (Text × Text))
    → strip_prefix p (c ∷ s) ≡ none
    → Place p s o
    → Place p (c ∷ s) (elim o [ none ↦ none | some (b, a) ↦ some (c ∷ b, a) ])
Place-later p s c none e h = Absent-later p s c e h
Place-later p s c (some (b, a)) e h = IsFirst-later p s b c e h

Place-here :
    (p s : Text) (o : Option Text) (later : Option (Text × Text))
    → (o ≡ none → Place p s later)
    → Place p s (elim o [ some rest ↦ some ([], rest) | none ↦ later ])
Place-here p s none later h = h refl
Place-here p s (some rest) later h = λ before after k. omega arith

split_at-Place : (p s : Text) → 0 < length p → Place p s (split_at p s)
unfolding split_at
split_at-Place p [] n = λ before after k.
    omega (arith, n, ap length k, length-append before (p ++ after), length-append p after)
split_at-Place p (c ∷ s) n =
    Place-here p (c ∷ s) (strip_prefix p (c ∷ s)) _
      (λ e. Place-later p s c (split_at p s) e (split_at-Place p s n))

abbrev IsVoid : ℕ → Type 0
IsVoid c = (c ≡ 32) ⊎ (c ≡ 10)

spaces-IsVoid : (n : ℕ) (s : Text) → All IsVoid s → All IsVoid (spaces n ++ s)
unfolding spaces
spaces-IsVoid zero s h = h
spaces-IsVoid (suc n) s h = (inl refl, spaces-IsVoid n s h)

blank-IsVoid : (s : Text) → All IsVoid (blank s)
unfolding blank
blank-IsVoid [] = tt
blank-IsVoid (c ∷ s) =
    if_cases (All IsVoid) (c == 10) (10 ∷ blank s) (spaces (len_utf8 c) ++ blank s)
      (λ _. (inr refl, blank-IsVoid s)) (λ _. spaces-IsVoid (len_utf8 c) (blank s) (blank-IsVoid s))

blank-Blanked : (s : Text) → Blanked s (blank s)
blank-Blanked s = (blank-Blanking s, blank-IsVoid s)

Hides-inner :
    (next : Text → Text) (s before content : Text) (o : Option (Text × Text))
    → s ≡ before ++ (comment_open ++ content)
    → IsFirst comment_open s before
    → Found comment_close content o
    → Place comment_close content o
    → ((t : Text) → length t ≤ length content → Hides t (next t))
    → Hides s (
        before ++ (elim o [
          | none ↦ blank (comment_open ++ content)
          | some (inner, after) ↦ blank (comment_open ++ (inner ++ comment_close)) ++ next after
        ]))
Hides-inner next s before content none e first f place ih =
    unclosed before content e first place (blank-Blanked (comment_open ++ content))
Hides-inner next s before content (some (inner, after)) e first f place ih =
    let shorter : length after ≤ length content = omega (
      arith,
      ap length f,
      length-append inner (comment_close ++ after),
      length-append comment_close after,
    ) in
    closed before content inner after e first f place
      (blank-Blanked (comment_open ++ (inner ++ comment_close))) (ih after shorter)

Hides-outer :
    (next : Text → Text) (s : Text) (o : Option (Text × Text))
    → Found comment_open s o
    → Place comment_open s o
    → ((t : Text) → length t < length s → Hides t (next t))
    → Hides s (elim o [
      | none ↦ s
      | some (before, content) ↦ before ++ (elim (split_at comment_close content) [
        | none ↦ blank (comment_open ++ content)
        | some (inner, after) ↦ blank (comment_open ++ (inner ++ comment_close)) ++ next after
      ])
    ])
Hides-outer next s none f place ih = visible place
Hides-outer next s (some (before, content)) f place ih =
    let longer : length content < length s = omega (
      arith,
      ap length f,
      length-append before (comment_open ++ content),
      length-append comment_open content,
    ) in
    Hides-inner next s before content (split_at comment_close content) f place
      (split_at-Found comment_close content) (split_at-Place comment_close content (omega arith))
      (λ t k. ih t (omega arith))

mask_html-Hides : (fuel : ℕ) (s : Text) → length s < fuel → Hides s (mask_html fuel s)
unfolding mask_html
mask_html-Hides zero s h = absurd (omega arith)
mask_html-Hides (suc fuel) s h =
    Hides-outer (mask_html fuel) s (split_at comment_open s) (split_at-Found comment_open s)
      (split_at-Place comment_open s (omega arith)) (λ t k. mask_html-Hides fuel t (omega arith))

-- what the masker gives to its last pass: lines and code spans are blanked
unfoldable pub without_code : Text → Text
unfolding mask_lines mask_paragraphs lines_of
without_code text = mask_paragraphs [] (
    lines_of (
      mask_lines (record { fence = none; prev_line_blank = true; indented = false })
        (lines_of text)))

-- The masked comment is the comment without its code, in which each HTML comment is blanked whole, from
-- its opener to the first closer behind it or to the end, and all other text is as it was; and no
-- opener of an HTML comment is left in it, at whatever place.
pub mask-Hides :
    (text : Text) → Hides (without_code text) (mask text) × Absent comment_open (mask text)
unfolding mask without_code
mask-Hides text =
    let inline = without_code text in
    (
      mask_html-Hides (length inline + 1) inline (omega arith),
      λ before after e. Without-append before after (
          subst (Without comment_open) e
            (mask_html-Without (length inline + 1) inline (omega arith))),
    )
