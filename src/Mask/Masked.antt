-- ===== src/Mask/Masked.antt =====
-- HTML comments, and the whole of `mask_noncommand_regions` (src/commands/mask.rs).
use xero_bot.Mask.Inline.{mask_paragraphs-Blanking}
use xero_bot.Mask.Blanking.{
  Blanking, Blanking-refl, Blanking-append, blank-Blanking, Blanking-len, Blanking-trans,
  join-lines_of, mask_lines-Blanking,
}
use xero_bot.Mask.{
  Option, suc, length, some, blank, true, [], ◌∷◌, mask_paragraphs, mask_html, strip_prefix, mask,
  comment_close, comment_open, split_at, Lines, mask_lines, lines_of,
}
use xero_bot.Prelude.{
  ℕ, length, Option, ◌++◌, ◌≡◌, ap, true, none, zero, [], append_assoc, ◌∷◌, subst, sym, arith,
  refl, ◌+◌, false,
}
use xero_bot.Text.{Text, len, strip_prefix}

-- where a pattern was found
abbrev pub Found : Text → Text → Option (Text × Text) → Type 0
Found pattern s none = Unit
Found pattern s (some (b, a)) = s ≡ b ++ (pattern ++ a)

strip_prefix-append : (p s r : Text) → strip_prefix p s ≡ some r → s ≡ p ++ r
unfolding strip_prefix
strip_prefix-append [] s r h = cc
strip_prefix-append (d ∷ p) [] r h = cc
strip_prefix-append (d ∷ p) (c ∷ s) r h = ground (arith, strip_prefix-append p s r)

Found-later :
    (p s : Text) (c : ℕ) (o : Option (Text × Text))
    → Found p s o
    → Found p (c ∷ s) (elim o [ none ↦ none | some (b, a) ↦ some (c ∷ b, a) ])
Found-later p s c none h = tt
Found-later p s c (some (b, a)) h = ap (λ t. c ∷ t) h

Found-here :
    (p s : Text) (o : Option Text) (later : Option (Text × Text))
    → ((r : Text) → o ≡ some r → s ≡ p ++ r)
    → Found p s later
    → Found p s (elim o [ some rest ↦ some ([], rest) | none ↦ later ])
Found-here p s none later h k = k
Found-here p s (some r) later h k = h r refl

pub split_at-Found : (p s : Text) → Found p s (split_at p s)
unfolding split_at
split_at-Found p [] = tt
split_at-Found p (c ∷ s) =
    Found-here p (c ∷ s) (strip_prefix p (c ∷ s)) _ (strip_prefix-append p (c ∷ s))
      (Found-later p s c (split_at p s) (split_at-Found p s))

html_inner :
    (next : Text → Text) (content : Text) (o : Option (Text × Text))
    → Found comment_close content o
    → ((t : Text) → Blanking t (next t))
    → Blanking (comment_open ++ content) (elim o [
      | none ↦ blank (comment_open ++ content)
      | some (inner, after) ↦ blank (comment_open ++ (inner ++ comment_close)) ++ next after
    ])
html_inner next content none f ih = blank-Blanking (comment_open ++ content)
html_inner next content (some (inner, after)) f ih =
    let whole : (comment_open ++ (inner ++ comment_close)) ++ after ≡ comment_open ++ content =
      simp append_assoc (ap (λ t. comment_open ++ t) (sym f)) in
    subst (λ t. Blanking t (blank (comment_open ++ (inner ++ comment_close)) ++ next after)) whole
      (Blanking-append (comment_open ++ (inner ++ comment_close)) _ after (next after)
        (blank-Blanking (comment_open ++ (inner ++ comment_close))) (ih after))

html_outer :
    (next : Text → Text) (s : Text) (o : Option (Text × Text))
    → Found comment_open s o
    → ((t : Text) → Blanking t (next t))
    → Blanking s (elim o [
      | none ↦ s
      | some (before, content) ↦ before ++ (elim (split_at comment_close content) [
        | none ↦ blank (comment_open ++ content)
        | some (inner, after) ↦ blank (comment_open ++ (inner ++ comment_close)) ++ next after
      ])
    ])
html_outer next s none f ih = Blanking-refl s
html_outer next s (some (before, content)) f ih =
    let out : Text = before ++ (elim (split_at comment_close content) [
      | none ↦ blank (comment_open ++ content)
      | some (inner, after) ↦ blank (comment_open ++ (inner ++ comment_close)) ++ next after
    ]) in
    subst (λ t. Blanking t out) (sym f)
      (Blanking-append before before (comment_open ++ content) _ (Blanking-refl before) (
        html_inner next content (split_at comment_close content)
          (split_at-Found comment_close content) ih))

mask_html-Blanking : (fuel : ℕ) (s : Text) → Blanking s (mask_html fuel s)
unfolding mask_html
mask_html-Blanking zero s = Blanking-refl s
mask_html-Blanking (suc fuel) s =
    html_outer (mask_html fuel) s (split_at comment_open s) (split_at-Found comment_open s)
      (mask_html-Blanking fuel)

-- The masked comment is the comment with some characters, none of them line feeds, replaced by a
-- space for each of their bytes.
pub mask-Blanking : (text : Text) → Blanking text (mask text)
unfolding mask
mask-Blanking text =
    let st : Lines = record { fence = none; prev_line_blank = true; indented = false } in
    let out = mask_lines st (lines_of text) in
    let inline = mask_paragraphs [] (lines_of out) in
    Blanking-trans text out _
      (subst (λ t. Blanking t out) (join-lines_of text) (mask_lines-Blanking st (lines_of text)))
      (Blanking-trans out inline _
        (subst (λ t. Blanking t inline) (join-lines_of out)
          (mask_paragraphs-Blanking [] (lines_of out)))
        (mask_html-Blanking (length inline + 1) inline))

-- The masked comment has as many bytes as the comment.
pub len-mask : (text : Text) → len (mask text) ≡ len text
len-mask text = Blanking-len text (mask text) (mask-Blanking text)
