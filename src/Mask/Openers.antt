-- ===== src/Mask/Openers.antt =====
-- `mask_html_comments` (src/commands/mask.rs) and the places of the opener of a comment.
use xero_bot.Mask.Masked.{Found, split_at-Found}
use xero_bot.Prelude.{
  All, ◌∷◌, Option, ◌++◌, ℕ, length, [], if_cases, ◌≡◌, ◌==◌, subst, ◌<◌, ==_refl, false, zero,
  none, arith, ◌≤◌, ap, sym, refl, length-append, append_assoc, append-nil,
}
use xero_bot.Text.{Text, strip_prefix, len_utf8}
use xero_bot.Mask.{
  blank, mask_html, split_at, spaces, ℕ, ◌∷◌, Option, comment_open, ◌++◌, suc, some, length,
  comment_close, false, len_utf8, none,
}

-- the pattern stands nowhere in the text
abbrev pub Without : Text → Text → Type 0
Without p [] = Unit
Without p (c ∷ s) = (strip_prefix p (c ∷ s) ≡ none) × Without p s

abbrev NoSpace : Text → Type 0
NoSpace p = All (λ d. (d == 32) ≡ false) p

-- a space in the place of what follows brings no new place of the pattern
strip_prefix_space :
    (p u w r : Text)
    → NoSpace p
    → strip_prefix p (u ++ w) ≡ none
    → strip_prefix p (u ++ (32 ∷ r)) ≡ none
unfolding strip_prefix
strip_prefix_space [] u w r n h = cc
strip_prefix_space (d ∷ p) [] w r n h = rw n.0 refl
strip_prefix_space (d ∷ p) (c ∷ u) w r n h = let ih = strip_prefix_space p u w r n.1 in ground arith

-- What a split says: the pattern is not in the text, or not before its first place.
abbrev First : Text → Text → Option (Text × Text) → Type 0
First p s none = Without p s
First p s (some (b, a)) = (r : Text) → Without p (32 ∷ r) → Without p (b ++ (32 ∷ r))

First-later :
    (p s : Text) (c : ℕ) (o : Option (Text × Text))
    → NoSpace p
    → strip_prefix p (c ∷ s) ≡ none
    → Found p s o
    → First p s o
    → First p (c ∷ s) (elim o [ none ↦ none | some (b, a) ↦ some (c ∷ b, a) ])
First-later p s c none n e f h = (e, h)
First-later p s c (some (b, a)) n e f h =
    λ r k. (strip_prefix_space p (c ∷ b) (p ++ a) r n (rw (sym f) e), h r k)

First-here :
    (p s : Text) (o : Option Text) (later : Option (Text × Text))
    → (o ≡ none → First p s later)
    → First p s (elim o [ some rest ↦ some ([], rest) | none ↦ later ])
First-here p s none later h = h refl
First-here p s (some rest) later h = λ r k. k

split_at-First : (p s : Text) → NoSpace p → First p s (split_at p s)
unfolding split_at
split_at-First p [] n = tt
split_at-First p (c ∷ s) n =
    First-here p (c ∷ s) (strip_prefix p (c ∷ s)) _
      (λ e. First-later p s c (split_at p s) n e (split_at-Found p s) (split_at-First p s n))

spaces-Without : (n : ℕ) (s : Text) → Without comment_open s → Without comment_open (spaces n ++ s)
unfolding spaces strip_prefix
spaces-Without zero s h = h
spaces-Without (suc n) s h = (refl, spaces-Without n s h)

blank-Without : (t s : Text) → Without comment_open s → Without comment_open (blank t ++ s)
unfolding blank strip_prefix
blank-Without [] s h = h
blank-Without (c ∷ t) s h =
    if_cases (λ u. Without comment_open (u ++ s)) (c == 10) (10 ∷ blank t)
      (spaces (len_utf8 c) ++ blank t) (λ _. (refl, blank-Without t s h))
      (λ _.
        subst (Without comment_open) (sym (append_assoc (spaces (len_utf8 c)) (blank t) s))
          (spaces-Without (len_utf8 c) (blank t ++ s) (blank-Without t s h)))

inner_Without :
    (next : Text → Text) (before content : Text) (o : Option (Text × Text))
    → Found comment_close content o
    → ((r : Text) → Without comment_open (32 ∷ r) → Without comment_open (before ++ (32 ∷ r)))
    → ((t : Text) → length t ≤ length content → Without comment_open (next t))
    → Without comment_open (
        before ++ (elim o [
          | none ↦ blank (comment_open ++ content)
          | some (inner, after) ↦ blank (comment_open ++ (inner ++ comment_close)) ++ next after
        ]))
unfolding blank len_utf8
inner_Without next before content none f first ih = first _ (
    subst (Without comment_open) (append-nil (blank (comment_open ++ content)))
      (blank-Without (comment_open ++ content) [] tt))
inner_Without next before content (some (inner, after)) f first ih = first _ (
    blank-Without (comment_open ++ (inner ++ comment_close)) (next after) (
      ih after (
        omega (
          arith,
          ap length f,
          length-append inner (comment_close ++ after),
          length-append comment_close after,
        ))))

outer_Without :
    (next : Text → Text) (s : Text) (o : Option (Text × Text))
    → Found comment_open s o
    → First comment_open s o
    → ((t : Text) → length t < length s → Without comment_open (next t))
    → Without comment_open (elim o [
      | none ↦ s
      | some (before, content) ↦ before ++ (elim (split_at comment_close content) [
        | none ↦ blank (comment_open ++ content)
        | some (inner, after) ↦ blank (comment_open ++ (inner ++ comment_close)) ++ next after
      ])
    ])
outer_Without next s none f first ih = first
outer_Without next s (some (before, content)) f first ih =
    let longer : length content < length s = omega (
      arith,
      ap length f,
      length-append before (comment_open ++ content),
      length-append comment_open content,
    ) in
    inner_Without next before content (split_at comment_close content)
      (split_at-Found comment_close content) first (λ t k. ih t (omega arith))

pub mask_html-Without :
    (fuel : ℕ) (s : Text) → length s < fuel → Without comment_open (mask_html fuel s)
unfolding mask_html
mask_html-Without zero s h = absurd (omega arith)
mask_html-Without (suc fuel) s h =
    outer_Without (mask_html fuel) s (split_at comment_open s) (split_at-Found comment_open s)
      (split_at-First comment_open s (refl, (refl, (refl, (refl, tt)))))
      (λ t k. mask_html-Without fuel t (omega arith))

strip_prefix-some : (p a : Text) → strip_prefix p (p ++ a) ≡ some a
unfolding strip_prefix
strip_prefix-some [] a = refl
strip_prefix-some (c ∷ p) a = rw (==_refl c) (strip_prefix-some p a)

pub Without-append : (b a : Text) → Without comment_open (b ++ (comment_open ++ a)) → ⊥
Without-append [] a h = cc (h.0, strip_prefix-some comment_open a)
Without-append (c ∷ b) a h = Without-append b a h.1
