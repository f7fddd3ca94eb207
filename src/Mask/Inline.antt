-- ===== src/Mask/Inline.antt =====
-- Inline code spans (`mask_inline_code` of src/commands/mask.rs) are blanked in place.
use xero_bot.Text.Laws.{take_while_split, take_while-All}
use xero_bot.Mask.Blanking.{
  Blanking, Blanking-refl, Blanking-append, blank-Blanking, join, line_end-Blanking,
}
use xero_bot.Mask.{
  mask_inline, closing_run, code_span, Option, suc, length, take_while, not_tick, is_tick, some,
  blank, text_eq, true, [], ◌∷◌, mask_paragraphs, inline_code, List, Line, Bool, line_end, is_blank,
}
use xero_bot.Prelude.{
  ℕ, length, Option, All, ◌++◌, ◌==◌, if_cases, ◌≡◌, ap, true, none, zero, [], append_assoc, ◌∷◌,
  subst, ◌∙◌, sym, ==_iff, arith, refl, ◌+◌, List, append-nil, Bool, false,
}
use xero_bot.Text.{Text, take_while, text_eq}

abbrev pub Ticks : Text → Type 0
Ticks s = All (λ c. (c == b'`') ≡ true) s

Ticks-eq : (s t : Text) → Ticks s → Ticks t → length s ≡ length t → s ≡ t
Ticks-eq [] [] h k e = refl
Ticks-eq [] (d ∷ t) h k e = absurd (omega arith)
Ticks-eq (c ∷ s) [] h k e = absurd (omega arith)
Ticks-eq (c ∷ s) (d ∷ t) h k e =
    let cd : c ≡ d = (==_iff c b'`').0 h.0 ∙ sym ((==_iff d b'`').0 k.0) in
    cc (cd, Ticks-eq s t h.1 k.1 (omega arith))

-- A text read as what stands before the first run of backticks, the run, and the rest.
abbrev head_of : Text → Text
head_of s = (take_while not_tick s).0

abbrev run_of : Text → Text
run_of s = (take_while is_tick (take_while not_tick s).1).0

abbrev tail_of : Text → Text
tail_of s = (take_while is_tick (take_while not_tick s).1).1

run_split : (s : Text) → head_of s ++ (run_of s ++ tail_of s) ≡ s
run_split s =
    ap (λ t. head_of s ++ t) (take_while_split is_tick (take_while not_tick s).1)
    ∙ take_while_split not_tick s

-- the closing run that was found: n backticks
abbrev pub Closing : ℕ → Text → Option (Text × Text) → Type 0
Closing n s none = Unit
Closing n s (some (b, a)) = (t : Text) × (s ≡ b ++ (t ++ a)) × (length t ≡ n) × Ticks t

Closing-later :
    (n : ℕ) (h r s : Text) (o : Option (Text × Text))
    → Closing n s o
    → Closing n (h ++ (r ++ s)) (elim o [ none ↦ none | some (b, a) ↦ some (h ++ (r ++ b), a) ])
Closing-later n h r s none k = tt
Closing-later n h r s (some (b, a)) (t, e, l, ticks) =
    (t, ap (λ u. h ++ (r ++ u)) e ∙ regroup, l, ticks)
  where
    regroup : h ++ (r ++ (b ++ (t ++ a))) ≡ (h ++ (r ++ b)) ++ (t ++ a)
    regroup = simp append_assoc

pub closing_run-Closing : (fuel n : ℕ) (s : Text) → Closing n s (closing_run fuel n s)
unfolding closing_run
closing_run-Closing zero n s = tt
closing_run-Closing (suc fuel) n s =
    if_cases (Closing n s) (text_eq (run_of s) []) none _ (λ _. tt)
      λ _.
        if_cases (Closing n s) (length (run_of s) == n) (some (head_of s, tail_of s)) _
          (λ e. (
            run_of s,
            sym (run_split s),
            (==_iff _ n).0 e,
            take_while-All is_tick (take_while not_tick s).1,
          ))
          (λ _.
            subst
              (λ t. Closing n t (elim (closing_run fuel n (tail_of s)) [
                | none ↦ none
                | some (b, a) ↦ some (head_of s ++ (run_of s ++ b), a)
              ]))
              (run_split s)
              (Closing-later n (head_of s) (run_of s) (tail_of s) _
                (closing_run-Closing fuel n (tail_of s))))

-- the two outcomes at a run of backticks
span-Blanking :
    (r s : Text) (next : Text → Text) (unmatched : Text) (o : Option (Text × Text))
    → Ticks r
    → Closing (length r) s o
    → ((t : Text) → Blanking t (next t))
    → Blanking s unmatched
    → Blanking (r ++ s) (elim o [
      | some (content, after) ↦ blank (code_span r content) ++ next after
      | none ↦ r ++ unmatched
    ])
unfolding code_span
span-Blanking r s next unmatched none ticks c ih u =
    Blanking-append r r s unmatched (Blanking-refl r) u
span-Blanking r s next unmatched (some (content, after)) ticks (t, e, l, closing) ih u =
    let same : t ≡ r = Ticks-eq t r closing ticks l in
    let whole : (r ++ (content ++ r)) ++ after ≡ r ++ s =
      simp append_assoc (ap (λ v. r ++ v) (ap (λ v. content ++ (v ++ after)) (sym same) ∙ sym e)) in
    subst (λ v. Blanking v (blank (r ++ (content ++ r)) ++ next after)) whole
      (Blanking-append (r ++ (content ++ r)) _ after (next after) (blank-Blanking _) (ih after))

mask_inline-Blanking : (fuel : ℕ) (s : Text) → Blanking s (mask_inline fuel s)
unfolding mask_inline
mask_inline-Blanking zero s = Blanking-refl s
mask_inline-Blanking (suc fuel) s =
    let ticks = take_while-All is_tick (take_while not_tick s).1 in
    let o = closing_run (length (tail_of s) + 1) (length (run_of s)) (tail_of s) in
    let rest =
      span-Blanking (run_of s) (tail_of s) (mask_inline fuel) (mask_inline fuel (tail_of s)) o ticks
        (closing_run-Closing _ _ (tail_of s)) (mask_inline-Blanking fuel)
        (mask_inline-Blanking fuel (tail_of s)) in
    if_cases (Blanking s) (text_eq (run_of s) []) s _ (λ _. Blanking-refl s)
      (λ _.
        subst
          (λ t. Blanking t (
            head_of s ++ (elim o [
              | some (content, after) ↦
                  blank (code_span (run_of s) content) ++ mask_inline fuel after
              | none ↦ run_of s ++ mask_inline fuel (tail_of s)
            ])))
          (run_split s)
          (Blanking-append (head_of s) (head_of s) (run_of s ++ tail_of s) _
            (Blanking-refl (head_of s)) rest))

inline_code-Blanking : (s : Text) → Blanking s (inline_code s)
unfolding inline_code
inline_code-Blanking s = mask_inline-Blanking (length s + 1) s

pub mask_paragraphs-Blanking :
    (paragraph : Text) (ls : List Line)
    → Blanking (paragraph ++ join ls) (mask_paragraphs paragraph ls)
unfolding mask_paragraphs join
mask_paragraphs-Blanking paragraph [] =
    subst (λ t. Blanking t (inline_code paragraph)) (sym (append-nil paragraph))
      (inline_code-Blanking paragraph)
mask_paragraphs-Blanking paragraph ((body, ended) ∷ ls) =
    if_cases (Blanking (paragraph ++ (body ++ line_end ended (join ls)))) (is_blank body) _ _
      (λ _.
        Blanking-append paragraph _ (body ++ line_end ended (join ls)) _
          (inline_code-Blanking paragraph)
          (Blanking-append body body (line_end ended (join ls)) _ (Blanking-refl body)
            (line_end-Blanking ended (join ls) _ (mask_paragraphs-Blanking [] ls))))
      (λ _.
        subst (λ t. Blanking t (mask_paragraphs (paragraph ++ (body ++ line_end ended [])) ls))
          (regroup ended) (mask_paragraphs-Blanking (paragraph ++ (body ++ line_end ended [])) ls))
  where
    regroup :
        (b : Bool)
        → (paragraph ++ (body ++ line_end b [])) ++ join ls
          ≡ paragraph ++ (body ++ line_end b (join ls))
    regroup true = simp append_assoc
    regroup false = simp (append_assoc, append-nil)
