-- ===== src/Mask/Fuel.antt =====
-- The fuel of `mask_inline_code` and `find_closing_run` (src/commands/mask.rs).
use xero_bot.Text.Laws.{take_while_split}
use xero_bot.Mask.Inline.{Closing, closing_run-Closing}
use xero_bot.Prelude.{
  ℕ, length, Option, [], Bool, ◌<◌, some, ◌≡◌, ◌+◌, ◌≤◌, arith, false, sym, ◌++◌, length-append, ap,
  ◌∷◌, Bool-cases, ◌∙◌, none, inl, refl, inr, zero, if◌then◌else◌, ◌==◌,
}
use xero_bot.Text.{text_eq, Text, take_while}
use xero_bot.Mask.{
  closing_run, inline_code, mask_inline, Bool, [], length, Option, take_while, is_tick, some, false,
  not_tick, suc, ◌∷◌, blank, code_span,
}

text_pos : (s : Text) → text_eq s [] ≡ false → 0 < length s
unfolding text_eq
text_pos [] h = cc
text_pos (c ∷ s) h = omega arith

take_while-length :
    (p : ℕ → Bool) (s : Text) → length (take_while p s).0 + length (take_while p s).1 ≡ length s
take_while-length p s =
    sym (length-append (take_while p s).0 (take_while p s).1) ∙ ap length (take_while_split p s)

-- what follows a run of backticks is shorter than the text
run_shrinks :
    (s : Text)
    → text_eq (take_while is_tick (take_while not_tick s).1).0 [] ≡ false
    → length (take_while is_tick (take_while not_tick s).1).1 < length s
run_shrinks s h = omega (
  arith,
  take_while-length not_tick s,
  take_while-length is_tick (take_while not_tick s).1,
  text_pos _ h,
)

-- `closing_run` with a value of its own for the state in which the fuel is used up
unfoldable pub closing_run_or : Option (Text × Text) → ℕ → ℕ → Text → Option (Text × Text)
closing_run_or out zero n s = out
closing_run_or out (suc fuel) n s =
    let before = take_while not_tick s in
    let run = take_while is_tick before.1 in
    let later = closing_run_or out fuel n run.1 in
    if text_eq run.0 []
    then none
    else if length run.0 == n
    then some (before.0, run.1)
    else (elim later [ none ↦ none | some (b, a) ↦ some (before.0 ++ (run.0 ++ b), a) ])

closing_run_ends :
    (out : Option (Text × Text)) (k m n : ℕ) (s : Text)
    → length s < k
    → length s < m
    → closing_run_or out k n s ≡ closing_run m n s
unfolding closing_run closing_run_or
closing_run_ends out zero m n s h k = absurd (omega arith)
closing_run_ends out (suc f) zero n s h k = absurd (omega arith)
closing_run_ends out (suc f) (suc g) n s h k =
    let run = take_while is_tick (take_while not_tick s).1 in
    elim (Bool-cases (text_eq run.0 [])) [
      | inl e ↦ rw e refl
      | inr e ↦
          let shorter = run_shrinks s e in
          rw (closing_run_ends out f g n run.1 (omega arith) (omega arith)) refl
    ]

after_shrinks :
    (n : ℕ) (s content after : Text) → Closing n s (some (content, after)) → length after ≤ length s
after_shrinks n s content after (t, e, _, _) =
    omega (arith, ap length e, length-append content (t ++ after), length-append t after)

-- the branches of a round agree where the rest of the loop does
span_agree :
    (f g : Text → Text) (n : ℕ) (before run rest : Text) (o : Option (Text × Text))
    → Closing n rest o
    → ((t : Text) → length t ≤ length rest → f t ≡ g t)
    → before ++ (elim o [
      | some (content, after) ↦ blank (code_span run content) ++ f after
      | none ↦ run ++ f rest
    ])
      ≡ before ++ (elim o [
        | some (content, after) ↦ blank (code_span run content) ++ g after
        | none ↦ run ++ g rest
      ])
span_agree f g n before run rest none c h = rw (h rest (omega arith)) refl
span_agree f g n before run rest (some (content, after)) c h =
    rw (h after (after_shrinks n rest content after c)) refl

-- `mask_inline` with a value of its own for the state in which the fuel is used up
unfoldable pub mask_inline_or : (Text → Text) → ℕ → Text → Text
mask_inline_or out zero s = out s
mask_inline_or out (suc fuel) s =
    let before = take_while not_tick s in
    let run = take_while is_tick before.1 in
    let unmatched = mask_inline_or out fuel run.1 in
    if text_eq run.0 []
    then s
    else before.0 ++ (elim (closing_run (length run.1 + 1) (length run.0) run.1) [
      | some (content, after) ↦ blank (code_span run.0 content) ++ mask_inline_or out fuel after
      | none ↦ run.0 ++ unmatched
    ])

mask_inline_ends :
    (out : Text → Text) (m n : ℕ) (s : Text)
    → length s < m
    → length s < n
    → mask_inline_or out m s ≡ mask_inline n s
unfolding mask_inline mask_inline_or
mask_inline_ends out zero n s h k = absurd (omega arith)
mask_inline_ends out (suc f) zero s h k = absurd (omega arith)
mask_inline_ends out (suc f) (suc g) s h k =
    let before = take_while not_tick s in
    let run = take_while is_tick before.1 in
    elim (Bool-cases (text_eq run.0 [])) [
      | inl e ↦ rw e refl
      | inr e ↦
          let shorter = run_shrinks s e in
          rw e (
            span_agree (mask_inline_or out f) (mask_inline g) (length run.0) before.0 run.0 run.1 _
              (closing_run-Closing (length run.1 + 1) (length run.0) run.1)
              (λ t q. mask_inline_ends out f g t (omega arith) (omega arith)))
    ]

-- With one unit of fuel more than characters, the search for a closing run of backticks and the loop
-- that masks inline code never use it up: whatever value is given for the state in which the fuel is
-- used up, and with any extra fuel, they return what the model's loops return, so they end by their
-- own tests.
pub inline_loops_end :
    (out_of_search : Option (Text × Text)) (out_of_text : Text → Text) (extra n : ℕ) (s : Text)
    → (closing_run_or out_of_search (length s + 1 + extra) n s ≡ closing_run (length s + 1) n s)
      × (mask_inline_or out_of_text (length s + 1 + extra) s ≡ inline_code s)
unfolding inline_code
inline_loops_end out_of_search out_of_text extra n s = (
  closing_run_ends out_of_search _ _ n s (omega arith) (omega arith),
  mask_inline_ends out_of_text _ _ s (omega arith) (omega arith),
)
