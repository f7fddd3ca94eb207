-- ===== src/Parser/Fuel.antt =====
-- The inner loops of src/commands/parse.rs end by their own tests: their fuel is enough.
use xero_bot.Command.{Command}
use xero_bot.Parser.Shortcuts.{
  request_user-Extends, ready_cc-Extends, skip_loose-Moves, ready_reviewer-Extends,
}
use xero_bot.Parser.Progress.{advance-shrinks}
use xero_bot.Parser.Moves.{skip_to_boundary-Passes, Moves-skip_filler}
use xero_bot.Text.{Text, codes}
use xero_bot.Lexer.{Token, Tok, plus, is_valid_label, review_req, minus}
use xero_bot.Prelude.{
  List, ℕ, Option, ◌≡◌, length, ◌<◌, if_cases, ◌≤◌, false, ◌+◌, true, ◌&&◌, some, ◌∷◌, not, arith,
  refl, [], suc, zero, ap,
}
use xero_bot.Parser.Verbs.{
  bare_review_request, symbolic_round, short_ready_command, symbolic_rounds, scan_symbolic_tail,
  ready_end, skip_loose, ready_reviewer, compound_from, ready_cc,
}
use xero_bot.Parser.Args.{label_round, label_rounds, bad_label, Labels}
use xero_bot.Parser.State.{
  skip_to_boundary, at_boundary, extra, incomplete, Parser, peek, skip_tail, emit, diagnose,
  is_boundary, head_tok, advance, skip_filler, span, invalid_label, symbol, Span, last_end,
}

head_tok-length : (us : List Token) → is_boundary (head_tok us) ≡ false → 0 < length us
head_tok-length [] h = cc
head_tok-length (u ∷ us) h = omega arith

-- away from a boundary there is a token
pub boundary_rest : (p : Parser) → at_boundary p ≡ false → 0 < length p.rest
unfolding at_boundary peek
boundary_rest p h = head_tok-length p.rest h

skip_to_boundary-shrinks :
    (past us : List Token)
    → is_boundary (head_tok us) ≡ false
    → length (skip_to_boundary past us).1 < length us
unfolding skip_to_boundary
skip_to_boundary-shrinks past [] h = cc
skip_to_boundary-shrinks past (u ∷ us) h =
    rw h (omega (arith, (skip_to_boundary-Passes (u ∷ past) us).0))

extra-shrinks :
    (verb : Text) (p : Parser) → at_boundary p ≡ false → length (extra verb p).rest < length p.rest
unfolding extra skip_tail incomplete diagnose at_boundary peek
extra-shrinks verb p h = skip_to_boundary-shrinks p.past p.rest h

label_round-shrinks :
    (t : Option Tok) (l : Labels) (p : Parser)
    → at_boundary p ≡ false
    → length (label_round t l p).1.rest < length p.rest
unfolding label_round bad_label diagnose
label_round-shrinks (some (plus name)) l p h =
    if_cases (λ (r : Labels × Parser). length r.1.rest < length p.rest) (not (is_valid_label name))
      _ _ (λ _. advance-shrinks (diagnose (invalid_label name (span p)) p) (boundary_rest p h))
      (λ _. advance-shrinks p (boundary_rest p h))
label_round-shrinks (some (minus name)) l p h =
    if_cases (λ (r : Labels × Parser). length r.1.rest < length p.rest) (not (is_valid_label name))
      _ _ (λ _. advance-shrinks (diagnose (invalid_label name (span p)) p) (boundary_rest p h))
      (λ _. advance-shrinks p (boundary_rest p h))
label_round-shrinks _ l p h = extra-shrinks (codes "label") p h

-- The loop of `label_args` stops only at a boundary.
pub label_rounds_end :
    (fuel : ℕ) (l : Labels) (p : Parser)
    → length p.rest < fuel
    → at_boundary (label_rounds fuel l p).1 ≡ true
unfolding label_rounds
label_rounds_end zero l p h = absurd (omega arith)
label_rounds_end (suc fuel) l p h =
    if_cases (λ (r : Labels × Parser). at_boundary r.1 ≡ true) (at_boundary p) _ _ (λ e. e)
      (λ e. label_rounds_end fuel _ _ (omega (arith, label_round-shrinks (peek p) l p e)))

ready_end-rest : (first start : ℕ) (p : Parser) → (ready_end first start p).rest ≡ p.rest
unfolding ready_end incomplete
ready_end-rest first start p =
    let s : Span = record { from = start; to = last_end p.past } in
    let q : Parser = record p { commands = compound_from first s p.commands } in
    if_cases (λ (r : Parser). r.rest ≡ p.rest) (q.strict && not (at_boundary q)) (incomplete q) q
      (λ _. refl) (λ _. refl)

short_ready-fewer : (p : Parser) → length (short_ready_command p).rest ≤ length (advance p).rest
unfolding short_ready_command emit
short_ready-fewer p =
    let start = (span p).from in
    let e = emit Command.ready start symbol (advance p) in
    let q = skip_loose e in
    let s = ready_reviewer (peek q) q in
    let r = skip_loose s in
    omega (
      arith,
      ap length (ready_end-rest (length p.commands) start (ready_cc (peek r) r)),
      (ready_cc-Extends (peek r) r).fewer,
      (skip_loose-Moves s).fewer,
      (ready_reviewer-Extends (peek q) q).fewer,
      (skip_loose-Moves e).fewer,
    )

bare_review-fewer : (p : Parser) → length (bare_review_request p).rest ≤ length (advance p).rest
unfolding bare_review_request
bare_review-fewer p =
    let q = (skip_filler (advance p)).0 in
    omega (
      arith,
      (request_user-Extends (span p).from (peek q) q).fewer,
      (Moves-skip_filler (advance p)).fewer,
    )

symbolic_round-shrinks :
    (t : Option Tok) (p : Parser)
    → at_boundary p ≡ false
    → length (symbolic_round t p).rest < length p.rest
unfolding symbolic_round
symbolic_round-shrinks (some Tok.short_ready) p h =
    omega (arith, short_ready-fewer p, advance-shrinks p (boundary_rest p h))
symbolic_round-shrinks (some review_req) p h =
    omega (arith, bare_review-fewer p, advance-shrinks p (boundary_rest p h))
symbolic_round-shrinks _ p h = advance-shrinks p (boundary_rest p h)

symbolic_rounds_end :
    (fuel : ℕ) (p : Parser) → length p.rest < fuel → at_boundary (symbolic_rounds fuel p) ≡ true
unfolding symbolic_rounds
symbolic_rounds_end zero p h = absurd (omega arith)
symbolic_rounds_end (suc fuel) p h =
    if_cases (λ (r : Parser). at_boundary r ≡ true) (at_boundary p) _ _ (λ e. e)
      (λ e. symbolic_rounds_end fuel _ (omega (arith, symbolic_round-shrinks (peek p) p e)))

-- The loop over the labels of a command and the scan of a conversational tail both stop at a
-- boundary: at a bot mention, a semicolon, a line feed or the end.
pub inner_loops_end :
    (l : Labels) (p : Parser)
    → (at_boundary (label_rounds (length p.rest + 1) l p).1 ≡ true)
      × (at_boundary (scan_symbolic_tail p) ≡ true)
unfolding scan_symbolic_tail
inner_loops_end l p = (
  label_rounds_end (length p.rest + 1) l p (omega arith),
  symbolic_rounds_end (length p.rest + 1) p (omega arith),
)
