-- ===== src/Rollup/Verdicts.antt =====
-- The verdict of the checks of a candidate: src/rollup/engine.rs, `github_verdict`.
use xero_bot.Prelude.{
  ◌≡◌, ◌↔◌, refl, Bool, true, false, not, ◌||◌, List, [], ◌∷◌, All, any, some, Option-cases,
  Bool-cases, inl, inr, arith,
}
use xero_bot.Text.{Text}
use xero_bot.Parser.Args.{is_empty}
use xero_bot.Rollup.Engine.{
  Check, Verdict, is_named, is_success, is_failure, scan_checks, scan_names, github_verdict,
}

-- every check of a name on a commit succeeded
abbrev AllSucceed : Text → Text → List Check → Type 0
AllSucceed name sha checks =
    All (λ check. is_named name sha check ≡ true → is_success check ≡ true) checks

abbrev IsPassed : List Check → Text → Text → Type 0
IsPassed checks sha name = (any (is_named name sha) checks ≡ true) × AllSucceed name sha checks

scan_checks-AllSucceed :
    (name sha : Text) (checks : List Check) (acc r : Bool × Bool)
    → scan_checks name sha checks acc ≡ some r
    → r.1 ≡ false
    → (acc.1 ≡ false)
      × (AllSucceed name sha checks × (r.0 ≡ (acc.0 || any (is_named name sha) checks)))
unfolding scan_checks
scan_checks-AllSucceed name sha [] acc r e f = ground (arith, e, f)
scan_checks-AllSucceed name sha (check ∷ checks) acc r e f =
    elim (Bool-cases (is_named name sha check)) [
      | inr n ↦
          let rest = scan_checks-AllSucceed name sha checks acc r (ground (arith, e, n)) f in
          (rest.0, (((λ m. ground (arith, n, m)), rest.1.0), ground (arith, rest.1.1, n)))
      | inl n ↦ elim (Bool-cases (is_success check)) [
        | inl s ↦
            let rest =
              scan_checks-AllSucceed name sha checks (true, acc.1) r (ground (arith, e, n, s)) f in
            (rest.0, (((λ _. s), rest.1.0), ground (arith, rest.1.1, n)))
        | inr s ↦ elim (Bool-cases (is_failure check)) [
          | inl b ↦ ground (arith, e, n, s, b)
          | inr b ↦
              let rest =
                scan_checks-AllSucceed name sha checks (true, true) r (ground (arith, e, n, s, b))
                  f in
              ground (arith, rest.0)
        ]
      ]
    ]

AllSucceed-scan_checks :
    (name sha : Text) (checks : List Check) (acc : Bool × Bool)
    → AllSucceed name sha checks
    → scan_checks name sha checks acc ≡ some (acc.0 || any (is_named name sha) checks, acc.1)
unfolding scan_checks
AllSucceed-scan_checks name sha [] acc h = ground arith
AllSucceed-scan_checks name sha (check ∷ checks) acc h =
    elim (Bool-cases (is_named name sha check)) [
      | inr n ↦ ground (arith, n, AllSucceed-scan_checks name sha checks acc h.1)
      | inl n ↦ ground (arith, n, h.0 n, AllSucceed-scan_checks name sha checks (true, acc.1) h.1)
    ]

green-IsPassed :
    (checks : List Check) (sha : Text) (names : List Text) (waits : Bool)
    → scan_names checks sha names waits ≡ Verdict.green
    → (waits ≡ false) × All (IsPassed checks sha) names
unfolding scan_names
green-IsPassed checks sha [] waits e = (ground (arith, e), tt)
green-IsPassed checks sha (name ∷ names) waits e =
    elim (Option-cases (scan_checks name sha checks (false, waits))) [
      | inl f ↦ ground (arith, e, f)
      | inr f ↦
          let rest =
            green-IsPassed checks sha names ((f.0).1 || not (f.0).0) (ground (arith, e, f.1)) in
          let here_all =
            scan_checks-AllSucceed name sha checks (false, waits) f.0 f.1
              (ground (arith, rest.0)) in
          (here_all.0, ((ground (arith, rest.0, here_all.1.1), here_all.1.0), rest.1))
    ]

IsPassed-green :
    (checks : List Check) (sha : Text) (names : List Text)
    → All (IsPassed checks sha) names
    → scan_names checks sha names false ≡ Verdict.green
unfolding scan_names
IsPassed-green checks sha [] h = refl
IsPassed-green checks sha (name ∷ names) h =
    let rest = IsPassed-green checks sha names h.1 in
    ground (arith, AllSucceed-scan_checks name sha checks (false, false) h.0.1, h.0.0, rest)

-- The verdict is green exactly if some check is required and, for each required name, there is a check
-- of GitHub Actions with that name on the candidate's commit and every such check succeeded.
pub github_verdict_green :
    (checks : List Check) (required : List Text) (sha : Text)
    → (github_verdict checks required sha ≡ Verdict.green) ↔ (
        (is_empty required ≡ false)
        × All
            (λ name.
              (any (is_named name sha) checks ≡ true)
              × All (λ check. is_named name sha check ≡ true → is_success check ≡ true) checks)
            required)
unfolding github_verdict
github_verdict_green checks [] sha = (λ e. ground (arith, e), λ h. ground (arith, h.0))
github_verdict_green checks (name ∷ names) sha = (
  λ e. (refl, (green-IsPassed checks sha (name ∷ names) false e).1),
  λ h. IsPassed-green checks sha (name ∷ names) h.1,
)
