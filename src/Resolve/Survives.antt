-- ===== src/Resolve/Survives.antt =====
-- Which status command src/commands/resolve.rs keeps: the order of the sort and the filter on positions.
use xero_bot.Prelude.{
  refl, Member, ◌⊎◌, if_cases, here, [], ◌≤◌, ◌&&◌, leb, ◌≡◌, ltb, Bool-cases, arith, length, true,
  inr, false, there, inl, All-map, subst, sym, ap, ◌∙◌, and-true_inv, List, All, ◌∷◌,
}
use xero_bot.Resolve.{
  insert_by_start, sort_by_start, status_pass, drop_earlier, is_status, has_status, status_commands,
}
use xero_bot.Parser.State.{ParsedCommand, Diagnostic}
use xero_bot.Resolve.Resolved.{insert-All}

-- by start
abbrev pub Sorted : List ParsedCommand → Type 0
Sorted [] = Unit
Sorted (c ∷ cs) = All (λ d. c.span.from ≤ d.span.from) cs × Sorted cs

insert-Sorted :
    (c : ParsedCommand) (cs : List ParsedCommand) → Sorted cs → Sorted (insert_by_start c cs)
unfolding insert_by_start
insert-Sorted c [] h = (tt, tt)
insert-Sorted c (d ∷ ds) h =
    if_cases Sorted (leb c.span.from d.span.from) (c ∷ d ∷ ds) (d ∷ insert_by_start c ds)
      (λ e. (
        (
          ground (arith, e),
          All-map (λ x (k : d.span.from ≤ x.span.from). ground (arith, e, k)) ds h.0,
        ),
        h,
      ))
      (λ e. (
        insert-All (λ x. d.span.from ≤ x.span.from) c ds (ground (arith, e)) h.0,
        insert-Sorted c ds h.1,
      ))

pub sort-Sorted : (cs : List ParsedCommand) → Sorted (sort_by_start cs)
unfolding sort_by_start
sort-Sorted [] = tt
sort-Sorted (c ∷ cs) = insert-Sorted c (sort_by_start cs) (sort-Sorted cs)

All-pair :
    {A : Type 0} (P Q : A → Type 0) (xs : List A) → All P xs → All Q xs → All (λ x. P x × Q x) xs
All-pair P Q [] h k = tt
All-pair P Q (x ∷ xs) h k = ((h.0, k.0), All-pair P Q xs h.1 k.1)

module _ (P : ParsedCommand → Type 0) where
  -- a status command of those left
  abbrev pub Kept : List ParsedCommand → Type 0
  Kept cs = (d : ParsedCommand) × (Member d cs × ((is_status d.command ≡ true) × P d))

  drop_earlier-there :
      (c d : ParsedCommand) (cs : List ParsedCommand)
      → Member d (drop_earlier cs)
      → Member d (drop_earlier (c ∷ cs))
  unfolding drop_earlier
  drop_earlier-there c d cs m =
      if_cases (Member d) (is_status c.command && has_status cs) (drop_earlier cs)
        (c ∷ drop_earlier cs) (λ _. m) (λ _. there m)

  drop_earlier-here :
      (c : ParsedCommand) (cs : List ParsedCommand)
      → has_status cs ≡ false
      → Member c (drop_earlier (c ∷ cs))
  unfolding drop_earlier
  drop_earlier-here c cs f =
      if_cases (Member c) (is_status c.command && has_status cs) (drop_earlier cs)
        (c ∷ drop_earlier cs) (λ g. ground (arith, f, g)) (λ _. here refl)

  drop_earlier-last :
      (cs : List ParsedCommand) → All P cs → has_status cs ≡ true → Kept (drop_earlier cs)
  drop_earlier-last [] h e = ground (arith, e)
  drop_earlier-last (c ∷ cs) h e = elim (Bool-cases (has_status cs)) [
    | inl f ↦ let (d, (m, k)) = drop_earlier-last cs h.1 f in (d, (drop_earlier-there c d cs m, k))
    | inr f ↦ (c, (drop_earlier-here c cs f, (ground (arith, e, f), h.0)))
  ]

module _ (P : ParsedCommand → Type 0) where
  -- the candidate is left, or it is a status and one that does not start before it is left
  abbrev pub Survives : ParsedCommand → List ParsedCommand → Type 0
  Survives a cs =
      Member a cs
      ⊎ ((is_status a.command ≡ true) × Kept (λ d. (a.span.from ≤ d.span.from) × P d) cs)

  drop_earlier-Survives :
      (a : ParsedCommand) (cs : List ParsedCommand)
      → Sorted cs
      → All P cs
      → Member a cs
      → Survives a (drop_earlier cs)
  unfolding drop_earlier
  drop_earlier-Survives a [] s h m = elim m [ ]
  drop_earlier-Survives a (c ∷ cs) s h (here e) =
      elim (Bool-cases (is_status c.command && has_status cs)) [
        | inr f ↦ rw f (inl (here e))
        | inl f ↦
            let later =
              subst (λ (x : ParsedCommand). All (λ d. x.span.from ≤ d.span.from) cs) (sym e) s.0 in
            let same : is_status a.command ≡ true =
              ap (λ (x : ParsedCommand). is_status x.command) e
              ∙ (and-true_inv (is_status c.command) (has_status cs) f).0 in
            rw f (
              inr (
                same,
                drop_earlier-last (λ d. (a.span.from ≤ d.span.from) × P d) cs
                    (All-pair _ _ cs later h.1)
                    (and-true_inv (is_status c.command) (has_status cs) f).1,
              ))
      ]
  drop_earlier-Survives a (c ∷ cs) s h (there m) = elim (drop_earlier-Survives a cs s.1 h.1 m) [
    | inl k ↦ inl (drop_earlier-there P c a cs k)
    | inr (e, (d, (k, l))) ↦ inr (e, (d, (drop_earlier-there P c d cs k, l)))
  ]

  pub status_pass-Survives :
      (a : ParsedCommand) (cs : List ParsedCommand) (diags : List Diagnostic)
      → Sorted cs
      → All P cs
      → Member a cs
      → Survives a (status_pass cs diags).0
  unfolding status_pass
  status_pass-Survives a cs diags s h m =
      if_cases (λ (r : List ParsedCommand × List Diagnostic). Survives a r.0)
        (ltb 1 (length (status_commands cs))) _ _ (λ _. drop_earlier-Survives a cs s h m)
        (λ _. inl m)
