-- ===== src/Resolve/Complete.antt =====
-- What becomes of each permitted candidate in `resolve` (src/commands/resolve.rs).
use xero_bot.Resolve.Survives.{Sorted, sort-Sorted, status_pass-Survives}
use xero_bot.Resolve.Resolved.{sort-All, retain-All}
use xero_bot.Resolve.Equality.{command_eq_refl}
use xero_bot.Command.{Command}
use xero_bot.Parser.State.{ParsedCommand, Diagnostic}
use xero_bot.Text.{Text}
use xero_bot.Prelude.{
  Bool, List, any, Member, ℕ, ◌≡◌, ◌++◌, there, here, ◌∷◌, ◌||◌, if_cases, true, false, subst, leb,
  ap, [], arith, refl, ◌⊎◌, All, All-map, ◌≤◌, inl, inr,
}
use xero_bot.Resolve.{
  add_new, sort_by_start, collapse, insert_by_start, retain, ParsedCommand, resolve, Command,
  is_self_request, is_status, contains_command, normalize_login, command_eq,
}

module _ {ℓ} {A : Type ℓ} where
  Member-any : (p : A → Bool) (a : A) (xs : List A) → Member a xs → p a ≡ true → any p xs ≡ true
  Member-any p a [] m h = elim m [ ]
  Member-any p a (x ∷ xs) (here e) h = ground (arith, ap p e)
  Member-any p a (x ∷ xs) (there m) h = let ih = Member-any p a xs m h in ground arith

  any-append : (p : A → Bool) (xs ys : List A) → any p (xs ++ ys) ≡ (any p xs || any p ys)
  any-append p [] ys = refl
  any-append p (x ∷ xs) ys = let ih = any-append p xs ys in ground arith

All-Member : {A : Type 0} (xs : List A) → All (λ x. Member x xs) xs
All-Member [] = tt
All-Member (x ∷ xs) = (here refl, All-map (λ y m. there m) xs (All-Member xs))

insert-Member_here : (c : ParsedCommand) (cs : List ParsedCommand) → Member c (insert_by_start c cs)
unfolding insert_by_start
insert-Member_here c [] = here refl
insert-Member_here c (d ∷ ds) =
    if_cases (Member c) (leb c.span.from d.span.from) (c ∷ d ∷ ds) (d ∷ insert_by_start c ds)
      (λ _. here refl) (λ _. there (insert-Member_here c ds))

insert-Member_there :
    (a c : ParsedCommand) (cs : List ParsedCommand) → Member a cs → Member a (insert_by_start c cs)
unfolding insert_by_start
insert-Member_there a c [] m = there m
insert-Member_there a c (d ∷ ds) m =
    if_cases (Member a) (leb c.span.from d.span.from) (c ∷ d ∷ ds) (d ∷ insert_by_start c ds)
      (λ _. there m)
      (λ _. elim m [ here e ↦ here e | there k ↦ there (insert-Member_there a c ds k) ])

sort-Member :
    (a : ParsedCommand) (cs : List ParsedCommand) → Member a cs → Member a (sort_by_start cs)
unfolding sort_by_start
sort-Member a [] m = m
sort-Member a (c ∷ cs) (here e) =
    subst (λ d. Member a (insert_by_start d (sort_by_start cs))) e
      (insert-Member_here a (sort_by_start cs))
sort-Member a (c ∷ cs) (there m) = insert-Member_there a c (sort_by_start cs) (sort-Member a cs m)

-- Adding keeps what is there, and the added command is there.
add_new-keeps :
    (out : List Command) (c d : Command)
    → contains_command out d ≡ true
    → contains_command (add_new out c) d ≡ true
unfolding add_new
add_new-keeps out c d h =
    if_cases (λ o. contains_command o d ≡ true) (contains_command out c) out (out ++ c ∷ [])
      (λ _. h) (λ _. let split = any-append (λ x. command_eq x d) out (c ∷ []) in ground arith)

add_new-contains : (out : List Command) (c : Command) → contains_command (add_new out c) c ≡ true
unfolding add_new
add_new-contains out c =
    if_cases (λ o. contains_command o c ≡ true) (contains_command out c) out (out ++ c ∷ [])
      (λ e. e)
      (λ _.
        let split = any-append (λ x. command_eq x c) out (c ∷ []) in
        let same = command_eq_refl c in ground arith)

collapse-keeps :
    (cs : List ParsedCommand) (out : List Command) (dupes : List (Text × ℕ)) (d : Command)
    → contains_command out d ≡ true
    → contains_command (collapse out dupes cs).0 d ≡ true
unfolding collapse
collapse-keeps [] out dupes d h = h
collapse-keeps (c ∷ cs) out dupes d h = collapse-keeps cs _ _ d (add_new-keeps out c.command d h)

collapse-contains :
    (cs : List ParsedCommand) (out : List Command) (dupes : List (Text × ℕ)) (a : ParsedCommand)
    → Member a cs
    → contains_command (collapse out dupes cs).0 a.command ≡ true
unfolding collapse
collapse-contains [] out dupes a m = elim m [ ]
collapse-contains (c ∷ cs) out dupes a (here e) =
    rw e (collapse-keeps cs _ _ c.command (add_new-contains out c.command))
collapse-contains (c ∷ cs) out dupes a (there m) = collapse-contains cs _ _ a m

module _ (to_lowercase : Text → Text) where
  retain-Member :
      (me : Text) (a : ParsedCommand) (cs : List ParsedCommand) (diags : List Diagnostic)
      → Member a cs
      → is_self_request to_lowercase me a.command ≡ false
      → Member a (retain to_lowercase me cs diags).0
  unfolding retain
  retain-Member me a [] diags m h = m
  retain-Member me a (c ∷ cs) diags (here e) h =
      if_cases (Member a) (is_self_request to_lowercase me c.command) _ _
        (λ k. cc (ap (λ (x : ParsedCommand). is_self_request to_lowercase me x.command) e, h, k))
        (λ _. here e)
  retain-Member me a (c ∷ cs) diags (there m) h =
      if_cases (Member a) (is_self_request to_lowercase me c.command) _ _
        (λ _. retain-Member me a cs _ m h) (λ _. there (retain-Member me a cs _ m h))

  retain-Sorted :
      (me : Text) (cs : List ParsedCommand) (diags : List Diagnostic)
      → Sorted cs
      → Sorted (retain to_lowercase me cs diags).0
  unfolding retain
  retain-Sorted me [] diags h = tt
  retain-Sorted me (c ∷ cs) diags h =
      if_cases Sorted (is_self_request to_lowercase me c.command) _ _
        (λ _. retain-Sorted me cs _ h.1)
        (λ _. (
          All-map (λ d k. k.0) _
              (retain-All to_lowercase me (λ d. c.span.from ≤ d.span.from) cs _ h.0),
          retain-Sorted me cs _ h.1,
        ))

  -- The command of each candidate that does not ask the bot itself is among the commands that are left,
  -- unless it is a status command; then it or the status command of a candidate that does not start
  -- before it is left.
  pub resolve_complete :
      (bot_name : Text) (parsed : List ParsedCommand) (diags : List Diagnostic) (c : ParsedCommand)
      → Member c parsed
      → is_self_request to_lowercase (normalize_login to_lowercase bot_name) c.command ≡ false
      → (contains_command (resolve to_lowercase bot_name parsed diags).0 c.command ≡ true)
        ⊎ ((is_status c.command ≡ true)
            × ((d : ParsedCommand) × ((Member d parsed
                    × ((is_status d.command ≡ true) × (c.span.from ≤ d.span.from)))
                  × (contains_command (resolve to_lowercase bot_name parsed diags).0 d.command
                      ≡ true))))
  unfolding resolve
  resolve_complete bot_name parsed diags c m self =
      let sorted = sort_by_start parsed in
      let kept = retain to_lowercase (normalize_login to_lowercase bot_name) sorted diags in
      let candidates =
        All-map (λ d k. k.0) _
          (retain-All to_lowercase (normalize_login to_lowercase bot_name) (λ d. Member d parsed)
            sorted diags (sort-All (λ d. Member d parsed) parsed (All-Member parsed))) in
      elim (status_pass-Survives (λ d. Member d parsed) c kept.0 kept.1
        (retain-Sorted _ sorted diags (sort-Sorted parsed)) candidates
        (retain-Member _ c sorted diags (sort-Member c parsed m) self)) [
          | inl k ↦ inl (collapse-contains _ [] [] c k)
          | inr (e, (d, (k, (f, (l, o))))) ↦
              inr (e, (d, ((o, (f, l)), collapse-contains _ [] [] d k)))
        ]
