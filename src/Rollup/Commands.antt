-- ===== src/Rollup/Commands.antt =====
-- A queue command that is delivered twice: src/rollup/ingress.rs, `apply`.
use xero_bot.Prelude.{
  ◌≡◌, ◌≤◌, refl, sym, Bool, true, List, [], ◌∷◌, ◌++◌, ℕ, zero, suc, length, drop, Bool-cases, inl,
  inr, arith, subst, ltb, ◌⊎◌, length-append,
}
use xero_bot.Text.{Text}
use xero_bot.Text.Laws.{text_eq_refl}
use xero_bot.Command.{Command}
use xero_bot.Rollup.{Repository, Entry}
use xero_bot.Rollup.Engine.{has_text}
use xero_bot.Store.Table.{find_where}
use xero_bot.Rollup.Ingress.{
  Decision, Reply, Change, done, keeps, refuses, becomes, apply_command, remember, change_of,
  is_superseded, is_same_pr, recorded_before, QueueError,
}

has_text-last :
    (n : ℕ) (keys : List Text) (key : Text)
    → n ≤ length keys
    → has_text (drop n (keys ++ key ∷ [])) key ≡ true
has_text-last zero [] key h = ground (arith, text_eq_refl key)
has_text-last zero (k ∷ ks) key h = ground (arith, has_text-last zero ks key (omega arith))
has_text-last (suc n) [] key h = ground (arith, h)
has_text-last (suc n) (k ∷ ks) key h = has_text-last n ks key (omega (arith, h))

has_text-remember : (keys : List Text) (key : Text) → has_text (remember keys key) key ≡ true
unfolding remember
has_text-remember keys key = elim (Bool-cases (ltb 10000 (length (keys ++ key ∷ [])))) [
  | inl e ↦ rw e (has_text-last 1000 keys key (ground (arith, e, length-append keys (key ∷ []))))
  | inr e ↦ rw e (has_text-last 0 keys key (omega arith))
]

Change-cases :
    (c : Change)
    → (c ≡ keeps)
      ⊎ (((error : QueueError) × (c ≡ refuses error))
          ⊎ ((e : Entry) × ((at_once : Bool) × (c ≡ becomes e at_once))))
Change-cases keeps = inl refl
Change-cases (refuses error) = inr (inl (error, refl))
Change-cases (becomes e at_once) = inr (inr (e, (at_once, refl)))

-- A command takes effect once: where `apply` returns without an error, applying the same command again
-- to the repository that it left returns without an error and leaves that repository.
pub apply_command-Once :
    (digits : ℕ → Text) (command : Command) (d : Decision) (key : Text) (repo : Repository)
    (reply : Reply) (after : Repository)
    → apply_command digits command d key repo ≡ done reply after
    → (again : Reply) × (apply_command digits command d key after ≡ done again after)
unfolding apply_command
apply_command-Once digits command d key repo reply after e =
    let old = find_where (is_same_pr d) repo.entries in
    elim (Bool-cases (has_text repo.commands key)) [
      | inl h ↦
          let same : repo ≡ after = ground (arith, e, h) in
          (recorded_before, rw (sym same) (ground (arith, h)))
      | inr h ↦ elim (Bool-cases (is_superseded d old)) [
        | inl s ↦ ground (arith, e, h, s)
        | inr s ↦ elim (Change-cases (change_of digits command d old)) [
          | inl c ↦
              let same : repo ≡ after = ground (arith, e, h, s, c) in
              (reply, subst (λ r. apply_command digits command d key r ≡ done reply after) same e)
          | inr c ↦ elim c [
            | inl f ↦ ground (arith, e, h, s, f.1)
            | inr f ↦
                let left : remember repo.commands key ≡ after.commands =
                  ground (arith, e, h, s, f.1.1) in
                let known : has_text after.commands key ≡ true =
                  subst (λ cs. has_text cs key ≡ true) left (has_text-remember repo.commands key) in
                (recorded_before, ground (arith, known))
          ]
        ]
      ]
    ]
