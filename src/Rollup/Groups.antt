-- ===== src/Rollup/Groups.antt =====
-- The batches of src/rollup/engine.rs: which keys `select_group` takes, and how `finish` splits a batch.
use xero_bot.Prelude.{
  ◌≡◌, ◌≤◌, ◌<◌, refl, sym, ap, Bool, true, false, not, ◌||◌, ◌&&◌, List, [], ◌∷◌, ◌++◌, ℕ, zero,
  suc, ◌+◌, ◌/◌, length, take, All, some, none, Option-cases, Bool-cases, inl, inr, arith,
  if◌then◌else◌, ltb, ◌⊎◌, subst, ◌==◌, drop,
}
use xero_bot.Text.{Text, codes, text_eq}
use xero_bot.Parser.Args.{is_empty}
use xero_bot.Store.Table.{select_where, find_where}
use xero_bot.Rollup.{Repository, Policy, Entry, Batch, entry}
use xero_bot.Rollup.Engine.{
  select_from, select_group, has_text, split_off, batch_size, rollup_run, joins_batch, finish_batch,
  must_split, halves,
}

take-drop {ℓ} : {A : Type ℓ} (n : ℕ) (xs : List A) → take n xs ++ drop n xs ≡ xs
take-drop zero xs = refl
take-drop (suc n) [] = refl
take-drop (suc n) (x ∷ xs) = ap (λ l. x ∷ l) (take-drop n xs)

-- what is put back of a half
abbrev pub put_back : List Text → List (List Text) → List (List Text)
put_back rest halves = if is_empty rest then halves else rest ∷ halves

-- the keys that a call chooses from, and the later halves
abbrev pub candidates_of : Repository → List Text → List Text
candidates_of repo eligible = elim (repo.split) [
  | [] ↦ eligible
  | requested ∷ _ ↦ select_where (has_text eligible) requested
]

abbrev pub later_halves : Repository → List (List Text)
later_halves repo = elim (repo.split) [ [] ↦ [] | _ ∷ halves ↦ halves ]

Split-cases :
    (xs : List (List Text))
    → (xs ≡ []) ⊎ ((h : List Text) × ((hs : List (List Text)) × (xs ≡ h ∷ hs)))
Split-cases [] = inl refl
Split-cases (h ∷ hs) = inr (h, (hs, refl))

-- a choice is empty, or takes the size of a batch from the front
select_from-Choice :
    (now : ℕ) (p : Policy) (splitting : Bool) (repo : Repository) (candidates : List Text)
    (r : List Text × Repository)
    → select_from now p splitting repo candidates ≡ some r
    → ((splitting ≡ true → candidates ≡ []) × (r ≡ ([], repo)))
      ⊎ ((first : Entry) × ((size : ℕ) × ((batch_size repo p first candidates ≡ some size)
              × (r ≡ split_off splitting repo candidates size))))
unfolding select_from
select_from-Choice now p splitting repo [] r e = inl ((λ _. refl), ground (arith, e))
select_from-Choice now p splitting repo (first ∷ others) r e =
    elim (Option-cases (entry repo first)) [
      | inl f ↦ ground (arith, e, f)
      | inr f ↦ elim (Bool-cases (not splitting && ltb now ((f.0).created + p.collect_seconds))) [
        | inl w ↦ inl ((λ s. ground (arith, w, s)), ground (arith, e, f.1, w))
        | inr w ↦ elim (Option-cases (batch_size repo p f.0 (first ∷ others))) [
          | inl b ↦ ground (arith, e, f.1, w, b)
          | inr b ↦ inr (f.0, (b.0, (b.1, ground (arith, e, f.1, w, b.1))))
        ]
      ]
    ]

put_back-split_off :
    (repo : Repository) (candidates : List Text) (size : ℕ)
    → (split_off true repo candidates size).1.split ≡ put_back (drop size candidates) repo.split
put_back-split_off repo candidates size = ground arith

-- No key is lost by the choice of a batch: the keys that are taken, with the keys that are left, are
-- the eligible ones in their order, those of the first split half if there is one, and then the keys
-- that are left are put back before the later halves. Without a half the split stays empty.
pub select_group-Conserves :
    (now : ℕ) (repo : Repository) (eligible : List Text) (p : Policy) (r : List Text × Repository)
    → select_group now repo eligible p ≡ some r
    → (rest : List Text) × ((r.0 ++ rest ≡ candidates_of repo eligible)
        × (r.1.split ≡ (if is_empty repo.split then [] else put_back rest (later_halves repo))))
unfolding select_group
select_group-Conserves now repo eligible p r e = elim (Split-cases (repo.split)) [
  | inl s ↦ elim (select_from-Choice now p false repo eligible r (ground (arith, e, s))) [
    | inl c ↦ (eligible, (rw c.1 (ground (arith, s)), rw c.1 (ground (arith, s))))
    | inr c ↦ (
      drop c.1.0 eligible,
      (rw c.1.1.1 (rw s (take-drop c.1.0 eligible)), rw c.1.1.1 (ground (arith, s))),
    )
  ]
  | inr s ↦
      let half = select_where (has_text eligible) s.0 in
      let later = record repo { split = s.1.0 } in
      elim (select_from-Choice now p true later half r (ground (arith, e, s.1.1))) [
        | inl c ↦ ([], (rw c.1 (rw s.1.1 (sym (c.0 refl))), rw c.1 (rw s.1.1 refl)))
        | inr c ↦ (
          drop c.1.0 half,
          (
            rw c.1.1.1 (rw s.1.1 (take-drop c.1.0 half)),
            rw c.1.1.1 (rw s.1.1 (put_back-split_off later half c.1.0)),
          ),
        )
      ]
]

-- an entry that may share a batch
abbrev pub IsShared : Repository → Text → Type 0
IsShared repo k = (e : Entry) × ((entry repo k ≡ some e) × (joins_batch e ≡ true))

rollup_run-IsShared :
    (repo : Repository) (n : ℕ) (keys : List Text) (m : ℕ)
    → rollup_run repo n keys ≡ some m
    → (length (take m keys) ≤ n) × All (IsShared repo) (take m keys)
unfolding rollup_run
rollup_run-IsShared repo zero keys m e =
    let z : 0 ≡ m = ground (arith, e) in rw (sym z) (omega arith, tt)
rollup_run-IsShared repo (suc n) [] m e =
    let z : 0 ≡ m = ground (arith, e) in rw (sym z) (omega arith, tt)
rollup_run-IsShared repo (suc n) (k ∷ ks) m e = elim (Option-cases (entry repo k)) [
  | inl f ↦ ground (arith, e, f)
  | inr f ↦ elim (Bool-cases (joins_batch f.0)) [
    | inr j ↦ let z : 0 ≡ m = ground (arith, e, f.1, j) in rw (sym z) (omega arith, tt)
    | inl j ↦ elim (Option-cases (rollup_run repo n ks)) [
      | inl g ↦ ground (arith, e, f.1, j, g)
      | inr g ↦
          let z : suc g.0 ≡ m = ground (arith, e, f.1, j, g.1) in
          let rest = rollup_run-IsShared repo n ks g.0 g.1 in
          rw (sym z) (omega (arith, rest.0), ((f.0, (f.1, j)), rest.1))
    ]
  ]
]

length-take_one {ℓ} : {A : Type ℓ} (xs : List A) → length (take 1 xs) ≤ 1
length-take_one [] = omega arith
length-take_one (x ∷ xs) = omega arith

-- the limits of a batch
abbrev pub IsWithin : Repository → Policy → List Text → Type 0
IsWithin repo p keys = (length keys ≤ 1) ⊎ ((length keys ≤ p.max_batch) × All (IsShared repo) keys)

batch_size-IsWithin :
    (repo : Repository) (p : Policy) (first : Entry) (candidates : List Text) (size : ℕ)
    → batch_size repo p first candidates ≡ some size
    → IsWithin repo p (take size candidates)
batch_size-IsWithin repo p first candidates size e =
    elim (Bool-cases (not first.rollup || first.try_only)) [
      | inl h ↦
          let z : 1 ≡ size = ground (arith, e, h) in inl (rw (sym z) (length-take_one candidates))
      | inr h ↦ inr (rollup_run-IsShared repo p.max_batch candidates size (ground (arith, e, h)))
    ]

-- A batch of more than one key has no more than the policy's `max_batch`, and each of its keys has an
-- entry that allows a rollup and is not a try.
pub select_group-IsWithin :
    (now : ℕ) (repo : Repository) (eligible : List Text) (p : Policy) (r : List Text × Repository)
    → select_group now repo eligible p ≡ some r
    → (length r.0 ≤ 1)
      ⊎ ((length r.0 ≤ p.max_batch)
          × All (λ k. (e : Entry) × ((entry repo k ≡ some e) × (joins_batch e ≡ true))) r.0)
unfolding select_group entry
select_group-IsWithin now repo eligible p r e = elim (Split-cases (repo.split)) [
  | inl s ↦ elim (select_from-Choice now p false repo eligible r (ground (arith, e, s))) [
    | inl c ↦ inl (rw c.1 (omega arith))
    | inr c ↦
        subst (λ (x : List Text × Repository). IsWithin repo p x.0) (sym c.1.1.1)
          (batch_size-IsWithin repo p c.0 eligible c.1.0 c.1.1.0)
  ]
  | inr s ↦
      let half = select_where (has_text eligible) s.0 in
      let later = record repo { split = s.1.0 } in
      elim (select_from-Choice now p true later half r (ground (arith, e, s.1.1))) [
        | inl c ↦ inl (rw c.1 (omega arith))
        | inr c ↦
            subst (λ (x : List Text × Repository). IsWithin repo p x.0) (sym c.1.1.1)
              (batch_size-IsWithin later p c.0 half c.1.0 c.1.1.0)
      ]
]

length-drop {ℓ} :
    {A : Type ℓ} (n : ℕ) (xs : List A) → length (take n xs) + length (drop n xs) ≡ length xs
length-drop zero xs = omega arith
length-drop (suc n) [] = omega arith
length-drop (suc n) (x ∷ xs) = omega (arith, length-drop n xs)

length-take_le {ℓ} : {A : Type ℓ} (n : ℕ) (xs : List A) → n ≤ length xs → length (take n xs) ≡ n
length-take_le zero xs h = omega arith
length-take_le (suc n) [] h = omega (arith, h)
length-take_le (suc n) (x ∷ xs) h = omega (arith, length-take_le n xs (omega (arith, h)))

-- A batch of several keys that is not a try and fails is split: two halves that are shorter than the
-- batch and not empty stand before the halves that wait, they are its keys in their order, and no batch
-- is active. Every other end of a batch leaves the split as it was.
pub finish_batch-Bisects :
    (now : ℕ) (repo : Repository) (id : ℕ) (outcome detail : Text) (b : Batch) (r : Repository)
    → find_where (λ (c : Batch). c.id == id) repo.batches ≡ some b
    → finish_batch now repo id outcome detail ≡ some r
    → (r.active ≡ none)
      × (((text_eq outcome (codes "failed") && (ltb 1 (length b.members) && not b.try_only))
              ≡ false)
            × (r.split ≡ repo.split)
          ⊎ ((text_eq outcome (codes "failed") ≡ true)
              × ((1 < length b.members)
                  × ((b.try_only ≡ false)
                      × ((first : List Text) × ((second : List Text) × ((r.split
                                ≡ first ∷ second ∷ repo.split)
                              × ((first ++ second ≡ b.members)
                                  × ((1 ≤ length first) × (1 ≤ length second))))))))))
unfolding finish_batch
finish_batch-Bisects now repo id outcome detail b r f e = elim (Bool-cases (must_split outcome b)) [
  | inr m ↦ (ground (arith, e, f), inl (m, ground (arith, e, f, m)))
  | inl m ↦
      let half = length b.members / 2 in
      let many : 1 < length b.members = ground (arith, m) in
      let whole = length-drop half b.members in
      let front = length-take_le half b.members (omega (arith, many)) in
      (
        ground (arith, e, f),
        inr (
          ground (arith, m),
          (
            many,
            (
              ground (arith, m),
              (
                take half b.members,
                (
                  drop half b.members,
                  (
                    ground (arith, e, f, m),
                    (
                      take-drop half b.members,
                      (omega (arith, many, front), omega (arith, many, front, whole)),
                    ),
                  ),
                ),
              ),
            ),
          ),
        ),
      )
]
