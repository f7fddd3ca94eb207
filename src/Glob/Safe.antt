-- ===== src/Glob/Safe.antt =====
-- What the checks of a file list's names (src/path_triggers.rs) let through.
use xero_bot.Text.{Text, codes, text_eq, mem_char}
use xero_bot.Policy.{Domain, ok, refused, ReasonCode}
use xero_bot.Glob.{split, is_dots, valid_repo_path}
use xero_bot.Glob.Rules.{FileEntry, file_paths, checked_path, with_previous, is_renamed}
use xero_bot.Prelude.{
  ◌≡◌, ◌≢◌, ◌⊎◌, inl, inr, refl, ap, true, false, List, [], ◌∷◌, All, any, subst, Option, some,
  none, arith, Bool-cases,
}

-- A name from the repository's root by slashes: no backslash or NUL, and no segment that is empty, the
-- same directory or the one above.
abbrev pub IsSafe : Text → Type 0
IsSafe path =
    All (λ c. (c ≢ b'\\') × (c ≢ 0)) path
    × All (λ segment. (segment ≢ []) × ((segment ≢ codes ".") × (segment ≢ codes "..")))
        (split b'/' path)

-- an entry whose path is safe, and its old path if it is renamed
abbrev pub IsNamed : FileEntry → Type 0
IsNamed file =
    ((path : Text) × ((file.filename ≡ some path) × IsSafe path))
    × ((is_renamed file.status ≡ false)
        ⊎ ((previous : Text) × ((file.previous_filename ≡ some previous) × IsSafe previous)))

Domain-cases :
    {A : Type 0} (o : Domain A) → ((r : ReasonCode) × (o ≡ refused r)) ⊎ ((a : A) × (o ≡ ok a))
Domain-cases (refused r) = inl (r, refl)
Domain-cases (ok a) = inr (a, refl)

chars_safe :
    (path : Text)
    → mem_char b'\\' path ≡ false
    → mem_char 0 path ≡ false
    → All (λ c. (c ≢ b'\\') × (c ≢ 0)) path
chars_safe [] h k = tt
chars_safe (c ∷ cs) h k = (
  (λ e. ground (arith, h, e), λ e. ground (arith, k, e)),
  chars_safe cs (ground (arith, h)) (ground (arith, k)),
)

segment_safe : (s : Text) → is_dots s ≡ false → (s ≢ []) × ((s ≢ codes ".") × (s ≢ codes ".."))
unfolding text_eq
segment_safe s h = (
  λ e. ground (arith, h, ap (λ t. text_eq t []) e),
  (
    λ e. ground (arith, h, ap (λ t. text_eq t (codes ".")) e),
    λ e. ground (arith, h, ap (λ t. text_eq t (codes "..")) e),
  ),
)

segments_safe :
    (ss : List Text)
    → any is_dots ss ≡ false
    → All (λ segment. (segment ≢ []) × ((segment ≢ codes ".") × (segment ≢ codes ".."))) ss
segments_safe [] h = tt
segments_safe (s ∷ ss) h =
    (segment_safe s (ground (arith, h)), segments_safe ss (ground (arith, h)))

valid_repo_path-IsSafe : (path : Text) → valid_repo_path path ≡ true → IsSafe path
unfolding valid_repo_path
valid_repo_path-IsSafe path h = (
  chars_safe path (ground (arith, h)) (ground (arith, h)),
  segments_safe (split b'/' path) (ground (arith, h)),
)

checked_path-IsSafe :
    (name : Option Text) (path : Text)
    → checked_path name ≡ ok path
    → (name ≡ some path) × IsSafe path
unfolding checked_path
checked_path-IsSafe none path h = cc
checked_path-IsSafe (some p) path h = elim (Bool-cases (valid_repo_path p)) [
  | inl v ↦
      let same : p ≡ path = ground (arith, h, v) in
      (ap (λ t. some t) same, subst IsSafe same (valid_repo_path-IsSafe p v))
  | inr v ↦ ground (arith, h, v)
]

with_previous-IsSafe :
    (file : FileEntry) (path : Text) (paths : List Text)
    → with_previous file path ≡ ok paths
    → (is_renamed file.status ≡ false)
      ⊎ ((previous : Text) × ((file.previous_filename ≡ some previous) × IsSafe previous))
unfolding with_previous
with_previous-IsSafe file path paths h = elim (Bool-cases (is_renamed file.status)) [
  | inr e ↦ inl e
  | inl e ↦ elim (Domain-cases (checked_path file.previous_filename)) [
    | inl r ↦ ground (arith, h, e, r.1)
    | inr p ↦ inr (p.0, checked_path-IsSafe file.previous_filename p.0 p.1)
  ]
]

pub file_paths-IsNamed :
    (file : FileEntry) (paths : List Text) → file_paths file ≡ ok paths → IsNamed file
unfolding file_paths
file_paths-IsNamed file paths h = elim (Domain-cases (checked_path file.filename)) [
  | inl r ↦ ground (arith, h, r.1)
  | inr p ↦ (
    (p.0, checked_path-IsSafe file.filename p.0 p.1),
    with_previous-IsSafe file p.0 paths (ground (arith, h, p.1)),
  )
]
