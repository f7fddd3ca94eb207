-- ===== src/Mask/Blanking.antt =====
-- The masker of src/commands/mask.rs blanks characters in place.
use xero_bot.Text.Laws.{len-append}
use xero_bot.Mask.{
  lines_of, mask_lines, blank, add_char, spaces, ◌∷◌, len_utf8, ℕ, line_end, Lines, Line, suc,
  mask_line,
}
use xero_bot.Prelude.{
  List, Bool, ℕ, ◌++◌, ◌∷◌, ◌≡◌, subst, ◌⊎◌, if_cases, [], inl, arith, refl, ◌≢◌, ap, ◌∙◌, ◌==◌,
  true, sym, inr, zero, false, ==_iff, append_assoc,
}
use xero_bot.Text.{len, Text, len_utf8}

-- `out` is `s` with some characters, none of them line feeds, replaced by a space for each byte.
abbrev pub Blanking : Text → Text → Type 0
Blanking [] out = out ≡ []
Blanking (c ∷ s) out =
    ((rest : Text) × (out ≡ c ∷ rest) × Blanking s rest)
    ⊎ ((rest : Text) × (c ≢ 10) × (out ≡ spaces (len_utf8 c) ++ rest) × Blanking s rest)

pub Blanking-refl : (s : Text) → Blanking s s
Blanking-refl [] = refl
Blanking-refl (c ∷ s) = inl (s, refl, Blanking-refl s)

pub Blanking-append :
    (s s' t t' : Text) → Blanking s s' → Blanking t t' → Blanking (s ++ t) (s' ++ t')
Blanking-append [] s' t t' h k = rw h k
Blanking-append (c ∷ s) s' t t' (inl (r, e, h)) k =
    inl (r ++ t', ap (λ u. u ++ t') e, Blanking-append s r t t' h k)
Blanking-append (c ∷ s) s' t t' (inr (r, n, e, h)) k = inr (
  r ++ t',
  n,
  ap (λ u. u ++ t') e ∙ append_assoc (spaces (len_utf8 c)) r t',
  Blanking-append s r t t' h k,
)

pub blank-Blanking : (s : Text) → Blanking s (blank s)
unfolding blank
blank-Blanking [] = refl
blank-Blanking (c ∷ s) =
    if_cases (Blanking (c ∷ s)) (c == 10) (10 ∷ blank s) (spaces (len_utf8 c) ++ blank s)
      (λ e. inl (blank s, ap (λ d. d ∷ blank s) (sym ((==_iff c 10).0 e)), blank-Blanking s))
      (λ e. inr (blank s, (λ q. cc (e, (==_iff c 10).1 q)), refl, blank-Blanking s))

-- blanked spaces are kept as they are
spaces_inv :
    (n : ℕ) (t u : Text)
    → Blanking (spaces n ++ t) u
    → (rest : Text) × (u ≡ spaces n ++ rest) × Blanking t rest
unfolding spaces len_utf8
spaces_inv zero t u h = (u, refl, h)
spaces_inv (suc n) t u (inl (r, e, h)) =
    let (rest, e', k) = spaces_inv n t r h in (rest, e ∙ ap (λ v. 32 ∷ v) e', k)
spaces_inv (suc n) t u (inr (r, ne, e, h)) =
    let (rest, e', k) = spaces_inv n t r h in (rest, e ∙ ap (λ v. 32 ∷ v) e', k)

Blanking-cons_trans :
    (c : ℕ) (s r u : Text)
    → ((v : Text) → Blanking r v → Blanking s v)
    → Blanking (c ∷ r) u
    → Blanking (c ∷ s) u
Blanking-cons_trans c s r u ih (inl (v, f, m)) = inl (v, f, ih v m)
Blanking-cons_trans c s r u ih (inr (v, n, f, m)) = inr (v, n, f, ih v m)

pub Blanking-trans : (s t u : Text) → Blanking s t → Blanking t u → Blanking s u
Blanking-trans [] t u h k = subst (λ v. Blanking v u) h k
Blanking-trans (c ∷ s) t u (inl (r, e, h)) k =
    Blanking-cons_trans c s r u (λ v m. Blanking-trans s r v h m) (subst (λ v. Blanking v u) e k)
Blanking-trans (c ∷ s) t u (inr (r, n, e, h)) k =
    let (v, f, m) = spaces_inv (len_utf8 c) r u (subst (λ w. Blanking w u) e k) in
    inr (v, n, f, Blanking-trans s r v h m)

len-spaces : (n : ℕ) → len (spaces n) ≡ n
unfolding spaces len len_utf8
len-spaces zero = refl
len-spaces (suc n) = omega (arith, len-spaces n)

pub Blanking-len : (s out : Text) → Blanking s out → len out ≡ len s
unfolding len
Blanking-len [] out h = rw h
Blanking-len (c ∷ s) out (inl (r, e, h)) = rw e (omega (arith, Blanking-len s r h))
Blanking-len (c ∷ s) out (inr (r, n, e, h)) =
    rw e (
      omega
        (arith, len-append (spaces (len_utf8 c)) r, len-spaces (len_utf8 c), Blanking-len s r h))

-- what the lines of a text join to
unfoldable pub join : List Line → Text
join [] = []
join ((body, ended) ∷ ls) = body ++ line_end ended (join ls)

join-add_char : (c : ℕ) (ls : List Line) → join (add_char c ls) ≡ c ∷ join ls
unfolding join add_char
join-add_char c [] = refl
join-add_char c ((body, ended) ∷ ls) = refl

pub join-lines_of : (s : Text) → join (lines_of s) ≡ s
unfolding lines_of join
join-lines_of [] = refl
join-lines_of (c ∷ s) =
    if_cases (λ ls. join ls ≡ c ∷ s) (c == 10) (([], true) ∷ lines_of s) (add_char c (lines_of s))
      (λ e.
        ap (λ d. d ∷ join (lines_of s)) (sym ((==_iff c 10).0 e))
        ∙ ap (λ t. c ∷ t) (join-lines_of s))
      (λ _. join-add_char c (lines_of s) ∙ ap (λ t. c ∷ t) (join-lines_of s))

pub line_end-Blanking :
    (ended : Bool) (s t : Text) → Blanking s t → Blanking (line_end ended s) (line_end ended t)
line_end-Blanking true s t h = inl (t, refl, h)
line_end-Blanking false s t h = h

pub mask_lines-Blanking : (st : Lines) (ls : List Line) → Blanking (join ls) (mask_lines st ls)
unfolding mask_lines join
mask_lines-Blanking st [] = refl
mask_lines-Blanking st ((body, ended) ∷ ls) =
    Blanking-append body _ (line_end ended (join ls)) _
      (if_cases (Blanking body) (mask_line st body).0 (blank body) body (λ _. blank-Blanking body)
        (λ _. Blanking-refl body))
      (line_end-Blanking ended (join ls) _ (mask_lines-Blanking (mask_line st body).1 ls))
