-- ===== src/Text/Laws.antt =====
-- Laws of texts: lengths in bytes, equality, slices, prefixes taken by a test.
use xero_bot.Prelude.{
  ℕ, ◌+◌, ◌-◌, ◌<◌, ◌≡◌, refl, ◌↔◌, true, [], ◌∷◌, ◌++◌, arith, Bool, All, Bool-cases, inl, inr,
}
use xero_bot.Text.{Text, len_utf8, len, text_eq, take_while, drop_bytes, take_bytes, slice}

pub len_utf8_pos : (c : ℕ) → 0 < len_utf8 c
unfolding len_utf8
len_utf8_pos c = ground arith

pub len-append : (s t : Text) → len (s ++ t) ≡ len s + len t
unfolding len
len-append [] t = omega arith
len-append (c ∷ s) t = omega (arith, len-append s t)

pub text_eq→eq : (s t : Text) → text_eq s t ≡ true → s ≡ t
unfolding text_eq
text_eq→eq [] [] h = refl
text_eq→eq (a ∷ s) (b ∷ t) h = ground (arith, text_eq→eq s t)
text_eq→eq _ _ h = cc

pub text_eq_refl : (s : Text) → text_eq s s ≡ true
unfolding text_eq
text_eq_refl [] = refl
text_eq_refl (a ∷ s) = ground (arith, text_eq_refl s)

pub text_eq_iff : (s t : Text) → (text_eq s t ≡ true) ↔ (s ≡ t)
text_eq_iff s t = (text_eq→eq s t, λ e. rw e (text_eq_refl t))

pub take_while_split : (p : ℕ → Bool) (s : Text) → (take_while p s).0 ++ (take_while p s).1 ≡ s
unfolding take_while
take_while_split p [] = refl
take_while_split p (c ∷ cs) = ground (arith, take_while_split p cs)

pub take_while-All : (p : ℕ → Bool) (s : Text) → All (λ c. p c ≡ true) (take_while p s).0
unfolding take_while
take_while-All p [] = tt
take_while-All p (c ∷ cs) = elim (Bool-cases (p c)) [
  | inl h ↦ rw h (h, take_while-All p cs)
  | inr h ↦ rw h tt
]

pub drop_bytes-append : (s t : Text) → drop_bytes (len s) (s ++ t) ≡ t
unfolding drop_bytes len
drop_bytes-append [] [] = refl
drop_bytes-append [] (c ∷ t) = refl
drop_bytes-append (c ∷ s) t = ground (arith, len_utf8_pos c, drop_bytes-append s t)

pub take_bytes-append : (s t : Text) → take_bytes (len s) (s ++ t) ≡ s
unfolding take_bytes len
take_bytes-append [] [] = refl
take_bytes-append [] (c ∷ t) = refl
take_bytes-append (c ∷ s) t = ground (arith, len_utf8_pos c, take_bytes-append s t)

-- A part of a text is what the slice at its offsets reads.
pub slice_part :
    (before part after : Text)
    → slice (before ++ (part ++ after)) (len before) (len before + len part) ≡ part
unfolding slice
slice_part before part after =
    let e : len before + len part - len before ≡ len part = omega arith in
    rw (e, drop_bytes-append) (take_bytes-append part after)
