-- ===== src/Text.antt =====
-- Rust's `str` and `char` as the program uses them: a text is the list of its code points, and
-- offsets count the bytes of its UTF-8 form.
pub mod Laws
pub mod Order
use Prim.Native.Char.{code}
use xero_bot.Prelude.{
  ℕ, ◌+◌, ◌-◌, String, Bool, true, false, not, ◌&&◌, ◌||◌, Option, none, some, List, [], ◌∷◌, map,
  reverse, ltb, leb, ◌==◌, if◌then◌else◌, any, all,
}

abbrev pub Text : Type 0
Text = List ℕ

abbrev pub codes : String → Text
codes String.[] = []
codes (String.◌∷◌ c s) = code c ∷ codes s

-- `char::len_utf8`
unfoldable pub len_utf8 : ℕ → ℕ
len_utf8 c = if ltb c 0x80 then 1 else if ltb c 0x800 then 2 else if ltb c 0x10000 then 3 else 4

-- `str::len`
unfoldable pub len : Text → ℕ
unfolding len_utf8
len [] = 0
len (c ∷ cs) = len_utf8 c + len cs

abbrev pub mem_char : ℕ → Text → Bool
mem_char c [] = false
mem_char c (d ∷ ds) = c == d || mem_char c ds

-- equality of texts
unfoldable pub text_eq : Text → Text → Bool
text_eq [] [] = true
text_eq (a ∷ as') (b ∷ bs) = a == b && text_eq as' bs
text_eq _ _ = false

unfoldable pub is_ascii_digit : ℕ → Bool
is_ascii_digit c = leb 48 c && leb c 57

unfoldable pub is_ascii_alphabetic : ℕ → Bool
is_ascii_alphabetic c = leb 65 c && leb c 90 || leb 97 c && leb c 122

unfoldable pub is_ascii_alphanumeric : ℕ → Bool
unfolding is_ascii_digit is_ascii_alphabetic
is_ascii_alphanumeric c = is_ascii_digit c || is_ascii_alphabetic c

-- the Unicode property White_Space
unfoldable pub is_whitespace : ℕ → Bool
is_whitespace c =
    leb 9 c && leb c 13
    || c == 0x20
    || c == 0x85
    || c == 0xa0
    || c == 0x1680
    || leb 0x2000 c && leb c 0x200a
    || c == 0x2028
    || c == 0x2029
    || c == 0x202f
    || c == 0x205f
    || c == 0x3000

-- the Unicode category Cc
unfoldable pub is_control : ℕ → Bool
is_control c = leb c 31 || leb 127 c && leb c 159

unfoldable pub to_ascii_lower : ℕ → ℕ
to_ascii_lower c = if leb 65 c && leb c 90 then c + 32 else c

unfoldable pub to_ascii_lowercase : Text → Text
unfolding to_ascii_lower
to_ascii_lowercase = map to_ascii_lower

unfoldable pub eq_ignore_ascii_case : Text → Text → Bool
unfolding to_ascii_lowercase text_eq
eq_ignore_ascii_case s t = text_eq (to_ascii_lowercase s) (to_ascii_lowercase t)

unfoldable pub strip_prefix : Text → Text → Option Text
strip_prefix [] s = some s
strip_prefix (p ∷ ps) [] = none
strip_prefix (p ∷ ps) (c ∷ cs) = if p == c then strip_prefix ps cs else none

unfoldable pub starts_with : Text → Text → Bool
unfolding strip_prefix
starts_with s p = elim (strip_prefix p s) [ none ↦ false | some _ ↦ true ]

unfoldable pub strip_suffix : Text → Text → Option Text
unfolding strip_prefix
strip_suffix p s = elim (strip_prefix (reverse p) (reverse s)) [
  | none ↦ none
  | some r ↦ some (reverse r)
]

-- `s.strip_suffix(p).unwrap_or(s)`
unfoldable pub without_suffix : Text → Text → Text
unfolding strip_suffix
without_suffix p s = elim (strip_suffix p s) [ none ↦ s | some r ↦ r ]

-- the longest prefix of accepted characters, and what follows it
unfoldable pub take_while : (ℕ → Bool) → Text → Text × Text
take_while p [] = ([], [])
take_while p (c ∷ cs) = let r = take_while p cs in if p c then (c ∷ r.0, r.1) else ([], c ∷ cs)

-- `text.get(byte..)?.chars().next()`: nothing past the end or inside a character
unfoldable pub peek_at : Text → ℕ → Option ℕ
unfolding len_utf8
peek_at [] k = none
peek_at (c ∷ cs) k =
    if k == 0 then some c else if leb (len_utf8 c) k then peek_at cs (k - len_utf8 c) else none

-- `&s[from..]` and `&s[..n]` for byte offsets on character boundaries
unfoldable pub drop_bytes : ℕ → Text → Text
unfolding len_utf8
drop_bytes k [] = []
drop_bytes k (c ∷ cs) = if k == 0 then c ∷ cs else drop_bytes (k - len_utf8 c) cs

unfoldable pub take_bytes : ℕ → Text → Text
unfolding len_utf8
take_bytes k [] = []
take_bytes k (c ∷ cs) = if k == 0 then [] else c ∷ take_bytes (k - len_utf8 c) cs

-- `&s[from..to]`
unfoldable pub slice : Text → ℕ → ℕ → Text
unfolding drop_bytes take_bytes
slice s from to = take_bytes (to - from) (drop_bytes from s)
