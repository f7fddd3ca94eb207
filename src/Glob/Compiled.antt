-- ===== src/Glob/Compiled.antt =====
-- `compile_glob` (src/path_triggers.rs) drops repeated `**` segments and keeps what the glob matches.
use xero_bot.Text.Laws.{text_eq→eq}
use xero_bot.Policy.{Domain, ok_inj}
use mathlib.Core.List.{reverse-reverse, reverse-cons}
use xero_bot.Glob.Path.{Fits, none_left, one_more, segment}
use xero_bot.Glob.{
  GlobSegment, CompiledGlob, reverse, any_depth, [], ◌∷◌, any_depth_text, ends_in_depth, true,
  GlobPiece, pieces, compile_pieces, split, ok, compile_segment, Domain, compile_segments, false,
  push_depth, refused, text_eq, compile_glob, valid_glob,
}
use xero_bot.Prelude.{
  Option, Bool, List, ◌++◌, [], reverse, ◌↔◌, ◌≡◌, ◌∷◌, true, false, Bool-cases, if_cases, sym,
  append-nil, ◌∙◌, append_assoc, ap, refl, inl, inr,
}
use xero_bot.Text.{Text, text_eq}

module _ {Pattern : Type 0} (pattern_new : Text → Option Pattern)
    (matches : Pattern → Text → Bool) where
  -- Each segment of a glob compiled by itself, repeated `**` included.
  pub data Plain : List Text → CompiledGlob Pattern → Type 0 where
    no_more : Plain [] []
    stars :
        {text : Text} {texts : List Text} {gs : CompiledGlob Pattern}
        → text ≡ any_depth_text
        → Plain texts gs
        → Plain (text ∷ texts) (any_depth ∷ gs)
    by_itself :
        {text : Text} {texts : List Text} {ps : List (GlobPiece Pattern)}
        {gs : CompiledGlob Pattern}
        → compile_pieces pattern_new (split b'*' text) ≡ ok ps
        → Plain texts gs
        → Plain (text ∷ texts) (pieces ps ∷ gs)

  abbrev Same : CompiledGlob Pattern → CompiledGlob Pattern → Type 0
  Same gs hs = (paths : List Text) → Fits matches gs paths ↔ Fits matches hs paths

  Fits-cons :
      (g : GlobSegment Pattern) (gs hs : CompiledGlob Pattern)
      → ((paths : List Text) → Fits matches gs paths → Fits matches hs paths)
      → (paths : List Text) → Fits matches (g ∷ gs) paths
      → Fits matches (g ∷ hs) paths
  Fits-cons g gs hs f paths (none_left k) = none_left (f paths k)
  Fits-cons g gs hs f (p ∷ paths) (one_more k) = one_more (Fits-cons any_depth gs hs f paths k)
  Fits-cons g gs hs f (p ∷ paths) (segment s k) = segment s (f paths k)

  Same-prefix : (ks gs hs : CompiledGlob Pattern) → Same gs hs → Same (ks ++ gs) (ks ++ hs)
  Same-prefix [] gs hs h = h
  Same-prefix (k ∷ ks) gs hs h =
      let ih = Same-prefix ks gs hs h in
      λ paths. (Fits-cons k _ _ (λ p. (ih p).0) paths, Fits-cons k _ _ (λ p. (ih p).1) paths)

  -- two `**` read as one
  once :
      (gs : CompiledGlob Pattern) (paths : List Text)
      → Fits matches (any_depth ∷ any_depth ∷ gs) paths
      → Fits matches (any_depth ∷ gs) paths
  once gs paths (none_left k) = k
  once gs (p ∷ paths) (one_more k) = one_more (once gs paths k)

  Same-twice : (gs : CompiledGlob Pattern) → Same (any_depth ∷ gs) (any_depth ∷ any_depth ∷ gs)
  Same-twice gs paths = (none_left, once gs paths)

  ends_in_depth-append :
      (gs rs : CompiledGlob Pattern)
      → reverse gs ≡ rs
      → (elim rs [ any_depth ∷ _ ↦ true | _ ↦ false ]) ≡ true
      → (ks : CompiledGlob Pattern) × (gs ≡ ks ++ any_depth ∷ [])
  ends_in_depth-append gs [] e h = cc
  ends_in_depth-append gs (any_depth ∷ rs) e h =
      (reverse rs, sym (reverse-reverse gs) ∙ (ap reverse e ∙ reverse-cons any_depth rs))
  ends_in_depth-append gs (pieces ps ∷ rs) e h = cc

  -- a `**` that is pushed counts once
  push_depth-Same :
      (gs plain : CompiledGlob Pattern)
      → Same (push_depth pattern_new gs ++ plain) (gs ++ any_depth ∷ plain)
  unfolding push_depth
  push_depth-Same gs plain =
      if_cases (λ more. Same (more ++ plain) (gs ++ any_depth ∷ plain))
        (ends_in_depth pattern_new gs) gs (gs ++ any_depth ∷ [])
        (λ e.
          let (ks, f) = ends_in_depth-append gs (reverse gs) refl e in
          rw f (
            rw
              (
                append_assoc ks (any_depth ∷ []) plain,
                append_assoc ks (any_depth ∷ []) (any_depth ∷ plain),
              )
              (Same-prefix ks (any_depth ∷ plain) (any_depth ∷ any_depth ∷ plain)
                (Same-twice plain))))
        (λ _. rw (append_assoc gs (any_depth ∷ []) plain) (λ paths. (λ k. k, λ k. k)))

  -- what one more segment adds
  unfoldable Adds : CompiledGlob Pattern → Text → CompiledGlob Pattern → Type 0
  Adds gs text more =
      (g : GlobSegment Pattern) × ((texts : List Text) (plain : CompiledGlob Pattern)
        → Plain texts plain
        → Plain (text ∷ texts) (g ∷ plain))
      × ((plain : CompiledGlob Pattern) → Same (more ++ plain) (gs ++ g ∷ plain))

  pieces-Adds :
      (gs more : CompiledGlob Pattern) (text : Text) (o : Domain (List (GlobPiece Pattern)))
      → compile_pieces pattern_new (split b'*' text) ≡ o
      → (elim o [ refused e ↦ refused e | ok ps ↦ ok (gs ++ pieces ps ∷ []) ]) ≡ ok more
      → Adds gs text more
  unfolding Adds
  pieces-Adds gs more text (refused r) e h = cc
  pieces-Adds gs more text (ok ps) e h = (
    pieces ps,
    (λ texts plain k. by_itself e k),
    λ plain.
        rw (sym (ok_inj h))
          (rw (append_assoc gs (pieces ps ∷ []) plain) (λ paths. (λ k. k, λ k. k))),
  )

  compile_segment-Adds :
      (gs more : CompiledGlob Pattern) (text : Text)
      → compile_segment pattern_new gs text ≡ ok more
      → Adds gs text more
  unfolding compile_segment Adds
  compile_segment-Adds gs more text h = elim (Bool-cases (text_eq text any_depth_text)) [
    | inl e ↦
        let f = ok_inj (rw e at h) in
        (
          any_depth,
          (λ texts plain k. stars (text_eq→eq text any_depth_text e) k),
          λ plain. rw (sym f) (push_depth-Same gs plain),
        )
    | inr e ↦ pieces-Adds gs more text _ refl (rw e at h)
  ]

  abbrev Compiles : CompiledGlob Pattern → CompiledGlob Pattern → List Text → Type 0
  Compiles gs out texts =
      (plain : CompiledGlob Pattern) × Plain texts plain × Same out (gs ++ plain)

  Adds-Compiles :
      (gs out more : CompiledGlob Pattern) (text : Text) (texts : List Text)
      → Adds gs text more
      → Compiles more out texts
      → Compiles gs out (text ∷ texts)
  unfolding Adds
  Adds-Compiles gs out more text texts (g, reads, same) (plain, k, f) = (
    g ∷ plain,
    reads texts plain k,
    λ paths. (λ x. (same plain paths).0 ((f paths).0 x), λ x. (f paths).1 ((same plain paths).1 x)),
  )

  -- the segments after one that is compiled
  segments_later :
      (gs out : CompiledGlob Pattern) (text : Text) (texts : List Text)
      (o : Domain (CompiledGlob Pattern))
      → compile_segment pattern_new gs text ≡ o
      → ((more : CompiledGlob Pattern)
          → compile_segments pattern_new more texts ≡ ok out
          → Compiles more out texts)
      → (elim o [ refused e ↦ refused e | ok more ↦ compile_segments pattern_new more texts ])
        ≡ ok out
      → Compiles gs out (text ∷ texts)
  segments_later gs out text texts (refused r) e ih k = cc
  segments_later gs out text texts (ok more) e ih k =
      Adds-Compiles gs out more text texts (compile_segment-Adds gs more text e) (ih more k)

  compile_segments-Compiles :
      (gs out : CompiledGlob Pattern) (texts : List Text)
      → compile_segments pattern_new gs texts ≡ ok out
      → Compiles gs out texts
  unfolding compile_segments
  compile_segments-Compiles gs out [] h =
      ([], no_more, rw (append-nil gs, sym (ok_inj h)) (λ paths. (λ k. k, λ k. k)))
  compile_segments-Compiles gs out (text ∷ texts) h =
      segments_later gs out text texts (compile_segment pattern_new gs text) refl
        (λ more. compile_segments-Compiles more out texts) h

  -- If a glob compiles, then each of its segments compiles by itself, and the compiled glob fits
  -- exactly the paths that these segments fit: to drop a repeated `**` changes no match.
  pub compile_glob_keeps :
      (pattern : Text) (out : CompiledGlob Pattern)
      → compile_glob pattern_new pattern ≡ ok out
      → (plain : CompiledGlob Pattern) × Plain (split b'/' pattern) plain
        × ((paths : List Text) → Fits matches out paths ↔ Fits matches plain paths)
  unfolding compile_glob
  compile_glob_keeps pattern out h = elim (Bool-cases (valid_glob pattern)) [
    | inl e ↦ compile_segments-Compiles [] out (split b'/' pattern) (rw e at h)
    | inr e ↦ let k = rw e at h in cc
  ]
