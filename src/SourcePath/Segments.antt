-- ===== src/SourcePath/Segments.antt =====
-- packages/domain/src/question-bank-source-path.ts: what the loop over the segments leaves.
use interview_agent.Common.{
  ◌⊎◌, inl, inr, ℕ, ◌≡◌, refl, Bool, true, false, not, ◌&&◌, ◌==◌, List, [], ◌∷◌, ◌++◌, Text, All,
  ok, arith, any, ap, ◌∙◌,
}
use interview_agent.SourcePath.{
  to_slash, has_nul, split, join, segment_kind, SegmentKind, named_segment, skipped_segment,
  parent_segment, drop_last, segment_loop, extend_first,
}

-- Neither a slash, nor a backslash, nor the null character.
unfoldable pub is_plain : Text → Bool
is_plain [] = true
is_plain (c ∷ cs) = not (c == 47) && not (c == 92) && not (c == 0) && is_plain cs

-- A segment of a normal path.
pub record IsSegment (s : Text) : Type 0 where
  pub plain : is_plain s ≡ true
  pub named : segment_kind s ≡ named_segment

extend_first-is_plain :
    (c : ℕ) (ss : List Text)
    → (c == 47) ≡ false
    → (c == 92) ≡ false
    → (c == 0) ≡ false
    → All (λ s. is_plain s ≡ true) ss
    → All (λ s. is_plain s ≡ true) (extend_first c ss)
unfolding is_plain
extend_first-is_plain c [] slash back nul h = (ground arith, tt)
extend_first-is_plain c (s ∷ ss) slash back nul h = (ground (arith, h.0), h.1)

-- The segments of a path without the null character.
pub split-is_plain :
    (path : Text)
    → has_nul (to_slash path) ≡ false
    → All (λ s. is_plain s ≡ true) (split (to_slash path))
unfolding has_nul to_slash split is_plain any
split-is_plain [] h = (refl, tt)
split-is_plain (c ∷ cs) h =
    ground (arith, split-is_plain cs, extend_first-is_plain c (split (to_slash cs)))

split-append : (s path : Text) → is_plain s ≡ true → split (s ++ (47 ∷ path)) ≡ s ∷ split path
unfolding split is_plain
split-append [] path h = refl
split-append (c ∷ cs) path h = ground (arith, split-append cs path)

split_plain : (s : Text) → is_plain s ≡ true → split s ≡ s ∷ []
unfolding split is_plain
split_plain [] h = refl
split_plain (c ∷ cs) h = ground (arith, split_plain cs)

pub split-join :
    (s : Text) (rest : List Text) → All IsSegment (s ∷ rest) → split (join (s ∷ rest)) ≡ s ∷ rest
unfolding join
split-join s [] h = split_plain s h.0.plain
split-join s (t ∷ rest) h =
    split-append s (join (t ∷ rest)) h.0.plain ∙ ap (λ r. s ∷ r) (split-join t rest h.1)

All-drop_last : (ss : List Text) → All IsSegment ss → All IsSegment (drop_last ss)
unfolding drop_last
All-drop_last [] h = tt
All-drop_last (s ∷ []) h = tt
All-drop_last (s ∷ t ∷ rest) h = (h.0, All-drop_last (t ∷ rest) h.1)

All-append :
    (ss : List Text) (s : Text) → All IsSegment ss → IsSegment s → All IsSegment (ss ++ s ∷ [])
All-append [] s h p = (p, tt)
All-append (t ∷ ss) s h p = (h.0, All-append ss s h.1 p)

kind-cases :
    (s : Text)
    → (segment_kind s ≡ skipped_segment)
      ⊎ (segment_kind s ≡ parent_segment)
      ⊎ (segment_kind s ≡ named_segment)
kind-cases s = go (segment_kind s) refl
  where
    go :
        (k : SegmentKind)
        → segment_kind s ≡ k
        → (segment_kind s ≡ skipped_segment)
          ⊎ (segment_kind s ≡ parent_segment)
          ⊎ (segment_kind s ≡ named_segment)
    go skipped_segment e = inl e
    go parent_segment e = inr (inl e)
    go named_segment e = inr (inr e)

pub segment_loop-IsSegment :
    (segments ss : List Text) {r : List Text}
    → All IsSegment segments
    → All (λ s. is_plain s ≡ true) ss
    → segment_loop segments ss ≡ ok r
    → All IsSegment r
unfolding segment_loop
segment_loop-IsSegment segments [] all p h = ground (arith, all)
segment_loop-IsSegment segments (s ∷ rest) all p h = elim (kind-cases s) [
  | inl e ↦ segment_loop-IsSegment segments rest all p.1 (ground arith)
  | inr (inl e) ↦
      segment_loop-IsSegment (drop_last segments) rest (All-drop_last segments all) p.1
        (ground arith)
  | inr (inr e) ↦
      segment_loop-IsSegment (segments ++ s ∷ []) rest
        (All-append segments s all (record { plain = p.0; named = e })) p.1 (ground arith)
]

append_assoc_cons :
    (xs : List Text) (s : Text) (rest : List Text) → (xs ++ s ∷ []) ++ rest ≡ xs ++ (s ∷ rest)
append_assoc_cons [] s rest = refl
append_assoc_cons (x ∷ xs) s rest = ap (λ r. x ∷ r) (append_assoc_cons xs s rest)

append_nil : (xs : List Text) → xs ++ [] ≡ xs
append_nil [] = refl
append_nil (x ∷ xs) = ap (λ r. x ∷ r) (append_nil xs)

-- Named segments are all kept.
pub segment_loop-named :
    (segments ss : List Text) → All IsSegment ss → segment_loop segments ss ≡ ok (segments ++ ss)
unfolding segment_loop
segment_loop-named segments [] h = rw (append_nil segments) refl
segment_loop-named segments (s ∷ rest) h =
    rw (segment_loop, h.0.named)
      (segment_loop-named (segments ++ s ∷ []) rest h.1 ∙ ap ok (append_assoc_cons segments s rest))
