-- ===== src/SourcePath/Normal.antt =====
-- packages/domain/src/question-bank-source-path.ts: normal paths.
use interview_agent.Common.{
  ◌≡◌, refl, true, false, ◌==◌, List, [], ◌∷◌, ◌++◌, Text, All, ok, arith, length, any,
  Result-cases, inl, inr, sym, ap, ◌∙◌,
}
use interview_agent.SourcePath.{
  to_slash, has_nul, starts_with, has_drive, split, join, joined, segment_kind, segment_loop,
  normalize_question_bank_source_path,
}
use interview_agent.SourcePath.Segments.{
  is_plain, IsSegment, split-is_plain, split-join, segment_loop-IsSegment, segment_loop-named,
}

-- A text that is the root `.`, or segments joined by slashes.
pub record IsNormal (path : Text) : Type 0 where
  pub segments : List Text
  pub all_named : All IsSegment segments
  pub is_joined : path ≡ joined segments

-- Whatever `normalizeQuestionBankSourcePath` returns is the root `.`, or segments joined by slashes that
-- are not empty, neither `.` nor `..`, and have no slash, backslash or null character. The first segment
-- can still start with a drive letter and a colon.
pub normalize-IsNormal :
    (path : Text) {r : Text} → normalize_question_bank_source_path path ≡ ok r → IsNormal r
unfolding normalize_question_bank_source_path
normalize-IsNormal path h = elim (Result-cases (segment_loop [] (split (to_slash path)))) [
  | inl (ss, e) ↦ record {
    segments = ss;
    all_named =
        segment_loop-IsSegment [] (split (to_slash path)) tt (split-is_plain path (ground arith)) e;
    is_joined = ground arith;
  }
  | inr (x, bad) ↦ absurd (ground arith)
]

plain-read : (s : Text) → is_plain s ≡ true → (to_slash s ≡ s) × (has_nul s ≡ false)
unfolding is_plain to_slash has_nul any
plain-read [] h = (refl, refl)
plain-read (c ∷ cs) h = ground (arith, plain-read cs)

append-read :
    (s t : Text)
    → is_plain s ≡ true
    → to_slash t ≡ t
    → has_nul t ≡ false
    → (to_slash (s ++ (47 ∷ t)) ≡ s ++ (47 ∷ t)) × (has_nul (s ++ (47 ∷ t)) ≡ false)
unfolding is_plain to_slash has_nul any
append-read [] t h same nul = ground arith
append-read (c ∷ cs) t h same nul = ground (arith, append-read cs t)

-- A joined path is read as it is.
join-read :
    (s : Text) (rest : List Text)
    → All IsSegment (s ∷ rest)
    → (to_slash (join (s ∷ rest)) ≡ join (s ∷ rest)) × (has_nul (join (s ∷ rest)) ≡ false)
unfolding join
join-read s [] h = plain-read s h.0.plain
join-read s (t ∷ rest) h =
    let (same, nul) = join-read t rest h.1 in append-read s (join (t ∷ rest)) h.0.plain same nul

-- It has a first character, which is no slash.
join-start :
    (s : Text) (rest : List Text)
    → IsSegment s
    → ((length (join (s ∷ rest)) == 0) ≡ false)
      × (starts_with (join (s ∷ rest)) (47 ∷ []) ≡ false)
      × (starts_with (join (s ∷ rest)) (47 ∷ 47 ∷ []) ≡ false)
unfolding join is_plain segment_kind
join-start [] rest h = absurd (ground (arith, h.named))
join-start (c ∷ cs) [] h = ground (arith, h.plain)
join-start (c ∷ cs) (t ∷ rest) h = ground (arith, h.plain)

-- The root is normal.
root_again : normalize_question_bank_source_path (46 ∷ []) ≡ ok (46 ∷ [])
unfolding normalize_question_bank_source_path to_slash has_nul any has_drive split segment_loop
    segment_kind
root_again = refl

-- A path that passes the test is the joined segments that the loop leaves.
accepted :
    (path : Text) {ss : List Text}
    → to_slash path ≡ path
    → (length path == 0) ≡ false
    → has_nul path ≡ false
    → starts_with path (47 ∷ []) ≡ false
    → starts_with path (47 ∷ 47 ∷ []) ≡ false
    → has_drive path ≡ false
    → segment_loop [] (split path) ≡ ok ss
    → normalize_question_bank_source_path path ≡ ok (joined ss)
unfolding normalize_question_bank_source_path
accepted path same present nul one two drive loop = ground arith

joined_again :
    (ss : List Text)
    → All IsSegment ss
    → has_drive (joined ss) ≡ false
    → normalize_question_bank_source_path (joined ss) ≡ ok (joined ss)
joined_again [] h drive = root_again
joined_again (s ∷ rest) h drive =
    let (same, nul) = join-read s rest h in
    let (present, one, two) = join-start s rest h.0 in
    let read = ap (segment_loop []) (split-join s rest h) in
    accepted (join (s ∷ rest)) same present nul one two drive
      (read ∙ segment_loop-named [] (s ∷ rest) h)

-- Normalising a path a second time gives the same path again, unless the first result starts with a
-- drive letter and a colon.
pub normalize_twice :
    (path : Text) {r : Text}
    → normalize_question_bank_source_path path ≡ ok r
    → has_drive r ≡ false
    → normalize_question_bank_source_path r ≡ ok r
normalize_twice path h drive =
    let n = normalize-IsNormal path h in
    rw n.is_joined (joined_again n.segments n.all_named (rw (sym n.is_joined) drive))
