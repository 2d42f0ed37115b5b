-- ===== src/SourcePath.antt =====
-- packages/domain/src/question-bank-source-path.ts: the normal form of a path of the question bank. A
-- character is its code: 47 is the slash, 92 the backslash, 46 the dot and 58 the colon.
pub mod Segments
pub mod Normal
pub mod Tests
use interview_agent.Common.{
  Bool, true, false, ◌&&◌, ◌||◌, ◌==◌, leb, ℕ, if◌then◌else◌, List, [], ◌∷◌, ◌++◌, length, any,
  Text, Result, ok, err, ◌>>=◌, ◌>>◌, throw_if,
}

-- The messages of its `TypeError`s.
pub data PathError : Type 0 where
  not_relative escapes_root : PathError

-- `replaceAll("\\", "/")`
unfoldable pub to_slash : Text → Text
to_slash [] = []
to_slash (c ∷ cs) = (if c == 92 then 47 else c) ∷ to_slash cs

unfoldable pub has_nul : Text → Bool
unfolding any
has_nul path = any (λ c. c == 0) path

abbrev pub starts_with : Text → Text → Bool
starts_with path [] = true
starts_with [] (p ∷ ps) = false
starts_with (c ∷ cs) (p ∷ ps) = c == p && starts_with cs ps

abbrev pub is_letter : ℕ → Bool
is_letter c = (leb 65 c && leb c 90) || (leb 97 c && leb c 122)

-- `/^[A-Za-z]:/u.test(path)`
unfoldable pub has_drive : Text → Bool
has_drive [] = false
has_drive (c ∷ []) = false
has_drive (c ∷ d ∷ rest) = is_letter c && d == 58

-- Puts a character in front of the first segment; `split` never gives none.
abbrev pub extend_first : ℕ → List Text → List Text
extend_first c [] = (c ∷ []) ∷ []
extend_first c (s ∷ ss) = (c ∷ s) ∷ ss

-- `path.split("/")`
unfoldable pub split : Text → List Text
split [] = [] ∷ []
split (c ∷ cs) = let rest = split cs in if c == 47 then [] ∷ rest else extend_first c rest

-- `segments.join("/")`
unfoldable pub join : List Text → Text
join [] = []
join (s ∷ []) = s
join (s ∷ t ∷ rest) = s ++ (47 ∷ join (t ∷ rest))

-- What the loop does with a segment: it skips the empty one and `.`, and goes up at `..`.
pub data SegmentKind : Type 0 where
  skipped_segment parent_segment named_segment : SegmentKind

unfoldable pub segment_kind : Text → SegmentKind
segment_kind [] = skipped_segment
segment_kind (c ∷ []) = if c == 46 then skipped_segment else named_segment
segment_kind (c ∷ d ∷ []) = if c == 46 && d == 46 then parent_segment else named_segment
segment_kind (c ∷ d ∷ e ∷ rest) = named_segment

-- `segments.pop()`
unfoldable pub drop_last : List Text → List Text
drop_last [] = []
drop_last (s ∷ []) = []
drop_last (s ∷ t ∷ rest) = s ∷ drop_last (t ∷ rest)

unfoldable pub segment_loop : List Text → List Text → Result PathError (List Text)
segment_loop segments [] = ok segments
segment_loop segments (s ∷ rest) = elim (segment_kind s) [
  | skipped_segment ↦ segment_loop segments rest
  | parent_segment ↦ do
    throw_if (length segments == 0) escapes_root
    segment_loop (drop_last segments) rest
  | named_segment ↦ segment_loop (segments ++ s ∷ []) rest
]

-- What is returned for the segments.
abbrev pub joined : List Text → Text
joined [] = 46 ∷ []
joined (s ∷ rest) = join (s ∷ rest)

unfoldable pub normalize_question_bank_source_path : Text → Result PathError Text
normalize_question_bank_source_path source_path = do
  let path = to_slash source_path
  throw_if
      (length path == 0
        || has_nul path
        || starts_with path (47 ∷ [])
        || starts_with path (47 ∷ 47 ∷ [])
        || has_drive path)
      not_relative
  segments ← segment_loop [] (split path)
  ok (joined segments)
