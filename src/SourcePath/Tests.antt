-- ===== src/SourcePath/Tests.antt =====
-- packages/domain/src/question-bank-source-path.ts: runs at concrete inputs.
use interview_agent.Common.{◌≡◌, refl, ok, err, [], ◌∷◌, Text, any}
use interview_agent.SourcePath.{
  to_slash, has_nul, has_drive, split, join, drop_last, segment_loop, segment_kind,
  normalize_question_bank_source_path, not_relative,
}
use interview_agent.SourcePath.Normal.{IsNormal, normalize-IsNormal, normalize_twice}

-- `a\b/../c`
abbrev sample_path : Text
sample_path = 97 ∷ 92 ∷ 98 ∷ 47 ∷ 46 ∷ 46 ∷ 47 ∷ 99 ∷ []

path_run : normalize_question_bank_source_path sample_path ≡ ok (97 ∷ 47 ∷ 99 ∷ [])
unfolding normalize_question_bank_source_path to_slash has_nul any has_drive split join drop_last
    segment_loop segment_kind
path_run = refl

-- `./C:/x` becomes `C:/x`.
drive_left :
    normalize_question_bank_source_path (46 ∷ 47 ∷ 67 ∷ 58 ∷ 47 ∷ 120 ∷ [])
    ≡ ok (67 ∷ 58 ∷ 47 ∷ 120 ∷ [])
unfolding normalize_question_bank_source_path to_slash has_nul any has_drive split join drop_last
    segment_loop segment_kind
drive_left = refl

-- `C:/x` itself is refused.
drive_refused : normalize_question_bank_source_path (67 ∷ 58 ∷ 47 ∷ 120 ∷ []) ≡ err not_relative
unfolding normalize_question_bank_source_path to_slash has_nul any has_drive
drive_refused = refl

normalize-IsNormal_example : IsNormal (97 ∷ 47 ∷ 99 ∷ [])
normalize-IsNormal_example = normalize-IsNormal sample_path path_run

normalize_twice_example :
    normalize_question_bank_source_path (97 ∷ 47 ∷ 99 ∷ []) ≡ ok (97 ∷ 47 ∷ 99 ∷ [])
unfolding has_drive
normalize_twice_example = normalize_twice sample_path path_run refl
