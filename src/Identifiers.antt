-- ===== src/Identifiers.antt =====
-- packages/domain/src/identifiers.ts: the parser of identifiers, which all exported parsers apply to their
-- own names.
pub mod Accepts
pub mod Tests
use interview_agent.Common.{
  ℕ, Bool, true, false, not, ◌&&◌, ◌||◌, ◌==◌, ltb, leb, List, [], ◌∷◌, length, Text, Result, ok,
  err, ◌>>=◌, ◌>>◌, throw_if,
}

pub data IdentifierName : Type 0 where
  account_id answer_material_id deletion_request_id evaluation_id follow_up_goal_id interview_id
        message_id operation_id question_id report_id rubric_item_id :
      IdentifierName

pub data IdentifierReason : Type 0 where
  empty_value too_long unsupported_characters : IdentifierReason

-- `InvalidIdentifierError`
pub data InvalidIdentifier : Type 0 where
  invalid_identifier : IdentifierName → IdentifierReason → InvalidIdentifier

abbrev pub max_identifier_length : ℕ
max_identifier_length = 128

-- `[A-Za-z0-9]`
abbrev pub is_alphanumeric : ℕ → Bool
is_alphanumeric c = (leb 65 c && leb c 90) || (leb 97 c && leb c 122) || (leb 48 c && leb c 57)

-- `[A-Za-z0-9._:-]`
abbrev pub is_identifier_part : ℕ → Bool
is_identifier_part c = is_alphanumeric c || c == 46 || c == 95 || c == 58 || c == 45

-- `[A-Za-z0-9._:-]*$`
unfoldable pub all_identifier_parts : Text → Bool
all_identifier_parts [] = true
all_identifier_parts (c ∷ cs) = is_identifier_part c && all_identifier_parts cs

-- `IDENTIFIER_PATTERN.test(value)`
unfoldable pub matches_identifier_pattern : Text → Bool
unfolding all_identifier_parts
matches_identifier_pattern [] = false
matches_identifier_pattern (c ∷ cs) = is_alphanumeric c && all_identifier_parts cs

unfoldable pub parse_identifier : IdentifierName → Text → Result InvalidIdentifier Text
unfolding matches_identifier_pattern
parse_identifier name value = do
  throw_if (length value == 0) (invalid_identifier name empty_value)
  throw_if (ltb max_identifier_length (length value)) (invalid_identifier name too_long)
  throw_if (not (matches_identifier_pattern value)) (invalid_identifier name unsupported_characters)
  ok value
