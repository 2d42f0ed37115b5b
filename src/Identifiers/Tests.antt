-- ===== src/Identifiers/Tests.antt =====
-- packages/domain/src/identifiers.ts: runs at concrete inputs.
use interview_agent.Common.{◌≡◌, ◌↔◌, refl, ok, err, [], ◌∷◌, Text}
use interview_agent.Identifiers.{
  account_id, parse_identifier, matches_identifier_pattern, invalid_identifier,
  unsupported_characters,
}
use interview_agent.Identifiers.Accepts.{IsIdentifier, parse_identifier_iff}

-- `-a` starts with a dash.
dash_refused :
    parse_identifier account_id (45 ∷ 97 ∷ [])
    ≡ err (invalid_identifier account_id unsupported_characters)
unfolding parse_identifier matches_identifier_pattern
dash_refused = refl

-- `a-`
abbrev sample_identifier : Text
sample_identifier = 97 ∷ 45 ∷ []

parse_identifier_iff_example :
    (parse_identifier account_id sample_identifier ≡ ok sample_identifier)
    ↔ ((sample_identifier ≡ sample_identifier) × IsIdentifier sample_identifier)
parse_identifier_iff_example = parse_identifier_iff account_id sample_identifier sample_identifier
