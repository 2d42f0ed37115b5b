-- ===== src/Identifiers/Accepts.antt =====
-- packages/domain/src/identifiers.ts: which texts are identifiers.
use interview_agent.Common.{
  ◌≤◌, ◌≡◌, ◌↔◌, ◌∙◌, refl, sym, true, [], ◌∷◌, length, Text, All, ok, arith, ap,
}
use interview_agent.Identifiers.{
  IdentifierName, is_alphanumeric, is_identifier_part, all_identifier_parts,
  matches_identifier_pattern, parse_identifier,
}

abbrev StartsAlphanumeric : Text → Type 0
StartsAlphanumeric [] = ⊥
StartsAlphanumeric (c ∷ cs) = is_alphanumeric c ≡ true

pub record IsIdentifier (value : Text) : Type 0 where
  pub at_most_128 : length value ≤ 128
  pub starts : StartsAlphanumeric value
  pub parts : All (λ c. is_identifier_part c ≡ true) value

parts_sound :
    (cs : Text) → all_identifier_parts cs ≡ true → All (λ c. is_identifier_part c ≡ true) cs
unfolding all_identifier_parts
parts_sound [] h = tt
parts_sound (c ∷ cs) h = (ground arith, parts_sound cs (ground arith))

parts_complete :
    (cs : Text) → All (λ c. is_identifier_part c ≡ true) cs → all_identifier_parts cs ≡ true
unfolding all_identifier_parts
parts_complete [] h = refl
parts_complete (c ∷ cs) h = rw (h.0, parts_complete cs h.1) refl

parsed_sound :
    (name : IdentifierName) (value : Text) {v : Text}
    → parse_identifier name value ≡ ok v
    → (v ≡ value) × IsIdentifier value
unfolding parse_identifier matches_identifier_pattern
parsed_sound name [] h = absurd (ground arith)
parsed_sound name (c ∷ cs) h = (
  ground arith,
  record {
    at_most_128 = ground arith;
    starts = ground arith;
    parts = (ground arith, parts_sound cs (ground arith));
  },
)

parsed_complete :
    (name : IdentifierName) (value : Text)
    → IsIdentifier value
    → parse_identifier name value ≡ ok value
unfolding parse_identifier matches_identifier_pattern
parsed_complete name [] i = absurd i.starts
parsed_complete name (c ∷ cs) i =
    ground (arith, i.starts, i.at_most_128, parts_complete cs i.parts.1)

-- The parser accepts exactly the texts of at most 128 characters that start with a letter or a digit
-- and have only letters, digits, dots, underscores, colons and dashes, and it returns them unchanged.
pub parse_identifier_iff :
    (name : IdentifierName) (value v : Text)
    → (parse_identifier name value ≡ ok v) ↔ ((v ≡ value) × IsIdentifier value)
parse_identifier_iff name value v =
    (parsed_sound name value, λ h. parsed_complete name value h.1 ∙ ap ok (sym h.0))
