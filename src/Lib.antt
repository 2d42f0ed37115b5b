-- ===== src/Lib.antt =====
-- Verification of interview-agent: the domain of a technical interview, packages/domain/src, and the guard
-- that the database puts before every save of an interview, in packages/db/src/repositories. An interview
-- asks 5, 10 or 15 questions of a blueprint. A user answers, asks for a clarification, marks a question
-- unknown or skips it, continues, ends early or abandons; the server accepts what a language model has to
-- read as an operation, and later completes, cancels or retries it. Frozen questions lead to a report.
--
-- Parts, files and code (paths from the repository's root):
-- Interview: packages/domain/src/interview.ts, the vocabulary. An interface is a record, an enumeration
--   a data type, and a union of outcomes a data type with the fields that differ.
-- Scoring: packages/domain/src/scoring.ts. `validateRubric`, `scoreQuestion`,
--   `deriveEvaluatedQuestionOutcome`, `aggregateDomainScores` and `aggregateCompleteInterviewScore` are
--   validate_rubric, score_question and so on; a loop of the code is a function with _loop in its name.
--   Rubric, Awards, Score, Accepts, Totals, Average and Domains hold the proofs.
-- Coverage: packages/domain/src/blueprint-coverage.ts. Quota and Accepts hold the proofs.
-- Engine: packages/domain/src/engine.ts, with commands.ts and events.ts for its types. Its children follow
--   the calls: Guards (the assertions, lookups and the inactivity limit), Blueprints (validation of a blueprint,
--   `createInterview`), Plans (acceptance and retry of an operation), Immediate (commands that take effect
--   at once), Accepted (whether an operation is still the accepted one; cancellation and expiry), Validation
--   (follow-ups and evaluations), Completion (what a model's result does) and Handle (`handleInterviewCommand`).
--   Invariant states what a reachable interview is like; Step is the abstract specification, a relation
--   with one constructor for each change; Refine shows that every operation makes such a step, Preserve that
--   every step keeps the invariant; Theorems draws the conclusions, one child for each subject.
-- SourcePath: packages/domain/src/question-bank-source-path.ts. Segments and Normal hold the proofs.
-- Identifiers: packages/domain/src/identifiers.ts. Accepts holds the proof.
-- Selection: packages/domain/src/blueprint-selection.ts. Ranks is `stableRank`, a 64-bit hash of a JSON text,
--   and the orders by it; Choice the groups, the minimums and the choice within a domain; Interleave
--   `interleaveSelectedQuestions`, a loop on fuel, for which the number of queued questions is enough; Select
--   `select`. Eligible, Covers and Rounds hold the proofs.
-- Reports: packages/domain/src/reports.ts, from the decoded snapshot on. Questions is
--   `validateQuestionFeedback` and `validateEvidence`, Snapshots `semanticIssues`, `compareDomains` and
--   `questionVersionIssues`. An issue has its code and its path, not its message. Counts, Feedback, Domains
--   and Versions hold the lemmas of the parts, Consistent and Total the theorems.
-- Saves: packages/db/src/repositories/transition-validation.ts with the types of types.ts. A save is two
--   aggregates, the events between them and the payloads. Equal is `deepEqual`, one function for each type;
--   Validate has `assertImmutableIdentity` and the other shared assertions; Eventless, Completions and
--   Commands have the `validate…` functions, and Transitions `validateInterviewSave`, which picks one of
--   them by the types of the events: sequence_of reads the types and the fields at once. Accepts shows that the
--   guard accepts what the engine makes, with Sessions for how answers and follow-ups count up, and Sound what
--   an accepted save can change.
-- Common: texts, numbers, dates, results and lists. Samples, Engine/Runs and the modules named Tests:
--   concrete runs.
--
-- The engine calls Coverage and Scoring to validate a blueprint, and Scoring to validate an evaluation. The
-- repository validates what the engine returns before it writes it, with a model of the transition of its
-- own: the theorems of Saves relate the two. They part where a command expires an interview with a pending
-- operation: the engine raises the version and the guard refuses that save (Saves/Tests, late_refused).
--
-- Conventions. The code is pure: an operation takes an interview and returns another with its events, or
-- throws. A thrown error is a value of `Result`, with the class and what its message names. Copies
-- (`cloneDate`, `Object.freeze`) are the value itself. A text is a list of UTF-16 code units. A number that
-- the code tests with `Number.isInteger` is a `Num`: an integer, or not whole, by its text; its other numbers are
-- positions, counts and versions, natural numbers without a bound. A date is invalid or a count of
-- milliseconds from the earliest instant that a `Date` can hold; the inactivity limit is 86400000 of them.
-- A `Set` or a `Map` is a list or a function; a `Map` that is iterated over is a list of its entries in the
-- order of insertion (Common/Maps). Every loop of the code but the interleaving's runs over a list and
-- is a structural recursion. Besides that loop only the printing of a number is on fuel: its successor.
--
-- Not modelled: the decoding of a report snapshot from JSON and the texts of its issues (reports.ts); the
-- interfaces of ports.ts; and, outside packages/domain, all but the guard of the saves: packages/contracts,
-- the rest of packages/db, apps/server, apps/web and scripts. They are schemas, queries, routes and user
-- interface around the domain, or parts with logic of their own that stand apart from the engine.
pub mod Common
pub mod Interview
pub mod Scoring
pub mod Coverage
pub mod Engine
pub mod SourcePath
pub mod Identifiers
pub mod Saves
pub mod Selection
pub mod Reports
pub mod Samples
