-- ===== src/Reports/Versions.antt =====
-- packages/domain/src/reports.ts: what `questionVersionIssues` without an issue establishes.
use interview_agent.Common.{
  ℕ, ◌≤◌, ◌≡◌, refl, ap, sym, ◌∙◌, true, ◌==◌, ==→eq, not, if◌then◌else◌, is_some, some, List, [],
  ◌∷◌, ◌++◌, any, count_if, All, Text, text_eq, text_eq_sound, text_eq_refl, arith, inl, inr,
  Bool-cases, Option-cases, get, set, get-set, Entries, Entries-get, ◌||◌,
}
use interview_agent.Reports.{
  ReportQuestionFeedback, ReportQuestionVersion, ReportSnapshot, at_question_versions,
  extra_question_version, mismatched_question_version,
}
use interview_agent.Reports.Questions.{issue_if}
use interview_agent.Reports.Snapshots.{
  questions_by_id, versions_by_id, versions_or_none, version_issue, version_issues, extra_issues,
  question_version_issues,
}
use interview_agent.Reports.Counts.{none_of, issue_if-none, text-IsEquality}

-- The versions that a snapshot names for an identifier.
unfoldable pub versions_of : List ReportQuestionVersion → Text → List ℕ
versions_of [] id = []
versions_of (v ∷ vs) id =
    let rest = versions_of vs id in
    if text_eq v.question_id id then v.question_version ∷ rest else rest

append_assoc {ℓ} : {A : Type ℓ} (xs ys zs : List A) → (xs ++ ys) ++ zs ≡ xs ++ (ys ++ zs)
append_assoc [] ys zs = refl
append_assoc (x ∷ xs) ys zs = ap (λ z. x ∷ z) (append_assoc xs ys zs)

append_nil {ℓ} : {A : Type ℓ} (xs : List A) → xs ++ [] ≡ xs
append_nil [] = refl
append_nil (x ∷ xs) = ap (λ z. x ∷ z) (append_nil xs)

versions_by_id-versions_of :
    (m : List (Text × List ℕ)) (vs : List ReportQuestionVersion) (id : Text)
    → versions_or_none (get text_eq (versions_by_id m vs) id)
      ≡ versions_or_none (get text_eq m id) ++ versions_of vs id
unfolding versions_by_id versions_of
versions_by_id-versions_of m [] id = sym (append_nil _)
versions_by_id-versions_of m (v ∷ vs) id =
    let before = versions_or_none (get text_eq m v.question_id) in
    let ih =
      versions_by_id-versions_of (set text_eq m v.question_id (before ++ v.question_version ∷ []))
        vs id in
    let step =
      get-set text_eq m v.question_id (before ++ v.question_version ∷ []) id text-IsEquality in
    elim (Bool-cases (text_eq v.question_id id)) [
      | inl e ↦ ground (
        arith,
        ih,
        step,
        ap (get text_eq m) (text_eq_sound v.question_id id e),
        append_assoc (versions_or_none (get text_eq m id)) (v.question_version ∷ [])
            (versions_of vs id),
        append_assoc before (v.question_version ∷ []) (versions_of vs id),
      )
      | inr e ↦ ground (arith, ih, step)
    ]

questions_by_id-absent :
    (m : List (Text × ℕ)) (qs : List ReportQuestionFeedback) (id : Text)
    → count_if (λ q. text_eq q.question_id id) qs ≡ 0
    → get text_eq (questions_by_id m qs) id ≡ get text_eq m id
unfolding questions_by_id count_if
questions_by_id-absent m [] id h = refl
questions_by_id-absent m (q ∷ qs) id h =
    let step = get-set text_eq m q.question_id q.question_version id text-IsEquality in
    let ih = questions_by_id-absent (set text_eq m q.question_id q.question_version) qs id in
    ground (arith, step, ih)

questions_by_id-known :
    (m : List (Text × ℕ)) (qs : List ReportQuestionFeedback) (id : Text)
    → is_some (get text_eq (questions_by_id m qs) id)
      ≡ (is_some (get text_eq m id) || any (λ q. text_eq q.question_id id) qs)
unfolding questions_by_id any
questions_by_id-known m [] id = ground arith
questions_by_id-known m (q ∷ qs) id =
    let step = get-set text_eq m q.question_id q.question_version id text-IsEquality in
    let ih = questions_by_id-known (set text_eq m q.question_id q.question_version) qs id in
    ground (arith, step, ih)

questions_by_id-each :
    (m : List (Text × ℕ)) (qs : List ReportQuestionFeedback)
    → ((id : Text) → count_if (λ q. text_eq q.question_id id) qs ≤ 1)
    → All (λ q. get text_eq (questions_by_id m qs) q.question_id ≡ some q.question_version) qs
unfolding questions_by_id count_if
questions_by_id-each m [] once = tt
questions_by_id-each m (q ∷ qs) once =
    let m' = set text_eq m q.question_id q.question_version in
    let step = get-set text_eq m q.question_id q.question_version q.question_id text-IsEquality in
    let alone : count_if (λ p. text_eq p.question_id q.question_id) qs ≡ 0 =
      ground (arith, once q.question_id, text_eq_refl q.question_id) in
    (
      questions_by_id-absent m' qs q.question_id alone
          ∙ ground (arith, step, text_eq_refl q.question_id),
      questions_by_id-each m' qs (λ id. ground (arith, once id)),
    )

versions_by_id-known :
    (m : List (Text × List ℕ)) (vs : List ReportQuestionVersion) (id : Text)
    → is_some (get text_eq (versions_by_id m vs) id)
      ≡ (is_some (get text_eq m id) || any (λ v. text_eq v.question_id id) vs)
unfolding versions_by_id any
versions_by_id-known m [] id = ground arith
versions_by_id-known m (v ∷ vs) id =
    let before = versions_or_none (get text_eq m v.question_id) in
    let step =
      get-set text_eq m v.question_id (before ++ v.question_version ∷ []) id text-IsEquality in
    let ih =
      versions_by_id-known (set text_eq m v.question_id (before ++ v.question_version ∷ [])) vs
        id in
    ground (arith, step, ih)

version_issue-none : (n : ℕ) (vs : List ℕ) → version_issue n vs ≡ [] → vs ≡ n ∷ []
version_issue-none n [] h = absurd (ground arith)
version_issue-none n (v ∷ []) h =
    ap (λ z. z ∷ [])
      (==→eq v n (
        ground
          (arith, issue_if-none (not (v == n)) at_question_versions mismatched_question_version h)))
version_issue-none n (v ∷ w ∷ vs) h = absurd (ground arith)

version_issues-none :
    (m : List (Text × List ℕ)) (es : List (Text × ℕ))
    → version_issues m es ≡ []
    → Entries (λ id n. versions_or_none (get text_eq m id) ≡ n ∷ []) es
unfolding version_issues
version_issues-none m [] h = tt
version_issues-none m ((id, n) ∷ es) h =
    let (first, rest) =
      none_of (version_issue n (versions_or_none (get text_eq m id))) (version_issues m es) h in
    (
      version_issue-none n (versions_or_none (get text_eq m id)) first,
      version_issues-none m es rest,
    )

extra_issues-none :
    (m : List (Text × ℕ)) (es : List (Text × List ℕ))
    → extra_issues m es ≡ []
    → Entries (λ id vs. is_some (get text_eq m id) ≡ true) es
unfolding extra_issues
extra_issues-none m [] h = tt
extra_issues-none m ((id, vs) ∷ es) h =
    let extra =
      issue_if (not (is_some (get text_eq m id))) at_question_versions extra_question_version in
    let (first, rest) = none_of extra (extra_issues m es) h in
    (
      ground (
        arith,
        issue_if-none (not (is_some (get text_eq m id))) at_question_versions extra_question_version
            first,
      ),
      extra_issues-none m es rest,
    )

map_All {ℓ κ μ} :
    {A : Type ℓ} (P : A → Type κ) (Q : A → Type μ) (xs : List A)
    → ((x : A) → P x → Q x)
    → All P xs
    → All Q xs
map_All P Q [] f all = tt
map_All P Q (x ∷ xs) f (here, all) = (f x here, map_All P Q xs f all)

pub question_version_issues-none :
    (s : ReportSnapshot)
    → ((id : Text) → count_if (λ q. text_eq q.question_id id) s.questions ≤ 1)
    → question_version_issues s ≡ []
    → All (λ q. versions_of s.question_versions q.question_id ≡ q.question_version ∷ []) s.questions
      × ((id : Text)
          → any (λ v. text_eq v.question_id id) s.question_versions ≡ true
          → any (λ q. text_eq q.question_id id) s.questions ≡ true)
unfolding question_version_issues get
question_version_issues-none s once h =
    let questions = questions_by_id [] s.questions in
    let versions = versions_by_id [] s.question_versions in
    let (mismatches, extras) =
      none_of (version_issues versions questions) (extra_issues questions versions) h in
    let exact = version_issues-none versions questions mismatches in
    let known = extra_issues-none questions versions extras in
    (
      map_All (λ q. get text_eq questions q.question_id ≡ some q.question_version)
          (λ q. versions_of s.question_versions q.question_id ≡ q.question_version ∷ []) s.questions
          (λ q found.
            sym (versions_by_id-versions_of [] s.question_versions q.question_id)
            ∙ Entries-get text_eq (λ id n. versions_or_none (get text_eq versions id) ≡ n ∷ [])
                questions q.question_id text-IsEquality exact found)
          (questions_by_id-each [] s.questions once),
      λ id has_version. elim (Option-cases (get text_eq versions id)) [
        | inl e ↦
            absurd (ground (arith, versions_by_id-known [] s.question_versions id, has_version, e))
        | inr (vs, e) ↦
            sym (questions_by_id-known [] s.questions id)
            ∙ Entries-get text_eq (λ id vs. is_some (get text_eq questions id) ≡ true) versions id
                text-IsEquality known e
      ],
    )
