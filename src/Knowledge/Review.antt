-- ===== src/Knowledge/Review.antt =====
-- src/server/knowledge/review-policy.ts. What zod reads off a stored run is a parameter: none where
-- it refuses the value. `JSON.stringify` of what zod has read has the keys in the schemas' order, so
-- two texts are the same exactly if the parts are.
use openvac_web.Script.{codes}
use openvac_web.Prelude.{
  String, Bool, true, false, not, ◌&&◌, ◌||◌, Option, none, some, List, [], ◌∷◌, ◌++◌, str_eq, ◌==◌,
  if◌then◌else◌, length, any, select,
}
use openvac_web.Json.{Json, JsonFields, get, is_text}
use openvac_web.Knowledge.Types.{
  ReviewPhase, ReviewRisk, ReviewDecision, Finding, EvidenceClaim, NumericClaim,
  StoredAutomationReviewReport, AutomationReviewRun, ReadinessReason, KnowledgePublicationReadiness,
  initial_review, verify_review, low_risk, medium_risk, high_risk, approved, not_completed,
  completed_review, source_rights_invalid, review_pair_missing_or_mismatched, review_high_risk,
  review_blockers, review_numeric_evidence_missing, codex_automation_v1, legacy_sections,
}

abbrev pub same_option {ℓ} : {A : Type ℓ} → (A → A → Bool) → Option A → Option A → Bool
same_option same none none = true
same_option same (some a) (some b) = same a b
same_option same _ _ = false

abbrev pub same_list {ℓ} : {A : Type ℓ} → (A → A → Bool) → List A → List A → Bool
same_list same [] [] = true
same_list same (a ∷ as_) (b ∷ bs) = same a b && same_list same as_ bs
same_list same _ _ = false

unfoldable pub same_finding : Finding → Finding → Bool
same_finding a b = str_eq a.code b.code && str_eq a.message b.message

unfoldable pub same_evidence : EvidenceClaim → EvidenceClaim → Bool
same_evidence a b =
    str_eq a.claim b.claim
    && (str_eq a.exact_evidence b.exact_evidence && str_eq a.source_locator b.source_locator)

unfoldable pub same_numeric_claim : NumericClaim → NumericClaim → Bool
same_numeric_claim a b =
    str_eq a.claim b.claim
    && (same_option str_eq a.exact_evidence b.exact_evidence
        && same_option str_eq a.source_locator b.source_locator)

unfoldable pub same_risk : ReviewRisk → ReviewRisk → Bool
same_risk low_risk low_risk = true
same_risk medium_risk medium_risk = true
same_risk high_risk high_risk = true
same_risk _ _ = false

unfoldable pub is_approved : ReviewDecision → Bool
is_approved approved = true
is_approved _ = false

abbrev pub is_initial : ReviewPhase → Bool
is_initial initial_review = true
is_initial verify_review = false

-- A run with its completed result.
pub record CompletedRun : Type 0 where
  pub run : AutomationReviewRun
  pub risk : ReviewRisk
  pub decision : ReviewDecision
  pub report : StoredAutomationReviewReport

unfoldable pub completed_run : AutomationReviewRun → Option CompletedRun
completed_run run = elim run.result [
  | not_completed ↦ none
  | completed_review risk decision report ↦
      some (record { run = run; risk = risk; decision = decision; report = report })
]

-- The version that is to be published.
pub record Target : Type 0 where
  pub current_version_id : String
  pub current_content_hash : String

unfoldable pub stored_target_matches : Target → CompletedRun → Bool
stored_target_matches t c =
    str_eq c.report.output_content_hash t.current_content_hash
    && (str_eq c.report.automation_output_version_id t.current_version_id
        && (str_eq c.report.automation_output_content_hash t.current_content_hash
            && c.report.automation_source_rights_valid))

unfoldable pub targets_current_input : Target → CompletedRun → Bool
targets_current_input t c =
    str_eq c.run.input_version_id t.current_version_id
    && str_eq c.run.input_content_hash t.current_content_hash

unfoldable pub targets_recorded_revision : Target → CompletedRun → Bool
targets_recorded_revision t c =
    is_initial c.run.phase
    && (same_option str_eq c.run.revised_version_id (some t.current_version_id)
        && str_eq c.report.output_content_hash t.current_content_hash)

unfoldable pub submitted_report_matches : CompletedRun → Bool
unfolding same_risk is_approved same_finding same_evidence same_numeric_claim
submitted_report_matches c =
    let submitted = c.report.submitted_report in
    str_eq submitted.summary c.report.summary
    && (same_risk submitted.risk c.risk
        && (is_approved submitted.decision
            && (same_list same_finding submitted.findings c.report.findings
                && (same_list same_finding submitted.blockers c.report.blockers
                    && (same_list same_evidence submitted.evidence c.report.evidence
                        && same_list same_numeric_claim submitted.numeric_claims
                            c.report.numeric_claims)))))

unfoldable pub submitted_revision_matches : Target → CompletedRun → Bool
unfolding targets_recorded_revision
submitted_revision_matches t c =
    if targets_recorded_revision t c
    then same_option str_eq c.report.submitted_revision_hash (some t.current_content_hash)
    else elim c.report.submitted_revision_hash [ none ↦ true | some hash ↦ false ]

-- The runs that count: approved, of the current policy, and about exactly this version.
unfoldable pub is_eligible : Target → CompletedRun → Bool
unfolding is_approved stored_target_matches targets_current_input targets_recorded_revision
    submitted_report_matches submitted_revision_matches
is_eligible t c =
    is_approved c.decision
    && (str_eq c.run.prompt_version "codex_automation_v1"
        && (stored_target_matches t c
            && ((targets_current_input t c || targets_recorded_revision t c)
                && (submitted_report_matches c && submitted_revision_matches t c))))

unfoldable pub eligible_runs :
    (Json → Option AutomationReviewRun) → Target → List Json → List CompletedRun
unfolding completed_run is_eligible
eligible_runs parse_run t [] = []
eligible_runs parse_run t (value ∷ values) =
    let rest = eligible_runs parse_run t values in
    elim (parse_run value) [
      | none ↦ rest
      | some run ↦ elim (completed_run run) [
        | none ↦ rest
        | some c ↦ if is_eligible t c then c ∷ rest else rest
      ]
    ]

abbrev pub blocked : List ReadinessReason → KnowledgePublicationReadiness
blocked reasons = record { ready = false; path = none; reasons = reasons }

unfoldable pub is_low : CompletedRun → Bool
is_low c = elim c.risk [ low_risk ↦ true | _ ↦ false ]

unfoldable pub has_blockers : CompletedRun → Bool
has_blockers c = elim c.report.blockers [ [] ↦ false | b ∷ bs ↦ true ]

-- `!claim.exactEvidence || !claim.sourceLocator`; the schema has no empty text.
unfoldable pub lacks_evidence : NumericClaim → Bool
lacks_evidence claim = elim claim.exact_evidence [
  | none ↦ true
  | some e ↦ elim claim.source_locator [ none ↦ true | some l ↦ false ]
]

unfoldable pub has_unproved_number : CompletedRun → Bool
unfolding lacks_evidence
has_unproved_number c = any lacks_evidence c.report.numeric_claims

unfoldable pub pair_reasons : CompletedRun → CompletedRun → List ReadinessReason
unfolding is_low has_blockers has_unproved_number
pair_reasons initial verify =
    (if is_low initial && is_low verify then [] else review_high_risk ∷ [])
    ++ ((if has_blockers initial || has_blockers verify then review_blockers ∷ [] else [])
        ++ (if has_unproved_number initial || has_unproved_number verify
            then review_numeric_evidence_missing ∷ []
            else []))

unfoldable pub judge_pair : CompletedRun → CompletedRun → KnowledgePublicationReadiness
unfolding pair_reasons
judge_pair initial verify =
    if str_eq initial.run.id verify.run.id
    then blocked (review_pair_missing_or_mismatched ∷ [])
    else elim (pair_reasons initial verify) [
      | [] ↦ record { ready = true; path = some codex_automation_v1; reasons = [] }
      | r ∷ rs ↦ blocked (r ∷ rs)
    ]

unfoldable pub judge_runs : List CompletedRun → List CompletedRun → KnowledgePublicationReadiness
unfolding judge_pair
judge_runs (initial ∷ []) (verify ∷ []) = judge_pair initial verify
judge_runs _ _ = blocked (review_pair_missing_or_mismatched ∷ [])

unfoldable pub evaluate_knowledge_publication_readiness :
    (Json → Option AutomationReviewRun)
    → Target
    → Bool
    → List Json
    → Bool
    → KnowledgePublicationReadiness
unfolding eligible_runs judge_runs
evaluate_knowledge_publication_readiness parse_run t source_rights_valid automation_runs
      legacy_ready =
    let eligible = eligible_runs parse_run t automation_runs in
    if not source_rights_valid
    then blocked (source_rights_invalid ∷ [])
    else if legacy_ready
    then record { ready = true; path = some legacy_sections; reasons = [] }
    else judge_runs (select (λ c. is_initial c.run.phase) eligible)
        (select (λ c. not (is_initial c.run.phase)) eligible)

-- The hash has 64 characters, and is the one that the activation pinned.
unfoldable pub is_pending_review_retrieval_active : JsonFields → Option String → Bool
unfolding is_text get
is_pending_review_retrieval_active metadata content_hash =
    let pinned : Bool = elim content_hash [
      | none ↦ false
      | some hash ↦ length (codes hash) == 64 && is_text hash (get "retrievalContentHash" metadata)
    ] in
    is_text "required" (get "reviewStatus" metadata)
    && (is_text "active_pending_review" (get "retrievalStatus" metadata) && pinned)
