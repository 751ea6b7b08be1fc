-- ===== src/Knowledge/Approval.antt =====
-- What a run has that counts for the publication of a version in src/server/knowledge/review-policy.ts.
use openvac_web.Prelude.{
  String, ◌≡◌, refl, ap, ◌⊎◌, inl, inr, Bool, true, false, ◌||◌, Option, none, some, List, [], ◌∷◌,
  arith, str_eq, eq_iff, Bool-cases, Option-cases, and-eq-true, any, All,
}
use openvac_web.Knowledge.Types.{
  ReviewRisk, ReviewDecision, Finding, EvidenceClaim, NumericClaim, initial_review, low_risk,
  approved,
}
use openvac_web.Knowledge.Review.{
  same_option, same_list, same_finding, same_evidence, same_numeric_claim, same_risk, is_approved,
  is_initial, CompletedRun, Target, stored_target_matches, targets_current_input,
  targets_recorded_revision, submitted_report_matches, submitted_revision_matches, is_eligible,
  is_low, has_blockers, lacks_evidence, has_unproved_number,
}

-- It is about the version that is to be published: as its input, or as the revision that an initial
-- run has recorded.
abbrev pub Revises : Target → CompletedRun → Type 0
Revises t c =
    (c.run.phase ≡ initial_review)
    × (c.run.revised_version_id ≡ some t.current_version_id)
    × (c.report.output_content_hash ≡ t.current_content_hash)

abbrev pub Reads : Target → CompletedRun → Type 0
Reads t c =
    (c.run.input_version_id ≡ t.current_version_id)
    × (c.run.input_content_hash ≡ t.current_content_hash)

-- Approved under the current policy, with rights, about exactly this version, and as it was submitted.
pub record Approves (t : Target) (c : CompletedRun) : Type 0 where
  pub decision : c.decision ≡ approved
  pub policy : c.run.prompt_version ≡ "codex_automation_v1"
  pub content : c.report.output_content_hash ≡ t.current_content_hash
  pub version : c.report.automation_output_version_id ≡ t.current_version_id
  pub automation_content : c.report.automation_output_content_hash ≡ t.current_content_hash
  pub rights : c.report.automation_source_rights_valid ≡ true
  pub target : Reads t c ⊎ Revises t c
  pub submitted_summary : c.report.submitted_report.summary ≡ c.report.summary
  pub submitted_risk : c.report.submitted_report.risk ≡ c.risk
  pub submitted_decision : c.report.submitted_report.decision ≡ approved
  pub submitted_findings : c.report.submitted_report.findings ≡ c.report.findings
  pub submitted_blockers : c.report.submitted_report.blockers ≡ c.report.blockers
  pub submitted_evidence : c.report.submitted_report.evidence ≡ c.report.evidence
  pub submitted_numbers : c.report.submitted_report.numeric_claims ≡ c.report.numeric_claims
  pub submitted_revision :
      (Revises t c × (c.report.submitted_revision_hash ≡ some t.current_content_hash))
      ⊎ (c.report.submitted_revision_hash ≡ none)

-- Low risk, without blockers, with evidence and a place for every number.
pub record IsSafe (c : CompletedRun) : Type 0 where
  pub low : c.risk ≡ low_risk
  pub no_blockers : c.report.blockers ≡ []
  pub proved :
      All
        (λ (n : NumericClaim).
          ((e : String) × (n.exact_evidence ≡ some e))
          × ((l : String) × (n.source_locator ≡ some l)))
        c.report.numeric_claims

same_text : (a b : String) → str_eq a b ≡ true → a ≡ b
same_text a b e = (eq_iff a b).0 e

same_option_sound {ℓ} :
    {A : Type ℓ} (same : A → A → Bool)
    → ((a b : A) → same a b ≡ true → a ≡ b)
    → (a b : Option A) → same_option same a b ≡ true
    → a ≡ b
same_option_sound same sound none none e = refl
same_option_sound same sound (some a) (some b) e = ap some (sound a b e)
same_option_sound same sound none (some b) e = absurd (cc)
same_option_sound same sound (some a) none e = absurd (cc)

same_list_sound {ℓ} :
    {A : Type ℓ} (same : A → A → Bool)
    → ((a b : A) → same a b ≡ true → a ≡ b)
    → (as_ bs : List A) → same_list same as_ bs ≡ true
    → as_ ≡ bs
same_list_sound same sound [] [] e = refl
same_list_sound same sound [] (b ∷ bs) e = absurd (cc)
same_list_sound same sound (a ∷ as_) [] e = absurd (cc)
same_list_sound same sound (a ∷ as_) (b ∷ bs) e =
    let (one, rest) = and-eq-true (same a b) _ e in
    let first = sound a b one in
    let later = same_list_sound same sound as_ bs rest in λ i. first i ∷ later i

same_finding_sound : (a b : Finding) → same_finding a b ≡ true → a ≡ b
unfolding same_finding
same_finding_sound a b e =
    let (code, message) = and-eq-true (str_eq a.code b.code) _ e in
    let p = same_text a.code b.code code in
    let q = same_text a.message b.message message in λ i. record { code = p i; message = q i }

same_evidence_sound : (a b : EvidenceClaim) → same_evidence a b ≡ true → a ≡ b
unfolding same_evidence
same_evidence_sound a b e =
    let (claim, rest) = and-eq-true (str_eq a.claim b.claim) _ e in
    let (exact, place) = and-eq-true (str_eq a.exact_evidence b.exact_evidence) _ rest in
    let p = same_text a.claim b.claim claim in
    let q = same_text a.exact_evidence b.exact_evidence exact in
    let r = same_text a.source_locator b.source_locator place in
    λ i. record { claim = p i; exact_evidence = q i; source_locator = r i }

same_numeric_claim_sound : (a b : NumericClaim) → same_numeric_claim a b ≡ true → a ≡ b
unfolding same_numeric_claim
same_numeric_claim_sound a b e =
    let (claim, rest) = and-eq-true (str_eq a.claim b.claim) _ e in
    let (exact, place) =
      and-eq-true (same_option str_eq a.exact_evidence b.exact_evidence) _ rest in
    let p = same_text a.claim b.claim claim in
    let q = same_option_sound str_eq same_text a.exact_evidence b.exact_evidence exact in
    let r = same_option_sound str_eq same_text a.source_locator b.source_locator place in
    λ i. record { claim = p i; exact_evidence = q i; source_locator = r i }

same_risk_sound : (a b : ReviewRisk) → same_risk a b ≡ true → a ≡ b
unfolding same_risk
same_risk_sound a b e = ground (arith, e)

is_approved_sound : (d : ReviewDecision) → is_approved d ≡ true → d ≡ approved
unfolding is_approved
is_approved_sound d e = ground (arith, e)

revision-Revises :
    (t : Target) (c : CompletedRun) → targets_recorded_revision t c ≡ true → Revises t c
unfolding targets_recorded_revision
revision-Revises t c e =
    let (phase, rest) = and-eq-true (is_initial c.run.phase) _ e in
    let (revised, content) =
      and-eq-true (same_option str_eq c.run.revised_version_id (some t.current_version_id)) _
        rest in
    (
      ground (arith, phase),
      same_option_sound str_eq same_text c.run.revised_version_id (some t.current_version_id)
          revised,
      same_text _ _ content,
    )

target-found :
    (t : Target) (c : CompletedRun)
    → (targets_current_input t c || targets_recorded_revision t c) ≡ true
    → Reads t c ⊎ Revises t c
unfolding targets_current_input
target-found t c e = elim (Bool-cases (targets_current_input t c)) [
  | inl current ↦
      let (id, content) =
        and-eq-true (str_eq c.run.input_version_id t.current_version_id) _ current in
      inl (same_text _ _ id, same_text _ _ content)
  | inr other ↦ inr (revision-Revises t c (ground (arith, other, e)))
]

revision-submitted :
    (t : Target) (c : CompletedRun)
    → submitted_revision_matches t c ≡ true
    → (Revises t c × (c.report.submitted_revision_hash ≡ some t.current_content_hash))
      ⊎ (c.report.submitted_revision_hash ≡ none)
unfolding submitted_revision_matches
revision-submitted t c e = elim (Bool-cases (targets_recorded_revision t c)) [
  | inl revised ↦
      let e' : same_option str_eq c.report.submitted_revision_hash (some t.current_content_hash)
          ≡ true =
        ground (arith, revised, e) in
      inl (
        revision-Revises t c revised,
        same_option_sound str_eq same_text c.report.submitted_revision_hash
            (some t.current_content_hash) e',
      )
  | inr other ↦ inr (ground (arith, other, e))
]

pub eligible-Approves : (t : Target) (c : CompletedRun) → is_eligible t c ≡ true → Approves t c
unfolding is_eligible stored_target_matches submitted_report_matches
eligible-Approves t c e =
    let submitted = c.report.submitted_report in
    let (decision, e1) = and-eq-true (is_approved c.decision) _ e in
    let (policy, e2) = and-eq-true (str_eq c.run.prompt_version "codex_automation_v1") _ e1 in
    let (stored, e3) = and-eq-true (stored_target_matches t c) _ e2 in
    let (target, e4) =
      and-eq-true (targets_current_input t c || targets_recorded_revision t c) _ e3 in
    let (report, revision) = and-eq-true (submitted_report_matches c) _ e4 in
    let (content, s1) =
      and-eq-true (str_eq c.report.output_content_hash t.current_content_hash) _ stored in
    let (version, s2) =
      and-eq-true (str_eq c.report.automation_output_version_id t.current_version_id) _ s1 in
    let (again, rights) =
      and-eq-true (str_eq c.report.automation_output_content_hash t.current_content_hash) _ s2 in
    let (summary, r1) = and-eq-true (str_eq submitted.summary c.report.summary) _ report in
    let (risk, r2) = and-eq-true (same_risk submitted.risk c.risk) _ r1 in
    let (decided, r3) = and-eq-true (is_approved submitted.decision) _ r2 in
    let (findings, r4) =
      and-eq-true (same_list same_finding submitted.findings c.report.findings) _ r3 in
    let (blockers, r5) =
      and-eq-true (same_list same_finding submitted.blockers c.report.blockers) _ r4 in
    let (evidence, numbers) =
      and-eq-true (same_list same_evidence submitted.evidence c.report.evidence) _ r5 in
    record {
      decision = is_approved_sound c.decision decision;
      policy = same_text _ _ policy;
      content = same_text _ _ content;
      version = same_text _ _ version;
      automation_content = same_text _ _ again;
      rights = rights;
      target = target-found t c target;
      submitted_summary = same_text _ _ summary;
      submitted_risk = same_risk_sound _ _ risk;
      submitted_decision = is_approved_sound _ decided;
      submitted_findings = same_list_sound same_finding same_finding_sound _ _ findings;
      submitted_blockers = same_list_sound same_finding same_finding_sound _ _ blockers;
      submitted_evidence = same_list_sound same_evidence same_evidence_sound _ _ evidence;
      submitted_numbers = same_list_sound same_numeric_claim same_numeric_claim_sound _ _ numbers;
      submitted_revision = revision-submitted t c revision;
    }

numbers-proved :
    (claims : List NumericClaim)
    → any lacks_evidence claims ≡ false
    → All
        (λ (n : NumericClaim).
          ((e : String) × (n.exact_evidence ≡ some e))
          × ((l : String) × (n.source_locator ≡ some l)))
        claims
unfolding lacks_evidence
numbers-proved [] e = tt
numbers-proved (n ∷ ns) e = elim (Option-cases n.exact_evidence) [
  | inl missing ↦ absurd (ground (arith, missing, e))
  | inr (exact, there) ↦ elim (Option-cases n.source_locator) [
    | inl missing ↦ absurd (ground (arith, there, missing, e))
    | inr (place, found) ↦ (((exact, there), (place, found)), numbers-proved ns (ground (arith, e)))
  ]
]

pub proved-IsSafe :
    (c : CompletedRun)
    → is_low c ≡ true
    → has_blockers c ≡ false
    → has_unproved_number c ≡ false
    → IsSafe c
unfolding is_low has_blockers has_unproved_number
proved-IsSafe c low no_blockers proved = record {
  low = ground (arith, low);
  no_blockers = ground (arith, no_blockers);
  proved = numbers-proved c.report.numeric_claims proved;
}
