-- ===== src/Knowledge/Types.antt =====
-- The types of src/server/knowledge/source-policy.ts, review-policy.ts and
-- automation-review-schema.ts.
use openvac_web.Prelude.{ℕ, String, Bool, Option, List}
use openvac_web.Json.{JsonFields}

pub data KnowledgeSourceTier : Type 0 where
  open_license metadata_only manufacturer_metadata standard_metadata internal : KnowledgeSourceTier

pub record GovernedKnowledgeSource : Type 0 where
  pub source_tier : KnowledgeSourceTier
  pub enabled : Bool
  pub deleted_at : Option ℕ
  pub canonical_url : Option String
  pub publisher : Option String
  pub metadata : JsonFields

pub data KnowledgeSourcePolicyCode : Type 0 where
  source_required source_disabled source_deleted source_url_invalid : KnowledgeSourcePolicyCode
  source_publisher_required ingestion_mode_invalid license_restricted : KnowledgeSourcePolicyCode
  rights_decision_required rights_decision_invalid : KnowledgeSourcePolicyCode
  commercial_ai_rights_required official_binary_recheck_required : KnowledgeSourcePolicyCode

-- What `new URL` reads off a text.
pub record ParsedUrl : Type 0 where
  pub protocol : String
  pub username : String
  pub password : String

pub data ReviewPhase : Type 0 where
  initial_review verify_review : ReviewPhase

pub data ReviewRisk : Type 0 where
  low_risk medium_risk high_risk : ReviewRisk

pub data ReviewDecision : Type 0 where
  approved rejected needs_human : ReviewDecision

pub record Finding : Type 0 where
  pub code : String
  pub message : String

pub record EvidenceClaim : Type 0 where
  pub claim : String
  pub exact_evidence : String
  pub source_locator : String

pub record NumericClaim : Type 0 where
  pub claim : String
  pub exact_evidence : Option String
  pub source_locator : Option String

pub record AutomationReviewReport : Type 0 where
  pub summary : String
  pub risk : ReviewRisk
  pub decision : ReviewDecision
  pub findings : List Finding
  pub blockers : List Finding
  pub evidence : List EvidenceClaim
  pub numeric_claims : List NumericClaim

-- `structuredReport`, with its `automation` part.
pub record StoredAutomationReviewReport : Type 0 where
  pub summary : String
  pub output_content_hash : String
  pub findings : List Finding
  pub blockers : List Finding
  pub evidence : List EvidenceClaim
  pub numeric_claims : List NumericClaim
  pub submitted_report : AutomationReviewReport
  pub submitted_revision_hash : Option String
  pub automation_output_version_id : String
  pub automation_output_content_hash : String
  pub automation_source_rights_valid : Bool

-- What a run has of its result: a completed one has all of it.
pub data ReviewResult : Type 0 where
  not_completed : ReviewResult
  completed_review : ReviewRisk → ReviewDecision → StoredAutomationReviewReport → ReviewResult

pub record AutomationReviewRun : Type 0 where
  pub id : String
  pub phase : ReviewPhase
  pub input_version_id : String
  pub input_content_hash : String
  pub prompt_version : String
  pub revised_version_id : Option String
  pub result : ReviewResult

pub data ReadinessReason : Type 0 where
  source_rights_invalid review_pair_missing_or_mismatched review_high_risk : ReadinessReason
  review_blockers review_numeric_evidence_missing : ReadinessReason

pub data ReadinessPath : Type 0 where
  codex_automation_v1 legacy_sections : ReadinessPath

pub record KnowledgePublicationReadiness : Type 0 where
  pub ready : Bool
  pub path : Option ReadinessPath
  pub reasons : List ReadinessReason
