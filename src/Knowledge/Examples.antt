-- ===== src/Knowledge/Examples.antt =====
-- The knowledge policies at concrete inputs.
use openvac_web.Prelude.{
  String, ◌≡◌, refl, ◌↔◌, ◌⊎◌, true, false, Option, none, some, List, [], ◌∷◌, str_eq,
  if◌then◌else◌,
}
use openvac_web.Script.{is_blank}
use openvac_web.Json.{
  Json, JsonFields, null_value, bool_value, string_value, object_value, no_fields, field,
}
use openvac_web.Knowledge.Types.{
  GovernedKnowledgeSource, ReviewPhase, AutomationReviewReport, StoredAutomationReviewReport,
  AutomationReviewRun, open_license, initial_review, verify_review, low_risk, approved,
  completed_review,
}
use openvac_web.Knowledge.Source.{
  trim, UrlParser, valid_https_url, passed, ingestion_mode, assert_knowledge_source_authorized,
}
use openvac_web.Knowledge.Rights.{
  FullTextRights, Governed, full_text_authorized, metadata_only_authorized_iff,
}
use openvac_web.Knowledge.Review.{Target, evaluate_knowledge_publication_readiness}
use openvac_web.Knowledge.Readiness.{ApprovedPair, ready_needs_review}

-- A parser that knows one address.
abbrev parse_one : UrlParser
parse_one s =
    if str_eq s "https://a.b/c"
    then some (record { protocol = "https:"; username = ""; password = "" })
    else none

abbrev decision : Json
decision = object_value (
    field "status" (string_value "approved") (
      field "scope" (string_value "full_text")
        (field "appliesToRecordUrl" (string_value "https://a.b/c") no_fields)))

abbrev open_source : GovernedKnowledgeSource
open_source = record {
  source_tier = open_license;
  enabled = true;
  deleted_at = none;
  canonical_url = some "https://a.b/c";
  publisher = some "press";
  metadata = field "rightsDecision" decision no_fields;
}

abbrev full_text : JsonFields
full_text = field "ingestionMode" (string_value "full_text") no_fields

abbrev only_metadata : JsonFields
only_metadata = field "ingestionMode" (string_value "metadata_only") no_fields

full_text_authorized_example :
    (url : String) × Governed parse_one open_source url × FullTextRights open_source url
unfolding ingestion_mode assert_knowledge_source_authorized valid_https_url is_blank trim
full_text_authorized_example = full_text_authorized parse_one open_source full_text refl refl

metadata_only_authorized_iff_example :
    (assert_knowledge_source_authorized parse_one (some open_source) only_metadata ≡ passed)
    ↔ ((url : String) × Governed parse_one open_source url)
unfolding ingestion_mode
metadata_only_authorized_iff_example =
    metadata_only_authorized_iff parse_one open_source only_metadata refl

abbrev report : AutomationReviewReport
report = record {
  summary = "fine";
  risk = low_risk;
  decision = approved;
  findings = [];
  blockers = [];
  evidence = [];
  numeric_claims = [];
}

abbrev stored_report : StoredAutomationReviewReport
stored_report = record {
  summary = "fine";
  output_content_hash = "hash";
  findings = [];
  blockers = [];
  evidence = [];
  numeric_claims = [];
  submitted_report = report;
  submitted_revision_hash = none;
  automation_output_version_id = "version";
  automation_output_content_hash = "hash";
  automation_source_rights_valid = true;
}

abbrev run_of : String → ReviewPhase → AutomationReviewRun
run_of id phase = record {
  id = id;
  phase = phase;
  input_version_id = "version";
  input_content_hash = "hash";
  prompt_version = "codex_automation_v1";
  revised_version_id = none;
  result = completed_review low_risk approved stored_report;
}

-- What zod reads here: an initial run at true, and its check at false.
abbrev parse_two : Json → Option AutomationReviewRun
parse_two (bool_value true) = some (run_of "one" initial_review)
parse_two (bool_value false) = some (run_of "two" verify_review)
parse_two _ = none

abbrev version : Target
version = record { current_version_id = "version"; current_content_hash = "hash" }

abbrev two_runs : List Json
two_runs = bool_value true ∷ null_value ∷ bool_value false ∷ []

ready_needs_review_example :
    (true ≡ true) × ((false ≡ true) ⊎ ApprovedPair parse_two version two_runs)
unfolding evaluate_knowledge_publication_readiness
ready_needs_review_example = ready_needs_review parse_two version true two_runs false refl
