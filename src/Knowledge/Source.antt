-- ===== src/Knowledge/Source.antt =====
-- src/server/knowledge/source-policy.ts: the policy on sources, fail closed. `new URL` is a
-- parameter: none where it throws.
use openvac_web.Prelude.{
  String, Bool, true, false, not, ◌&&◌, ◌||◌, Option, none, some, str_eq, if◌then◌else◌, Result, ok,
  err,
}
use openvac_web.Script.{is_blank}
use openvac_web.Json.{JsonFields, get, is_text, is_true, is_present, record_value}
use openvac_web.Knowledge.Types.{
  KnowledgeSourceTier, GovernedKnowledgeSource, KnowledgeSourcePolicyCode, ParsedUrl, open_license,
  metadata_only, manufacturer_metadata, standard_metadata, internal, source_required,
  source_disabled, source_deleted, source_url_invalid, source_publisher_required,
  ingestion_mode_invalid, license_restricted, rights_decision_required, rights_decision_invalid,
  commercial_ai_rights_required, official_binary_recheck_required,
}

-- `value.trim()`
unfoldable pub trim_start : String → String
trim_start String.[] = String.[]
trim_start (String.◌∷◌ c s) =
    if is_blank (String.◌∷◌ c String.[]) then trim_start s else String.◌∷◌ c s

unfoldable pub trim_end : String → String
trim_end String.[] = String.[]
trim_end (String.◌∷◌ c s) =
    if is_blank (String.◌∷◌ c s) then String.[] else String.◌∷◌ c (trim_end s)

unfoldable pub trim : String → String
unfolding trim_start trim_end
trim s = trim_end (trim_start s)

abbrev pub UrlParser : Type 0
UrlParser = String → Option ParsedUrl

unfoldable pub valid_https_url : UrlParser → Option String → Option String
unfolding is_blank trim
valid_https_url parse_url none = none
valid_https_url parse_url (some value) =
    if is_blank value then none else elim (parse_url (trim value)) [
      | none ↦ none
      | some url ↦
          if str_eq url.protocol "https:" && (str_eq url.username "" && str_eq url.password "")
          then some (trim value)
          else none
    ]

unfoldable pub is_metadata_only_tier : KnowledgeSourceTier → Bool
is_metadata_only_tier metadata_only = true
is_metadata_only_tier manufacturer_metadata = true
is_metadata_only_tier standard_metadata = true
is_metadata_only_tier _ = false

abbrev pub Checked : Type 0
Checked = Result KnowledgeSourcePolicyCode (Unit {0})

abbrev pub passed : Checked
passed = ok tt

abbrev pub guard : Bool → KnowledgeSourcePolicyCode → Checked → Checked
guard true code next = next
guard false code next = err code

unfoldable pub approves_full_text : JsonFields → String → Bool
unfolding is_text get
approves_full_text decision canonical_url =
    is_text "approved" (get "status" decision)
    && (is_text "full_text" (get "scope" decision)
        && is_text canonical_url (get "appliesToRecordUrl" decision))

unfoldable pub assert_approved_full_text_decision : JsonFields → String → Checked
unfolding approves_full_text
assert_approved_full_text_decision decision canonical_url =
    guard (approves_full_text decision canonical_url) rights_decision_invalid passed

-- `commercialAiUse` or `commercialAiRights` approved in the decision, or the source's own mark.
unfoldable pub commercial_use_approved : JsonFields → JsonFields → Bool
unfolding is_text is_true get
commercial_use_approved metadata decision =
    is_true (get "commercialAiRightsConfirmed" metadata)
    || (is_text "approved" (get "commercialAiUse" decision)
        || is_text "approved" (get "commercialAiRights" decision))

-- The rights of a full text, by the tier of its source.
unfoldable pub assert_full_text_rights : KnowledgeSourceTier → JsonFields → String → Checked
unfolding assert_approved_full_text_decision commercial_use_approved record_value is_present get
assert_full_text_rights open_license metadata url =
    guard (is_present (get "rightsDecision" metadata)) rights_decision_required
      (assert_approved_full_text_decision (record_value (get "rightsDecision" metadata)) url)
assert_full_text_rights internal metadata url =
    let decision = record_value (get "rightsDecision" metadata) in
    let rest =
      guard (commercial_use_approved metadata decision) commercial_ai_rights_required passed in
    guard (not (is_present (get "rightsDecision" metadata)) || approves_full_text decision url)
      rights_decision_invalid rest
assert_full_text_rights _ metadata url = err license_restricted

-- How a version was taken in; none is any other value.
pub data IngestionMode : Type 0 where
  as_full_text as_metadata_only : IngestionMode

unfoldable pub ingestion_mode : JsonFields → Option IngestionMode
unfolding is_text get
ingestion_mode citation_metadata =
    if is_text "full_text" (get "ingestionMode" citation_metadata)
    then some as_full_text
    else if is_text "metadata_only" (get "ingestionMode" citation_metadata)
    then some as_metadata_only
    else none

unfoldable pub assert_mode : GovernedKnowledgeSource → String → IngestionMode → Checked
unfolding is_metadata_only_tier assert_full_text_rights
assert_mode source url as_metadata_only = passed
assert_mode source url as_full_text =
    guard (not (is_metadata_only_tier source.source_tier)) license_restricted
      (assert_full_text_rights source.source_tier source.metadata url)

unfoldable pub has_publisher : Option String → Bool
unfolding is_blank
has_publisher none = false
has_publisher (some name) = not (is_blank name)

unfoldable pub assert_source : UrlParser → GovernedKnowledgeSource → JsonFields → Checked
unfolding valid_https_url has_publisher ingestion_mode assert_mode
assert_source parse_url source citation_metadata = guard source.enabled source_disabled (
    guard (elim source.deleted_at [ none ↦ true | some at ↦ false ]) source_deleted
      (elim (valid_https_url parse_url source.canonical_url) [
        | none ↦ err source_url_invalid
        | some url ↦
            guard (has_publisher source.publisher) source_publisher_required
              (elim (ingestion_mode citation_metadata) [
                | none ↦ err ingestion_mode_invalid
                | some mode ↦ assert_mode source url mode
              ])
      ]))

unfoldable pub assert_knowledge_source_authorized :
    UrlParser → Option GovernedKnowledgeSource → JsonFields → Checked
unfolding assert_source
assert_knowledge_source_authorized parse_url none citation_metadata = err source_required
assert_knowledge_source_authorized parse_url (some source) citation_metadata =
    assert_source parse_url source citation_metadata

binary_required : Option GovernedKnowledgeSource → Bool
unfolding is_true get
binary_required none = false
binary_required (some source) = is_true (get "officialPublishedPdfBinaryRequired" source.metadata)

unfoldable pub assert_knowledge_publication_evidence :
    Option GovernedKnowledgeSource → JsonFields → Checked
unfolding is_text get record_value is_present binary_required
assert_knowledge_publication_evidence source citation_metadata =
    let verification = record_value (get "excerptVerification" citation_metadata) in
    let binary_status = get "officialPublishedPdfBinaryStatus" verification in
    let complete = is_text "complete" binary_status in
    if is_text "full_text" (get "ingestionMode" citation_metadata)
    then guard
        (not
          ((binary_required source && not complete) || (is_present binary_status && not complete)))
        official_binary_recheck_required passed
    else passed
