-- ===== src/Knowledge/Rights.antt =====
-- What an authorised source has, for src/server/knowledge/source-policy.ts.
use openvac_web.Script.{is_blank}
use openvac_web.Prelude.{
  String, ◌≡◌, refl, sym, ap, ◌∙◌, ◌↔◌, ◌⊎◌, inl, inr, true, not, ◌&&◌, Option, none, some, arith,
  str_eq, eq_iff, Bool-cases, Option-cases, and-eq-true,
}
use openvac_web.Json.{
  Json, JsonFields, get, is_text, is_true, is_present, record_value, null_value, bool_value,
  number_value, string_value, array_value, object_value,
}
use openvac_web.Knowledge.Types.{
  KnowledgeSourceTier, GovernedKnowledgeSource, ParsedUrl, open_license, metadata_only,
  manufacturer_metadata, standard_metadata, internal, license_restricted,
}
use openvac_web.Knowledge.Source.{
  trim, UrlParser, valid_https_url, is_metadata_only_tier, passed, guard, approves_full_text,
  assert_approved_full_text_decision, commercial_use_approved, assert_full_text_rights,
  IngestionMode, ingestion_mode, assert_mode, has_publisher, assert_source,
  assert_knowledge_source_authorized, as_full_text, as_metadata_only,
}

is_text-equals :
    (text : String) (value : Option Json)
    → is_text text value ≡ true
    → value ≡ some (string_value text)
unfolding is_text
is_text-equals text (some (string_value s)) e =
    ap (λ t. some (string_value t)) ((eq_iff s text).0 e)
is_text-equals text none e = absurd (cc)
is_text-equals text (some null_value) e = absurd (cc)
is_text-equals text (some (bool_value b)) e = absurd (cc)
is_text-equals text (some (number_value n)) e = absurd (cc)
is_text-equals text (some (array_value xs)) e = absurd (cc)
is_text-equals text (some (object_value fs)) e = absurd (cc)

is_true-equals : (value : Option Json) → is_true value ≡ true → value ≡ some (bool_value true)
unfolding is_true
is_true-equals (some (bool_value b)) e = ap (λ x. some (bool_value x)) e
is_true-equals none e = absurd (cc)
is_true-equals (some null_value) e = absurd (cc)
is_true-equals (some (string_value s)) e = absurd (cc)
is_true-equals (some (number_value n)) e = absurd (cc)
is_true-equals (some (array_value xs)) e = absurd (cc)
is_true-equals (some (object_value fs)) e = absurd (cc)

-- The fields of the rights decision of a source.
abbrev pub decision_of : GovernedKnowledgeSource → JsonFields
decision_of source = record_value (get "rightsDecision" source.metadata)

-- A decision that approves the full text of exactly this page.
pub record ApprovesPage (decision : JsonFields) (url : String) : Type 0 where
  pub status : get "status" decision ≡ some (string_value "approved")
  pub scope : get "scope" decision ≡ some (string_value "full_text")
  pub page : get "appliesToRecordUrl" decision ≡ some (string_value url)

approves-ApprovesPage :
    (decision : JsonFields) (url : String)
    → approves_full_text decision url ≡ true
    → ApprovesPage decision url
unfolding approves_full_text
approves-ApprovesPage decision url e =
    let (status, rest) = and-eq-true (is_text "approved" (get "status" decision)) _ e in
    let (scope, page) = and-eq-true (is_text "full_text" (get "scope" decision)) _ rest in
    record {
      status = is_text-equals "approved" (get "status" decision) status;
      scope = is_text-equals "full_text" (get "scope" decision) scope;
      page = is_text-equals url (get "appliesToRecordUrl" decision) page;
    }

-- The commercial use by AI is approved, by the source's own mark or by the decision.
abbrev pub CommercialUse : GovernedKnowledgeSource → Type 0
CommercialUse source =
    (get "commercialAiRightsConfirmed" source.metadata ≡ some (bool_value true))
    ⊎ ((get "commercialAiUse" (decision_of source) ≡ some (string_value "approved"))
        ⊎ (get "commercialAiRights" (decision_of source) ≡ some (string_value "approved")))

approved-CommercialUse :
    (source : GovernedKnowledgeSource)
    → commercial_use_approved source.metadata (decision_of source) ≡ true
    → CommercialUse source
unfolding commercial_use_approved
approved-CommercialUse source e =
    let decision = decision_of source in
    elim (Bool-cases (is_true (get "commercialAiRightsConfirmed" source.metadata))) [
      | inl marked ↦ inl (is_true-equals _ marked)
      | inr unmarked ↦ elim (Bool-cases (is_text "approved" (get "commercialAiUse" decision))) [
        | inl use_ok ↦ inr (inl (is_text-equals "approved" _ use_ok))
        | inr other ↦ inr (
            inr (
              is_text-equals "approved" (get "commercialAiRights" decision)
                (ground (arith, unmarked, other, e))))
      ]
    ]

-- The rights of a full text: its source is of one of the two tiers that allow it, a decision on
-- record approves exactly this page, and is there or is not needed.
pub record FullTextRights (source : GovernedKnowledgeSource) (url : String) : Type 0 where
  pub allowed_tier : (source.source_tier ≡ open_license) ⊎ (source.source_tier ≡ internal)
  pub decision_binds :
      is_present (get "rightsDecision" source.metadata) ≡ true
      → ApprovesPage (decision_of source) url
  pub open_needs_decision :
      source.source_tier ≡ open_license → is_present (get "rightsDecision" source.metadata) ≡ true
  pub internal_needs_approval : source.source_tier ≡ internal → CommercialUse source

full_text-FullTextRights :
    (source : GovernedKnowledgeSource) (url : String)
    → assert_mode source url as_full_text ≡ passed
    → FullTextRights source url
unfolding assert_mode is_metadata_only_tier assert_full_text_rights
    assert_approved_full_text_decision
full_text-FullTextRights source url e = go source.source_tier refl e
  where
    go :
        (tier : KnowledgeSourceTier)
        → source.source_tier ≡ tier
        → guard
            (not (is_metadata_only_tier tier))
            license_restricted
            (assert_full_text_rights tier source.metadata url)
          ≡ passed
        → FullTextRights source url
    go open_license t e = record {
      allowed_tier = inl t;
      decision_binds = λ h. approves-ApprovesPage (decision_of source) url (ground (arith, e, h));
      open_needs_decision = λ _. ground (arith, e);
      internal_needs_approval = λ h. absurd (ground (arith, t, h));
    }
    go internal t e = record {
      allowed_tier = inr t;
      decision_binds = λ h. approves-ApprovesPage (decision_of source) url (ground (arith, e, h));
      open_needs_decision = λ h. absurd (ground (arith, t, h));
      internal_needs_approval = λ _. approved-CommercialUse source (ground (arith, e));
    }
    go metadata_only t e = absurd (cc)
    go manufacturer_metadata t e = absurd (cc)
    go standard_metadata t e = absurd (cc)

-- The address of a source: HTTPS without credentials.
pub record HttpsUrl (parse_url : UrlParser) (url : String) : Type 0 where
  pub parsed : ParsedUrl
  pub parses : parse_url url ≡ some parsed
  pub secure : parsed.protocol ≡ "https:"
  pub no_username : parsed.username ≡ ""
  pub no_password : parsed.password ≡ ""

valid_https_url-HttpsUrl :
    (parse_url : UrlParser) (value : Option String) (url : String)
    → valid_https_url parse_url value ≡ some url
    → HttpsUrl parse_url url
unfolding valid_https_url
valid_https_url-HttpsUrl parse_url none url e = absurd (cc)
valid_https_url-HttpsUrl parse_url (some value) url e = elim (Bool-cases (is_blank value)) [
  | inl blank ↦ absurd (ground (arith, blank, e))
  | inr filled ↦ elim (Option-cases (parse_url (trim value))) [
    | inl thrown ↦ absurd (ground (arith, filled, thrown, e))
    | inr (p, read) ↦
        let kept : ((str_eq p.protocol "https:" && (str_eq p.username "" && str_eq p.password ""))
              ≡ true)
            × (trim value ≡ url) =
          ground (arith, filled, read, e) in
        let (protocol, rest) = and-eq-true (str_eq p.protocol "https:") _ kept.0 in
        let (username, password) = and-eq-true (str_eq p.username "") _ rest in
        record {
          parsed = p;
          parses = ap parse_url (sym kept.1) ∙ read;
          secure = (eq_iff p.protocol "https:").0 protocol;
          no_username = (eq_iff p.username "").0 username;
          no_password = (eq_iff p.password "").0 password;
        }
  ]
]

-- A governed source: enabled, there, with a secure address and a publisher.
pub record Governed (parse_url : UrlParser) (source : GovernedKnowledgeSource) (url : String)
    : Type 0 where
  pub enabled : source.enabled ≡ true
  pub not_deleted : source.deleted_at ≡ none
  pub address : HttpsUrl parse_url url
  pub own_address : valid_https_url parse_url source.canonical_url ≡ some url
  pub published : has_publisher source.publisher ≡ true

assert_source-Governed :
    (parse_url : UrlParser) (source : GovernedKnowledgeSource) (citation_metadata : JsonFields)
    (mode : IngestionMode)
    → ingestion_mode citation_metadata ≡ some mode
    → assert_source parse_url source citation_metadata ≡ passed
    → (url : String) × Governed parse_url source url × (assert_mode source url mode ≡ passed)
unfolding assert_source
assert_source-Governed parse_url source citation_metadata mode m e =
    elim (Option-cases (valid_https_url parse_url source.canonical_url)) [
      | inl invalid ↦ absurd (ground (arith, invalid, e))
      | inr (url, valid) ↦ (
        url,
        record {
          enabled = ground (arith, valid, m, e);
          not_deleted = ground (arith, valid, m, e);
          address = valid_https_url-HttpsUrl parse_url source.canonical_url url valid;
          own_address = valid;
          published = ground (arith, valid, m, e);
        },
        ground (arith, valid, m, e),
      )
    ]

-- A version with a full text passes the policy only if its source is enabled, not deleted, has a
-- publisher and an HTTPS address without credentials, is of the open or the internal tier, and has
-- the rights of that tier; a rights decision on record must approve the full text of exactly that
-- address, whatever older marks of the source say.
pub full_text_authorized :
    (parse_url : UrlParser) (source : GovernedKnowledgeSource) (citation_metadata : JsonFields)
    → ingestion_mode citation_metadata ≡ some as_full_text
    → assert_knowledge_source_authorized parse_url (some source) citation_metadata ≡ passed
    → (url : String) × Governed parse_url source url × FullTextRights source url
unfolding assert_knowledge_source_authorized
full_text_authorized parse_url source citation_metadata m e =
    let (url, governed, mode_passed) =
      assert_source-Governed parse_url source citation_metadata as_full_text m e in
    (url, governed, full_text-FullTextRights source url mode_passed)

-- A version with metadata only passes the policy exactly if its source is governed, whatever the
-- tier of the source and the rights on record are.
pub metadata_only_authorized_iff :
    (parse_url : UrlParser) (source : GovernedKnowledgeSource) (citation_metadata : JsonFields)
    → ingestion_mode citation_metadata ≡ some as_metadata_only
    → (assert_knowledge_source_authorized parse_url (some source) citation_metadata ≡ passed)
      ↔ ((url : String) × Governed parse_url source url)
unfolding assert_knowledge_source_authorized
metadata_only_authorized_iff parse_url source citation_metadata m = (
  λ e.
      let (url, governed, _) =
        assert_source-Governed parse_url source citation_metadata as_metadata_only m e in
      (url, governed),
  λ k. governed_passes k.0 k.1,
)
  where
    governed_passes :
        (url : String)
        → Governed parse_url source url
        → assert_source parse_url source citation_metadata ≡ passed
    governed_passes url g =
        rw (g.enabled, g.not_deleted, g.own_address, g.published, m, assert_source) refl
