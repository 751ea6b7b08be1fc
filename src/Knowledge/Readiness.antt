-- ===== src/Knowledge/Readiness.antt =====
-- What a version has that src/server/knowledge/review-policy.ts lets be published.
use openvac_web.Knowledge.Approval.{Approves, IsSafe, eligible-Approves, proved-IsSafe}
use openvac_web.Prelude.{
  ◌≡◌, refl, sym, ap, subst, ◌∙◌, ◌≢◌, ◌⊎◌, inl, inr, Bool, true, false, not, Option, some, List,
  [], ◌∷◌, arith, str_eq, eq_iff, Bool-cases, Option-cases, select, All, Exists,
}
use openvac_web.Json.{Json}
use openvac_web.Knowledge.Types.{
  ReviewPhase, AutomationReviewRun, KnowledgePublicationReadiness, initial_review, verify_review,
  completed_review,
}
use openvac_web.Knowledge.Review.{
  is_initial, CompletedRun, completed_run, Target, is_eligible, eligible_runs, is_low, has_blockers,
  has_unproved_number, pair_reasons, judge_pair, judge_runs,
  evaluate_knowledge_publication_readiness,
}

abbrev pub is_ready : KnowledgePublicationReadiness → Bool
is_ready r = r.ready

-- A completed run that zod reads off one of the stored values.
abbrev pub Stored : (Json → Option AutomationReviewRun) → List Json → CompletedRun → Type 0
Stored parse_run values c =
    Exists
      (λ value.
        (parse_run value ≡ some c.run)
        × (c.run.result ≡ completed_review c.risk c.decision c.report))
      values

-- The two runs that carry a publication: the only eligible ones of their phases, stored, two different
-- runs, each approving exactly this version, and safe.
pub record ApprovedPair (parse_run : Json → Option AutomationReviewRun) (t : Target)
    (automation_runs : List Json) : Type 0 where
  pub initial : CompletedRun
  pub verify : CompletedRun
  pub only_initial :
      select (λ c. is_initial c.run.phase) (eligible_runs parse_run t automation_runs)
      ≡ initial ∷ []
  pub only_verify :
      select (λ c. not (is_initial c.run.phase)) (eligible_runs parse_run t automation_runs)
      ≡ verify ∷ []
  pub phases : (initial.run.phase ≡ initial_review) × (verify.run.phase ≡ verify_review)
  pub stored : Stored parse_run automation_runs initial × Stored parse_run automation_runs verify
  pub approved_pair : Approves t initial × Approves t verify
  pub different : initial.run.id ≢ verify.run.id
  pub safe : IsSafe initial × IsSafe verify

abbrev Counts : (Json → Option AutomationReviewRun) → Target → List Json → CompletedRun → Type 0
Counts parse_run t values c = Approves t c × Stored parse_run values c

Counts-more :
    (parse_run : Json → Option AutomationReviewRun) (t : Target) (v : Json) (vs : List Json)
    (cs : List CompletedRun)
    → All (Counts parse_run t vs) cs
    → All (Counts parse_run t (v ∷ vs)) cs
Counts-more parse_run t v vs [] k = tt
Counts-more parse_run t v vs (c ∷ cs) k = ((k.0.0, inr k.0.1), Counts-more parse_run t v vs cs k.1)

completed_run-result :
    (run : AutomationReviewRun) (c : CompletedRun)
    → completed_run run ≡ some c
    → (run ≡ c.run) × (run.result ≡ completed_review c.risk c.decision c.report)
unfolding completed_run
completed_run-result run c e = ground (arith, e)

eligible_runs-Counts :
    (parse_run : Json → Option AutomationReviewRun) (t : Target) (runs : List Json)
    → All (Counts parse_run t runs) (eligible_runs parse_run t runs)
unfolding eligible_runs
eligible_runs-Counts parse_run t [] = tt
eligible_runs-Counts parse_run t (v ∷ vs) =
    let rest = Counts-more parse_run t v vs _ (eligible_runs-Counts parse_run t vs) in
    let all = All (Counts parse_run t (v ∷ vs)) in
    let skipped = λ (e : eligible_runs parse_run t (v ∷ vs) ≡ eligible_runs parse_run t vs).
      subst all (sym e) rest in
    elim (Option-cases (parse_run v)) [
      | inl refused ↦ skipped (ground (arith, refused))
      | inr (run, read) ↦ elim (Option-cases (completed_run run)) [
        | inl pending ↦ skipped (ground (arith, read, pending))
        | inr (c, done) ↦ elim (Bool-cases (is_eligible t c)) [
          | inr other ↦ skipped (ground (arith, read, done, other))
          | inl eligible ↦
              let (same, result) = completed_run-result run c done in
              let stored : Stored parse_run (v ∷ vs) c = inl (
                read ∙ ap some same,
                subst
                    (λ (r : AutomationReviewRun).
                      r.result ≡ completed_review c.risk c.decision c.report)
                    same result,
              ) in
              let e : eligible_runs parse_run t (v ∷ vs) ≡ c ∷ eligible_runs parse_run t vs =
                ground (arith, read, done, eligible) in
              subst all (sym e) ((eligible-Approves t c eligible, stored), rest)
        ]
      ]
    ]

All-select {ℓ} :
    {A : Type ℓ} (P : A → Type 0) (p : A → Bool) (xs : List A) → All P xs → All P (select p xs)
All-select P p [] k = tt
All-select P p (x ∷ xs) k = ground (arith, All-select P p xs k.1)

judge_pair-ready :
    (initial verify : CompletedRun)
    → (judge_pair initial verify).ready ≡ true
    → (str_eq initial.run.id verify.run.id ≡ false)
      × ((is_low initial ≡ true) × (is_low verify ≡ true))
      × ((has_blockers initial ≡ false) × (has_blockers verify ≡ false))
      × ((has_unproved_number initial ≡ false) × (has_unproved_number verify ≡ false))
unfolding judge_pair pair_reasons
judge_pair-ready initial verify e = ground (arith, e)

judge_runs-pair :
    (is vs : List CompletedRun)
    → (judge_runs is vs).ready ≡ true
    → (initial verify : CompletedRun) × (is ≡ initial ∷ [])
      × (vs ≡ verify ∷ [])
      × ((judge_pair initial verify).ready ≡ true)
unfolding judge_runs
judge_runs-pair (i ∷ []) (v ∷ []) e = (i, v, refl, refl, e)
judge_runs-pair [] vs e = absurd (cc)
judge_runs-pair (i ∷ j ∷ is) vs e = absurd (cc)
judge_runs-pair (i ∷ []) [] e = absurd (cc)
judge_runs-pair (i ∷ []) (v ∷ w ∷ vs) e = absurd (cc)

selected : (p : CompletedRun → Bool) (cs : List CompletedRun) → All (λ c. p c ≡ true) (select p cs)
selected p [] = tt
selected p (c ∷ cs) = ground (arith, selected p cs)

first_phase : (p : ReviewPhase) → is_initial p ≡ true → p ≡ initial_review
first_phase p e = ground (arith, e)

last_phase : (p : ReviewPhase) → not (is_initial p) ≡ true → p ≡ verify_review
last_phase p e = ground (arith, e)

-- A version is ready only with valid source rights, and then only by the sections' own gate or by
-- one pair of stored automation runs, an initial one and its verification: both approve exactly this
-- version as it was submitted, with low risk, no blockers, and evidence with its place for every number.
pub ready_needs_review :
    (parse_run : Json → Option AutomationReviewRun) (t : Target) (source_rights_valid : Bool)
    (automation_runs : List Json) (legacy_ready : Bool)
    → is_ready (
        evaluate_knowledge_publication_readiness parse_run t source_rights_valid automation_runs
          legacy_ready)
      ≡ true
    → (source_rights_valid ≡ true)
      × ((legacy_ready ≡ true) ⊎ ApprovedPair parse_run t automation_runs)
unfolding evaluate_knowledge_publication_readiness
ready_needs_review parse_run t false runs legacy e = absurd (cc)
ready_needs_review parse_run t true runs true e = (refl, inl refl)
ready_needs_review parse_run t true runs false e =
    let all = eligible_runs-Counts parse_run t runs in
    let of_phase = λ (p : CompletedRun → Bool). select p (eligible_runs parse_run t runs) in
    let at_first = λ (c : CompletedRun). is_initial c.run.phase in
    let at_last = λ (c : CompletedRun). not (is_initial c.run.phase) in
    let (i, v, is_one, vs_one, ready) = judge_runs-pair (of_phase at_first) (of_phase at_last) e in
    let (different, low, no_blockers, proved) = judge_pair-ready i v ready in
    let i_ok =
      subst (All (Counts parse_run t runs)) is_one
        (All-select (Counts parse_run t runs) at_first _ all) in
    let v_ok =
      subst (All (Counts parse_run t runs)) vs_one
        (All-select (Counts parse_run t runs) at_last _ all) in
    let i_phase =
      subst (All (λ c. at_first c ≡ true)) is_one
        (selected at_first (eligible_runs parse_run t runs)) in
    let v_phase =
      subst (All (λ c. at_last c ≡ true)) vs_one
        (selected at_last (eligible_runs parse_run t runs)) in
    (
      refl,
      inr (record {
        initial = i;
        verify = v;
        only_initial = is_one;
        only_verify = vs_one;
        phases = (first_phase i.run.phase i_phase.0, last_phase v.run.phase v_phase.0);
        stored = (i_ok.0.1, v_ok.0.1);
        approved_pair = (i_ok.0.0, v_ok.0.0);
        different = λ same. ground (arith, different, (eq_iff i.run.id v.run.id).1 same);
        safe = (
          proved-IsSafe i low.0 no_blockers.0 proved.0,
          proved-IsSafe v low.1 no_blockers.1 proved.1,
        );
      }),
    )
