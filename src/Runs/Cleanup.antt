-- ===== src/Runs/Cleanup.antt =====
-- What `cleanupRunArtifactsInTransaction` of src/server/agent/run-settlement.ts detaches, keeps and queues.
use openvac_web.Prelude.{◌≡◌, ◌≢◌, ◌⊎◌, Bool, none, some, List, [], ◌∷◌, str_eq, any, Exists}
use openvac_web.Runs.Types.{RunRow}
use openvac_web.Runs.Storage.{
  ArtifactRow, ArtifactFileRow, DeletionJobRow, Storage, artifact_deleted,
}
use openvac_web.Runs.Artifacts.{CleanupInput}

-- The run of the cleanup.
pub record IsRun (input : CleanupInput) (r : RunRow) : Type 0 where
  pub run : r.id ≡ input.run_id
  pub owner : r.user_id ≡ input.user_id
  pub turn : r.turn_id ≡ input.turn_id
  pub answer : r.assistant_message_id ≡ input.assistant_message_id

-- An artifact that the answer of the run made and that is not deleted.
pub record OfAnswer (input : CleanupInput) (a : ArtifactRow) : Type 0 where
  pub owner : a.user_id ≡ input.user_id
  pub conversation : a.conversation_id ≡ input.conversation_id
  pub turn : a.source_turn_id ≡ input.turn_id
  pub answer : a.message_id ≡ some input.assistant_message_id
  pub there : a.status ≢ artifact_deleted
  pub not_marked : a.deleted_at ≡ none

-- A file of such an artifact, of a run that is there.
abbrev pub Detached : CleanupInput → List RunRow → List ArtifactRow → ArtifactFileRow → Type 0
Detached input runs artifacts file =
    Exists (IsRun input) runs × Exists (λ a. (a.id ≡ file.artifact_id) × OfAnswer input a) artifacts

-- Which files are left.
abbrev pub LeftOver :
    CleanupInput
    → List RunRow
    → List ArtifactRow
    → List ArtifactFileRow
    → List ArtifactFileRow
    → Type 0
LeftOver input runs artifacts [] left = left ≡ []
LeftOver input runs artifacts (f ∷ fs) left =
    (Detached input runs artifacts f × LeftOver input runs artifacts fs left)
    ⊎ ((rest : List ArtifactFileRow) × (Detached input runs artifacts f → ⊥)
        × (left ≡ f ∷ rest)
        × LeftOver input runs artifacts fs rest)

-- A job for the object, in whatever status.
abbrev pub has_job : List DeletionJobRow → ArtifactFileRow → Bool
has_job jobs file = any (λ (j : DeletionJobRow). str_eq j.object_key file.object_key) jobs
