-- ===== src/Runs/Artifacts.antt =====
-- `cleanupRunArtifactsInTransaction` of src/server/agent/run-settlement.ts: its four statements, in
-- their order.
use openvac_web.Prelude.{
  ℕ, ◌+◌, ◌-◌, String, Bool, true, false, not, ◌&&◌, none, some, List, [], ◌∷◌, map, str_eq, ◌==◌,
  if◌then◌else◌, any, select,
}
use openvac_web.Runs.Types.{RunRow, RunDatabase}
use openvac_web.Runs.Storage.{
  ArtifactRow, ArtifactFileRow, StorageAccountRow, DeletionJobRow, Storage, artifact_failed,
  artifact_deleted, job_queued, bytes_reserved, bytes_committed, file_active,
}

pub record CleanupInput : Type 0 where
  pub run_id : ℕ
  pub user_id : String
  pub conversation_id : ℕ
  pub turn_id : ℕ
  pub assistant_message_id : ℕ

-- The join with the run.
unfoldable pub is_own_run : CleanupInput → RunRow → Bool
is_own_run input r =
    r.id == input.run_id
    && (str_eq r.user_id input.user_id
        && (r.turn_id == input.turn_id && r.assistant_message_id == input.assistant_message_id))

unfoldable pub is_own_artifact : CleanupInput → ArtifactRow → Bool
is_own_artifact input a =
    str_eq a.user_id input.user_id
    && (a.conversation_id == input.conversation_id
        && (a.source_turn_id == input.turn_id
            && (elim a.message_id [ none ↦ false | some id ↦ id == input.assistant_message_id ]
                && (elim a.status [ artifact_deleted ↦ false | _ ↦ true ]
                    && elim a.deleted_at [ none ↦ true | some at ↦ false ]))))

-- `locked_artifacts`
unfoldable pub is_locked : CleanupInput → List RunRow → ArtifactRow → Bool
unfolding is_own_run is_own_artifact
is_locked input runs a = any (is_own_run input) runs && is_own_artifact input a

-- `locked_files`
unfoldable pub is_locked_file :
    CleanupInput → List RunRow → List ArtifactRow → ArtifactFileRow → Bool
unfolding is_locked
is_locked_file input runs artifacts file =
    any (λ (a : ArtifactRow). a.id == file.artifact_id && is_locked input runs a) artifacts

is_live : ArtifactFileRow → Bool
is_live file = elim file.deletion_status [ file_active ↦ true | _ ↦ false ]

committed_size : ArtifactFileRow → ℕ
unfolding is_live
committed_size file = elim file.quota_state [
  | bytes_committed ↦ if is_live file then file.size_bytes else 0
  | _ ↦ 0
]

reserved_size : ArtifactFileRow → ℕ
unfolding is_live
reserved_size file = elim file.quota_state [
  | bytes_reserved ↦ if is_live file then file.size_bytes else 0
  | _ ↦ 0
]

unfoldable pub total_size : (ArtifactFileRow → ℕ) → List ArtifactFileRow → ℕ
total_size size [] = 0
total_size size (file ∷ files) = size file + total_size size files

-- The account's bytes, which never fall below zero.
unfoldable pub give_bytes : String → ℕ → ℕ → StorageAccountRow → StorageAccountRow
give_bytes user_id used held account =
    if str_eq account.user_id user_id
    then record account {
      used_bytes = account.used_bytes - used;
      reserved_bytes = account.reserved_bytes - held;
    }
    else account

-- The insert of a job for each file, which does nothing for an object that has one, whatever its status
-- is.
unfoldable pub queue_files :
    String → List ArtifactFileRow → List DeletionJobRow → List DeletionJobRow
queue_files user_id [] jobs = jobs
queue_files user_id (file ∷ files) jobs =
    let rest = queue_files user_id files jobs in
    if any (λ (j : DeletionJobRow). str_eq j.object_key file.object_key) rest
    then rest
    else record {
      user_id = user_id;
      source_id = file.id;
      object_key = file.object_key;
      status = job_queued;
    }
      ∷ rest

unfoldable pub fail_artifact : CleanupInput → List RunRow → ArtifactRow → ArtifactRow
unfolding is_locked
fail_artifact input runs a =
    if is_locked input runs a then record a { status = artifact_failed; ready_at = none } else a

unfoldable pub cleanup_storage : CleanupInput → List RunRow → Storage → Storage
unfolding is_locked_file committed_size reserved_size total_size give_bytes queue_files
    fail_artifact
cleanup_storage input runs s =
    let locked = select (is_locked_file input runs s.artifacts) s.files in
    record {
      accounts =
          map
            (give_bytes input.user_id (total_size committed_size locked)
              (total_size reserved_size locked))
            s.accounts;
      jobs = queue_files input.user_id locked s.jobs;
      files = select (λ file. not (is_locked_file input runs s.artifacts file)) s.files;
      artifacts = map (fail_artifact input runs) s.artifacts;
    }

unfoldable pub cleanup_run_artifacts : CleanupInput → RunDatabase → RunDatabase
unfolding cleanup_storage
cleanup_run_artifacts input db = record db { storage = cleanup_storage input db.runs db.storage }
