-- ===== src/Runs/Examples.antt =====
-- The runs at concrete inputs: a first question, answered, and one that is cancelled.
use openvac_web.Runs.Storage.{Storage, generating, bytes_reserved, file_active}
use openvac_web.Runs.Artifacts.{cleanup_storage}
use openvac_web.Runs.Complete.{CompleteInput, complete, as_completed}
use openvac_web.Runs.Fail.{
  FailInput, run_cleanup, fail, CancelResult, request_cancellation, as_failed,
}
use openvac_web.Prelude.{
  length, ℕ, ◌+◌, ◌≤◌, String, ◌≡◌, refl, true, Option, none, some, [], ◌∷◌, str_eq, if◌then◌else◌,
  after, ok, err,
}
use openvac_web.Script.{Environment}
use openvac_web.Quota.Types.{Database, Collation, answer, user}
use openvac_web.Quota.Repository.Rows.{RepositoryReserveInput}
use openvac_web.Quota.Repository.Reserve.{reserve}
use openvac_web.Quota.Repository.Transition.{transition_quota_reservation}
use openvac_web.Quota.Accounting.{IsValid}
use openvac_web.Quota.Reserving.{reserve-IsValid}
use openvac_web.Runs.Types.{
  RunOptions, RunRow, RunDatabase, CreatedRun, initial, auto_mode, fast, deep, web_auto, low,
  run_not_completable, run_not_failable,
}
use openvac_web.Runs.Rows.{assert_account_writable}
use openvac_web.Runs.Store.{CreateInitialInput, new_run, create_initial}
use openvac_web.Runs.Modes.{effective_agent_run_timeout_ms, resolved}
use openvac_web.Runs.Recovery.{stale_run_threshold_ms}
use openvac_web.Runs.Timeouts.{stale_threshold_covers}
use openvac_web.Runs.Active.{active_count}
use openvac_web.Runs.Reachable.{run_call, one_active_run, starts, empty, next}
use openvac_web.Runs.Outcomes.{cancelled_not_completed, completed_for_good}

abbrev any_order : Collation
any_order = record { locale_le = λ a b. true; text_le = λ a b. true }

abbrev empty_quota : Database
empty_quota = record {
  accounts = record { id = "ann"; deletion_requested_at = none } ∷ [];
  buckets = [];
  ledger = [];
  next_id = 1;
}

abbrev quota_request : RepositoryReserveInput
quota_request = record {
  actor_user_id = "ann";
  client_request_id = "first";
  resource = answer;
  units = 1;
  window = record { key = "1970-01-01"; reset_at = 57600000 };
  scopes = record { scope_type = user; scope_key = "ann"; limit = 20 } ∷ [];
}

abbrev reserved_quota : Database
reserved_quota = after empty_quota (reserve any_order quota_request 5 empty_quota empty_quota)

reserved_quota-IsValid : IsValid reserved_quota
reserved_quota-IsValid =
    reserve-IsValid any_order quota_request 5 empty_quota empty_quota
      (record { buckets_sound = tt; rows_sound = tt })

abbrev empty_storage : Storage
empty_storage = record { artifacts = []; files = []; accounts = []; jobs = [] }

abbrev empty_runs : RunDatabase
empty_runs = record {
  conversations = [];
  turns = [];
  messages = [];
  runs = [];
  citations = [];
  quota = reserved_quota;
  storage = empty_storage;
  next_id = 1;
}

abbrev options : RunOptions
options = record {
  requested_mode = auto_mode;
  resolved_mode = fast;
  web_mode = web_auto;
  risk_level = low;
  model = "flash";
}

abbrev question : CreateInitialInput
question = record {
  user_id = "ann";
  conversation_id = none;
  question = "why";
  client_request_id = "first";
  options = options;
  answer_quota_lease_id = 1;
}

abbrev reads_none : String → Option String
reads_none s = none

abbrev asked : RunDatabase
asked = run_call any_order (starts reads_none question 6) empty_runs

one_active_run_example : active_count asked.turns asked.runs 1 ≤ 1
one_active_run_example =
    one_active_run any_order asked
      (next (starts reads_none question 6) empty_runs (empty empty_runs refl refl)) 1

-- The run of the question: conversation 1, messages 2 and 3, turn 4, run 5.
abbrev first_run : CreatedRun
first_run = record {
  run_id = 5;
  turn_id = 4;
  conversation_id = 1;
  user_message_id = 2;
  assistant_message_id = 3;
  answer_version = 1;
  question = "why";
  action = initial;
}

abbrev answered : CompleteInput
answered = record {
  user_id = "ann";
  run = first_run;
  content = "because";
  answer = "{}";
  evidence = λ id. some true;
  used_evidence_ids = "source" ∷ [];
  status = as_completed;
}

abbrev finished : RunDatabase
finished = after asked (complete any_order answered 7 asked)

completed_for_good_example :
    ((f : FailInput) (later : ℕ)
      → f.run.run_id ≡ 5
      → fail any_order f later finished ≡ err run_not_failable)
    × ((user_id : String) (later : ℕ)
        → (a : CancelResult) × (request_cancellation user_id 5 later finished ≡ ok (a, finished)))
unfolding run_call complete create_initial reserve transition_quota_reservation
completed_for_good_example =
    completed_for_good any_order answered 7 asked finished reserved_quota-IsValid refl

abbrev cancelling : RunDatabase
cancelling = after asked (request_cancellation "ann" 5 7 asked)

cancelled_not_completed_example : complete any_order answered 8 cancelling ≡ err run_not_completable
unfolding run_call create_initial request_cancellation reserve assert_account_writable
cancelled_not_completed_example =
    cancelled_not_completed any_order "ann" 7 8 answered asked cancelling refl refl

abbrev slow_host : Environment
slow_host name = if str_eq name "AGENT_DEEP_TIMEOUT_MS" then some "600000" else none

stale_threshold_covers_example :
    effective_agent_run_timeout_ms (resolved deep) slow_host + 30000
    ≤ stale_run_threshold_ms slow_host
stale_threshold_covers_example = stale_threshold_covers (resolved deep) slow_host

abbrev broken : FailInput
broken = record { run = first_run; status = as_failed; code = "MODEL_FAILED" }

abbrev asked_run : RunRow
asked_run = new_run "ann" "first" initial options 1 6 5 4 3 1

-- A failed answer that left one file.
abbrev one_file : Storage
one_file = record {
  artifacts =
      record {
        id = 1;
        user_id = "ann";
        conversation_id = 1;
        message_id = some 3;
        source_turn_id = 4;
        status = generating;
        ready_at = none;
        deleted_at = none;
      }
      ∷ [];
  files =
      record {
        id = 2;
        artifact_id = 1;
        object_key = "k";
        size_bytes = 10;
        quota_state = bytes_reserved;
        deletion_status = file_active;
      }
      ∷ [];
  accounts = record { user_id = "ann"; used_bytes = 0; reserved_bytes = 10 } ∷ [];
  jobs = [];
}

-- The file is gone, and its object is in the queue.
cleanup_test :
    let cleaned = cleanup_storage (run_cleanup first_run "ann") asked.runs one_file in
    (cleaned.files ≡ []) × (length cleaned.jobs ≡ 1)
unfolding cleanup_storage run_call reserve
cleanup_test = (refl, refl)
