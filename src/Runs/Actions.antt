-- ===== src/Runs/Actions.antt =====
-- `createAction` of src/server/agent/run-store.ts, one transaction like `createInitial`.
use mathlib.Core.Option
use openvac_web.Runs.Store.{assistant_message, new_run}
use openvac_web.Prelude.{
  ℕ, ◌+◌, String, Bool, true, false, Option, none, some, ◌∷◌, if◌then◌else◌, ◌>>=◌, ◌>>◌, pure,
  gets, modify, ok, err,
}
use openvac_web.Runs.Types.{
  RunOptions, AgentRunStatus, AgentAction, TurnRow, RunDatabase, CreateRunResult, completed,
  incomplete, failed, cancelled, retry, regenerate, continue, created, busy, turn_not_found,
  action_not_allowed,
}
use openvac_web.Runs.Rows.{
  RunTx, assert_account_writable, find_turn, find_message, find_conversation, owns, find_active_run,
  last_sequence, last_version, latest_run, find_run_by_client_request, insert_run, new_id,
}

pub record CreateActionInput : Type 0 where
  pub user_id : String
  pub turn_id : ℕ
  pub client_request_id : String
  pub action : AgentAction
  pub options : RunOptions
  pub answer_quota_lease_id : ℕ

-- The turn of the request: of a conversation that the user owns, joined with its question.
unfoldable pub owned_turn : CreateActionInput → RunDatabase → Option (TurnRow × String)
unfolding find_turn find_message find_conversation owns
owned_turn input db = elim (find_turn input.turn_id db.turns) [
  | none ↦ none
  | some turn ↦ elim (find_conversation turn.conversation_id db.conversations) [
    | none ↦ none
    | some c ↦
        if owns input.user_id c
        then elim (find_message turn.user_message_id db.messages) [
          | none ↦ none
          | some message ↦ some (turn, message.content)
        ]
        else none
  ]
]

-- Which action follows which status of the turn's latest run.
unfoldable pub action_allowed : AgentAction → Option AgentRunStatus → Bool
action_allowed retry (some failed) = true
action_allowed retry (some cancelled) = true
action_allowed continue (some incomplete) = true
action_allowed regenerate (some completed) = true
action_allowed _ _ = false

unfoldable pub insert_action : CreateActionInput → ℕ → TurnRow → String → RunTx CreateRunResult
unfolding assistant_message new_run last_sequence last_version insert_run new_id
insert_action input now turn question = do
  sequence ← gets (λ (db : RunDatabase). last_sequence turn.conversation_id db.messages)
  version ← gets (λ (db : RunDatabase). last_version turn.id db.runs)
  assistant_message_id ← new_id
  run_id ← new_id
  modify λ db. record db {
    messages =
        assistant_message input.user_id turn.conversation_id (sequence + 1) assistant_message_id
          turn.id
        ∷ db.messages;
  }
  insert_run (
      new_run input.user_id input.client_request_id input.action input.options
        input.answer_quota_lease_id now run_id turn.id assistant_message_id (version + 1))
  pure (
      created (record {
        run_id = run_id;
        turn_id = turn.id;
        conversation_id = turn.conversation_id;
        user_message_id = turn.user_message_id;
        assistant_message_id = assistant_message_id;
        answer_version = version + 1;
        question = question;
        action = input.action;
      }))

unfoldable pub start_action : CreateActionInput → ℕ → RunTx CreateRunResult
unfolding owned_turn find_active_run latest_run action_allowed insert_action
start_action input now db = elim (owned_turn input db) [
  | none ↦ err turn_not_found
  | some (turn, question) ↦ elim (find_active_run db turn.conversation_id) [
    | some run ↦ ok (busy run.id, db)
    | none ↦
        if action_allowed input.action (Option.map (λ r. r.status) (latest_run turn.id db.runs))
        then insert_action input now turn question db
        else err action_not_allowed
  ]
]

unfoldable pub create_action :
    (String → Option String) → CreateActionInput → ℕ → RunTx CreateRunResult
unfolding assert_account_writable find_run_by_client_request start_action
create_action parse_answer input now = do
  assert_account_writable input.user_id
  found ← gets (find_run_by_client_request parse_answer input.user_id input.client_request_id)
  elim found [ some result ↦ pure result | none ↦ start_action input now ]
