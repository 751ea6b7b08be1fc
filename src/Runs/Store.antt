-- ===== src/Runs/Store.antt =====
-- `createInitial` of src/server/agent/run-store.ts, and the rows of a new run. It is one transaction, which
-- the advisory locks of the request and the conversation order among the others.
use openvac_web.Prelude.{
  ℕ, ◌+◌, String, Option, none, some, List, [], ◌∷◌, ◌==◌, if◌then◌else◌, ◌>>=◌, ◌>>◌, pure, gets,
  modify, ok, err,
}
use openvac_web.Quota.Types.{reserved}
use openvac_web.Runs.Types.{
  AgentAction, ConversationRow, MessageRow, RunOptions, RunRow, RunDatabase, CreateRunResult,
  running, initial, unsettled, from_user, from_assistant, message_streaming, message_completed,
  created, busy, conversation_not_found,
}
use openvac_web.Runs.Rows.{
  RunTx, assert_account_writable, find_conversation, owns, find_active_run, last_sequence,
  last_ordinal, find_run_by_client_request, insert_run, new_id,
}

pub record CreateInitialInput : Type 0 where
  pub user_id : String
  pub conversation_id : Option ℕ
  pub question : String
  pub client_request_id : String
  pub options : RunOptions
  pub answer_quota_lease_id : ℕ

-- The conversation that the request names, or a new one.
unfoldable pub target_conversation : CreateInitialInput → ℕ → RunTx ℕ
target_conversation input now db = elim input.conversation_id [
  | some id ↦ elim (find_conversation id db.conversations) [
    | none ↦ err conversation_not_found
    | some c ↦ if owns input.user_id c then ok (id, db) else err conversation_not_found
  ]
  | none ↦ ok (
    db.next_id,
    record db {
      conversations =
          record {
            id = db.next_id;
            user_id = input.user_id;
            deleted_at = none;
            last_message_at = now;
          }
          ∷ db.conversations;
      next_id = db.next_id + 1;
    },
  )
]

unfoldable pub user_message : CreateInitialInput → ℕ → ℕ → ℕ → ℕ → ℕ → MessageRow
user_message input now conversation_id sequence id turn_id = record {
  id = id;
  conversation_id = conversation_id;
  user_id = input.user_id;
  sequence = sequence;
  role = from_user;
  status = message_completed;
  content = input.question;
  turn_id = turn_id;
  error_code = none;
  completed_at = some now;
}

unfoldable pub assistant_message : String → ℕ → ℕ → ℕ → ℕ → MessageRow
assistant_message user_id conversation_id sequence id turn_id = record {
  id = id;
  conversation_id = conversation_id;
  user_id = user_id;
  sequence = sequence;
  role = from_assistant;
  status = message_streaming;
  content = "";
  turn_id = turn_id;
  error_code = none;
  completed_at = none;
}

unfoldable pub new_run : String → String → AgentAction → RunOptions → ℕ → ℕ → ℕ → ℕ → ℕ → ℕ → RunRow
new_run user_id client_request_id action options lease now id turn_id message_id version = record {
  id = id;
  turn_id = turn_id;
  user_id = user_id;
  assistant_message_id = message_id;
  client_request_id = client_request_id;
  version = version;
  action = action;
  options = options;
  answer_quota_lease_id = some lease;
  answer_quota_status = some reserved;
  status = running;
  settlement_status = unsettled;
  cancel_requested_at = none;
  error_code = none;
  answer_payload = none;
  completed_at = none;
  updated_at = now;
}

unfoldable pub touch_conversation : ℕ → ℕ → List ConversationRow → List ConversationRow
touch_conversation id now [] = []
touch_conversation id now (c ∷ cs) =
    if c.id == id then record c { last_message_at = now } ∷ cs else c ∷ touch_conversation id now cs

-- The inserts of `createInitial`, when the conversation has no active run.
unfoldable pub insert_initial : CreateInitialInput → ℕ → ℕ → RunTx CreateRunResult
unfolding user_message assistant_message new_run touch_conversation last_sequence last_ordinal
    insert_run new_id
insert_initial input now conversation_id = do
  sequence ← gets (λ (db : RunDatabase). last_sequence conversation_id db.messages)
  ordinal ← gets (λ (db : RunDatabase). last_ordinal conversation_id db.turns)
  user_message_id ← new_id
  assistant_message_id ← new_id
  turn_id ← new_id
  run_id ← new_id
  modify λ db. record db {
    messages =
        assistant_message input.user_id conversation_id (sequence + 2) assistant_message_id turn_id
        ∷ user_message input now conversation_id (sequence + 1) user_message_id turn_id
        ∷ db.messages;
    turns =
        record {
          id = turn_id;
          conversation_id = conversation_id;
          user_message_id = user_message_id;
          ordinal = ordinal + 1;
          selected_run_id = none;
        }
        ∷ db.turns;
  }
  insert_run (
      new_run input.user_id input.client_request_id initial input.options
        input.answer_quota_lease_id now run_id turn_id assistant_message_id 1)
  modify λ db. record db { conversations = touch_conversation conversation_id now db.conversations }
  pure (
      created (record {
        run_id = run_id;
        turn_id = turn_id;
        conversation_id = conversation_id;
        user_message_id = user_message_id;
        assistant_message_id = assistant_message_id;
        answer_version = 1;
        question = input.question;
        action = initial;
      }))

-- `createInitial` after the replay check. A busy conversation ends the transaction, and the code
-- commits what it has written: a new conversation is never busy, so that is nothing.
unfoldable pub start_initial : CreateInitialInput → ℕ → RunTx CreateRunResult
unfolding target_conversation insert_initial find_active_run
start_initial input now = do
  conversation_id ← target_conversation input now
  active ← gets (λ (db : RunDatabase). find_active_run db conversation_id)
  elim active [ some run ↦ pure (busy run.id) | none ↦ insert_initial input now conversation_id ]

unfoldable pub create_initial :
    (String → Option String) → CreateInitialInput → ℕ → RunTx CreateRunResult
unfolding assert_account_writable find_run_by_client_request start_initial
create_initial parse_answer input now = do
  assert_account_writable input.user_id
  found ← gets (find_run_by_client_request parse_answer input.user_id input.client_request_id)
  elim found [ some result ↦ pure result | none ↦ start_initial input now ]
