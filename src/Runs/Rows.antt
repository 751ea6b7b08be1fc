-- ===== src/Runs/Rows.antt =====
-- src/server/agent/run-store.ts: its selects, its inserts, and src/server/auth/account-write-barrier.ts.
use openvac_web.Prelude.{
  ℕ, ◌+◌, max, String, Bool, true, false, ◌&&◌, ◌||◌, Option, none, some, List, [], ◌∷◌, str_eq,
  ltb, ◌==◌, if◌then◌else◌, any, first, Tx, ok, err,
}
use openvac_web.Runs.Types.{
  AgentRunStatus, is_active, ConversationRow, TurnRow, MessageRow, RunRow, RunDatabase,
  CreateRunResult, RunError, pending, running, completed, incomplete, busy, replay, request_used,
  account_deletion_in_progress, duplicate_run,
}

abbrev pub RunTx : Type 0 → Type 0
RunTx A = Tx RunDatabase RunError A

unfoldable pub assert_account_writable : String → RunTx (Unit {0})
assert_account_writable user_id db = elim (first (λ a. str_eq a.id user_id) db.quota.accounts) [
  | none ↦ err account_deletion_in_progress
  | some account ↦ elim account.deletion_requested_at [
    | none ↦ ok (tt, db)
    | some at ↦ err account_deletion_in_progress
  ]
]

unfoldable pub find_turn : ℕ → List TurnRow → Option TurnRow
find_turn id [] = none
find_turn id (t ∷ ts) = if t.id == id then some t else find_turn id ts

unfoldable pub find_run : ℕ → List RunRow → Option RunRow
find_run id [] = none
find_run id (r ∷ rs) = if r.id == id then some r else find_run id rs

unfoldable pub find_message : ℕ → List MessageRow → Option MessageRow
find_message id [] = none
find_message id (m ∷ ms) = if m.id == id then some m else find_message id ms

unfoldable pub find_conversation : ℕ → List ConversationRow → Option ConversationRow
find_conversation id [] = none
find_conversation id (c ∷ cs) = if c.id == id then some c else find_conversation id cs

-- The conversation is the user's and is not deleted.
unfoldable pub owns : String → ConversationRow → Bool
owns user_id c = str_eq c.user_id user_id && elim c.deleted_at [ none ↦ true | some at ↦ false ]

-- The join of a run with its turn, by primary key.
unfoldable pub in_conversation : List TurnRow → ℕ → RunRow → Bool
unfolding find_turn
in_conversation turns conversation_id run = elim (find_turn run.turn_id turns) [
  | none ↦ false
  | some turn ↦ turn.conversation_id == conversation_id
]

unfoldable pub is_active_in : List TurnRow → ℕ → RunRow → Bool
unfolding in_conversation
is_active_in turns conversation_id run =
    is_active run.status && in_conversation turns conversation_id run

unfoldable pub find_active_run : RunDatabase → ℕ → Option RunRow
unfolding is_active_in
find_active_run db conversation_id = first (is_active_in db.turns conversation_id) db.runs

unfoldable pub max_of : List ℕ → ℕ
max_of [] = 0
max_of (n ∷ ns) = max n (max_of ns)

-- `(max(messages.sequence) ?? 0)` of a conversation.
unfoldable pub last_sequence : ℕ → List MessageRow → ℕ
last_sequence conversation_id [] = 0
last_sequence conversation_id (m ∷ ms) =
    max (if m.conversation_id == conversation_id then m.sequence else 0)
      (last_sequence conversation_id ms)

-- `(max(conversationTurns.ordinal) ?? 0)` of a conversation.
unfoldable pub last_ordinal : ℕ → List TurnRow → ℕ
last_ordinal conversation_id [] = 0
last_ordinal conversation_id (t ∷ ts) =
    max (if t.conversation_id == conversation_id then t.ordinal else 0)
      (last_ordinal conversation_id ts)

-- `(max(agentRuns.version) ?? 0)` of a turn.
unfoldable pub last_version : ℕ → List RunRow → ℕ
last_version turn_id [] = 0
last_version turn_id (r ∷ rs) =
    max (if r.turn_id == turn_id then r.version else 0) (last_version turn_id rs)

-- The run of a turn with the highest version: `orderBy(version desc).limit(1)`.
unfoldable pub latest_run : ℕ → List RunRow → Option RunRow
latest_run turn_id [] = none
latest_run turn_id (r ∷ rs) =
    let rest = latest_run turn_id rs in
    let best : Option RunRow = elim rest [
      | none ↦ some r
      | some other ↦ if ltb other.version r.version then some r else some other
    ] in
    if r.turn_id == turn_id then best else rest

is_request_of : String → String → RunRow → Bool
is_request_of user_id client_request_id r =
    str_eq r.user_id user_id && str_eq r.client_request_id client_request_id

-- The answer that a finished run replays. `parse_answer` stands for `parseStoredAnswer`.
replay_of : (String → Option String) → RunRow → TurnRow → CreateRunResult
replay_of parse_answer r turn = elim r.answer_payload [
  | none ↦ request_used
  | some payload ↦ elim (parse_answer payload) [
    | none ↦ request_used
    | some parsed ↦ replay (record {
      run_id = r.id;
      turn_id = r.turn_id;
      conversation_id = turn.conversation_id;
      user_message_id = turn.user_message_id;
      message_id = r.assistant_message_id;
      answer_version = r.version;
      status = r.status;
      answer = parsed;
    })
  ]
]

-- What a client request that has a run already gets.
used_result : (String → Option String) → RunRow → TurnRow → AgentRunStatus → CreateRunResult
unfolding replay_of
used_result parse_answer r turn pending = busy r.id
used_result parse_answer r turn running = busy r.id
used_result parse_answer r turn completed = replay_of parse_answer r turn
used_result parse_answer r turn incomplete = replay_of parse_answer r turn
used_result parse_answer r turn _ = request_used

unfoldable pub find_run_by_client_request :
    (String → Option String) → String → String → RunDatabase → Option CreateRunResult
unfolding is_request_of used_result find_turn
find_run_by_client_request parse_answer user_id client_request_id db =
    elim (first (is_request_of user_id client_request_id) db.runs) [
      | none ↦ none
      | some r ↦ elim (find_turn r.turn_id db.turns) [
        | none ↦ none
        | some turn ↦ some (used_result parse_answer r turn r.status)
      ]
    ]

-- The three unique indexes of `agent_run`.
unfoldable pub same_lease : Option ℕ → Option ℕ → Bool
same_lease (some a) (some b) = a == b
same_lease _ _ = false

unfoldable pub is_duplicate_run : RunRow → RunRow → Bool
unfolding same_lease
is_duplicate_run new r =
    (str_eq r.user_id new.user_id && str_eq r.client_request_id new.client_request_id)
    || ((r.turn_id == new.turn_id && r.version == new.version)
        || same_lease r.answer_quota_lease_id new.answer_quota_lease_id)

unfoldable pub insert_run : RunRow → RunTx (Unit {0})
insert_run run db =
    if any (is_duplicate_run run) db.runs
    then err duplicate_run
    else ok (tt, record db { runs = run ∷ db.runs })

unfoldable pub new_id : RunTx ℕ
new_id db = ok (db.next_id, record db { next_id = db.next_id + 1 })
