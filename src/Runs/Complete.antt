-- ===== src/Runs/Complete.antt =====
-- src/server/agent/run-store.ts: `complete`. Its two updates of `conversation` and
-- `conversation_turn` and its inserts of citations are one function here.
use openvac_web.Runs.Settle.{
  AgentRunTerminalStatus, terminal_status, settle_answer_quota_in_transaction, update_run,
  update_message, select_run, end_completed, end_incomplete,
}
use openvac_web.Prelude.{
  ℕ, ◌+◌, String, Bool, true, false, ◌&&◌, Option, none, some, List, [], ◌∷◌, ◌++◌, str_eq,
  if◌then◌else◌, select, ◌>>=◌, ◌>>◌, gets, modify, ok, err,
}
use openvac_web.Quota.Types.{QuotaReservationStatus, Collation}
use openvac_web.Runs.Types.{
  MessageStatus, is_active, RunRow, CitationRow, RunDatabase, CreatedRun, settled_completely,
  message_completed, message_incomplete, run_not_completable, answer_quota_lease_missing,
}
use openvac_web.Runs.Rows.{RunTx, assert_account_writable, find_run}
use openvac_web.Runs.Store.{touch_conversation}

-- `[...new Set(ids)]`
unfoldable pub unique : List String → List String
unique [] = []
unique (x ∷ xs) = x ∷ select (λ y. if str_eq y x then false else true) (unique xs)

-- The registry: whether an evidence identifier is known, and whether its citation is visible.
abbrev pub Evidence : Type 0
Evidence = String → Option Bool

is_visible : Evidence → String → Bool
is_visible evidence id = elim (evidence id) [ none ↦ false | some visible ↦ visible ]

unfoldable pub visible_evidence_ids : Evidence → List String → List String
unfolding unique is_visible
visible_evidence_ids evidence ids = select (is_visible evidence) (unique ids)

-- The citations of the message, with ordinals from `n` on.
unfoldable pub citation_rows : ℕ → ℕ → List String → List CitationRow
citation_rows message_id n [] = []
citation_rows message_id n (id ∷ ids) =
    record { message_id = message_id; source_id = id; ordinal = n }
    ∷ citation_rows message_id (n + 1) ids

-- The status that `complete` gives: a completed answer or an incomplete one.
pub data CompletionStatus : Type 0 where
  as_completed as_incomplete : CompletionStatus

abbrev pub completion_end : CompletionStatus → AgentRunTerminalStatus
completion_end as_completed = end_completed
completion_end as_incomplete = end_incomplete

abbrev pub completion_message : CompletionStatus → MessageStatus
completion_message as_completed = message_completed
completion_message as_incomplete = message_incomplete

pub record CompleteInput : Type 0 where
  pub user_id : String
  pub run : CreatedRun
  pub content : String
  pub answer : String
  pub evidence : Evidence
  pub used_evidence_ids : List String
  pub status : CompletionStatus

-- The guard of `complete`; it answers with the lease to settle.
unfoldable pub completable : Option RunRow → RunTx ℕ
completable none db = err run_not_completable
completable (some r) db =
    if is_active r.status && elim r.cancel_requested_at [ none ↦ true | some at ↦ false ]
    then elim r.answer_quota_lease_id [
      | none ↦ err answer_quota_lease_missing
      | some lease ↦ ok (lease, db)
    ]
    else err run_not_completable

unfoldable pub write_answer : CompleteInput → ℕ → RunDatabase → RunDatabase
unfolding update_message visible_evidence_ids citation_rows select_run touch_conversation
write_answer input now db = record db {
  messages =
      update_message input.run.assistant_message_id
        (λ m. record m {
          content = input.content;
          status = completion_message input.status;
          completed_at = some now;
        })
        db.messages;
  citations =
      citation_rows input.run.assistant_message_id 1
        (visible_evidence_ids input.evidence input.used_evidence_ids)
      ++ db.citations;
  turns = elim input.status [
    | as_completed ↦ select_run input.run.turn_id input.run.run_id db.turns
    | as_incomplete ↦ db.turns
  ];
  conversations = touch_conversation input.run.conversation_id now db.conversations;
}

unfoldable pub finish_run :
    AgentRunTerminalStatus → Option QuotaReservationStatus → String → ℕ → RunRow → RunRow
finish_run end quota_status payload now r = record r {
  status = terminal_status end;
  answer_quota_status = quota_status;
  settlement_status = settled_completely;
  answer_payload = some payload;
  completed_at = some now;
  updated_at = now;
}

unfoldable pub complete : Collation → CompleteInput → ℕ → RunTx (Unit {0})
unfolding assert_account_writable completable write_answer settle_answer_quota_in_transaction
    finish_run update_run find_run
complete c input now = do
  assert_account_writable input.user_id
  current ← gets (λ (db : RunDatabase). find_run input.run.run_id db.runs)
  lease ← completable current
  modify (write_answer input now)
  quota_status ←
      settle_answer_quota_in_transaction c (some lease) input.user_id (completion_end input.status)
        "agent_run_incomplete" now
  modify λ db. record db {
    runs =
        update_run input.run.run_id
          (finish_run (completion_end input.status) quota_status input.answer now) db.runs;
  }
