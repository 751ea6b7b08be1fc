-- ===== src/Runs/Reachable.antt =====
-- The transactions on runs as steps, in any order.
-- src/server/agent/run-store.ts and src/server/agent/retention.ts.
use openvac_web.Runs.Artifacts.{cleanup_run_artifacts}
use openvac_web.Runs.Settle.{
  AgentRunTerminalStatus, terminal_status, settle_answer_quota_in_transaction, update_run,
  end_completed, end_incomplete, end_failed, end_cancelled,
}
use openvac_web.Runs.Complete.{CompleteInput, complete}
use openvac_web.Runs.Fail.{FailInput, fail, request_cancellation}
use openvac_web.Prelude.{
  ℕ, ◌≤◌, String, ◌≡◌, refl, inl, inr, true, Option, none, some, List, [], arith, Option-cases,
  Result, after, Ensures, Ensures-bind, ok, err,
}
use openvac_web.Quota.Types.{QuotaReservationStatus, Database, Collation}
use openvac_web.Runs.Types.{is_active, MessageRow, RunRow, RunDatabase, RunError}
use openvac_web.Runs.Rows.{find_turn, find_run}
use openvac_web.Runs.Store.{CreateInitialInput, create_initial}
use openvac_web.Runs.Actions.{CreateActionInput, create_action}
use openvac_web.Runs.Recovery.{
  Recovery, recovery_of, ended_as, mark_recovered, recovery_reason, clean_ended,
  recover_interrupted, recover_settlement, recover_run, recover_candidate, interrupted,
  needs_settlement, nothing_to_do,
}
use openvac_web.Runs.Active.{
  active_count, IsOrderly, same_turns-IsOrderly, create_initial-IsOrderly,
}
use openvac_web.Runs.Steps.{create_action-IsOrderly, update-IsOrderly}
use openvac_web.Runs.Progress.{
  settle-IsOrderly, complete-IsOrderly, fail-IsOrderly, request_cancellation-IsOrderly,
}

mark_recovered-IsOrderly :
    (id : ℕ) (end : AgentRunTerminalStatus) (code : Option String)
    (q : Option QuotaReservationStatus) (now : ℕ) (ms : List MessageRow) (db : RunDatabase)
    → IsOrderly db
    → IsOrderly
        (record db { runs = update_run id (mark_recovered end code q now) db.runs; messages = ms })
unfolding mark_recovered
mark_recovered-IsOrderly id end code q now ms db v =
    update-IsOrderly id (mark_recovered end code q now) db _ (λ r. (refl, refl)) (inactive end) v
      refl refl refl
  where
    inactive :
        (e : AgentRunTerminalStatus) (r : RunRow)
        → is_active (terminal_status e) ≡ true
        → is_active r.status ≡ true
    inactive end_completed r h = absurd (cc)
    inactive end_incomplete r h = absurd (cc)
    inactive end_failed r h = absurd (cc)
    inactive end_cancelled r h = absurd (cc)

cleaned : (r : RunRow) (db : RunDatabase) → IsOrderly db → IsOrderly (clean_ended end_failed r db)
unfolding clean_ended cleanup_run_artifacts
cleaned r db v = elim (Option-cases (find_turn r.turn_id db.turns)) [
  | inl lost ↦ rw (lost, clean_ended) v
  | inr (turn, joined) ↦
      rw (joined, clean_ended) (same_turns-IsOrderly db _ v refl refl (omega arith))
]

clean_ended-IsOrderly :
    (end : AgentRunTerminalStatus) (r : RunRow) (db : RunDatabase)
    → IsOrderly db
    → IsOrderly (clean_ended end r db)
unfolding clean_ended
clean_ended-IsOrderly end_completed r db v = v
clean_ended-IsOrderly end_incomplete r db v = v
clean_ended-IsOrderly end_failed r db v = cleaned r db v
clean_ended-IsOrderly end_cancelled r db v = cleaned r db v

recover_run-IsOrderly :
    (c : Collation) (r : RunRow) (now : ℕ) (what : Recovery) (db : RunDatabase)
    → IsOrderly db
    → Ensures (λ _ s. IsOrderly s) (recover_run c r now what db)
unfolding recover_run recover_interrupted recover_settlement
recover_run-IsOrderly c r now interrupted db v =
    Ensures-bind (λ _ s. IsOrderly s) (λ _ s. IsOrderly s)
      (settle_answer_quota_in_transaction c r.answer_quota_lease_id r.user_id end_failed
        "agent_run_process_interrupted" now)
      _ db
      (settle-IsOrderly c r.answer_quota_lease_id r.user_id end_failed
        "agent_run_process_interrupted" now db v)
      λ q s _ k.
        mark_recovered-IsOrderly r.id end_failed (some "PROCESS_INTERRUPTED") q now _
          (clean_ended end_failed r s) (clean_ended-IsOrderly end_failed r s k)
recover_run-IsOrderly c r now needs_settlement db v =
    Ensures-bind (λ _ s. IsOrderly s) (λ _ s. IsOrderly s)
      (settle_answer_quota_in_transaction c r.answer_quota_lease_id r.user_id (ended_as r.status)
        (recovery_reason (ended_as r.status)) now)
      _ db
      (settle-IsOrderly c r.answer_quota_lease_id r.user_id (ended_as r.status)
        (recovery_reason (ended_as r.status)) now db v)
      λ q s _ k.
        mark_recovered-IsOrderly r.id (ended_as r.status) none q now
          (clean_ended (ended_as r.status) r s).messages (clean_ended (ended_as r.status) r s)
          (clean_ended-IsOrderly (ended_as r.status) r s k)
recover_run-IsOrderly c r now nothing_to_do db v = v

recover_candidate-IsOrderly :
    (c : Collation) (stale_before now run_id : ℕ) (db : RunDatabase)
    → IsOrderly db
    → Ensures (λ _ s. IsOrderly s) (recover_candidate c stale_before now run_id db)
unfolding recover_candidate
recover_candidate-IsOrderly c stale_before now run_id db v =
    elim (Option-cases (find_run run_id db.runs)) [
      | inl missing ↦ rw (missing, Ensures) v
      | inr (r, found) ↦
          rw (found, Ensures) (recover_run-IsOrderly c r now (recovery_of stale_before r) db v)
    ]

-- The transactions that write runs, with their inputs and their clock.
pub data Call : Type 0 where
  starts : (String → Option String) → CreateInitialInput → ℕ → Call
  acts : (String → Option String) → CreateActionInput → ℕ → Call
  completes : CompleteInput → ℕ → Call
  fails : FailInput → ℕ → Call
  cancels : String → ℕ → ℕ → Call
  recovers : ℕ → ℕ → ℕ → Call

-- The database after a call, which is the one before it when the call throws.
unfoldable pub run_call : Collation → Call → RunDatabase → RunDatabase
unfolding create_initial create_action complete fail request_cancellation recover_candidate
run_call c (starts parse input now) db = after db (create_initial parse input now db)
run_call c (acts parse input now) db = after db (create_action parse input now db)
run_call c (completes input now) db = after db (complete c input now db)
run_call c (fails input now) db = after db (fail c input now db)
run_call c (cancels user_id run_id now) db = after db (request_cancellation user_id run_id now db)
run_call c (recovers stale_before run_id now) db =
    after db (recover_candidate c stale_before now run_id db)

-- The databases that calls reach from an empty one, whatever its accounts and its quota are.
pub data Reachable (c : Collation) : RunDatabase → Type 0 where
  empty : (db : RunDatabase) → db.runs ≡ [] → db.turns ≡ [] → Reachable c db
  next : (call : Call) (db : RunDatabase) → Reachable c db → Reachable c (run_call c call db)
  quota_moves :
      (q : Database) (db : RunDatabase) → Reachable c db → Reachable c (record db { quota = q })

after-IsOrderly :
    {A : Type 0} (db : RunDatabase) (r : Result RunError (A × RunDatabase))
    → IsOrderly db
    → Ensures (λ _ s. IsOrderly s) r
    → IsOrderly (after db r)
after-IsOrderly db (ok (a, s)) v h = h
after-IsOrderly db (err e) v h = v

run_call-IsOrderly :
    (c : Collation) (call : Call) (db : RunDatabase) → IsOrderly db → IsOrderly (run_call c call db)
unfolding run_call
run_call-IsOrderly c (starts parse input now) db v =
    after-IsOrderly db _ v (create_initial-IsOrderly parse input now db v)
run_call-IsOrderly c (acts parse input now) db v =
    after-IsOrderly db _ v (create_action-IsOrderly parse input now db v)
run_call-IsOrderly c (completes input now) db v =
    after-IsOrderly db _ v (complete-IsOrderly c input now db v)
run_call-IsOrderly c (fails input now) db v =
    after-IsOrderly db _ v (fail-IsOrderly c input now db v)
run_call-IsOrderly c (cancels user_id run_id now) db v =
    after-IsOrderly db _ v (request_cancellation-IsOrderly user_id run_id now db v)
run_call-IsOrderly c (recovers stale_before run_id now) db v =
    after-IsOrderly db _ v (recover_candidate-IsOrderly c stale_before now run_id db v)

Reachable-IsOrderly : (c : Collation) (db : RunDatabase) → Reachable c db → IsOrderly db
Reachable-IsOrderly c db (empty db' rs ts) = record {
  one_active = λ n. rw rs (omega arith);
  young = rw rs tt;
  young_turns = rw ts tt;
}
Reachable-IsOrderly c _ (next call db h) = run_call-IsOrderly c call db (Reachable-IsOrderly c db h)
Reachable-IsOrderly c _ (quota_moves q db h) =
    same_turns-IsOrderly db _ (Reachable-IsOrderly c db h) refl refl (omega arith)

-- However the calls that create, complete, fail, cancel and recover runs follow each other, with
-- any changes of the quota tables between them, a conversation never has two active runs.
pub one_active_run :
    (c : Collation) (db : RunDatabase)
    → Reachable c db
    → (conversation_id : ℕ) → active_count db.turns db.runs conversation_id ≤ 1
one_active_run c db h = (Reachable-IsOrderly c db h).one_active
