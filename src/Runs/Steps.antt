-- ===== src/Runs/Steps.antt =====
-- `createAction` of src/server/agent/run-store.ts keeps the order of runs, and what the other
-- operations write to a run does.
use openvac_web.Runs.Settle.{
  AgentRunTerminalStatus, in_quota, settle_lease, settle_answer_quota_in_transaction, update_run,
  select_run,
}
use openvac_web.Quota.Types.{Collation}
use mathlib.Core.Option
use openvac_web.Prelude.{
  ℕ, ◌+◌, ◌≤◌, ◌<◌, String, ◌≡◌, refl, inl, inr, true, Option, none, some, ◌∷◌, arith, Bool-cases,
  Option-cases, any, Ensures,
}
use openvac_web.Runs.Types.{is_active, TurnRow, RunRow, RunDatabase}
use openvac_web.Runs.Rows.{
  assert_account_writable, find_turn, find_active_run, last_version, latest_run, is_duplicate_run,
  insert_run, new_id,
}
use openvac_web.Runs.Store.{new_run}
use openvac_web.Runs.Actions.{
  CreateActionInput, owned_turn, action_allowed, insert_action, start_action, create_action,
}
use openvac_web.Runs.Active.{
  IsOrderly, Young-mono, YoungTurns-mono, YoungTurns-select_run, young_turn, none_active,
  count-update, Young-update, count-select_run, SameRuns, action_count, find_turn-id,
}

-- The run of an action on an existing turn, in a conversation that has no active run.
action-IsOrderly :
    (turn : TurnRow) (run : RunRow) (db s : RunDatabase)
    → IsOrderly db
    → find_turn turn.id db.turns ≡ some turn
    → find_active_run db turn.conversation_id ≡ none
    → run.turn_id ≡ turn.id
    → turn.id < s.next_id
    → run.id < s.next_id
    → db.next_id ≤ s.next_id
    → s.turns ≡ db.turns
    → s.runs ≡ run ∷ db.runs
    → IsOrderly s
unfolding find_active_run
action-IsOrderly turn run db s v found idle own turn_young run_young grows ts rs = record {
  one_active = λ c.
      rw (ts, rs)
        (action_count turn db.turns run db.runs c found own (v.one_active c)
          (none_active db.turns turn.conversation_id db.runs idle));
  young =
      rw (rs, own) ((turn_young, run_young), Young-mono db.next_id s.next_id db.runs grows v.young);
  young_turns = rw ts (YoungTurns-mono db.next_id s.next_id db.turns grows v.young_turns);
}

insert_action-IsOrderly :
    (input : CreateActionInput) (now : ℕ) (turn : TurnRow) (question : String) (db : RunDatabase)
    → IsOrderly db
    → find_turn turn.id db.turns ≡ some turn
    → turn.id < db.next_id
    → find_active_run db turn.conversation_id ≡ none
    → Ensures (λ _ s. IsOrderly s) (insert_action input now turn question db)
unfolding insert_action new_id insert_run new_run
insert_action-IsOrderly input now turn question db v found old idle =
    let run : RunRow =
      new_run input.user_id input.client_request_id input.action input.options
        input.answer_quota_lease_id now (db.next_id + 1) turn.id db.next_id
        (last_version turn.id db.runs + 1) in
    elim (Bool-cases (any (is_duplicate_run run) db.runs)) [
      | inl taken ↦ rw (taken, Ensures) tt
      | inr free ↦
          rw (free, Ensures)
            (action-IsOrderly turn run db _ v found idle refl (omega arith) (omega arith)
              (omega arith) refl refl)
    ]

owned_turn-find_turn :
    (input : CreateActionInput) (db : RunDatabase) (turn : TurnRow) (question : String)
    → owned_turn input db ≡ some (turn, question)
    → find_turn input.turn_id db.turns ≡ some turn
unfolding owned_turn
owned_turn-find_turn input db turn question e = ground arith

start_action-IsOrderly :
    (input : CreateActionInput) (now : ℕ) (db : RunDatabase)
    → IsOrderly db
    → Ensures (λ _ s. IsOrderly s) (start_action input now db)
unfolding start_action
start_action-IsOrderly input now db v = elim (Option-cases (owned_turn input db)) [
  | inl missing ↦ rw (missing, Ensures) tt
  | inr ((turn, question), found) ↦
      let at = owned_turn-find_turn input db turn question found in
      let same = find_turn-id input.turn_id db.turns turn at in
      elim (Option-cases (find_active_run db turn.conversation_id)) [
        | inl idle ↦
            elim (Bool-cases (
              action_allowed input.action
                (Option.map (λ r. r.status) (latest_run turn.id db.runs)))) [
                  | inl allowed ↦
                      rw (found, idle, allowed, Ensures)
                        (insert_action-IsOrderly input now turn question db v (cc)
                          (young_turn db.next_id input.turn_id db.turns turn v.young_turns at) idle)
                  | inr refused ↦ rw (found, idle, refused, Ensures) tt
                ]
        | inr (run, taken) ↦ rw (found, taken, Ensures) v
      ]
]

pub create_action-IsOrderly :
    (parse : String → Option String) (input : CreateActionInput) (now : ℕ) (db : RunDatabase)
    → IsOrderly db
    → Ensures (λ _ s. IsOrderly s) (create_action parse input now db)
unfolding create_action assert_account_writable
create_action-IsOrderly parse input now db v = ground (arith, start_action-IsOrderly input now db v)

-- A quota transition inside a transaction leaves the runs and their turns.
pub settle-SameRuns :
    (c : Collation) (lease : Option ℕ) (user_id : String) (end : AgentRunTerminalStatus)
    (reason : String) (now : ℕ) (db : RunDatabase)
    → Ensures
        (λ _ s. SameRuns db s)
        (settle_answer_quota_in_transaction c lease user_id end reason now db)
unfolding settle_answer_quota_in_transaction settle_lease in_quota
settle-SameRuns c none user_id end reason now db = (refl, refl, omega arith)
settle-SameRuns c (some lease) user_id end reason now db = ground arith

-- An update of one run that activates none.
pub update-IsOrderly :
    (id : ℕ) (f : RunRow → RunRow) (db s : RunDatabase)
    → ((r : RunRow) → ((f r).turn_id ≡ r.turn_id) × ((f r).id ≡ r.id))
    → ((r : RunRow) → is_active (f r).status ≡ true → is_active r.status ≡ true)
    → IsOrderly db
    → s.turns ≡ db.turns
    → s.runs ≡ update_run id f db.runs
    → s.next_id ≡ db.next_id
    → IsOrderly s
update-IsOrderly id f db s same keep v ts rs n = record {
  one_active = λ c.
      let less = count-update db.turns c id f db.runs (λ r. (same r).0) keep in
      let one = v.one_active c in rw (ts, rs) (omega arith);
  young = rw (rs, n) (Young-update db.next_id id f db.runs same v.young);
  young_turns = rw (ts, n) v.young_turns;
}

pub select-IsOrderly :
    (turn_id run_id : ℕ) (db s : RunDatabase)
    → IsOrderly db
    → s.turns ≡ select_run turn_id run_id db.turns
    → s.runs ≡ db.runs
    → s.next_id ≡ db.next_id
    → IsOrderly s
select-IsOrderly turn_id run_id db s v ts rs n = record {
  one_active =
      λ c. rw (ts, rs, count-select_run turn_id run_id c db.turns db.runs) (v.one_active c);
  young = rw (rs, n) v.young;
  young_turns = rw (ts, n) (YoungTurns-select_run db.next_id turn_id run_id db.turns v.young_turns);
}
