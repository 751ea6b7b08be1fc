-- ===== src/Runs/Active.antt =====
-- At most one active run in a conversation, through every operation of src/server/agent.
use openvac_web.Runs.Settle.{update_run, select_run}
use openvac_web.Prelude.{
  ℕ, ◌+◌, ◌≤◌, ◌<◌, String, ◌≡◌, refl, inl, inr, true, Option, none, some, List, [], ◌∷◌, arith,
  Bool-cases, Option-cases, length, any, select, first, All, Ensures, Ensures-bind,
}
use openvac_web.Runs.Store.{
  CreateInitialInput, target_conversation, new_run, insert_initial, start_initial, create_initial,
}
use openvac_web.Runs.Types.{is_active, TurnRow, RunRow, RunDatabase, initial}
use openvac_web.Runs.Rows.{
  assert_account_writable, find_turn, in_conversation, is_active_in, find_active_run, last_ordinal,
  is_duplicate_run, insert_run, new_id,
}

-- How many runs of a conversation are active.
abbrev pub active_count : List TurnRow → List RunRow → ℕ → ℕ
active_count turns runs c = length (select (is_active_in turns c) runs)

abbrev pub Young : ℕ → List RunRow → Type 0
Young n = All (λ r. (r.turn_id < n) × (r.id < n))

abbrev pub YoungTurns : ℕ → List TurnRow → Type 0
YoungTurns n = All (λ t. t.id < n)

-- No conversation has two active runs, and every key is below the next one.
pub record IsOrderly (db : RunDatabase) : Type 0 where
  pub one_active : (c : ℕ) → active_count db.turns db.runs c ≤ 1
  pub young : Young db.next_id db.runs
  pub young_turns : YoungTurns db.next_id db.turns

pub Young-mono : (m n : ℕ) (rs : List RunRow) → m ≤ n → Young m rs → Young n rs
Young-mono m n [] h k = tt
Young-mono m n (r ∷ rs) h k = ((omega arith, omega arith), Young-mono m n rs h k.1)

pub YoungTurns-mono : (m n : ℕ) (ts : List TurnRow) → m ≤ n → YoungTurns m ts → YoungTurns n ts
YoungTurns-mono m n [] h k = tt
YoungTurns-mono m n (t ∷ ts) h k = (omega arith, YoungTurns-mono m n ts h k.1)

pub YoungTurns-select_run :
    (n turn_id run_id : ℕ) (ts : List TurnRow)
    → YoungTurns n ts
    → YoungTurns n (select_run turn_id run_id ts)
unfolding select_run
YoungTurns-select_run n turn_id run_id [] k = tt
YoungTurns-select_run n turn_id run_id (t ∷ ts) k =
    ground (arith, YoungTurns-select_run n turn_id run_id ts k.1)

pub young_turn :
    (n id : ℕ) (turns : List TurnRow) (t : TurnRow)
    → YoungTurns n turns
    → find_turn id turns ≡ some t
    → t.id < n
unfolding find_turn
young_turn n id [] t k e = absurd (cc)
young_turn n id (x ∷ xs) t k e = ground (arith, young_turn n id xs t k.1)

-- A turn under a new key moves no older run.
count-new_turn :
    (turn : TurnRow) (turns : List TurnRow) (n c : ℕ) (runs : List RunRow)
    → Young n runs
    → n ≤ turn.id
    → active_count (turn ∷ turns) runs c ≡ active_count turns runs c
unfolding is_active_in find_turn
count-new_turn turn turns n c [] k h = refl
count-new_turn turn turns n c (r ∷ rs) k h = ground (arith, count-new_turn turn turns n c rs k.1 h)

pub none_active :
    (turns : List TurnRow) (c : ℕ) (runs : List RunRow)
    → first (is_active_in turns c) runs ≡ none
    → active_count turns runs c ≡ 0
none_active turns c [] h = refl
none_active turns c (r ∷ rs) h = ground (arith, none_active turns c rs)

-- An update of one run that makes no run active, and moves none, adds no active run.
pub count-update :
    (turns : List TurnRow) (c id : ℕ) (f : RunRow → RunRow) (runs : List RunRow)
    → ((r : RunRow) → (f r).turn_id ≡ r.turn_id)
    → ((r : RunRow) → is_active (f r).status ≡ true → is_active r.status ≡ true)
    → active_count turns (update_run id f runs) c ≤ active_count turns runs c
unfolding is_active_in update_run
count-update turns c id f [] same keep = omega arith
count-update turns c id f (r ∷ rs) same keep =
    ground (arith, same r, keep r, count-update turns c id f rs same keep)

pub Young-update :
    (n id : ℕ) (f : RunRow → RunRow) (runs : List RunRow)
    → ((r : RunRow) → ((f r).turn_id ≡ r.turn_id) × ((f r).id ≡ r.id))
    → Young n runs
    → Young n (update_run id f runs)
unfolding update_run
Young-update n id f [] same k = tt
Young-update n id f (r ∷ rs) same k = ground (arith, same r, Young-update n id f rs same k.1)

in_conversation-select_run :
    (turn_id run_id c : ℕ) (turns : List TurnRow) (r : RunRow)
    → in_conversation (select_run turn_id run_id turns) c r ≡ in_conversation turns c r
unfolding in_conversation find_turn select_run
in_conversation-select_run turn_id run_id c [] r = refl
in_conversation-select_run turn_id run_id c (t ∷ ts) r =
    ground (arith, in_conversation-select_run turn_id run_id c ts r)

-- A new selected run leaves the turns' keys and conversations.
pub count-select_run :
    (turn_id run_id c : ℕ) (turns : List TurnRow) (runs : List RunRow)
    → active_count (select_run turn_id run_id turns) runs c ≡ active_count turns runs c
unfolding is_active_in
count-select_run turn_id run_id c turns [] = refl
count-select_run turn_id run_id c turns (r ∷ rs) = ground (
  arith,
  in_conversation-select_run turn_id run_id c turns r,
  count-select_run turn_id run_id c turns rs,
)

-- A first turn with a new run, in a conversation that has no active run.
initial_count :
    (turn : TurnRow) (turns : List TurnRow) (run : RunRow) (runs : List RunRow) (n c : ℕ)
    → Young n runs
    → n ≤ turn.id
    → run.turn_id ≡ turn.id
    → active_count turns runs c ≤ 1
    → active_count turns runs turn.conversation_id ≡ 0
    → active_count (turn ∷ turns) (run ∷ runs) c ≤ 1
unfolding is_active_in in_conversation find_turn
initial_count turn turns run runs n c k h e one zero_there =
    ground (arith, count-new_turn turn turns n c runs k h)

-- The first turn of a request and its run, in a conversation that has no active run.
initial-IsOrderly :
    (turn : TurnRow) (run : RunRow) (db s : RunDatabase)
    → IsOrderly db
    → find_active_run db turn.conversation_id ≡ none
    → db.next_id ≤ turn.id
    → run.turn_id ≡ turn.id
    → turn.id < s.next_id
    → run.id < s.next_id
    → db.next_id ≤ s.next_id
    → s.turns ≡ turn ∷ db.turns
    → s.runs ≡ run ∷ db.runs
    → IsOrderly s
unfolding find_active_run
initial-IsOrderly turn run db s v idle fresh own turn_young run_young grows ts rs = record {
  one_active = λ c.
      rw (ts, rs)
        (initial_count turn db.turns run db.runs db.next_id c v.young fresh own (v.one_active c)
          (none_active db.turns turn.conversation_id db.runs idle));
  young =
      rw (rs, own) ((turn_young, run_young), Young-mono db.next_id s.next_id db.runs grows v.young);
  young_turns =
      rw ts (turn_young, YoungTurns-mono db.next_id s.next_id db.turns grows v.young_turns);
}

insert_initial-IsOrderly :
    (input : CreateInitialInput) (now conversation_id : ℕ) (db : RunDatabase)
    → IsOrderly db
    → find_active_run db conversation_id ≡ none
    → Ensures (λ _ s. IsOrderly s) (insert_initial input now conversation_id db)
unfolding insert_initial new_id insert_run new_run
insert_initial-IsOrderly input now conversation_id db v idle =
    let turn : TurnRow = record {
      id = db.next_id + 1 + 1;
      conversation_id = conversation_id;
      user_message_id = db.next_id;
      ordinal = last_ordinal conversation_id db.turns + 1;
      selected_run_id = none;
    } in
    let run : RunRow =
      new_run input.user_id input.client_request_id initial input.options
        input.answer_quota_lease_id now (db.next_id + 1 + 1 + 1) (db.next_id + 1 + 1)
        (db.next_id + 1) 1 in
    elim (Bool-cases (any (is_duplicate_run run) db.runs)) [
      | inl taken ↦ rw (taken, Ensures) tt
      | inr free ↦
          rw (free, Ensures)
            (initial-IsOrderly turn run db _ v idle (omega arith) refl (omega arith) (omega arith)
              (omega arith) refl refl)
    ]

pub same_turns-IsOrderly :
    (db s : RunDatabase)
    → IsOrderly db
    → s.turns ≡ db.turns
    → s.runs ≡ db.runs
    → db.next_id ≤ s.next_id
    → IsOrderly s
same_turns-IsOrderly db s v t r h = record {
  one_active = λ c. rw (t, r) (v.one_active c);
  young = rw r (Young-mono db.next_id s.next_id db.runs h v.young);
  young_turns = rw t (YoungTurns-mono db.next_id s.next_id db.turns h v.young_turns);
}

abbrev pub SameRuns : RunDatabase → RunDatabase → Type 0
SameRuns db s = (s.turns ≡ db.turns) × (s.runs ≡ db.runs) × (db.next_id ≤ s.next_id)

target_conversation-SameRuns :
    (input : CreateInitialInput) (now : ℕ) (db : RunDatabase)
    → Ensures (λ _ s. SameRuns db s) (target_conversation input now db)
unfolding target_conversation
target_conversation-SameRuns input now db = ground arith

start_initial-IsOrderly :
    (input : CreateInitialInput) (now : ℕ) (db : RunDatabase)
    → IsOrderly db
    → Ensures (λ _ s. IsOrderly s) (start_initial input now db)
unfolding start_initial
start_initial-IsOrderly input now db v =
    Ensures-bind (λ _ s. SameRuns db s) (λ _ s. IsOrderly s) (target_conversation input now) _ db
      (target_conversation-SameRuns input now db)
      λ conversation_id s _ same.
        let vs = same_turns-IsOrderly db s v same.0 same.1 same.2 in
        elim (Option-cases (find_active_run s conversation_id)) [
          | inl idle ↦
              rw (idle, Ensures) (insert_initial-IsOrderly input now conversation_id s vs idle)
          | inr (run, taken) ↦ rw (taken, Ensures) vs
        ]

pub create_initial-IsOrderly :
    (parse : String → Option String) (input : CreateInitialInput) (now : ℕ) (db : RunDatabase)
    → IsOrderly db
    → Ensures (λ _ s. IsOrderly s) (create_initial parse input now db)
unfolding create_initial assert_account_writable
create_initial-IsOrderly parse input now db v =
    ground (arith, start_initial-IsOrderly input now db v)

pub action_count :
    (turn : TurnRow) (turns : List TurnRow) (run : RunRow) (runs : List RunRow) (c : ℕ)
    → find_turn turn.id turns ≡ some turn
    → run.turn_id ≡ turn.id
    → active_count turns runs c ≤ 1
    → active_count turns runs turn.conversation_id ≡ 0
    → active_count turns (run ∷ runs) c ≤ 1
unfolding is_active_in in_conversation
action_count turn turns run runs c found e one zero_there = ground arith

pub find_turn-id :
    (id : ℕ) (turns : List TurnRow) (t : TurnRow) → find_turn id turns ≡ some t → t.id ≡ id
unfolding find_turn
find_turn-id id [] t e = absurd (cc)
find_turn-id id (x ∷ xs) t e = ground (arith, find_turn-id id xs t)
